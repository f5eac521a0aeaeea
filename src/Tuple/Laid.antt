-- ===== src/Tuple/Laid.antt =====
-- Rows of values in the layouts of PostgreSQL: of fixed length, behind a header of one byte or of
-- four, or a pointer to an out-of-line value.
use db_flashback.Base.{
  ℕ, suc, ◌+◌, ◌*◌, ◌^◌, ◌<◌, ◌≡◌, true, false, Option, none, some, List, [], ◌∷◌, ◌++◌, length,
}
use db_flashback.Bytes.{Bytes, le32}
use db_flashback.Change.{Text}
use db_flashback.Dict.{Column}
use db_flashback.Fpw.{Codecs}
use db_flashback.Toast.Pointer.{toast_pointer}
use db_flashback.Toast.{pos, negsuc, ToastCache, get_value, payload, toast_payload}
use db_flashback.Tuple.Layout.{Stored, Cell, Reads, AllRead}
use db_flashback.Tuple.Values.{toast_fields, fixed-Reads, short-Reads, long-Reads}
use db_flashback.Tuple.{Printer}

module _ (pr : Printer) where
  -- A value of a column in line, with what the printer makes of its bytes.
  pub data Plain (col : Column) : Stored → Type 0 where
    of_length :
        {v : Bytes} {shown : Text} (n : ℕ)
        → col.typlen ≡ pos (suc n)
        → col.dropped ≡ false
        → length v ≡ suc n
        → pr.fixed v col ≡ some shown
        → Plain col (record { bytes = v; shown = shown; short = false })
    short_header :
        {v : Bytes} {shown : Text} (n : ℕ)
        → col.typlen ≡ negsuc n
        → col.dropped ≡ false
        → length v < 126
        → pr.varlena v col ≡ some shown
        → Plain col (record { bytes = (2 * (length v + 1) + 1) ∷ v; shown = shown; short = true })
    long_header :
        {v : Bytes} {shown : Text} (n : ℕ)
        → col.typlen ≡ negsuc n
        → col.dropped ≡ false
        → length v + 4 < 2 ^ 30
        → pr.varlena v col ≡ some shown
        → Plain col
            (record { bytes = le32 (4 * (length v + 4)) ++ v; shown = shown; short = false })

  abbrev pub AllPlain : List Cell → Type 0
  AllPlain [] = Unit
  AllPlain ((col, none) ∷ cells) = AllPlain cells
  AllPlain ((col, some s) ∷ cells) = Plain col s × AllPlain cells

  module _ (codecs : Codecs) where
    Plain-Reads :
        (toast : Option ToastCache) (col : Column) (s : Stored)
        → Plain col s
        → Reads pr codecs toast col s
    Plain-Reads toast col _ (of_length {v = v} {shown = shown} n len live size e) =
        fixed-Reads pr codecs toast col v shown n len live size e
    Plain-Reads toast col _ (short_header {v = v} {shown = shown} n len live small e) =
        short-Reads pr codecs toast col n len live v shown small e
    Plain-Reads toast col _ (long_header {v = v} {shown = shown} n len live small e) =
        long-Reads pr codecs toast col n len live v shown small e

    pub AllPlain-AllRead :
        (toast : Option ToastCache) (cells : List Cell)
        → AllPlain cells
        → AllRead pr codecs toast cells
    AllPlain-AllRead toast [] a = tt
    AllPlain-AllRead toast ((col, none) ∷ cells) a = AllPlain-AllRead toast cells a
    AllPlain-AllRead toast ((col, some s) ∷ cells) a =
        (Plain-Reads toast col s a.0, AllPlain-AllRead toast cells a.1)

    -- A value in line, or a pointer to a value whose chunks are in the cache.
    pub data Laid (cache : ToastCache) (col : Column) : Stored → Type 0 where
      plain : {s : Stored} → Plain col s → Laid cache col s
      pointer :
          {raw value : Bytes} {shown : Text} (len tag size ext compress id rel : ℕ)
          → col.typlen ≡ negsuc len
          → col.dropped ≡ false
          → size < 2 ^ 31
          → ext < 2 ^ 30
          → compress < 4
          → 0 < id
          → id < 2 ^ 32
          → rel < 2 ^ 32
          → get_value cache rel id ≡ some raw
          → toast_payload codecs (toast_fields size ext compress id rel) raw ≡ payload value
          → pr.varlena value col ≡ some shown
          → Laid cache col (record {
            bytes = toast_pointer tag size ext compress id rel [];
            shown = shown;
            short = true;
          })

    abbrev pub AllLaid : ToastCache → List Cell → Type 0
    AllLaid cache [] = Unit
    AllLaid cache ((col, none) ∷ cells) = AllLaid cache cells
    AllLaid cache ((col, some s) ∷ cells) = Laid cache col s × AllLaid cache cells
