-- ===== src/Tuple/Cells.antt =====
-- Whole tuples as PostgreSQL writes them on a page and in WAL, and the values they are made of.
use db_flashback.Base.{
  ℕ, ◌+◌, ◌-◌, ◌/◌, ◌%◌, ◌^◌, ◌≤◌, ◌<◌, ◌≡◌, refl, sym, ap, ◌∙◌, ◌⊎◌, inl, inr, true, false, Option,
  some, List, [], ◌∷◌, ◌++◌, append_assoc, arith, ltb, leb, le→leb, le→ltb, length, drop, replicate,
  length-append, take-append, drop-append,
}
use db_flashback.Bytes.{Bytes, byte, u16, has, le16, byte-append}
use db_flashback.Dict.{Column}
use db_flashback.Fpw.{Codecs}
use db_flashback.Toast.{ToastCache}
use db_flashback.Tuple.Layout.{
  Cell, lay_cells, columns_of, shown_row, NullsAt, AllRead, attr_loop-lay_cells,
}
use db_flashback.Tuple.{Printer, attr_loop, null_bits, decode_heap_tuple, decode_xlog_tuple}

-- What follows the 18 bytes of transaction ids and the place of a tuple: infomask2, infomask, the
-- offset of the data, the bitmap of null values, padding, data.
abbrev pub data_off : Bytes → Bytes → ℕ
data_off bitmap pad = 23 + (length bitmap + length pad)

abbrev pub tuple_rest : ℕ → ℕ → Bytes → Bytes → Bytes → Bytes
tuple_rest mask2 mask bitmap pad more =
    le16 mask2 ++ (le16 mask ++ (data_off bitmap pad ∷ (bitmap ++ (pad ++ more))))

-- The bitmap is there, one bit for each column, exactly where infomask says so.
abbrev pub HasBitmap : ℕ → Bytes → ℕ → Type 0
HasBitmap mask bitmap natts =
    ((has mask 1 ≡ true) × (length bitmap ≡ (natts + 7) / 8))
    ⊎ ((has mask 1 ≡ false) × (bitmap ≡ []))

module _ (head : Bytes) (mask2 mask : ℕ) (bitmap pad more : Bytes) (h : length head ≡ 18) where
  whole : Bytes
  whole = head ++ tuple_rest mask2 mask bitmap pad more

  whole-data_off : byte whole 22 ≡ data_off bitmap pad
  unfolding whole
  whole-data_off = byte-append head (tuple_rest mask2 mask bitmap pad more) 4 (omega arith)

  whole-mask : mask < 2 ^ 16 → u16 whole 20 ≡ mask
  unfolding whole u16
  whole-mask small =
      let rest = tuple_rest mask2 mask bitmap pad more in
      let low : byte whole 20 ≡ mask % 256 = byte-append head rest 2 (omega arith) in
      let high : byte whole (20 + 1) ≡ mask / 256 % 256 = byte-append head rest 3 (omega arith) in
      rw (low, high) (omega arith)

  whole-drop : drop 23 whole ≡ bitmap ++ (pad ++ more)
  unfolding whole
  whole-drop =
      let fixed : Bytes = le16 mask2 ++ (le16 mask ++ (data_off bitmap pad ∷ [])) in
      ap (drop 23) (sym (append_assoc head fixed (bitmap ++ (pad ++ more))))
      ∙ drop-append (head ++ fixed) (bitmap ++ (pad ++ more)) {n = 23}
          (omega (arith, length-append head fixed))

  whole-append :
      whole
      ≡ (head ++ (le16 mask2 ++ (le16 mask ++ (data_off bitmap pad ∷ [])) ++ (bitmap ++ pad)))
        ++ more
  unfolding whole
  whole-append = simp append_assoc

  whole-length : length whole ≡ data_off bitmap pad + length more
  unfolding whole
  whole-length = omega (
    arith,
    length-append head (tuple_rest mask2 mask bitmap pad more),
    length-append bitmap (pad ++ more),
    length-append pad more,
  )

  whole-null_bits :
      (natts : ℕ) → HasBitmap mask bitmap natts → null_bits whole mask 23 natts ≡ bitmap
  whole-null_bits natts (inl (flag, size)) =
      let n = (natts + 7) / 8 in
      let fits : leb (23 + n) (length whole) ≡ true = le→leb _ _ (omega (arith, whole-length)) in
      let cut : 23 + n - 23 ≡ n = omega arith in
      rw (flag, fits, cut, whole-drop, take-append bitmap (pad ++ more) {n = n} (sym size)) refl
  whole-null_bits natts (inr (flag, none_there)) = rw (flag, none_there) refl

module _ (pr : Printer) (codecs : Codecs) (toast : Option ToastCache) (cols : List Column) where
  -- Where the header of a tuple names the place of its data.
  decode_heap_tuple-loop :
      (raw bits : Bytes) (mask off : ℕ)
      → byte raw 22 ≡ off
      → u16 raw 20 ≡ mask
      → 23 ≤ off
      → off ≤ length raw
      → null_bits raw mask 23 (length cols) ≡ bits
      → decode_heap_tuple pr codecs toast cols raw
        ≡ attr_loop pr codecs toast raw bits 0 off [] cols
  unfolding decode_heap_tuple
  decode_heap_tuple-loop raw bits mask off at flags low high e =
      let header : ltb (length raw) 23 ≡ false = le→ltb _ _ (omega arith) in
      let after : ltb off 23 ≡ false = le→ltb _ _ low in
      let inside : ltb (length raw) off ≡ false = le→ltb _ _ high in
      rw (header, at, after) (rw inside (rw (inside, flags, e) refl))

module _ (pr : Printer) (codecs : Codecs) (toast : Option ToastCache) where
  -- A row on a page is read back as the texts of its values: of fixed length, with a short or a
  -- long header, null or not, aligned or not, whatever the padding in front of the data.
  pub decode_heap_tuple-lay_cells :
      (head : Bytes) (mask2 mask : ℕ) (bitmap pad tail : Bytes) (cells : List Cell)
      → length head ≡ 18
      → mask < 2 ^ 16
      → HasBitmap mask bitmap (length (columns_of cells))
      → NullsAt bitmap 0 cells
      → AllRead pr codecs toast cells
      → decode_heap_tuple pr codecs toast
          (columns_of cells)
          (head ++ tuple_rest mask2 mask bitmap pad (lay_cells (data_off bitmap pad) cells ++ tail))
        ≡ some (shown_row [] cells)
  unfolding whole
  decode_heap_tuple-lay_cells head mask2 mask bitmap pad tail cells h small b n a =
      let off = data_off bitmap pad in
      let more : Bytes = lay_cells off cells ++ tail in
      let fixed : Bytes = le16 mask2 ++ (le16 mask ++ (off ∷ [])) in
      let raw = whole head mask2 mask bitmap pad more h in
      let front : Bytes = head ++ (fixed ++ (bitmap ++ pad)) in
      let apart : raw ≡ front ++ more = whole-append head mask2 mask bitmap pad more h in
      decode_heap_tuple-loop pr codecs toast (columns_of cells) raw bitmap mask off
        (whole-data_off head mask2 mask bitmap pad more h)
        (whole-mask head mask2 mask bitmap pad more h small) (omega arith)
        (omega (arith, whole-length head mask2 mask bitmap pad more h))
        (whole-null_bits head mask2 mask bitmap pad more h (length (columns_of cells)) b)
      ∙ attr_loop-lay_cells pr codecs toast bitmap tail cells front raw 0 off [] apart
          (omega (arith, length-append head (fixed ++ (bitmap ++ pad)), length-append bitmap pad)) n
          a

  -- What WAL keeps of a row in place of its whole header.
  pub decode_xlog_tuple-lay_cells :
      (mask2 mask : ℕ) (bitmap pad tail : Bytes) (cells : List Cell)
      → mask < 2 ^ 16
      → HasBitmap mask bitmap (length (columns_of cells))
      → NullsAt bitmap 0 cells
      → AllRead pr codecs toast cells
      → decode_xlog_tuple pr codecs toast
          (columns_of cells)
          (tuple_rest mask2 mask bitmap pad (lay_cells (data_off bitmap pad) cells ++ tail))
        ≡ some (shown_row [] cells)
  unfolding decode_xlog_tuple
  decode_xlog_tuple-lay_cells mask2 mask bitmap pad tail cells small b n a =
      let rest : Bytes =
        tuple_rest mask2 mask bitmap pad (lay_cells (data_off bitmap pad) cells ++ tail) in
      let header : ltb (length rest) 5 ≡ false = le→ltb _ _ (omega arith) in
      rw header (
        decode_heap_tuple-lay_cells (replicate 18 0) mask2 mask bitmap pad tail cells refl small b n
          a)
