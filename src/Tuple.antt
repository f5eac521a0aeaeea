-- ===== src/Tuple.antt =====
-- Rows of heap tuples: flashbackDecodeAttrs and flashbackReadDatumToast of
-- internal/service/flashback_datum.go, flashbackResolveToast of internal/service/flashback_toast.go,
-- flashbackDecodeXLogTuple and flashbackDecodeHeapTuple of internal/service/flashback_walparse.go.
-- `none` is a panic, which ends the process.
pub mod Layout
pub mod Values
pub mod Laid
pub mod Cells
pub mod Sample
mod Tests
use db_flashback.Base.{
  ℕ, suc, ◌+◌, ◌/◌, ◌%◌, ◌^◌, Bool, not, ◌&&◌, ◌||◌, Option, none, some, List, [], ◌∷◌, ◌++◌, ltb,
  leb, ◌==◌, if◌then◌else◌, length, take, drop, replicate,
}
use db_flashback.Bytes.{Bytes, byte, u16, u32, has, slice}
use db_flashback.Change.{Text, Row}
use db_flashback.Datum.{align_pointer, read_varlena}
use db_flashback.Dict.{Column, Relation, is_varlena, null_text, row_put}
use db_flashback.Fpw.{Codecs}
use db_flashback.Record.{◌>>=◌}
use db_flashback.Sql.Words.{text}
use db_flashback.Toast.{
  ℤ, pos, negsuc, ToastCache, ToastPtr, get_value, parse_toast_ptr, Payload, payload, no_payload,
  panics, toast_payload,
}

-- How values are printed: `flashbackDecodeFixed`, `flashbackDecodeVarlena`, and
-- `flashbackHexEncodeSQL` for columns that are dropped.
pub record Printer : Type 0 where
  pub fixed : Bytes → Column → Option Text
  pub varlena : Bytes → Column → Option Text
  pub hex : Bytes → Text

-- The three results of a read: the text and the bytes taken, or a failure.
pub data Datum : Type 0 where
  got : Text → ℕ → Datum
  bad : Datum

abbrev pub printed : Option Text → ℕ → Datum
printed none n = bad
printed (some s) n = got s n

-- A value of variable length that is no pointer.
abbrev pub print_varlena : (Bytes → Option Text) → Option (Option Bytes × ℕ) → Datum
print_varlena print none = bad
print_varlena print (some (none, n)) = got null_text n
print_varlena print (some (some raw, n)) = printed (print raw) n

-- A value of `len` bytes.
abbrev pub read_fixed : (Bytes → Option Text) → ℕ → Bytes → Datum
read_fixed print len b = if ltb (length b) len then bad else printed (print (take len b)) len

-- `out[col.Name] = v` for a column that is not dropped.
abbrev pub put_column : Column → Text → Row → Row
put_column col v out = if col.dropped then out else row_put col.name v out

-- What a round of the loop over the columns does: go on at an offset, or `break`.
pub data Round : Type 0 where
  goes : ℕ → Row → Round
  breaks : Row → Round

abbrev pub after_datum : Column → ℕ → Row → Datum → Round
after_datum col off out (got s n) = goes (off + n) (put_column col s out)
after_datum col off out bad = breaks (put_column col null_text out)

-- The bit of column `i` is 0 in a bitmap that is there.
abbrev pub is_null_at : Bytes → ℕ → Bool
is_null_at bits i = not (length bits == 0) && (byte bits (i / 8) / 2 ^ (i % 8) % 2 == 0)

-- The bitmap of the null values, if the tuple has one and it is all there.
abbrev pub null_bits : Bytes → ℕ → ℕ → ℕ → Bytes
null_bits raw infomask bits_off natts =
    let n = (natts + 7) / 8 in
    if has infomask 0x0001 && leb (bits_off + n) (length raw)
    then slice raw bits_off (bits_off + n)
    else []

module _ (pr : Printer) (codecs : Codecs) where
  -- `flashbackResolveToast` once the chunks are there.
  abbrev pub resolve_payload : Column → ℕ → Payload → Option Datum
  resolve_payload col n (payload raw) = some (printed (pr.varlena raw col) n)
  resolve_payload col n no_payload = some (got null_text n)
  resolve_payload col n panics = none

  -- `flashbackResolveToast`, with the bytes that the pointer took.
  unfoldable pub resolve_toast : ToastPtr → Option ToastCache → Column → ℕ → Option Datum
  unfolding toast_payload
  resolve_toast p none col n = some (got null_text n)
  resolve_toast p (some cache) col n = elim (get_value cache p.toast_rel p.value_id) [
    | none ↦ some (got null_text n)
    | some raw ↦ resolve_payload col n (toast_payload codecs p raw)
  ]

  unfoldable pub read_unsized : Option ToastCache → Bytes → Column → Option Datum
  unfolding resolve_toast
  read_unsized toast b col = elim (parse_toast_ptr b) [
    | some p ↦ resolve_toast p toast col 18
    | none ↦ some (print_varlena (λ raw. pr.varlena raw col) (read_varlena b))
  ]

  unfoldable pub read_by_length : ℤ → Option ToastCache → Bytes → Column → Option Datum
  unfolding read_unsized
  read_by_length (pos (suc n)) toast b col = some (
      if col.dropped
      then read_fixed (λ raw. some (pr.hex raw)) (suc n) b
      else read_fixed (λ raw. pr.fixed raw col) (suc n) b)
  read_by_length len toast b col =
      if col.dropped
      then some (print_varlena (λ raw. some (pr.hex raw)) (read_varlena b))
      else read_unsized toast b col

  -- `flashbackReadDatumToast`
  unfoldable pub read_datum : Option ToastCache → Bytes → Column → Option Datum
  unfolding read_by_length
  read_datum toast b col = read_by_length col.typlen toast b col

  unfoldable pub attr_round :
      Option ToastCache → Bytes → Bytes → ℕ → ℕ → Row → Column → Option Round
  unfolding read_datum
  attr_round toast raw bits i off out col =
      let off' = align_pointer raw off (is_varlena col) col.typalign in
      let read : Option Round = do
        d ← read_datum toast (drop off' raw) col
        some (after_datum col off' out d)
      in if is_null_at bits i
        then some (goes off (put_column col null_text out))
        else if leb (length raw) off'
        then some (breaks out)
        else read

  -- `for i, col := range rel.Columns`
  unfoldable pub attr_loop :
      Option ToastCache → Bytes → Bytes → ℕ → ℕ → Row → List Column → Option Row
  unfolding attr_round
  attr_loop toast raw bits i off out [] = some out
  attr_loop toast raw bits i off out (col ∷ cols) = elim (attr_round toast raw bits i off out col) [
    | none ↦ none
    | some (breaks out) ↦ some out
    | some (goes off out) ↦ attr_loop toast raw bits (suc i) off out cols
  ]

  -- `flashbackDecodeAttrs`; the empty row is nil.
  unfoldable pub decode_attrs : Option ToastCache → List Column → Bytes → ℕ → ℕ → ℕ → Option Row
  unfolding attr_loop
  decode_attrs toast cols raw infomask bits_off data_off =
      attr_loop toast raw (null_bits raw infomask bits_off (length cols)) 0 data_off [] cols

  -- `flashbackDecodeHeapTuple`
  unfoldable pub decode_heap_tuple : Option ToastCache → List Column → Bytes → Option Row
  unfolding decode_attrs u16
  decode_heap_tuple toast cols raw =
      let hoff = byte raw 22 in
      let off : ℕ = if ltb hoff 23 || ltb (length raw) hoff then 24 else hoff in
      if ltb (length raw) 23
      then some []
      else if ltb (length raw) off
      then some []
      else decode_attrs toast cols raw (u16 raw 20) 23 off

  -- `flashbackDecodeXLogTuple`: the header of five bytes in WAL takes its place in a tuple header.
  unfoldable pub decode_xlog_tuple : Option ToastCache → List Column → Bytes → Option Row
  unfolding decode_heap_tuple
  decode_xlog_tuple toast cols raw =
      let full =
        replicate 18 0 ++ (slice raw 0 2 ++ (slice raw 2 4 ++ (slice raw 4 5 ++ drop 5 raw))) in
      if ltb (length raw) 5 then some [] else decode_heap_tuple toast cols full
