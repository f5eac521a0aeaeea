-- ===== src/Heap/Multi.antt =====
-- Records of several inserted rows, `flashbackDecodeMultiInsert` of
-- internal/service/flashback_walparse.go.
use db_flashback.Base.{
  ℕ, zero, suc, ◌+◌, ◌-◌, ◌*◌, max, Bool, not, ◌||◌, Option, some, List, [], ◌∷◌, ◌++◌, map, ltb,
  ◌==◌, if◌then◌else◌, length, drop, replicate,
}
use db_flashback.Bytes.{Bytes, byte, u16, has, slice}
use db_flashback.Change.{Row, Change, blank_change, op_insert}
use db_flashback.Dict.{Column, Relation}
use db_flashback.Fpw.{Codecs}
use db_flashback.Reader.{max_align}
use db_flashback.Record.{◌>>=◌}
use db_flashback.Toast.{ToastCache}
use db_flashback.Tuple.{Printer, decode_heap_tuple}

-- `len(rel.PKCols) == 0`
abbrev pub no_key : Relation → Bool
no_key rel = length rel.pk_cols == 0

-- What the changes of a row have in common.
abbrev pub row_change : ℕ → Relation → Change
row_change xid rel = record blank_change {
  xid = xid;
  schema = rel.schema;
  table = rel.name;
  pk_cols = rel.pk_cols;
  no_pk = no_key rel;
  rel_node = rel.rel_node;
}

abbrev pub multi_change : ℕ → Relation → Row → Change
multi_change xid rel row = record (row_change xid rel) { op = op_insert; new_row = row }

-- The header of seven bytes and one of padding, in front of a row, become a tuple header.
abbrev pub full_tuple : Bytes → ℕ → Bytes → Bytes
full_tuple header hoff body =
    replicate 18 0
    ++ (slice header 2 4 ++ (slice header 4 6 ++ (hoff ∷ (replicate (hoff - 23) 0 ++ body))))

abbrev pub multi_tuple : Bytes → Bytes
multi_tuple b = full_tuple b (max 23 (byte b 6)) (slice b 8 (8 + u16 b 0))

-- `if len(vals) > 0 { out = append(out, …) }`
abbrev pub keep_row : Row → List Row → List Row
keep_row [] rows = rows
keep_row (v ∷ row) rows = (v ∷ row) ∷ rows

module _ (pr : Printer) (codecs : Codecs) (toast : Option ToastCache) (cols : List Column) where
  -- The loop over at most `n` rows; `none` is a panic.
  unfoldable pub multi_loop : ℕ → Bytes → Option (List Row)
  unfolding u16
  multi_loop zero b = some []
  multi_loop (suc n) b =
      let len = u16 b 0 in
      let next = max_align (8 + len) in
      let more = multi_loop n (drop next b) in
      let later : Option (List Row) = if ltb (length b) next then some [] else more in
      let rows : Option (List Row) = do
        row ← decode_heap_tuple pr codecs toast cols (multi_tuple b)
        rows ← later
        some (keep_row row rows)
      in if ltb (length b) 8 then some [] else if ltb (length b) (8 + len) then some [] else rows

  -- The rows of `flashbackDecodeMultiInsert`, in the order in which `emit` is called.
  unfoldable pub multi_rows : Bytes → Bytes → ℕ → Option (List Row)
  unfolding multi_loop
  multi_rows block_bytes main info =
      let n = u16 main 1 in
      let hdr_off : ℕ = if has info 0x80 then 3 else 3 + n * 2 in
      if ltb (length main) 3
      then some []
      else if (n == 0) || ltb 10000 n
      then some []
      else if not (has (byte main 0) 8)
      then multi_loop n block_bytes
      else if ltb (length main) hdr_off
      then some []
      else multi_loop n (drop hdr_off main)

-- `flashbackDecodeMultiInsert`: the changes for which `emit` is called.
unfoldable pub decode_multi_insert :
    Printer → Codecs → Option ToastCache → Relation → ℕ → Bytes → Bytes → ℕ → Option (List Change)
unfolding multi_rows
decode_multi_insert pr codecs toast rel xid block_bytes main info = do
  rows ← multi_rows pr codecs toast rel.columns block_bytes main info
  some (map (multi_change xid rel) rows)
