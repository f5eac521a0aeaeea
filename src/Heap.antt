-- ===== src/Heap.antt =====
-- Pieces of the heap decoder of internal/service/flashback_walparse.go: the tuple of a page, the
-- data of an updated row, and truncated tables.
pub mod Page
pub mod Truncate
pub mod Stats
pub mod Multi
pub mod Rows
pub mod Ingest
pub mod World
pub mod Decode
pub mod Apply
pub mod Dispatch
pub mod Holds
pub mod Counted
pub mod Images
pub mod Sound
pub mod Truncated
pub mod Kept
pub mod Whole
pub mod Window
pub mod Total
pub mod Known
pub mod Insert
pub mod Sample
mod Tests
use db_flashback.Base.{
  ℕ, ◌+◌, ◌-◌, ◌*◌, ◌/◌, ◌%◌, ◌^◌, not, ◌&&◌, ◌||◌, Option, none, some, List, [], ◌∷◌, ◌++◌, ltb,
  ◌==◌, if◌then◌else◌, length, drop, mem,
}
use db_flashback.Bytes.{Bytes, u16, u32, has, slice}
use db_flashback.Change.{Text, Change, blank_change, op_truncate}
use db_flashback.Commit.{read_xids}
use db_flashback.Dict.{Relation}
use db_flashback.Reader.{max_align}
use db_flashback.Sql.Clause.{qualified}
use db_flashback.Sql.Words.{text}

-- `flashbackSkipUpdatePrefixSuffix`
unfoldable pub skip_update_prefix_suffix : Bytes → ℕ → Bytes
skip_update_prefix_suffix raw flags =
    let cut_prefix : Bytes = if has flags 0x20 then drop 2 raw else raw in
    if has flags 0x20 && ltb (length raw) 2
    then raw
    else if has flags 0x40 && ltb (length cut_prefix) 2
    then cut_prefix
    else if has flags 0x40
    then drop 2 cut_prefix
    else cut_prefix

-- The tuple that a line pointer of 15, 2 and 15 bits names, if it is a normal one inside the page.
unfoldable pub item_tuple : Bytes → ℕ → Bytes
item_tuple page item =
    let lp_off = item % 2 ^ 15 in
    let lp_flags = item / 2 ^ 15 % 4 in
    let lp_len = item / 2 ^ 17 % 2 ^ 15 in
    if not (lp_flags == 1) || ltb lp_len 23
    then []
    else if ltb (length page) (lp_off + lp_len)
    then []
    else slice page lp_off (lp_off + lp_len)

-- `flashbackTupleFromPage`; the empty list is nil.
unfoldable pub tuple_from_page : Bytes → ℕ → Bytes
unfolding item_tuple u32
tuple_from_page page offnum =
    let item_off = 24 + (offnum - 1) * 4 in
    if ltb (length page) 24 || (offnum == 0)
    then []
    else if ltb (length page) (item_off + 4)
    then []
    else item_tuple page (u32 page item_off)

-- The change of a truncated table.
abbrev pub truncate_change : ℕ → Relation → Change
truncate_change xid rel = record blank_change {
  xid = xid;
  schema = rel.schema;
  table = rel.name;
  op = op_truncate;
  rel_node = rel.rel_node;
  ddl_redo = text "TRUNCATE TABLE " ++ (qualified rel.schema rel.name ++ text ";");
  ddl_undo =
      text "-- TRUNCATE "
      ++ (qualified rel.schema rel.name ++ text " 无法从 WAL 还原被清空的行，请用时间窗之前的备份/PITR");
  ddl_risk = text "TRUNCATE 只记录关系被清空，WAL 不含行图像，不能生成还原 INSERT";
}

-- `rel_of` looks an id up in the dictionary and then among the user relations of the catalog, and
-- `emit` is the callback.
module _ (rel_of : ℕ → Option Relation) (emit : Change → List Change) (xid dboid : ℕ) where
  -- One round for an id that is not 0 and not seen before.
  abbrev pub truncate_found : Option Relation → List Change
  truncate_found none = []
  truncate_found (some rel) =
      if rel.missing || (not (dboid == 0) && (not (rel.db_oid == 0) && not (rel.db_oid == dboid)))
      then []
      else emit (truncate_change xid rel)

  -- The rounds of `flashbackHeapTruncateAt` for the ids that it reads.
  unfoldable pub truncate_ids : List ℕ → List ℕ → List Change
  truncate_ids seen [] = []
  truncate_ids seen (relid ∷ ids) =
      let skipped = truncate_ids seen ids in
      let more = truncate_ids (relid ∷ seen) ids in
      if (relid == 0) || mem relid seen then skipped else truncate_found (rel_of relid) ++ more

  -- `flashbackHeapTruncateAt`: at most `nrel` ids from `off` on, while there are four bytes.
  unfoldable pub heap_truncate_at : Bytes → ℕ → ℕ → List Change
  unfolding truncate_ids read_xids
  heap_truncate_at main nrel off = truncate_ids [] (read_xids nrel main off)

  -- The first result that is not empty.
  abbrev pub or_next : List Change → List Change → List Change
  or_next [] out = out
  or_next (c ∷ cs) out = c ∷ cs

  -- `flashbackDecodeHeapTruncate`
  unfoldable pub decode_heap_truncate : Bytes → List Change
  unfolding heap_truncate_at u32
  decode_heap_truncate main =
      let nrel = u32 main 4 in
      let at = heap_truncate_at main nrel in
      if ltb (length main) 9
      then []
      else if (nrel == 0) || ltb 4096 nrel
      then []
      else or_next (at (max_align 9)) (or_next (at 12) (at 9))
