-- ===== src/Heap/Decode.antt =====
-- `flashbackDecodeHeapRecord` and `flashbackApplyCatalogHeap` of
-- internal/service/flashback_walparse.go. `none` is a panic.
use db_flashback.Base.{
  ℕ, ◌+◌, bit_and, ◌||◌, Option, some, List, [], ◌∷◌, ltb, ◌==◌, if◌then◌else◌, length,
}
use db_flashback.Bytes.{Bytes, u16}
use db_flashback.Change.{Row, Change, op_insert, op_update, op_delete}
use db_flashback.Dict.{Relation}
use db_flashback.Fpw.Cache.{FpwCache}
use db_flashback.Fpw.{Codecs}
use db_flashback.Heap.Multi.{row_change, decode_multi_insert}
use db_flashback.Heap.Rows.{
  toast_of, old_offset, cached_page, xlog_row, deleted_row, updated_row, replaced_row,
}
use db_flashback.Heap.Stats.{count_changes}
use db_flashback.Heap.World.{World}
use db_flashback.Record.{◌>>=◌, BlockData}
use db_flashback.Tuple.{Printer}

-- `rec[16] & xlogHeapOpMask`
abbrev pub heap_op : ℕ → ℕ
heap_op info = bit_and info 0x70

abbrev pub insert_offset : Bytes → ℕ
insert_offset main = if ltb (length main) 2 then 0 else u16 main 0

abbrev pub insert_change : ℕ → Relation → BlockData → Bytes → Row → Change
insert_change xid rel blk main row = record (row_change xid rel) {
  op = op_insert;
  new_row = row;
  block = blk.blkno;
  offnum = insert_offset main;
  new_block = blk.blkno;
  new_off = insert_offset main;
}

abbrev pub delete_change : ℕ → Relation → BlockData → Bytes → Row → Change
delete_change xid rel blk main row = record (row_change xid rel) {
  op = op_delete;
  old_row = row;
  block = blk.blkno;
  offnum = old_offset 8 main;
}

abbrev pub update_change : ℕ → Relation → BlockData → Bytes → Row → Row → Change
update_change xid rel blk main old new = record (row_change xid rel) {
  op = op_update;
  old_row = old;
  new_row = new;
  block = blk.blkno;
  offnum = old_offset 14 main;
  new_block = blk.blkno;
  new_off = if ltb (length main) 14 then 0 else u16 main 12;
}

abbrev pub Step : Type 0 → Type 0
Step K = Option (World K × List Change)

abbrev fpw_missed : Option FpwCache → Relation → BlockData → ℕ
fpw_missed fpw rel blk = if length (cached_page fpw rel blk) == 0 then 1 else 0

module _ {K : Type 0} where
  -- A change that `emit` counts.
  abbrev pub hand_out : World K → List Change → World K × List Change
  hand_out w out = (record w { stats = count_changes out w.stats }, out)

  abbrev pub delete_missed : World K → Relation → BlockData → World K
  delete_missed w rel blk = record w {
    stats = record w.stats {
      delete_no_old = w.stats.delete_no_old + 1;
      fpw_miss = w.stats.fpw_miss + fpw_missed w.fpw rel blk;
    };
  }

  abbrev pub update_missed : World K → Relation → BlockData → World K
  update_missed w rel blk = record w {
    stats = record w.stats {
      update_no_old = w.stats.update_no_old + 1;
      fpw_miss = w.stats.fpw_miss + fpw_missed w.fpw rel blk;
    };
  }

  -- The result for an insert whose row was decoded.
  unfoldable pub inserted : World K → ℕ → Relation → BlockData → Bytes → Row → World K × List Change
  inserted w xid rel blk main [] = (w, [])
  inserted w xid rel blk main (v ∷ row) = hand_out w (insert_change xid rel blk main (v ∷ row) ∷ [])

  unfoldable pub deleted : World K → ℕ → Relation → BlockData → Bytes → Row → World K × List Change
  deleted w xid rel blk main [] = (delete_missed w rel blk, [])
  deleted w xid rel blk main (v ∷ row) = hand_out w (delete_change xid rel blk main (v ∷ row) ∷ [])

  unfoldable pub updated :
      World K → ℕ → Relation → BlockData → Bytes → Row → Row → World K × List Change
  updated w xid rel blk main [] new = (update_missed w rel blk, [])
  updated w xid rel blk main (v ∷ row) new =
      hand_out w (update_change xid rel blk main (v ∷ row) new ∷ [])

  -- The counters of a multi insert, behind those of its rows.
  unfoldable pub multi_inserted : World K → List Change → World K × List Change
  multi_inserted w [] = (w, [])
  multi_inserted w (c ∷ cs) =
      let (w, out) = hand_out w (c ∷ cs) in
      (
        record w {
          stats = record w.stats {
            multi_inserts = w.stats.multi_inserts + 1;
            multi_insert_rows = w.stats.multi_insert_rows + length out;
          };
        },
        out,
      )

  module _ (pr : Printer) (codecs : Codecs) where
    -- The record of a user table, by resource manager and operation.
    unfoldable pub user_heap : World K → ℕ → ℕ → ℕ → Relation → BlockData → Bytes → Step K
    unfolding inserted deleted updated multi_inserted
    user_heap w xid rmid info rel blk main =
        let op = heap_op info in
        let multi : Step K = do
          out ←
              decode_multi_insert pr codecs (toast_of w.toast rel) rel xid blk.block_bytes main info
          some (multi_inserted w out)
        in let insert_step : Step K = do
          row ← xlog_row pr codecs w.toast rel blk blk.block_bytes
          some (inserted w xid rel blk main row)
          in let delete_step : Step K = do
            row ← deleted_row pr codecs w.toast rel blk w.fpw main
            some (deleted w xid rel blk main row)
            in let update_step : Step K = do
              new ← updated_row pr codecs w.toast rel blk main
              old ← replaced_row pr codecs w.toast rel blk w.fpw main
              some (updated w xid rel blk main old new)
              in if rmid == 9
                then (if op == 0x50 then multi else some (w, []))
                else if op == 0x00
                then insert_step
                else if op == 0x10
                then delete_step
                else if (op == 0x20) || (op == 0x40)
                then update_step
                else some (w, [])
