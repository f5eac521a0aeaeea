-- ===== src/Heap/Apply.antt =====
-- Records of catalog tables, `flashbackApplyCatalogHeap` of
-- internal/service/flashback_walparse.go.
use db_flashback.Base.{ℕ, ◌+◌, ◌||◌, Option, some, List, [], ◌∷◌, ◌==◌, if◌then◌else◌}
use db_flashback.Bytes.{Bytes}
use db_flashback.Change.{Row, Change, op_insert, op_update, op_delete}
use db_flashback.Dict.{Relation}
use db_flashback.Fpw.{Codecs}
use db_flashback.Heap.Decode.{heap_op}
use db_flashback.Heap.Multi.{decode_multi_insert}
use db_flashback.Heap.Rows.{toast_of, xlog_row, deleted_row, updated_row, replaced_row}
use db_flashback.Heap.World.{Catalog, World}
use db_flashback.Record.{◌>>=◌, BlockData}
use db_flashback.Tuple.{Printer}

module _ {K : Type 0} (cat : Catalog K) where
  -- `for _, c := range ch { cat.apply(…) }`
  abbrev apply_inserts : K → ℕ → Relation → List Change → K
  apply_inserts k xid rel [] = k
  apply_inserts k xid rel (c ∷ cs) =
      apply_inserts (cat.apply k xid rel op_insert [] c.new_row) xid rel cs

  abbrev apply_inserted : K → ℕ → Relation → Row → K
  apply_inserted k xid rel [] = k
  apply_inserted k xid rel (v ∷ row) = cat.apply k xid rel op_insert [] (v ∷ row)

  abbrev pub apply_deleted : World K → K → ℕ → Relation → Row → World K
  apply_deleted w k xid rel [] = record w {
    stats = record w.stats { delete_no_old = w.stats.delete_no_old + 1 };
  }
  apply_deleted w k xid rel (v ∷ row) = record w {
    catalog = some (cat.apply k xid rel op_delete (v ∷ row) []);
  }

  -- Without an old row the update is counted, and without any row it is dropped.
  abbrev pub apply_updated : World K → K → ℕ → Relation → Row → Row → World K
  apply_updated w k xid rel [] [] = record w {
    stats = record w.stats { update_no_old = w.stats.update_no_old + 1 };
  }
  apply_updated w k xid rel [] (v ∷ new) = record w {
    stats = record w.stats { update_no_old = w.stats.update_no_old + 1 };
    catalog = some (cat.apply k xid rel op_update [] (v ∷ new));
  }
  apply_updated w k xid rel (v ∷ old) new = record w {
    catalog = some (cat.apply k xid rel op_update (v ∷ old) new);
  }

  module _ (pr : Printer) (codecs : Codecs) where
    -- `flashbackApplyCatalogHeap` on a catalog that is there.
    unfoldable pub apply_catalog_heap :
        World K → K → ℕ → ℕ → ℕ → Relation → BlockData → Bytes → Option (World K)
    apply_catalog_heap w k xid rmid info rel blk main =
        let op = heap_op info in
        let multi : Option (World K) = do
          out ←
              decode_multi_insert pr codecs (toast_of w.toast rel) rel xid blk.block_bytes main info
          some (record w { catalog = some (apply_inserts k xid rel out) })
        in let insert_step : Option (World K) = do
          row ← xlog_row pr codecs w.toast rel blk blk.block_bytes
          some (record w { catalog = some (apply_inserted k xid rel row) })
          in let delete_step : Option (World K) = do
            row ← deleted_row pr codecs w.toast rel blk w.fpw main
            some (apply_deleted w k xid rel row)
            in let update_step : Option (World K) = do
              new ← updated_row pr codecs w.toast rel blk main
              old ← replaced_row pr codecs w.toast rel blk w.fpw main
              some (apply_updated w k xid rel old new)
              in if rmid == 9
                then (if op == 0x50 then multi else some w)
                else if op == 0x00
                then insert_step
                else if op == 0x10
                then delete_step
                else if (op == 0x20) || (op == 0x40)
                then update_step
                else some w
