-- ===== src/Heap/Kept.antt =====
-- Records of catalog tables leave the counter of decoded changes as it is.
use db_flashback.Base.{ℕ, ◌≡◌, refl, ◌||◌, [], ◌∷◌, ◌==◌}
use db_flashback.Bytes.{Bytes}
use db_flashback.Change.{Row}
use db_flashback.Dict.{Relation}
use db_flashback.Fpw.{Codecs}
use db_flashback.Heap.Apply.{apply_catalog_heap, apply_deleted, apply_updated}
use db_flashback.Heap.Decode.{heap_op}
use db_flashback.Heap.Holds.{Holds, if-P, Holds-bind}
use db_flashback.Heap.Multi.{decode_multi_insert}
use db_flashback.Heap.Rows.{toast_of, xlog_row, deleted_row, updated_row, replaced_row}
use db_flashback.Heap.World.{Catalog, World}
use db_flashback.Record.{BlockData}
use db_flashback.Tuple.{Printer}

module _ {K : Type 0} (cat : Catalog K) where
  abbrev pub Keeps : ℕ → World K → Type 0
  Keeps n w = w.stats.decoded ≡ n

  apply_deleted-Keeps :
      (w : World K) (k : K) (xid : ℕ) (rel : Relation) (row : Row)
      → Keeps w.stats.decoded (apply_deleted cat w k xid rel row)
  apply_deleted-Keeps w k xid rel [] = refl
  apply_deleted-Keeps w k xid rel (v ∷ row) = refl

  apply_updated-Keeps :
      (w : World K) (k : K) (xid : ℕ) (rel : Relation) (old new : Row)
      → Keeps w.stats.decoded (apply_updated cat w k xid rel old new)
  apply_updated-Keeps w k xid rel [] [] = refl
  apply_updated-Keeps w k xid rel [] (v ∷ new) = refl
  apply_updated-Keeps w k xid rel (v ∷ old) new = refl

  module _ (pr : Printer) (codecs : Codecs) where
    pub apply_catalog_heap-Keeps :
        (w : World K) (k : K) (xid rmid info : ℕ) (rel : Relation) (blk : BlockData) (main : Bytes)
        → Holds
            (Keeps w.stats.decoded)
            (apply_catalog_heap cat pr codecs w k xid rmid info rel blk main)
    unfolding apply_catalog_heap
    apply_catalog_heap-Keeps w k xid rmid info rel blk main =
        let Q = Keeps w.stats.decoded in
        let P = Holds Q in
        let op = heap_op info in
        let toast = toast_of w.toast rel in
        if-P P (rmid == 9)
          (if-P P (op == 0x50)
            (Holds-bind Q (decode_multi_insert pr codecs toast rel xid blk.block_bytes main info) _
              (λ out. refl))
            refl)
          (if-P P (op == 0x00)
            (Holds-bind Q (xlog_row pr codecs w.toast rel blk blk.block_bytes) _ (λ row. refl))
            (if-P P (op == 0x10)
              (Holds-bind Q (deleted_row pr codecs w.toast rel blk w.fpw main) _
                (λ row. apply_deleted-Keeps w k xid rel row))
              (if-P P ((op == 0x20) || (op == 0x40))
                (Holds-bind Q (updated_row pr codecs w.toast rel blk main) _ (λ new.
                  Holds-bind Q (replaced_row pr codecs w.toast rel blk w.fpw main) _
                    (λ old. apply_updated-Keeps w k xid rel old new)))
                refl)))
