-- ===== src/Heap/Sound.antt =====
-- What every change of a heap record is: the id of its transaction, a row image, counted once.
use db_flashback.Base.{
  ℕ, ◌+◌, ◌≡◌, refl, ◌||◌, Option, some, List, [], ◌∷◌, arith, ◌==◌, length, All,
}
use db_flashback.Bytes.{Bytes}
use db_flashback.Change.{Row, Change}
use db_flashback.Dict.{Relation}
use db_flashback.Fpw.{Codecs}
use db_flashback.Heap.Counted.{count_changes-decoded}
use db_flashback.Heap.Decode.{
  heap_op, hand_out, user_heap, inserted, deleted, updated, multi_inserted, insert_change,
  delete_change, update_change,
}
use db_flashback.Heap.Holds.{Holds, if-P, Holds-bind, Holds-then}
use db_flashback.Heap.Images.{IsImage, AreFilled, some_row, multi_rows-All, multi_change-All}
use db_flashback.Heap.Multi.{decode_multi_insert}
use db_flashback.Heap.Rows.{toast_of, xlog_row, deleted_row, updated_row, replaced_row}
use db_flashback.Heap.World.{World}
use db_flashback.Record.{BlockData}
use db_flashback.Toast.{ToastCache}
use db_flashback.Tuple.{Printer}

-- All changes of a step are such, and each is counted.
abbrev pub IsSound : {K : Type 0} → ℕ → ℕ → World K × List Change → Type 0
IsSound xid before (after, out) =
    All (IsImage xid) out × (after.stats.decoded ≡ before + length out)

module _ (pr : Printer) (codecs : Codecs) where
  pub decode_multi_insert-All :
      (toast : Option ToastCache) (rel : Relation) (xid : ℕ) (bytes main : Bytes) (info : ℕ)
      → Holds (All (IsImage xid)) (decode_multi_insert pr codecs toast rel xid bytes main info)
  unfolding decode_multi_insert
  decode_multi_insert-All toast rel xid bytes main info =
      Holds-then AreFilled (All (IsImage xid)) _ _
        (multi_rows-All pr codecs toast rel.columns bytes main info) (multi_change-All xid rel)

module _ {K : Type 0} where
  pub hand_out-IsSound :
      (w : World K) (xid : ℕ) (out : List Change)
      → All (IsImage xid) out
      → IsSound xid w.stats.decoded (hand_out w out)
  hand_out-IsSound w xid out a = (a, count_changes-decoded out w.stats)

  pub quiet-IsSound : (w : World K) (xid n : ℕ) → w.stats.decoded ≡ n → IsSound xid n (w, [])
  quiet-IsSound w xid n e = (tt, omega arith)

  inserted-IsSound :
      (w : World K) (xid : ℕ) (rel : Relation) (blk : BlockData) (main : Bytes) (row : Row)
      → IsSound xid w.stats.decoded (inserted w xid rel blk main row)
  unfolding inserted
  inserted-IsSound w xid rel blk main [] = (tt, omega arith)
  inserted-IsSound w xid rel blk main (v ∷ row) =
      hand_out-IsSound w xid (insert_change xid rel blk main (v ∷ row) ∷ [])
        ((refl, some_row v row), tt)

  deleted-IsSound :
      (w : World K) (xid : ℕ) (rel : Relation) (blk : BlockData) (main : Bytes) (row : Row)
      → IsSound xid w.stats.decoded (deleted w xid rel blk main row)
  unfolding deleted
  deleted-IsSound w xid rel blk main [] = (tt, omega arith)
  deleted-IsSound w xid rel blk main (v ∷ row) =
      hand_out-IsSound w xid (delete_change xid rel blk main (v ∷ row) ∷ [])
        ((refl, some_row v row), tt)

  updated-IsSound :
      (w : World K) (xid : ℕ) (rel : Relation) (blk : BlockData) (main : Bytes) (old new : Row)
      → IsSound xid w.stats.decoded (updated w xid rel blk main old new)
  unfolding updated
  updated-IsSound w xid rel blk main [] new = (tt, omega arith)
  updated-IsSound w xid rel blk main (v ∷ row) new =
      hand_out-IsSound w xid (update_change xid rel blk main (v ∷ row) new ∷ [])
        ((refl, some_row v row), tt)

  multi_inserted-IsSound :
      (w : World K) (xid : ℕ) (out : List Change)
      → All (IsImage xid) out
      → IsSound xid w.stats.decoded (multi_inserted w out)
  unfolding multi_inserted
  multi_inserted-IsSound w xid [] a = (tt, omega arith)
  multi_inserted-IsSound w xid (c ∷ cs) a = hand_out-IsSound w xid (c ∷ cs) a

  module _ (pr : Printer) (codecs : Codecs) where
    pub user_heap-IsSound :
        (w : World K) (xid rmid info : ℕ) (rel : Relation) (blk : BlockData) (main : Bytes)
        → Holds (IsSound xid w.stats.decoded) (user_heap pr codecs w xid rmid info rel blk main)
    unfolding user_heap
    user_heap-IsSound w xid rmid info rel blk main =
        let S = IsSound xid w.stats.decoded in
        let P = Holds S in
        let op = heap_op info in
        let nothing : P (some (w, [])) = quiet-IsSound w xid w.stats.decoded refl in
        if-P P (rmid == 9)
          (if-P P (op == 0x50)
            (Holds-then (All (IsImage xid)) S _ _
              (decode_multi_insert-All pr codecs (toast_of w.toast rel) rel xid blk.block_bytes main
                info)
              (λ out a. multi_inserted-IsSound w xid out a))
            nothing)
          (if-P P (op == 0x00)
            (Holds-bind S (xlog_row pr codecs w.toast rel blk blk.block_bytes) _
              (λ row. inserted-IsSound w xid rel blk main row))
            (if-P P (op == 0x10)
              (Holds-bind S (deleted_row pr codecs w.toast rel blk w.fpw main) _
                (λ row. deleted-IsSound w xid rel blk main row))
              (if-P P ((op == 0x20) || (op == 0x40))
                (Holds-bind S (updated_row pr codecs w.toast rel blk main) _ (λ new.
                  Holds-bind S (replaced_row pr codecs w.toast rel blk w.fpw main) _
                    (λ old. updated-IsSound w xid rel blk main old new)))
                nothing)))
