-- ===== src/Heap/Insert.antt =====
-- Inserted and deleted rows from the bytes of the record to the change that is handed out.
use db_flashback.Base.{
  ℕ, ◌^◌, ◌<◌, ◌≡◌, refl, ap, ◌∙◌, Option, some, List, [], ◌∷◌, ◌++◌, arith, ==_ne, length,
}
use db_flashback.Bytes.{Bytes, byte, u32}
use db_flashback.Change.{Text, Row}
use db_flashback.Dict.{Relation, Dictionary}
use db_flashback.Fpw.{Codecs}
use db_flashback.Heap.Decode.{heap_op, hand_out, user_heap, insert_change}
use db_flashback.Heap.Dispatch.{decode_heap_record, top_or}
use db_flashback.Heap.Known.{IsOfTable, decode_heap_record-user}
use db_flashback.Heap.Rows.{toast_of, xlog_row}
use db_flashback.Heap.World.{Catalog, World}
use db_flashback.Record.{BlockData, Body}
use db_flashback.Toast.{ToastCache}
use db_flashback.Tuple.Cells.{tuple_rest, data_off, HasBitmap, decode_xlog_tuple-lay_cells}
use db_flashback.Tuple.Layout.{Cell, lay_cells, columns_of, shown_row, NullsAt, AllRead}
use db_flashback.Tuple.{Printer}

-- The row of `cells` in some bytes of the record, with its null bitmap, padding and anything
-- behind it.
pub record HoldsRow (cells : List Cell) (rel : Relation) (raw : Bytes) : Type 0 where
  pub mask2 : ℕ
  pub mask : ℕ
  pub bitmap : Bytes
  pub pad : Bytes
  pub tail : Bytes
  pub of_table : rel.columns ≡ columns_of cells
  pub in_bytes :
      raw ≡ tuple_rest mask2 mask bitmap pad (lay_cells (data_off bitmap pad) cells ++ tail)
  pub mask_bits : mask < 2 ^ 16
  pub bitmap_bits : HasBitmap mask bitmap (length (columns_of cells))
  pub nulls : NullsAt bitmap 0 cells

module _ (pr : Printer) (codecs : Codecs) where
  xlog_row-HoldsRow :
      (toast : Option ToastCache) (rel : Relation) (blk : BlockData) (raw : Bytes)
      (cells : List Cell)
      → HoldsRow cells rel raw
      → ((t : Option ToastCache) → AllRead pr codecs t cells)
      → xlog_row pr codecs toast rel blk raw ≡ some (shown_row [] cells)
  unfolding xlog_row
  xlog_row-HoldsRow toast rel blk raw cells h reads =
      rw (h.of_table, h.in_bytes)
        (decode_xlog_tuple-lay_cells pr codecs (toast_of toast rel) h.mask2 h.mask h.bitmap h.pad
          h.tail cells h.mask_bits h.bitmap_bits h.nulls (reads (toast_of toast rel)))

  user_heap-insert :
      {K : Type 0} (w : World K) (xid info : ℕ) (rel : Relation) (blk : BlockData) (main : Bytes)
      (v : Text × Text) (row : Row)
      → heap_op info ≡ 0
      → xlog_row pr codecs w.toast rel blk blk.block_bytes ≡ some (v ∷ row)
      → user_heap pr codecs w xid 10 info rel blk main
        ≡ some (hand_out w (insert_change xid rel blk main (v ∷ row) ∷ []))
  unfolding user_heap
  user_heap-insert w xid info rel blk main v row op read = rw (op, read) refl

module _ {K : Type 0} (pr : Printer) (codecs : Codecs) (cat : Catalog K) (dict : Dictionary)
    (dboid : ℕ) where
  -- A heap insert whose first block belongs to a known user table of the wanted database, and holds
  -- a row of any values that are read as their texts, gives exactly the INSERT of those texts,
  -- under the transaction of the record, whatever the decoder has seen before.
  pub decode_heap_record-insert :
      (w : World K) (rec : Bytes) (body : Body) (blk : BlockData) (blocks : List BlockData)
      (rel : Relation) (cells : List Cell) (v : Text × Text) (row : Row)
      → IsOfTable cat dict dboid w rec body blk rel blocks
      → heap_op (byte rec 16) ≡ 0
      → HoldsRow cells rel blk.block_bytes
      → ((t : Option ToastCache) → AllRead pr codecs t cells)
      → shown_row [] cells ≡ v ∷ row
      → (w' : World K) × (decode_heap_record pr codecs cat dict dboid w rec
          ≡ some (w', insert_change (top_or body.top (u32 rec 4)) rel blk body.main (v ∷ row) ∷ []))
  decode_heap_record-insert w rec body blk blocks rel cells v row table op h reads shown =
      let xid = top_or body.top (u32 rec 4) in
      let out = insert_change xid rel blk body.main (v ∷ row) ∷ [] in
      decode_heap_record-user pr codecs cat dict dboid w rec body blk blocks rel out table
        (==_ne _ _ (omega arith))
        (λ w'. (
          (hand_out w' out).0,
          user_heap-insert pr codecs w' xid (byte rec 16) rel blk body.main v row op (
              xlog_row-HoldsRow pr codecs w'.toast rel blk blk.block_bytes cells h reads
              ∙ ap some shown),
        ))
