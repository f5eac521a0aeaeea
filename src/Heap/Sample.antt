-- ===== src/Heap/Sample.antt =====
-- Two WAL records of a small table, with its dictionary, which the tests decode.
use db_flashback.Base.{
  ℕ, ◌+◌, refl, inl, true, false, none, some, [], ◌∷◌, ◌++◌, arith, ◌==◌, if◌then◌else◌, length,
  replicate,
}
use db_flashback.Bytes.{Bytes, le16, le32}
use db_flashback.Dict.{Relation, Dictionary}
use db_flashback.Heap.Insert.{HoldsRow}
use db_flashback.Heap.Stats.{Stats}
use db_flashback.Heap.World.{Catalog, World}
use db_flashback.Record.{BlockData, Body}
use db_flashback.Sql.Words.{text}
use db_flashback.Tuple.Cells.{tuple_rest, data_off}
use db_flashback.Tuple.Layout.{lay_cells, columns_of}
use db_flashback.Tuple.Sample.{bitmap, pad, cells}

abbrev pub people : Relation
people = record {
  schema = text "s";
  name = text "people";
  oid = 16384;
  rel_node = 16384;
  toast_node = 16388;
  toast_oid = 16388;
  db_oid = 5;
  pk_cols = text "id" ∷ [];
  columns = columns_of cells;
  missing = false;
  has_toast = true;
}

abbrev pub only_people : Dictionary
only_people = record { by_rel_node = (16384, people) ∷ []; wanted = people ∷ [] }

-- A catalog without tables of its own, which counts what is called on it.
abbrev pub counting : Catalog ℕ
counting = record {
  decoder = λ k rel_node. none;
  user_relation = λ k rel_node. none;
  apply = λ k xid rel op old new. k + 1;
  flush_xid = λ k xid. (0, []);
  discard_xid = λ k xid. 0;
}

abbrev pub no_stats : Stats
no_stats = record {
  heap = 0;
  matched = 0;
  decoded = 0;
  inserts = 0;
  deletes = 0;
  updates = 0;
  fpw = 0;
  delete_no_old = 0;
  update_no_old = 0;
  fpw_miss = 0;
  split_fail = 0;
  truncates = 0;
  truncate_seen = 0;
  fpw_decompress = 0;
  seen_rels = [];
  multi_inserts = 0;
  multi_insert_rows = 0;
}

abbrev pub start : World ℕ
start = record { toast = none; catalog = some 0; fpw = none; stats = no_stats }

abbrev pub row_bytes : Bytes
row_bytes = tuple_rest 3 1 bitmap pad (lay_cells (data_off bitmap pad) cells ++ [])

-- The header of a record of transaction 7.
abbrev pub heap_header : ℕ → Bytes
heap_header info = le32 90 ++ (le32 7 ++ (replicate 8 0 ++ (info ∷ (10 ∷ replicate 6 0))))

-- Block 3 of the table, with `n` bytes of its own.
abbrev pub block_header : ℕ → Bytes
block_header n =
    0
    ∷ ((if n == 0 then 0 else 0x20) ∷ (le16 n ++ (le32 1663 ++ (le32 5 ++ (le32 16384 ++ le32 3)))))

abbrev pub insert_main : Bytes
insert_main = 9 ∷ (0 ∷ (0 ∷ []))

abbrev pub insert_rec : Bytes
insert_rec =
    heap_header 0 ++ (block_header (length row_bytes) ++ (255 ∷ (3 ∷ (row_bytes ++ insert_main))))

abbrev pub block_of : Bytes → BlockData
block_of bytes = record {
  rel_node = 16384;
  db_node = 5;
  spc_node = 1663;
  blkno = 3;
  block_bytes = bytes;
  image = [];
  hole_off = 0;
  hole_len = 0;
  bimg_info = 0;
  compressed = false;
}

abbrev pub insert_body : Body
insert_body = record { blocks = block_of row_bytes ∷ []; main = insert_main; top = 0 }

-- The deleted row is number 9 of the block and stands in the record.
abbrev pub delete_main : Bytes
delete_main = 7 ∷ (0 ∷ (0 ∷ (0 ∷ (9 ∷ (0 ∷ (0 ∷ (2 ∷ row_bytes)))))))

abbrev pub delete_rec : Bytes
delete_rec = heap_header 0x10 ++ (block_header 0 ++ (255 ∷ (length delete_main ∷ delete_main)))

abbrev pub delete_body : Body
delete_body = record { blocks = block_of [] ∷ []; main = delete_main; top = 0 }

pub people-HoldsRow : HoldsRow cells people row_bytes
people-HoldsRow = record {
  mask2 = 3;
  mask = 1;
  bitmap = bitmap;
  pad = pad;
  tail = [];
  of_table = refl;
  in_bytes = refl;
  mask_bits = omega arith;
  bitmap_bits = inl (refl, refl);
  nulls = (refl, (refl, (refl, tt)));
}
