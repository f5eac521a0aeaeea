-- ===== src/Heap/Tests.antt =====
-- The theorems on heap pages and truncation at small inputs.
use db_flashback.Base.{
  ℕ, ◌≡◌, refl, inl, true, false, Option, none, some, List, [], ◌∷◌, ◌++◌, arith, ◌==◌,
  if◌then◌else◌, replicate, All,
}
use db_flashback.Bytes.{Bytes, u32}
use db_flashback.Change.{Change}
use db_flashback.Heap.Page.{IsTuple, tuple_from_page-line_pointer, tuple_from_page-IsTuple}
use db_flashback.Heap.Truncate.{truncate_main, decode_heap_truncate-truncate_main}
use db_flashback.Dict.{Relation}
use db_flashback.Heap.{truncate_ids, or_next, tuple_from_page, decode_heap_truncate}
use db_flashback.Sql.Words.{text}
use db_flashback.Heap.Decode.{insert_change}
use db_flashback.Heap.Dispatch.{decode_heap_record, record_decoder}
use db_flashback.Heap.Insert.{decode_heap_record-insert}
use db_flashback.Heap.Known.{IsOfTable}
use db_flashback.Heap.Sample.{
  people, only_people, counting, start, row_bytes, insert_main, insert_rec, block_of, insert_body,
  people-HoldsRow,
}
use db_flashback.Heap.World.{World, lookup_rel}
use db_flashback.Record.{read_meta, split_xlog_body}
use db_flashback.Bytes.{u16}
use db_flashback.Change.{Row}
use db_flashback.Commit.Window.{InWindow}
use db_flashback.Datum.{align_off}
use db_flashback.Dict.{null_text, row_put}
use db_flashback.Heap.Holds.{Holds}
use db_flashback.Heap.Sound.{IsSound}
use db_flashback.Heap.Whole.{record_xid, decode_heap_record-IsSound}
use db_flashback.Heap.Window.{walk_dir-record_decoder}
use db_flashback.Reader.Dir.{walk_dir}
use db_flashback.Reader.{Reader}
use db_flashback.Txn.{new_txn_buf}
use db_flashback.Tuple.Sample.{digits, no_codecs, cells, cells-AllRead}

abbrev orders : Relation
orders = record {
  schema = text "s";
  name = text "orders";
  oid = 7;
  rel_node = 7;
  toast_node = 0;
  toast_oid = 0;
  db_oid = 5;
  pk_cols = [];
  columns = [];
  missing = false;
  has_toast = true;
}

abbrev find : ℕ → Option Relation
find relid =
    if relid == 7
    then some orders
    else if relid == 9
    then some (record orders { rel_node = 9 })
    else none

abbrev keep : Change → List Change
keep ch = ch ∷ []

-- Both tables have a change, and only that of the second is given.
decode_heap_truncate-truncate_main_example :
    decode_heap_truncate find keep 3 5 (truncate_main 5 0 (7 ∷ (9 ∷ [])))
    ≡ or_next find keep 3 5
        (truncate_ids find keep 3 5 [] (9 ∷ []))
        (truncate_ids find keep 3 5 [] (7 ∷ (9 ∷ [])))
decode_heap_truncate-truncate_main_example =
    decode_heap_truncate-truncate_main find keep 3 5 5 0 7 (9 ∷ []) (omega arith, (omega arith, tt))
      (omega arith) (unfold truncate_ids in (λ e. cc))

-- One line pointer to the 30 bytes from 100 on.
abbrev page : Bytes
page = replicate 24 0 ++ (0x64 ∷ (0x80 ∷ (0x3c ∷ (0 ∷ replicate 172 9))))

tuple_from_page-line_pointer_example : tuple_from_page page 1 ≡ replicate 30 9
tuple_from_page-line_pointer_example =
    tuple_from_page-line_pointer page 0 100 30 (omega arith) (unfold u32 in refl) (omega arith)
      (omega arith) (omega arith) (omega arith)

tuple_from_page-IsTuple_example : IsTuple page (tuple_from_page page 2)
tuple_from_page-IsTuple_example = tuple_from_page-IsTuple page 2

-- The row without its first column.
abbrev other_values : Row
other_values = (text "note", null_text) ∷ ((text "id", text "7") ∷ [])

abbrev values : Row
values = (text "name", text "hi") ∷ other_values

insert-IsOfTable :
    IsOfTable counting only_people 5 start insert_rec insert_body (block_of row_bytes) people []
unfolding read_meta align_off u16 u32
insert-IsOfTable = record {
  whole = unfold align_off in omega arith;
  heap = refl;
  splits = unfold split_xlog_body in refl;
  first = refl;
  wanted = refl;
  known = unfold lookup_rel in refl;
  user = refl;
}

decode_heap_record-insert_example :
    (w : World ℕ) × (decode_heap_record digits no_codecs counting only_people 5 start insert_rec
      ≡ some (w, insert_change 7 people (block_of row_bytes) insert_main values ∷ []))
unfolding row_put u32
decode_heap_record-insert_example =
    decode_heap_record-insert digits no_codecs counting only_people 5 start insert_rec insert_body
      (block_of row_bytes) [] people cells (text "name", text "hi") other_values insert-IsOfTable
      refl people-HoldsRow cells-AllRead refl

decode_heap_record-IsSound_example :
    Holds
      (IsSound (record_xid insert_rec) 0)
      (decode_heap_record digits no_codecs counting only_people 5 start insert_rec)
decode_heap_record-IsSound_example =
    decode_heap_record-IsSound digits no_codecs counting only_people 5 start insert_rec
      (λ e. absurd (omega arith))

abbrev reader : Reader (Option (World ℕ))
reader = record {
  core = record {
    decoder_state = some start;
    max_changes = 0;
    emitted = 0;
    txn = new_txn_buf;
    time_from = 10;
    time_to = 0;
    past_end = false;
    records = 0;
    checkpoints = 0;
    change_trunc = false;
  };
  cont = [];
  cont_need = 0;
  pad_skip = 0;
  pages = 0;
  magic = 0;
  magic_skip = 0;
}

-- One page with the insert and nothing behind it.
abbrev insert_page : Bytes
insert_page = 0x13 ∷ (0xd1 ∷ (replicate 22 0 ++ insert_rec))

walk_dir-record_decoder_example : All (InWindow 10 0) (
    walk_dir
      (record_decoder digits no_codecs counting only_people 5)
      (λ calls ch. true)
      reader
      (λ s. [])
      (some (insert_page ∷ []) ∷ []))
walk_dir-record_decoder_example =
    walk_dir-record_decoder digits no_codecs counting only_people 5 10 0 (λ calls ch. true)
      (some (insert_page ∷ []) ∷ []) reader (λ s. []) (inl (λ e. absurd (omega arith))) refl refl
