-- ===== src/Heap/Stats.antt =====
-- `flashbackParseStats` of internal/service/flashback_walparse.go, the counters of the record
-- decoder; those of the reader of pages stand with the reader.
use db_flashback.Base.{ℕ, ◌+◌, List, [], ◌∷◌, ◌++◌, leb, ◌==◌, if◌then◌else◌}
use db_flashback.Change.{Text, Op, Change, op_insert, op_update, op_delete, op_truncate}
use db_flashback.Record.{BlockData}
use db_flashback.Sql.Words.{text, is_blank, contains, decimal}

pub record Stats : Type 0 where
  pub heap : ℕ
  pub matched : ℕ
  pub decoded : ℕ
  pub inserts : ℕ
  pub deletes : ℕ
  pub updates : ℕ
  pub fpw : ℕ
  pub delete_no_old : ℕ
  pub update_no_old : ℕ
  pub fpw_miss : ℕ
  pub split_fail : ℕ
  pub truncates : ℕ
  pub truncate_seen : ℕ
  pub fpw_decompress : ℕ
  pub seen_rels : Text
  pub multi_inserts : ℕ
  pub multi_insert_rows : ℕ

-- `strings.Count(v, ",")`
abbrev pub commas : Text → ℕ
commas [] = 0
commas (c ∷ v) = (if c == 44 then 1 else 0) + commas v

-- `noteRel`
unfoldable pub note_rel : Stats → ℕ → ℕ → Stats
note_rel s db rel =
    let item = decimal db ++ (text "/" ++ decimal rel) in
    if rel == 0
    then s
    else if is_blank s.seen_rels
    then record s { seen_rels = item }
    else if contains s.seen_rels item
    then s
    else if leb 11 (commas s.seen_rels)
    then s
    else record s { seen_rels = s.seen_rels ++ (text "," ++ item) }

unfoldable pub note_rels : Stats → List BlockData → Stats
unfolding note_rel
note_rels s [] = s
note_rels s (b ∷ blocks) = note_rels (note_rel s b.db_node b.rel_node) blocks

abbrev pub count_op : Op → Stats → Stats
count_op op_insert s = record s { inserts = s.inserts + 1 }
count_op op_delete s = record s { deletes = s.deletes + 1 }
count_op op_update s = record s { updates = s.updates + 1 }
count_op op_truncate s = record s { truncates = s.truncates + 1 }
count_op op s = s

-- The counting of `emit`.
unfoldable pub count_change : Change → Stats → Stats
count_change c s = count_op c.op (record s { decoded = s.decoded + 1 })

unfoldable pub count_changes : List Change → Stats → Stats
unfolding count_change
count_changes [] s = s
count_changes (c ∷ cs) s = count_changes cs (count_change c s)
