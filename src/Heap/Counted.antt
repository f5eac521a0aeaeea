-- ===== src/Heap/Counted.antt =====
-- The counter of decoded changes, and the parts of a step that leave it as it is.
use db_flashback.Base.{
  ℕ, ◌+◌, ◌≡◌, refl, ◌∙◌, inl, inr, Option, List, [], ◌∷◌, arith, Option-cases, length,
}
use db_flashback.Change.{
  Change, Op, op_insert, op_update, op_delete, op_create, op_drop, op_alter, op_truncate, op_other,
}
use db_flashback.Dict.{Dictionary}
use db_flashback.Fpw.Cache.{FpwCache}
use db_flashback.Fpw.{Codecs}
use db_flashback.Heap.Stats.{Stats, note_rel, note_rels, count_op, count_change, count_changes}
use db_flashback.Heap.World.{Catalog, World, cache_block, cache_blocks, cache_wanted_fpw}
use db_flashback.Record.{BlockData}

count_op-decoded : (op : Op) (s : Stats) → (count_op op s).decoded ≡ s.decoded
count_op-decoded op_insert s = refl
count_op-decoded op_update s = refl
count_op-decoded op_delete s = refl
count_op-decoded op_create s = refl
count_op-decoded op_drop s = refl
count_op-decoded op_alter s = refl
count_op-decoded op_truncate s = refl
count_op-decoded (op_other v) s = refl

pub count_changes-decoded :
    (out : List Change) (s : Stats) → (count_changes out s).decoded ≡ s.decoded + length out
unfolding count_changes
count_changes-decoded [] s = omega arith
count_changes-decoded (c ∷ out) s = omega (
  arith,
  count_changes-decoded out (count_change c s),
  count_op-decoded c.op (record s { decoded = s.decoded + 1 }),
)

note_rel-decoded : (s : Stats) (db rel : ℕ) → (note_rel s db rel).decoded ≡ s.decoded
unfolding note_rel
note_rel-decoded s db rel = ground arith

pub note_rels-decoded :
    (blocks : List BlockData) (s : Stats) → (note_rels s blocks).decoded ≡ s.decoded
unfolding note_rels
note_rels-decoded [] s = refl
note_rels-decoded (b ∷ blocks) s =
    note_rels-decoded blocks (note_rel s b.db_node b.rel_node)
    ∙ note_rel-decoded s b.db_node b.rel_node

module _ {K : Type 0} (cat : Catalog K) (dict : Dictionary) (codecs : Codecs) where
  cache_block-decoded :
      (k : Option K) (b : BlockData) (c : FpwCache) (s : Stats)
      → (cache_block cat dict codecs k b c s).1.decoded ≡ s.decoded
  unfolding cache_block
  cache_block-decoded k b c s = ground arith

  cache_blocks-decoded :
      (k : Option K) (blocks : List BlockData) (c : FpwCache) (s : Stats)
      → (cache_blocks cat dict codecs k blocks c s).1.decoded ≡ s.decoded
  unfolding cache_blocks
  cache_blocks-decoded k [] c s = refl
  cache_blocks-decoded k (b ∷ blocks) c s =
      cache_blocks-decoded k blocks _ _ ∙ cache_block-decoded k b c s

  -- The counter stays, and so does the catalog.
  pub cache_wanted_fpw-decoded :
      (blocks : List BlockData) (w : World K)
      → (cache_wanted_fpw cat dict codecs blocks w).stats.decoded ≡ w.stats.decoded
  unfolding cache_wanted_fpw
  cache_wanted_fpw-decoded blocks w = elim (Option-cases w.fpw) [
    | inl e ↦ rw e refl
    | inr (c, e) ↦ rw e (cache_blocks-decoded w.catalog blocks c w.stats)
  ]
