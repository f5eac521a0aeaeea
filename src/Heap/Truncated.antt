-- ===== src/Heap/Truncated.antt =====
-- The changes of truncated tables belong to the transaction of the record.
use db_flashback.Base.{
  ℕ, refl, not, ◌&&◌, ◌||◌, Option, none, some, List, [], ◌∷◌, ltb, ◌==◌, length, All, mem,
}
use db_flashback.Bytes.{Bytes, u32}
use db_flashback.Change.{Change}
use db_flashback.Commit.{read_xids}
use db_flashback.Dict.{Relation}
use db_flashback.Heap.Dispatch.{one_change}
use db_flashback.Heap.Holds.{if-P}
use db_flashback.Heap.Images.{IsImage}
use db_flashback.Heap.{
  truncate_found, truncate_ids, heap_truncate_at, or_next, decode_heap_truncate,
}
use db_flashback.Reader.Window.{All-append}
use db_flashback.Reader.{max_align}

module _ (find : ℕ → Option Relation) (xid dboid : ℕ) where
  abbrev AreImages : List Change → Type 0
  AreImages out = All (IsImage xid) out

  truncate_found-All :
      (r : Option Relation) → AreImages (truncate_found find one_change xid dboid r)
  truncate_found-All none = tt
  truncate_found-All (some rel) =
      if-P AreImages
        (rel.missing || (not (dboid == 0) && (not (rel.db_oid == 0) && not (rel.db_oid == dboid))))
        tt ((refl, tt), tt)

  truncate_ids-All :
      (ids seen : List ℕ) → AreImages (truncate_ids find one_change xid dboid seen ids)
  unfolding truncate_ids
  truncate_ids-All [] seen = tt
  truncate_ids-All (relid ∷ ids) seen =
      if-P AreImages ((relid == 0) || mem relid seen) (truncate_ids-All ids seen) (
        All-append (IsImage xid) (truncate_found find one_change xid dboid (find relid)) _
          (truncate_found-All (find relid)) (truncate_ids-All ids (relid ∷ seen)))

  or_next-All :
      (xs ys : List Change)
      → AreImages xs
      → AreImages ys
      → AreImages (or_next find one_change xid dboid xs ys)
  or_next-All [] ys a b = b
  or_next-All (x ∷ xs) ys a b = a

  pub decode_heap_truncate-All :
      (main : Bytes) → AreImages (decode_heap_truncate find one_change xid dboid main)
  unfolding decode_heap_truncate heap_truncate_at
  decode_heap_truncate-All main =
      let nrel = u32 main 4 in
      let at = λ (off : ℕ). truncate_ids-All (read_xids nrel main off) [] in
      if-P AreImages (ltb (length main) 9) tt (
        if-P AreImages ((nrel == 0) || ltb 4096 nrel) tt
          (or_next-All _ _ (at (max_align 9)) (or_next-All _ _ (at 12) (at 9))))
