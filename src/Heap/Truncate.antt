-- ===== src/Heap/Truncate.antt =====
-- Truncation records as PostgreSQL writes them (xl_heap_truncate, whose ids follow the flags at
-- byte 12), and what the decoder makes of them.
use db_flashback.Base.{
  ℕ, zero, suc, ◌+◌, ◌≤◌, ◌<◌, ◌≡◌, refl, ap, ◌∙◌, ◌≢◌, true, false, Option, List, [], ◌∷◌, ◌++◌,
  append_assoc, arith, ltb, leb, le→leb, lt→leb, le→ltb, ==_ne, length, length-append,
}
use db_flashback.Bytes.{Bytes, u32, le32, u32-le32, u32-append}
use db_flashback.Change.{Change}
use db_flashback.Commit.Encode.{le32s, AreU32}
use db_flashback.Commit.{read_xids}
use db_flashback.Dict.{Relation}
use db_flashback.Heap.{truncate_ids, heap_truncate_at, or_next, decode_heap_truncate}

-- The database, the number of ids, the flags and three bytes of padding, the ids.
abbrev pub truncate_main : ℕ → ℕ → List ℕ → Bytes
truncate_main db flags ids = le32 db ++ (le32 (length ids) ++ (flags ∷ (0 ∷ (0 ∷ (0 ∷ le32s ids)))))

-- With more rounds than ids the loop stops at the end of the bytes.
read_xids-end :
    (n : ℕ) (ids : List ℕ) (pre : Bytes) (off : ℕ)
    → length ids ≤ n
    → off ≡ length pre
    → AreU32 ids
    → read_xids n (pre ++ le32s ids) off ≡ ids
unfolding read_xids
read_xids-end zero [] pre off h e a = refl
read_xids-end zero (x ∷ ids) pre off h e a = absurd (omega arith)
read_xids-end (suc n) [] pre off h e a =
    let over : leb (off + 4) (length (pre ++ [])) ≡ false =
      lt→leb _ _ (omega (arith, length-append {A = ℕ} pre [])) in
    rw over refl
read_xids-end (suc n) (x ∷ ids) pre off h e a =
    let all = pre ++ le32s (x ∷ ids) in
    let fits : leb (off + 4) (length all) ≡ true =
      le→leb _ _ (omega (arith, length-append pre (le32s (x ∷ ids)))) in
    let first : u32 all off ≡ x = u32-append pre _ e ∙ u32-le32 x (le32s ids) a.0 in
    let more : read_xids n all (off + 4) ≡ ids = rw (append_assoc pre (le32 x) (le32s ids)) at (
      read_xids-end n ids (pre ++ le32 x) (off + 4) (omega arith)
        (omega (arith, length-append pre (le32 x))) a.1) in
    rw (fits, first, more) refl

module _ (rel_of : ℕ → Option Relation) (emit : Change → List Change) (xid dboid : ℕ) where
  abbrev next : List Change → List Change → List Change
  next = or_next rel_of emit xid dboid

  next-some : (xs ys : List Change) → xs ≢ [] → next xs ys ≡ xs
  next-some [] ys h = absurd (h refl)
  next-some (x ∷ xs) ys h = refl

  -- The decoder first reads the ids from byte 16 on, so of the tables that a record truncates it
  -- gives the changes of all but the first, and those of the first only where the others have no
  -- change.
  pub decode_heap_truncate-truncate_main :
      (db flags relid : ℕ) (ids : List ℕ)
      → AreU32 (relid ∷ ids)
      → length ids < 4096
      → truncate_ids rel_of emit xid dboid [] (relid ∷ ids) ≢ []
      → decode_heap_truncate rel_of emit xid dboid (truncate_main db flags (relid ∷ ids))
        ≡ or_next rel_of emit xid dboid
            (truncate_ids rel_of emit xid dboid [] ids)
            (truncate_ids rel_of emit xid dboid [] (relid ∷ ids))
  unfolding decode_heap_truncate
  decode_heap_truncate-truncate_main db flags relid ids a n some_change =
      rw (long, count)
        (rw (==_ne k 0 (omega arith), le→ltb 4096 k (omega arith))
          (rw (from_16, from_12)
            (ap (next (truncate_ids rel_of emit xid dboid [] ids)) (next-some _ _ some_change))))
    where
      k : ℕ
      k = suc (length ids)

      main : Bytes
      main = truncate_main db flags (relid ∷ ids)

      before : Bytes
      before = le32 db ++ (le32 k ++ (flags ∷ (0 ∷ (0 ∷ (0 ∷ [])))))

      long : ltb (length main) 9 ≡ false
      long = le→ltb _ _ (omega arith)

      behind : Bytes
      behind = flags ∷ (0 ∷ (0 ∷ (0 ∷ le32s (relid ∷ ids))))

      count : u32 main 4 ≡ k
      count = u32-append (le32 db) (le32 k ++ behind) refl ∙ u32-le32 k behind (omega arith)

      from_16 :
          heap_truncate_at rel_of emit xid dboid main k 16
          ≡ truncate_ids rel_of emit xid dboid [] ids
      from_16 =
          unfold heap_truncate_at in
          ap (truncate_ids rel_of emit xid dboid [])
            (read_xids-end k ids (before ++ le32 relid) 16 (omega arith) refl a.1)

      from_12 :
          heap_truncate_at rel_of emit xid dboid main k 12
          ≡ truncate_ids rel_of emit xid dboid [] (relid ∷ ids)
      from_12 =
          unfold heap_truncate_at in
          ap (truncate_ids rel_of emit xid dboid [])
            (read_xids-end k (relid ∷ ids) before 12 (omega arith) refl a)
