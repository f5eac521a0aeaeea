-- ===== src/Segments/Newest.antt =====
-- Which segments of an offline copy are chosen: flashbackSelectPDUWAL of
-- internal/service/flashback_wal.go.
use db_flashback.Base.{
  ℕ, ◌<◌, ◌≡◌, ◌∙◌, subst, ◌⊎◌, inl, inr, Bool, true, false, ◌&&◌, ◌||◌, List, [], ◌∷◌, arith, ltb,
  ◌==◌, Bool-cases, All,
}
use db_flashback.Change.{Text}
use db_flashback.Heap.Holds.{if-P}
use db_flashback.Segments.Budget.{Split, all, keep_newest-Fits}
use db_flashback.Segments.{
  WalFile, Picked, insert_file, sort_files, keep_newest, pick_within, select_pdu_wal,
}
use db_flashback.Sql.Words.{text_before}
use mathlib.Core.List.{Perm}
use mathlib.Core.List.Perm

-- `a` is not after `b` in the order of strings.
abbrev pub NotAfter : Text → Text → Type 0
NotAfter [] b = Unit
NotAfter (x ∷ a) [] = ⊥
NotAfter (x ∷ a) (y ∷ b) = (x < y) ⊎ ((x ≡ y) × NotAfter a b)

NotAfter-trans : (a b c : Text) → NotAfter a b → NotAfter b c → NotAfter a c
NotAfter-trans [] b c h k = tt
NotAfter-trans (x ∷ a) [] c h k = elim h [ ]
NotAfter-trans (x ∷ a) (y ∷ b) [] h k = elim k [ ]
NotAfter-trans (x ∷ a) (y ∷ b) (z ∷ c) (inl h) (inl k) = inl (omega arith)
NotAfter-trans (x ∷ a) (y ∷ b) (z ∷ c) (inl h) (inr k) = inl (omega (arith, k.0))
NotAfter-trans (x ∷ a) (y ∷ b) (z ∷ c) (inr h) (inl k) = inl (omega (arith, h.0))
NotAfter-trans (x ∷ a) (y ∷ b) (z ∷ c) (inr h) (inr k) =
    inr (h.0 ∙ k.0, NotAfter-trans a b c h.1 k.1)

first_letters :
    (x y : ℕ) (t : Bool) → ltb x y || ((x == y) && t) ≡ true → (x < y) ⊎ ((x ≡ y) × (t ≡ true))
first_letters x y t h = ground arith

not_first_letters :
    (x y : ℕ) (t : Bool) → ltb x y || ((x == y) && t) ≡ false → (y < x) ⊎ ((y ≡ x) × (t ≡ false))
not_first_letters x y t h = ground arith

NotAfter-before : (a b : Text) → text_before a b ≡ true → NotAfter a b
NotAfter-before [] b h = tt
NotAfter-before (x ∷ a) [] h = absurd cc
NotAfter-before (x ∷ a) (y ∷ b) h = elim (first_letters x y (text_before a b) h) [
  | inl l ↦ inl l
  | inr e ↦ inr (e.0, NotAfter-before a b e.1)
]

NotAfter-not_before : (a b : Text) → text_before a b ≡ false → NotAfter b a
NotAfter-not_before a [] h = tt
NotAfter-not_before [] (y ∷ b) h = absurd cc
NotAfter-not_before (x ∷ a) (y ∷ b) h = elim (not_first_letters x y (text_before a b) h) [
  | inl l ↦ inl l
  | inr e ↦ inr (e.0, NotAfter-not_before a b e.1)
]

-- No segment stands behind one with a later name.
abbrev pub ByName : List WalFile → Type 0
ByName [] = Unit
ByName (f ∷ files) = All (λ (g : WalFile). NotAfter f.name g.name) files × ByName files

insert_file-All :
    (P : WalFile → Type 0) (f : WalFile) (files : List WalFile)
    → P f
    → All P files
    → All P (insert_file f files)
insert_file-All P f [] h a = (h, tt)
insert_file-All P f (g ∷ files) h a = elim (Bool-cases (text_before g.name f.name)) [
  | inl e ↦ rw (insert_file, e) (a.0, insert_file-All P f files h a.1)
  | inr e ↦ rw (insert_file, e) (h, a)
]

All-later :
    (f g : WalFile) (files : List WalFile)
    → NotAfter f.name g.name
    → All (λ (k : WalFile). NotAfter g.name k.name) files
    → All (λ (k : WalFile). NotAfter f.name k.name) files
All-later f g [] h a = tt
All-later f g (k ∷ files) h a =
    (NotAfter-trans f.name g.name k.name h a.0, All-later f g files h a.1)

insert_file-ByName :
    (f : WalFile) (files : List WalFile) → ByName files → ByName (insert_file f files)
insert_file-ByName f [] h = (tt, tt)
insert_file-ByName f (g ∷ files) h = elim (Bool-cases (text_before g.name f.name)) [
  | inl e ↦
      rw (insert_file, e)
        (
          insert_file-All (λ (k : WalFile). NotAfter g.name k.name) f files
              (NotAfter-before g.name f.name e) h.0,
          insert_file-ByName f files h.1,
        )
  | inr e ↦
      rw (insert_file, e)
        (let le = NotAfter-not_before g.name f.name e in ((le, All-later f g files le h.0), h))
]

sort_files-ByName : (files : List WalFile) → ByName (sort_files files)
unfolding sort_files
sort_files-ByName [] = tt
sort_files-ByName (f ∷ files) = insert_file-ByName f (sort_files files) (sort_files-ByName files)

insert_file-Perm : (f : WalFile) (files : List WalFile) → Perm (insert_file f files) (f ∷ files)
insert_file-Perm f [] = Perm.refl _
insert_file-Perm f (g ∷ files) = elim (Bool-cases (text_before g.name f.name)) [
  | inl e ↦
      rw (insert_file, e)
        (Perm.trans (Perm.cons g (insert_file-Perm f files)) (Perm.swap f g files))
  | inr e ↦ rw (insert_file, e) (Perm.refl _)
]

sort_files-Perm : (files : List WalFile) → Perm (sort_files files) files
unfolding sort_files
sort_files-Perm [] = Perm.refl []
sort_files-Perm (f ∷ files) =
    Perm.trans (insert_file-Perm f (sort_files files)) (Perm.cons f (sort_files-Perm files))

-- The segments in the order of their names are those left out and then those picked. None is left
-- out, or the selection is reported as truncated and the last one left out would break the limit.
pub record IsNewest (limit : ℕ) (files : List WalFile) (p : Picked) : Type 0 where
  pub sorted : List WalFile
  pub by_name : ByName sorted
  pub same_files : Perm sorted files
  pub split : Split limit p.total p.picked p.truncated sorted

-- For an offline copy the segments picked are the last ones by name: all of them, not reported as
-- truncated, or reported as truncated and such that with one more the total is above the limit.
pub select_pdu_wal-IsNewest :
    (files : List WalFile) (limit : ℕ) → IsNewest limit files (select_pdu_wal files limit)
unfolding select_pdu_wal pick_within
select_pdu_wal-IsNewest files limit =
    let h = keep_newest-Fits limit (sort_files files) in
    if-P (IsNewest limit files) (limit == 0)
      (record {
        sorted = sort_files files;
        by_name = sort_files-ByName files;
        same_files = sort_files-Perm files;
        split = all;
      })
      (record {
        sorted = sort_files files;
        by_name = sort_files-ByName files;
        same_files = sort_files-Perm files;
        split =
            subst
              (λ (n : ℕ).
                Split limit n (keep_newest limit (sort_files files)).files
                  (keep_newest limit (sort_files files)).truncated (sort_files files))
              h.sum h.split;
      })
