-- ===== src/Segments/Budget.antt =====
-- The limit on the bytes of the chosen segments: flashbackSelectWAL and
-- flashbackSelectWALPrecise of internal/service/flashback_wal.go.
use db_flashback.Base.{
  ℕ, ◌+◌, ◌≤◌, ◌<◌, ◌≡◌, refl, ap, subst, ◌⊎◌, inl, inr, Bool, true, false, not, ◌&&◌, ◌||◌, List,
  [], ◌∷◌, ◌++◌, arith, ltb, ◌==◌, if◌then◌else◌,
}
use db_flashback.Change.{Text}
use db_flashback.Heap.Holds.{if-P}
use db_flashback.Sql.Words.{is_blank}
use db_flashback.Segments.{
  WalFile, Kept, Picked, keep_file, keep_newest, total_size, pick_within, select_wal,
  select_wal_precise, add_extra, with_checkpoint, no_files, has_name,
}
use db_flashback.Time.{Time}

-- The sum is the size of one of the segments.
abbrev HasSize : ℕ → List WalFile → Type 0
HasSize n [] = ⊥
HasSize n (f ∷ files) = (f.size ≡ n) ⊎ HasSize n files

-- A sum within the limit, or of one segment that the limit does not leave out.
abbrev pub Bounded : ℕ → ℕ → List WalFile → Type 0
Bounded limit n files = (n ≤ limit) ⊎ HasSize n files

-- All the segments, or the last ones, with the sum `n`, where the one before them breaks the limit.
pub data Split (limit n : ℕ) (kept : List WalFile) : Bool → List WalFile → Type 0 where
  all : Split limit n kept false kept
  cut_off :
      {files : List WalFile} (before : List WalFile) (f : WalFile)
      → files ≡ before ++ (f ∷ kept)
      → limit < n + f.size
      → Split limit n kept true files

pub record Fits (limit : ℕ) (files : List WalFile) (k : Kept) : Type 0 where
  pub sum : k.keep ≡ total_size k.files
  pub bounded : Bounded limit k.keep k.files
  pub split : Split limit k.keep k.files k.truncated files

if-by {ℓ} :
    {A : Type ℓ} (P : A → Type 0) (b : Bool) (x y : A)
    → (b ≡ true → P x)
    → (b ≡ false → P y)
    → P (if b then x else y)
if-by P true x y p q = p refl
if-by P false x y p q = q refl

over_limit :
    (limit keep size : ℕ)
    → ltb limit (keep + size) && ltb 0 keep ≡ false
    → (keep + size ≤ limit) ⊎ (keep ≡ 0)
over_limit limit keep size h = ground arith

within : (limit n : ℕ) → not (limit == 0) && ltb limit n ≡ false → (limit ≡ 0) ⊎ (n ≤ limit)
within limit n h = ground arith

past_limit : (limit n keep : ℕ) → ltb limit n && ltb 0 keep ≡ true → limit < n
past_limit limit n keep h = ground arith

kept_file :
    (limit : ℕ) (f : WalFile) (k : Kept)
    → Fits limit k.files k
    → (k.keep + f.size ≤ limit) ⊎ (k.keep ≡ 0)
    → Fits limit
        (f ∷ k.files)
        (record { keep = k.keep + f.size; files = f ∷ k.files; truncated = false })
kept_file limit f k h o = record {
  sum = omega (arith, h.sum);
  bounded = elim o [ inl le ↦ inl le | inr z ↦ inr (inl (omega arith)) ];
  split = all;
}

-- The loop at `f`, by whether it has stopped.
keep_file-Fits :
    (limit : ℕ) (f : WalFile) (files kept : List WalFile) (n : ℕ) (t : Bool)
    → n ≡ total_size kept
    → Bounded limit n kept
    → Split limit n kept t files
    → Fits limit (f ∷ files) (keep_file limit f (record { keep = n; files = kept; truncated = t }))
keep_file-Fits limit f _ kept n _ s b all =
    if-by (Fits limit (f ∷ kept)) (ltb limit (n + f.size) && ltb 0 n) _ _
      (λ (e : ltb limit (n + f.size) && ltb 0 n ≡ true). record {
        sum = s;
        bounded = b;
        split = cut_off [] f refl (past_limit limit (n + f.size) n e);
      })
      (λ (e : ltb limit (n + f.size) && ltb 0 n ≡ false).
        kept_file limit f (record { keep = n; files = kept; truncated = false })
          (record { sum = s; bounded = b; split = all }) (over_limit limit n f.size e))
keep_file-Fits limit f files kept n _ s b (cut_off before g e h) = record {
  sum = s;
  bounded = b;
  split = cut_off (f ∷ before) g (ap (λ (xs : List WalFile). f ∷ xs) e) h;
}

pub keep_newest-Fits :
    (limit : ℕ) (files : List WalFile) → Fits limit files (keep_newest limit files)
unfolding keep_newest
keep_newest-Fits limit [] = record { sum = refl; bounded = inl (omega arith); split = all }
keep_newest-Fits limit (f ∷ files) =
    let h = keep_newest-Fits limit files in
    keep_file-Fits limit f files _ _ _ h.sum h.bounded h.split

-- The sum is that of the segments, and within the limit when there is one.
pub record IsSelection (limit : ℕ) (p : Picked) : Type 0 where
  pub sum : p.total ≡ total_size p.picked
  pub bounded : (limit ≡ 0) ⊎ Bounded limit p.total p.picked

pick_within-IsSelection :
    (limit : ℕ) (cands : List WalFile) → IsSelection limit (pick_within limit cands)
unfolding pick_within
pick_within-IsSelection limit cands =
    let h = keep_newest-Fits limit cands in
    if-by (IsSelection limit) (limit == 0) _ _
      (λ (e : limit == 0 ≡ true). record { sum = refl; bounded = inl (ground arith) })
      (λ (e : limit == 0 ≡ false). record {
        sum = refl;
        bounded =
            inr
              (subst (λ (n : ℕ). Bounded limit n (keep_newest limit cands).files) h.sum h.bounded);
      })

total_size-append : (xs ys : List WalFile) → total_size (xs ++ ys) ≡ total_size xs + total_size ys
total_size-append [] ys = omega arith
total_size-append (f ∷ xs) ys = let ih = total_size-append xs ys in omega arith

add_extra-IsSelection :
    (limit : ℕ) (p : Picked) (e : List WalFile × Bool)
    → IsSelection limit p
    → IsSelection limit (add_extra limit p e).0
add_extra-IsSelection limit p (extra, false) h = h
add_extra-IsSelection limit p (extra, true) h =
    if-by (λ (r : Picked × Bool). IsSelection limit r.0)
      (not (limit == 0) && ltb limit (p.total + total_size extra)) _ _
      (λ (e : not (limit == 0) && ltb limit (p.total + total_size extra) ≡ true). record {
        sum = h.sum;
        bounded = h.bounded;
      })
      (λ (e : not (limit == 0) && ltb limit (p.total + total_size extra) ≡ false). record {
        sum = let s = h.sum in let a = total_size-append extra p.picked in omega arith;
        bounded = elim (within limit (p.total + total_size extra) e) [
          | inl z ↦ inl z
          | inr le ↦ inr (inl le)
        ];
      })

with_checkpoint-IsSelection :
    (limit : ℕ) (p : Picked) (name : Text) (extra : List WalFile × Bool)
    → IsSelection limit p
    → IsSelection limit (with_checkpoint limit p name extra).0
with_checkpoint-IsSelection limit p name extra h =
    if-P (λ (r : Picked × Bool). IsSelection limit r.0) (is_blank name || no_files p.picked) h
      (if-P (λ (r : Picked × Bool). IsSelection limit r.0) (has_name name p.picked) h
        (add_extra-IsSelection limit p extra h))

select_wal-IsSelection :
    (files : List WalFile) (from to : Time) (limit : ℕ) (current : Text)
    → IsSelection limit (select_wal files from to limit current)
unfolding select_wal
select_wal-IsSelection files from to limit current = pick_within-IsSelection limit _

-- The total of a selection is the sum of the sizes of its segments, with those added for the
-- checkpoint. When there is a limit, the total is within it, or it is the size of one segment.
pub select_wal_precise-IsSelection :
    (files : List WalFile) (from to : Time) (limit : ℕ) (current checkpoint : Text)
    → IsSelection limit (select_wal_precise files from to limit current checkpoint).0
unfolding select_wal_precise
select_wal_precise-IsSelection files from to limit current checkpoint =
    with_checkpoint-IsSelection limit (select_wal files from to limit current) _ _
      (select_wal-IsSelection files from to limit current)
