-- ===== src/Commit/Window.antt =====
-- What the time window of `flashbackFilterCommitTime` lets through.
use db_flashback.Base.{
  ◌≤◌, ◌<◌, ◌≡◌, refl, ◌≢◌, ◌⊎◌, inl, inr, true, List, [], ◌∷◌, ◌++◌, arith, if◌then◌else◌,
  Bool-cases, All,
}
use db_flashback.Change.{Change}
use db_flashback.Commit.{keeps, keep_all, filter_commit_time}
use db_flashback.Time.{Time}

-- The commit time is known and lies between the bounds that are set.
pub record InWindow (from to : Time) (c : Change) : Type 0 where
  pub known : 0 < c.ts
  pub after_from : (from ≡ 0) ⊎ (from ≤ c.ts)
  pub before_to : (to ≡ 0) ⊎ (c.ts ≤ to)

keep_all-append :
    (from to : Time) (xs ys : List Change)
    → keep_all from to (xs ++ ys) ≡ keep_all from to xs ++ keep_all from to ys
unfolding keep_all
keep_all-append from to [] ys = refl
keep_all-append from to (c ∷ cs) ys = elim (Bool-cases (keeps from to c)) [
  | inl k ↦ rw (k, keep_all-append from to cs ys) refl
  | inr k ↦ rw (k, keep_all-append from to cs ys) refl
]

keeps-InWindow : (from to : Time) (c : Change) → InWindow from to c → keeps from to c ≡ true
keeps-InWindow from to c w = ground arith

InWindow-keeps : (from to : Time) (c : Change) → keeps from to c ≡ true → InWindow from to c
InWindow-keeps from to c e = ground arith

pub filter-keep_all :
    (from to : Time) (cs : List Change)
    → (from ≢ 0) ⊎ (to ≢ 0)
    → filter_commit_time cs from to ≡ keep_all from to cs
unfolding filter_commit_time
filter-keep_all from to cs h = ground arith

-- With a bound set, the filter treats each change by itself: a change in the window stays where it
-- is, any other is left out.
pub filter_commit_time_lem :
    (from to : Time) (xs ys : List Change) (c : Change)
    → (from ≢ 0) ⊎ (to ≢ 0)
    → (InWindow from to c
        → filter_commit_time (xs ++ (c ∷ ys)) from to
          ≡ filter_commit_time xs from to ++ (c ∷ filter_commit_time ys from to))
      × (¬ (InWindow from to c)
          → filter_commit_time (xs ++ (c ∷ ys)) from to
            ≡ filter_commit_time xs from to ++ filter_commit_time ys from to)
filter_commit_time_lem from to xs ys c h = (
  λ w. simp (all, keep_all-append, step, keeps-InWindow from to c w),
  λ n. elim (Bool-cases (keeps from to c)) [
    | inl k ↦ absurd (n (InWindow-keeps from to c k))
    | inr k ↦ simp (all, keep_all-append, step, k)
  ],
)
  where
    all : (cs : List Change) → filter_commit_time cs from to ≡ keep_all from to cs
    all cs = filter-keep_all from to cs h

    step :
        keep_all from to (c ∷ ys)
        ≡ (if keeps from to c then c ∷ keep_all from to ys else keep_all from to ys)
    step = unfold keep_all in refl

keep_all-InWindow :
    (from to : Time) (cs : List Change) → All (InWindow from to) (keep_all from to cs)
unfolding keep_all
keep_all-InWindow from to [] = tt
keep_all-InWindow from to (c ∷ cs) = elim (Bool-cases (keeps from to c)) [
  | inl k ↦ rw k (InWindow-keeps from to c k, keep_all-InWindow from to cs)
  | inr k ↦ rw k (keep_all-InWindow from to cs)
]

pub filter_commit_time-InWindow :
    (from to : Time) (cs : List Change)
    → (from ≢ 0) ⊎ (to ≢ 0)
    → All (InWindow from to) (filter_commit_time cs from to)
filter_commit_time-InWindow from to cs h =
    rw (filter-keep_all from to cs h) (keep_all-InWindow from to cs)
