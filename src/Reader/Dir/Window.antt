-- ===== src/Reader/Dir/Window.antt =====
-- The time window over all segments of a directory.
use db_flashback.Base.{
  ◌≡◌, ◌∙◌, ◌≢◌, ◌⊎◌, inl, inr, Bool, true, false, not, ◌||◌, Option, none, some, List, [], ◌∷◌,
  ◌++◌, arith, if◌then◌else◌, Bool-cases, All,
}
use mathlib.Core.Path.{subst₂}
use db_flashback.Bytes.{Bytes}
use db_flashback.Change.{Change}
use db_flashback.Commit.Window.{InWindow}
use db_flashback.Reader.Dir.{
  Callback, call_all, LoopEnd, left, returned, walk_segments, finish_parser, finish_walk, walk_dir,
}
use db_flashback.Reader.Framing.{is_full, feed_pages}
use db_flashback.Reader.Window.{IsQuiet, All-append, feed_pages-StaysIn}
use db_flashback.Reader.{Decoder, Reader}
use db_flashback.Time.{Time, is_zero}

call_all-All :
    (P : Change → Type 0) (f : Callback) (calls cs : List Change)
    → All P calls
    → All P cs
    → All P (call_all f calls cs).0
unfolding call_all
call_all-All P f calls [] a b = a
call_all-All P f calls (c ∷ cs) a b =
    let longer = All-append P calls (c ∷ []) a (b.0, tt) in
    elim (Bool-cases (f calls c)) [
      | inl goes ↦ rw goes (call_all-All P f (calls ++ (c ∷ [])) cs longer b.1)
      | inr stops ↦ rw stops longer
    ]

-- All calls lie in the window, and the reader that is left has it still.
abbrev EndsIn : {S : Type 0} → Time → Time → LoopEnd S → Type 0
EndsIn from to (left r calls) =
    (r.core.time_from ≡ from) × (r.core.time_to ≡ to) × All (InWindow from to) calls
EndsIn from to (returned calls) = All (InWindow from to) calls

EndsIn-if :
    {S : Type 0} (from to : Time) (t : Bool) (a b : LoopEnd S)
    → EndsIn from to a
    → EndsIn from to b
    → EndsIn from to (if t then a else b)
EndsIn-if from to true a b x y = x
EndsIn-if from to false a b x y = y

if-true :
    (b : Bool) (xs ys : List Change) (P : Change → Type 0)
    → b ≡ true
    → All P xs
    → All P (if b then xs else ys)
if-true true xs ys P h a = a
if-true false xs ys P h a = absurd cc

module _ {S : Type 0} (dec : Decoder S) (quiet : IsQuiet dec) (f : Callback) (from to : Time) where
  walk_segments-EndsIn :
      (segments : List (Option (List Bytes))) (r : Reader S) (calls : List Change)
      → (from ≢ 0) ⊎ (to ≢ 0)
      → r.core.time_from ≡ from
      → r.core.time_to ≡ to
      → All (InWindow from to) calls
      → EndsIn from to (walk_segments dec f r calls segments)
  unfolding walk_segments
  walk_segments-EndsIn [] r calls h e e' a = (e, e', a)
  walk_segments-EndsIn (none ∷ segments) r calls h e e' a =
      EndsIn-if from to (is_full r.core || r.core.past_end) (left r calls) (returned calls)
        (e, e', a) a
  walk_segments-EndsIn (some pages ∷ segments) r calls h e e' a =
      let fed = feed_pages-StaysIn dec quiet pages r in
      let (r', out) = feed_pages dec r pages in
      let (calls', go_on) = call_all f calls out in
      let inside : All (InWindow from to) out =
        subst₂ (λ x y. (x ≢ 0) ⊎ (y ≢ 0) → All (InWindow x y) out) e e' fed.within h in
      let called = call_all-All (InWindow from to) f calls out a inside in
      EndsIn-if from to (is_full r.core || r.core.past_end) (left r calls) _ (e, e', a)
        (EndsIn-if from to go_on (walk_segments dec f r' calls' segments) (returned calls')
          (walk_segments-EndsIn segments r' calls' h (fed.same_from ∙ e) (fed.same_to ∙ e') called)
          called)

  finish_walk-InWindow :
      (end : LoopEnd S) (flush_all : S → List Change)
      → (from ≢ 0) ⊎ (to ≢ 0)
      → EndsIn from to end
      → All (InWindow from to) (finish_walk dec f flush_all end)
  finish_walk-InWindow (returned calls) flush_all h a = a
  finish_walk-InWindow (left r calls) flush_all h (e, e', a) =
      let bounded : (not (is_zero r.core.time_from) || not (is_zero r.core.time_to)) ≡ true =
        ground (arith, e, e') in
      unfold finish_parser in if-true _ _ _ (InWindow from to) bounded a

  -- With a bound of the time window set, every change that a directory of any segments gives, up
  -- to its end, to a failed read, or to the first change that is refused, carries a commit time in
  -- the window.
  pub walk_dir-InWindow :
      (segments : List (Option (List Bytes))) (r : Reader S) (flush_all : S → List Change)
      → (from ≢ 0) ⊎ (to ≢ 0)
      → r.core.time_from ≡ from
      → r.core.time_to ≡ to
      → All (InWindow from to) (walk_dir dec f r flush_all segments)
  unfolding walk_dir
  walk_dir-InWindow segments r flush_all h e e' =
      finish_walk-InWindow (walk_segments dec f r [] segments) flush_all h
        (walk_segments-EndsIn segments r [] h e e' tt)
