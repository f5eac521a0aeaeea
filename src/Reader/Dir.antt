-- ===== src/Reader/Dir.antt =====
-- The segments of a directory in the order of their names, and what is left at the end:
-- flashbackWalkWALDir and flashbackFinishParser of internal/service/flashback_walparse.go. A
-- segment is its pages, or `none` where reading it fails.
pub mod Window
use db_flashback.Base.{
  Bool, true, false, not, ◌||◌, Option, none, some, List, [], ◌∷◌, ◌++◌, if◌then◌else◌,
}
use db_flashback.Bytes.{Bytes}
use db_flashback.Change.{Change}
use db_flashback.Reader.Framing.{is_full, feed_pages}
use db_flashback.Reader.{Decoder, Core, Reader, flush_pending}
use db_flashback.Time.{is_zero}

-- The callback `emit`: what it answers to a change after those it was called with before.
abbrev pub Callback : Type 0
Callback = List Change → Change → Bool

-- `for _, c := range ch`: all calls so far, and whether each was answered with true.
unfoldable pub call_all : Callback → List Change → List Change → List Change × Bool
call_all f calls [] = (calls, true)
call_all f calls (c ∷ cs) =
    let more = call_all f (calls ++ (c ∷ [])) cs in
    if f calls c then more else (calls ++ (c ∷ []), false)

-- How the loop over the names ends: at its end or a `break`, or with a `return`.
pub data LoopEnd (S : Type 0) : Type 0 where
  left : Reader S → List Change → LoopEnd S
  returned : List Change → LoopEnd S

module _ {S : Type 0} (dec : Decoder S) (f : Callback) where
  -- The loop over the names.
  unfoldable pub walk_segments : Reader S → List Change → List (Option (List Bytes)) → LoopEnd S
  unfolding call_all
  walk_segments r calls [] = left r calls
  walk_segments r calls (none ∷ segments) =
      if is_full r.core || r.core.past_end then left r calls else returned calls
  walk_segments r calls (some pages ∷ segments) =
      let (r', out) = feed_pages dec r pages in
      let (calls', go_on) = call_all f calls out in
      let more = walk_segments r' calls' segments in
      if is_full r.core || r.core.past_end
      then left r calls
      else if go_on
      then more
      else returned calls'

  -- `flashbackFinishParser`; `flush_all` is what the catalog still holds.
  unfoldable pub finish_parser : Core S → (S → List Change) → List Change → List Change
  unfolding call_all
  finish_parser p flush_all calls =
      let (p', out) = flush_pending p in
      let (calls', go_on) = call_all f calls out in
      if not (is_zero p.time_from) || not (is_zero p.time_to)
      then calls
      else if go_on
      then (call_all f calls' (flush_all p'.decoder_state)).0
      else calls'

  abbrev pub finish_walk : (S → List Change) → LoopEnd S → List Change
  finish_walk flush_all (returned calls) = calls
  finish_walk flush_all (left r calls) = finish_parser r.core flush_all calls

  -- `flashbackWalkWALDir`: all calls of `emit`.
  unfoldable pub walk_dir : Reader S → (S → List Change) → List (Option (List Bytes)) → List Change
  unfolding walk_segments finish_parser
  walk_dir r flush_all segments = finish_walk flush_all (walk_segments r [] segments)
