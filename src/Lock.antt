-- ===== src/Lock.antt =====
-- The lock of flashback tasks, of which one runs at a time, internal/service/flashback_lock.go.
pub mod Wait
mod Tests
use db_flashback.Base.{ℕ, suc, ◌*◌, ◌^◌, Bool, List, [], ◌∷◌, ltb, if◌then◌else◌}
use db_flashback.Toast.{ℤ, pos}

-- `flashbackRunLockWaitUnlimited`, 24 hours in nanoseconds.
abbrev pub unlimited_wait : ℕ
unlimited_wait = 24 * 3600 * 10 ^ 9

-- A wait that is not positive is the unlimited one.
abbrev pub or_unlimited : ℤ → ℕ
or_unlimited (pos (suc n)) = suc n
or_unlimited wait = unlimited_wait

-- The wait under a deadline after `remain`.
abbrev pub until_deadline : ℤ → ℕ → ℕ
until_deadline (pos (suc n)) wait = if ltb (suc n) wait then suc n else wait
until_deadline remain wait = 10 ^ 6

-- A context: nil, or with what is left until its deadline, if it has one.
pub data Context : Type 0 where
  no_context endless : Context
  deadline : ℤ → Context

-- `flashbackLockWaitBounded`
unfoldable pub lock_wait_bounded : Context → ℤ → ℕ
lock_wait_bounded (deadline remain) wait = until_deadline remain (or_unlimited wait)
lock_wait_bounded ctx wait = or_unlimited wait

-- What a round of the loop meets: `TryLock` succeeds, the time is over, the context ends first.
pub record Poll : Type 0 where
  pub free : Bool
  pub late : Bool
  pub done : Bool

pub data Acquired : Type 0 where
  acquired timed_out cancelled waiting : Acquired

-- `Lock`, which waits until the lock is free.
abbrev pub wait_for_lock : List Poll → Acquired
wait_for_lock [] = waiting
wait_for_lock (p ∷ polls) = if p.free then acquired else wait_for_lock polls

-- The loop of `flashbackAcquireRunLock`.
abbrev pub poll_lock : List Poll → Acquired
poll_lock [] = waiting
poll_lock (p ∷ polls) =
    let more = poll_lock polls in
    if p.free then acquired else if p.late then timed_out else if p.done then cancelled else more

-- `flashbackAcquireRunLock`, as far as the rounds go.
unfoldable pub acquire_run_lock : ℤ → List Poll → Acquired
acquire_run_lock (pos (suc n)) polls = poll_lock polls
acquire_run_lock wait polls = wait_for_lock polls
