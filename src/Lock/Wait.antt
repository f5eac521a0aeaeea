-- ===== src/Lock/Wait.antt =====
-- How long a task waits for the lock, and that it gets it.
use db_flashback.Base.{
  ℕ, zero, suc, ◌^◌, ◌≤◌, ◌<◌, max, ◌≡◌, refl, ◌⊎◌, inl, inr, Bool, true, false, List, [], ◌∷◌,
  ◌++◌, arith, Bool-cases, All,
}
use db_flashback.Lock.{
  or_unlimited, until_deadline, Context, no_context, endless, deadline, lock_wait_bounded, Poll,
  acquired, wait_for_lock, poll_lock, acquire_run_lock,
}
use db_flashback.Toast.{ℤ, pos, negsuc}

-- A round after which the loop goes on.
abbrev pub IsPatient : Poll → Type 0
IsPatient p = (p.late ≡ false) × (p.done ≡ false)

wait_for_lock-free :
    (before : List Poll) (p : Poll) (polls : List Poll)
    → p.free ≡ true
    → wait_for_lock (before ++ (p ∷ polls)) ≡ acquired
wait_for_lock-free [] p polls h = rw h refl
wait_for_lock-free (q ∷ before) p polls h = elim (Bool-cases q.free) [
  | inl e ↦ rw (wait_for_lock, e) refl
  | inr e ↦ rw (wait_for_lock, e) (wait_for_lock-free before p polls h)
]

poll_lock-free :
    (before : List Poll) (p : Poll) (polls : List Poll)
    → All IsPatient before
    → p.free ≡ true
    → poll_lock (before ++ (p ∷ polls)) ≡ acquired
poll_lock-free [] p polls a h = rw h refl
poll_lock-free (q ∷ before) p polls a h = elim (Bool-cases q.free) [
  | inl e ↦ rw (poll_lock, e) refl
  | inr e ↦ rw (poll_lock, e, a.0.0, a.0.1) (poll_lock-free before p polls a.1 h)
]

-- A wait that is not positive, which has no limit.
abbrev pub is_unlimited : ℤ → Bool
is_unlimited (pos (suc n)) = false
is_unlimited wait = true

-- A task gets the lock in a round that finds it free, or before: always where the wait is not
-- positive, and where it is, if no earlier round meets the end of the time or of the context.
pub acquire_run_lock-free :
    (wait : ℤ) (before : List Poll) (p : Poll) (polls : List Poll)
    → (is_unlimited wait ≡ true) ⊎ All IsPatient before
    → p.free ≡ true
    → acquire_run_lock wait (before ++ (p ∷ polls)) ≡ acquired
unfolding acquire_run_lock
acquire_run_lock-free (pos zero) before p polls a h = wait_for_lock-free before p polls h
acquire_run_lock-free (pos (suc n)) before p polls (inl e) h = absurd cc
acquire_run_lock-free (pos (suc n)) before p polls (inr a) h = poll_lock-free before p polls a h
acquire_run_lock-free (negsuc n) before p polls a h = wait_for_lock-free before p polls h

or_unlimited_positive : (wait : ℤ) → 0 < or_unlimited wait
or_unlimited_positive (pos zero) = omega arith
or_unlimited_positive (pos (suc n)) = omega arith
or_unlimited_positive (negsuc n) = omega arith

until_deadline_left :
    (n w : ℕ)
    → 0 < w
    → (0 < until_deadline (pos (suc n)) w)
      × (until_deadline (pos (suc n)) w ≤ w)
      × (until_deadline (pos (suc n)) w ≤ suc n)
until_deadline_left n w h = ground arith

wait_bounds :
    (ctx : Context) (wait : ℤ)
    → (0 < lock_wait_bounded ctx wait)
      × (lock_wait_bounded ctx wait ≤ max (or_unlimited wait) (10 ^ 6))
unfolding lock_wait_bounded
wait_bounds no_context wait = let p = or_unlimited_positive wait in (p, omega arith)
wait_bounds endless wait = let p = or_unlimited_positive wait in (p, omega arith)
wait_bounds (deadline (pos zero)) wait = (omega arith, omega arith)
wait_bounds (deadline (negsuc n)) wait = (omega arith, omega arith)
wait_bounds (deadline (pos (suc n))) wait =
    let left = until_deadline_left n (or_unlimited wait) (or_unlimited_positive wait) in
    (left.0, omega arith)

-- The wait is positive, at most the one asked for (24 hours where that is not positive, and a
-- millisecond where the deadline is over), and at most what is left until the deadline.
pub lock_wait_bounded_lem :
    (ctx : Context) (wait : ℤ) (n : ℕ)
    → (0 < lock_wait_bounded ctx wait)
      × (lock_wait_bounded ctx wait ≤ max (or_unlimited wait) (10 ^ 6))
      × (lock_wait_bounded (deadline (pos (suc n))) wait ≤ suc n)
unfolding lock_wait_bounded
lock_wait_bounded_lem ctx wait n =
    let (positive, small) = wait_bounds ctx wait in
    (positive, small, (until_deadline_left n (or_unlimited wait) (or_unlimited_positive wait)).2)
