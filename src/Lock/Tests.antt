-- ===== src/Lock/Tests.antt =====
-- The theorems on the lock at small waits.
use db_flashback.Base.{◌≡◌, refl, inr, true, false, [], ◌∷◌}
use db_flashback.Lock.Wait.{acquire_run_lock-free}
use db_flashback.Lock.{Poll, acquired, acquire_run_lock}
use db_flashback.Toast.{pos}

abbrev taken : Poll
taken = record { free = false; late = false; done = false }

abbrev freed : Poll
freed = record { free = true; late = true; done = false }

-- The lock is free in the third round, after the time was over.
acquire_run_lock-free_example :
    acquire_run_lock (pos 10) (taken ∷ (taken ∷ (freed ∷ []))) ≡ acquired
acquire_run_lock-free_example =
    acquire_run_lock-free (pos 10) (taken ∷ (taken ∷ [])) freed []
      (inr ((refl, refl), ((refl, refl), tt))) refl
