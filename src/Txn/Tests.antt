-- ===== src/Txn/Tests.antt =====
-- The theorems on the transaction buffer at a small history.
use db_flashback.Base.{ℕ, ◌≡◌, refl, List, [], ◌∷◌}
use db_flashback.Change.{Change, blank_change, op_insert}
use db_flashback.Commit.{Commit}
use db_flashback.Txn.Dump.{of_xid, xids_of, dump_all-after}
use db_flashback.Txn.Order.{Ascending}
use db_flashback.Txn.Trace.{Event, added, aborted, after, live_all, pending_of-after, flush-after}
use db_flashback.Txn.{pending_of, flush, dump_all}

abbrev row : ℕ → ℕ → Change
row xid offnum = record blank_change { xid = xid; op = op_insert; offnum = offnum }

-- Transactions 9 and 5 write by turns, 5 is rolled back and 12 begins; the newest event first.
abbrev history : List Event
history =
    added (row 12 4)
    ∷ (aborted (5 ∷ []) ∷ (added (row 9 3) ∷ (added (row 5 2) ∷ (added (row 9 1) ∷ []))))

abbrev both : Commit
both = record { time = 40; sub_xids = 12 ∷ [] }

pending_of-after_example : pending_of (after history) 9 ≡ row 9 1 ∷ (row 9 3 ∷ [])
pending_of-after_example = pending_of-after history 9

flush-after_example : (flush (after history) both 9).1 ≡ live_all 40 (9 ∷ (12 ∷ [])) history
flush-after_example = flush-after history both 9 (refl, (refl, tt))

dump_all-after_example :
    (of_xid 9 (dump_all (after history)).1 ≡ row 9 1 ∷ (row 9 3 ∷ []))
    × Ascending (xids_of (dump_all (after history)).1)
    × (pending_of (dump_all (after history)).0 9 ≡ [])
dump_all-after_example = dump_all-after history 9
