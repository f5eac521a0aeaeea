-- ===== src/Commit/Tests.antt =====
-- The theorems on commits at small inputs.
use db_flashback.Base.{◌≡◌, refl, inl, true, [], ◌∷◌, ◌++◌, arith, replicate}
use db_flashback.Change.{Change, blank_change}
use db_flashback.Commit.Encode.{commit_payload, sub_payload, parse_commit-commit_payload}
use db_flashback.Commit.Window.{InWindow, filter_commit_time_lem}
use db_flashback.Commit.{parse_commit, filter_commit_time}
use db_flashback.Time.{pg_timestamp}

-- A prepared commit with its database and two subtransactions, and a byte behind them.
parse_commit-commit_payload_example :
    parse_commit 0xb0
      (commit_payload true 7 1000 (sub_payload 3 (replicate 8 1) (8 ∷ (9 ∷ [])) (5 ∷ [])))
      true
    ≡ record { time = pg_timestamp 1000; sub_xids = 8 ∷ (9 ∷ []) }
parse_commit-commit_payload_example =
    parse_commit-commit_payload 0xb0 true 7 1000 3 (replicate 8 1) (8 ∷ (9 ∷ [])) (5 ∷ []) refl
      (omega arith) (omega arith) refl refl (omega arith) (omega arith)

abbrev late : Change
late = record blank_change { ts = 30 }

filter_commit_time_lem_example :
    (InWindow 10 20 late
      → filter_commit_time ([] ++ (late ∷ [])) 10 20
        ≡ filter_commit_time [] 10 20 ++ (late ∷ filter_commit_time [] 10 20))
    × (¬ (InWindow 10 20 late)
        → filter_commit_time ([] ++ (late ∷ [])) 10 20
          ≡ filter_commit_time [] 10 20 ++ filter_commit_time [] 10 20)
filter_commit_time_lem_example = filter_commit_time_lem 10 20 [] [] late (inl (omega arith))
