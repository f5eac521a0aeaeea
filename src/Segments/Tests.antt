-- ===== src/Segments/Tests.antt =====
-- Selections among three segments, and the theorems on selections at them.
use db_flashback.Base.{ℕ, ◌≡◌, refl, List, [], ◌∷◌}
use db_flashback.Change.{Text}
use db_flashback.Segments.{
  Source, live, archive, WalFile, select_wal, select_wal_precise, select_pdu_wal,
}
use db_flashback.Segments.Budget.{IsSelection, select_wal_precise-IsSelection}
use db_flashback.Segments.Newest.{IsNewest, select_pdu_wal-IsNewest}
use db_flashback.Sql.Words.{text}

abbrev segment : Text → ℕ → Source → WalFile
segment name time source = record { name = name; size = 16; modification = time; source = source }

abbrev three : List WalFile
three =
    segment (text "03") 30 live
    ∷ (segment (text "01") 10 archive ∷ (segment (text "02") 20 archive ∷ []))

abbrev names : List WalFile → List Text
names [] = []
names (f ∷ files) = f.name ∷ names files

-- The window starts at 25: one earlier segment stays.
earlier_segment : names (select_wal three 25 40 0 (text "03")).picked ≡ text "02" ∷ (text "03" ∷ [])
unfolding select_wal
earlier_segment = refl

-- The oldest goes when the limit is met.
oldest_dropped : names (select_pdu_wal three 40).picked ≡ text "02" ∷ (text "03" ∷ [])
unfolding select_pdu_wal
oldest_dropped = refl

-- The segment of the checkpoint is added.
checkpoint_added :
    names (select_wal_precise three 25 40 100 (text "03") (text "01")).0.picked
    ≡ text "01" ∷ (text "02" ∷ (text "03" ∷ []))
unfolding select_wal_precise
checkpoint_added = refl

select_wal_precise-IsSelection_example :
    IsSelection 100 (select_wal_precise three 25 40 100 (text "03") (text "01")).0
select_wal_precise-IsSelection_example =
    select_wal_precise-IsSelection three 25 40 100 (text "03") (text "01")

select_pdu_wal-IsNewest_example : IsNewest 40 three (select_pdu_wal three 40)
select_pdu_wal-IsNewest_example = select_pdu_wal-IsNewest three 40
