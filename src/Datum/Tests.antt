-- ===== src/Datum/Tests.antt =====
-- The theorems on values at small inputs.
use db_flashback.Base.{◌+◌, ◌%◌, ◌≤◌, ◌<◌, ◌≡◌}
use db_flashback.Datum.Varlena.{align_off_lem}
use db_flashback.Datum.{align_int, align_off}

align_off_lem_example :
    (13 ≤ align_off 13 align_int)
    × (align_off 13 align_int < 13 + 4)
    × (align_off 13 align_int % 4 ≡ 0)
align_off_lem_example = align_off_lem 13 align_int
