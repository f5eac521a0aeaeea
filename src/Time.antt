-- ===== src/Time.antt =====
-- Go's `time.Time` as the nanoseconds since 0001-01-01 00:00:00 UTC, its zero value; and the
-- PostgreSQL timestamps of internal/service/flashback_xact.go. An int64 is its bit pattern.
use db_flashback.Base.{ℕ, ◌+◌, ◌-◌, ◌*◌, ◌%◌, ◌^◌, ◌<◌, Bool, ◌≡◌, arith, ltb, if◌then◌else◌, ◌==◌}

abbrev pub Time : Type 0
Time = ℕ

-- `t.IsZero()`
abbrev pub is_zero : Time → Bool
is_zero t = t == 0

-- `time.Date(2000, 1, 1, 0, 0, 0, 0, time.UTC)`
abbrev pub pg_epoch : Time
pg_epoch = 63082281600 * 10 ^ 9

-- `t.Add(d)` for the int64 bit pattern `d`.
abbrev pub add_duration : Time → ℕ → Time
add_duration t d = if ltb d (2 ^ 63) then t + d else t + d - 2 ^ 64

-- `flashbackPGTimestamp`: the product `time.Duration(us) * time.Microsecond` wraps in an int64.
unfoldable pub pg_timestamp : ℕ → Time
pg_timestamp us = add_duration pg_epoch (us * 1000 % 2 ^ 64)

-- No timestamp of a record is Go's zero time, which the code takes for "unset".
pub pg_timestamp_pos : (us : ℕ) → 0 < pg_timestamp us
unfolding pg_timestamp
pg_timestamp_pos us = ground arith

-- Within 292 years after the epoch the order of timestamps is that of the microseconds.
pub pg_timestamp_lem : (us : ℕ) → us * 1000 < 2 ^ 63 → pg_timestamp us ≡ pg_epoch + us * 1000
unfolding pg_timestamp
pg_timestamp_lem us h = ground arith
