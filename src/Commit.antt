-- ===== src/Commit.antt =====
-- The commit and abort payload of internal/service/flashback_xact.go: `flashbackParseXactCommit`
-- and `flashbackFilterCommitTime`.
pub mod Encode
pub mod Window
mod Tests
use db_flashback.Base.{
  ℕ, zero, suc, ◌+◌, ◌^◌, min, Bool, true, false, not, ◌&&◌, ◌||◌, List, [], ◌∷◌, ltb, leb,
  if◌then◌else◌, length,
}
use db_flashback.Bytes.{Bytes, u32, u64, has}
use db_flashback.Change.{Change}
use db_flashback.Time.{Time, is_zero, pg_timestamp}

-- `flashbackXactCommit`
pub record Commit : Type 0 where
  pub time : Time
  pub sub_xids : List ℕ

abbrev pub no_commit : Commit
no_commit = record { time = 0; sub_xids = [] }

-- `int(int32(…))` clamped to the range 0 to 1<<20.
abbrev pub sub_count : ℕ → ℕ
sub_count w = if ltb w (2 ^ 31) then min w (2 ^ 20) else 0

-- `for i := 0; i < n && off+4 <= len(payload); i++`
unfoldable pub read_xids : ℕ → Bytes → ℕ → List ℕ
read_xids zero p off = []
read_xids (suc n) p off =
    let rest = read_xids n p (off + 4) in if leb (off + 4) (length p) then u32 p off ∷ rest else []

-- The count at `off` and the ids behind it; `listed` is the flag of the info word.
unfoldable pub counted_xids : Bool → Bytes → ℕ → List ℕ
unfolding read_xids
counted_xids listed p off =
    if not listed || ltb (length p) (off + 4)
    then []
    else read_xids (sub_count (u32 p off)) p (off + 4)

-- From the info word at `off`: the flags, the database, the subtransactions.
unfoldable pub parse_sub_xids : Bytes → ℕ → List ℕ
unfolding counted_xids
parse_sub_xids p off =
    let xinfo = u32 p off in
    counted_xids (has xinfo 2) p (if has xinfo 1 then off + 4 + 8 else off + 4)

-- `flashbackParseXactCommit`
unfoldable pub parse_commit : ℕ → Bytes → Bool → Commit
unfolding parse_sub_xids
parse_commit info p prepared =
    let off : ℕ = if prepared then 4 else 0 in
    if ltb (length p) (off + 8) then no_commit else record {
      time = pg_timestamp (u64 p off);
      sub_xids =
          if not (has info 0x80) || ltb (length p) (off + 8 + 4)
          then []
          else parse_sub_xids p (off + 8);
    }

-- One round of the loop of `flashbackFilterCommitTime`: whether the change is kept.
abbrev pub keeps : Time → Time → Change → Bool
keeps from to c =
    if is_zero c.ts
    then false
    else if not (is_zero from) && ltb c.ts from
    then false
    else if not (is_zero to) && ltb to c.ts
    then false
    else true

unfoldable pub keep_all : Time → Time → List Change → List Change
keep_all from to [] = []
keep_all from to (c ∷ cs) = if keeps from to c then c ∷ keep_all from to cs else keep_all from to cs

-- `flashbackFilterCommitTime`
unfoldable pub filter_commit_time : List Change → Time → Time → List Change
unfolding keep_all
filter_commit_time cs from to = if is_zero from && is_zero to then cs else keep_all from to cs
