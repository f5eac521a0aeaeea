-- ===== src/Commit/Encode.antt =====
-- Commit payloads laid out as the parser reads them (xl_xact_commit), read back.
use db_flashback.Base.{
  ℕ, ◌+◌, ◌^◌, ◌≤◌, ◌<◌, ◌≡◌, refl, sym, ap, ◌∙◌, Bool, true, false, List, [], ◌∷◌, ◌++◌,
  append_assoc, arith, ltb, leb, if◌then◌else◌, le→leb, le→ltb, length, All, length-append,
}
use db_flashback.Bytes.{Bytes, u32, has, le32, le64, u32-le32, u64-le64, u64-le32, u32-append}
use db_flashback.Commit.{read_xids, sub_count, counted_xids, parse_sub_xids, parse_commit}
use db_flashback.Time.{pg_timestamp}

abbrev pub le32s : List ℕ → Bytes
le32s [] = []
le32s (x ∷ xs) = le32 x ++ le32s xs

abbrev pub AreU32 : List ℕ → Type 0
AreU32 = All (λ x. x < 2 ^ 32)

-- xl_xact_xinfo, xl_xact_dbinfo where the flag is set, xl_xact_subxacts, then anything.
abbrev pub sub_payload : ℕ → Bytes → List ℕ → Bytes → Bytes
sub_payload xinfo db xids rest = le32 xinfo ++ (db ++ (le32 (length xids) ++ (le32s xids ++ rest)))

read_xids-le32s :
    (xids : List ℕ) (pre rest : Bytes) (off : ℕ)
    → off ≡ length pre
    → AreU32 xids
    → read_xids (length xids) (pre ++ (le32s xids ++ rest)) off ≡ xids
unfolding read_xids
read_xids-le32s [] pre rest off e h = refl
read_xids-le32s (x ∷ xids) pre rest off e h =
    let all = pre ++ (le32s (x ∷ xids) ++ rest) in
    let more : read_xids (length xids) all (off + 4) ≡ xids =
      rw (append_assoc pre (le32 x) (le32s xids ++ rest)) at (
        read_xids-le32s xids (pre ++ le32 x) rest (off + 4)
          (omega (arith, length-append pre (le32 x))) h.1) in
    let fits : leb (off + 4) (length all) ≡ true =
      le→leb _ _ (omega (arith, length-append pre (le32s (x ∷ xids) ++ rest))) in
    let first : u32 all off ≡ x = u32-append pre _ e ∙ u32-le32 x (le32s xids ++ rest) h.0 in
    rw (fits, first, more) refl

-- The count and the ids behind it.
counted_xids-le32s :
    (pre : Bytes) (xids : List ℕ) (rest : Bytes) (off : ℕ)
    → off ≡ length pre
    → AreU32 xids
    → length xids ≤ 2 ^ 20
    → (all : Bytes) → all ≡ pre ++ (le32 (length xids) ++ (le32s xids ++ rest))
    → counted_xids true all off ≡ xids
unfolding counted_xids
counted_xids-le32s pre xids rest off e h n all eq =
    rw (fits, count, whole)
      (read_xids-le32s xids (pre ++ le32 k) rest (off + 4)
        (omega (arith, length-append pre (le32 k))) h)
  where
    k : ℕ
    k = length xids

    fits : ltb (length all) (off + 4) ≡ false
    fits =
        le→ltb _ _ (omega (arith, ap length eq, length-append pre (le32 k ++ (le32s xids ++ rest))))

    whole : all ≡ (pre ++ le32 k) ++ (le32s xids ++ rest)
    whole = eq ∙ sym (append_assoc pre (le32 k) (le32s xids ++ rest))

    value : u32 all off ≡ k
    value = ap (λ a. u32 a off) eq ∙ u32-append pre _ e ∙ u32-le32 k _ (omega arith)

    count : sub_count (u32 all off) ≡ k
    count = ap sub_count value ∙ ground arith

-- The subtransactions are read back, with or without the eight bytes of the database.
parse_sub_xids-sub_payload :
    (xinfo : ℕ) (pre db : Bytes) (xids : List ℕ) (rest : Bytes) (off : ℕ)
    → off ≡ length pre
    → xinfo < 2 ^ 32
    → length db ≡ (if has xinfo 1 then 8 else 0)
    → has xinfo 2 ≡ true
    → AreU32 xids
    → length xids ≤ 2 ^ 20
    → parse_sub_xids (pre ++ sub_payload xinfo db xids rest) off ≡ xids
unfolding parse_sub_xids
parse_sub_xids-sub_payload xinfo pre db xids rest off e hx hd hs h n =
    rw (info, hs)
      (counted_xids-le32s (pre ++ (le32 xinfo ++ db)) xids rest at_count here h n all whole)
  where
    all : Bytes
    all = pre ++ sub_payload xinfo db xids rest

    info : u32 all off ≡ xinfo
    info = u32-append pre _ e ∙ u32-le32 xinfo _ hx

    whole : all ≡ (pre ++ (le32 xinfo ++ db)) ++ (le32 (length xids) ++ (le32s xids ++ rest))
    whole = simp append_assoc

    at_count : ℕ
    at_count = if has xinfo 1 then off + 4 + 8 else off + 4

    here : at_count ≡ length (pre ++ (le32 xinfo ++ db))
    here = ground (arith, length-append pre (le32 xinfo ++ db), length-append (le32 xinfo) db)

-- The payload of a commit: the id of a prepared transaction, the time, and where the record's
-- info has the flag, what follows it.
abbrev pub commit_payload : Bool → ℕ → ℕ → Bytes → Bytes
commit_payload prepared xid us more = (if prepared then le32 xid else []) ++ (le64 us ++ more)

-- The time and the subtransactions of a commit or abort are read back from a payload laid out as
-- the parser expects it: with the id in front if it is of a prepared transaction, with the database
-- entry or without, whatever follows.
pub parse_commit-commit_payload :
    (info : ℕ) (prepared : Bool) (xid us xinfo : ℕ) (db : Bytes) (xids : List ℕ) (rest : Bytes)
    → has info 0x80 ≡ true
    → us < 2 ^ 64
    → xinfo < 2 ^ 32
    → length db ≡ (if has xinfo 1 then 8 else 0)
    → has xinfo 2 ≡ true
    → AreU32 xids
    → length xids ≤ 2 ^ 20
    → parse_commit info (commit_payload prepared xid us (sub_payload xinfo db xids rest)) prepared
      ≡ record { time = pg_timestamp us; sub_xids = xids }
unfolding parse_commit
parse_commit-commit_payload info true xid us xinfo db xids rest hi hu hx hd hs h n =
    let more = sub_payload xinfo db xids rest in
    rw
      (
        hi,
        u64-le32 xid (le64 us ++ more) ∙ u64-le64 us more hu,
        parse_sub_xids-sub_payload xinfo (le32 xid ++ le64 us) db xids rest 12 refl hx hd hs h n,
      )
      (ground arith)
parse_commit-commit_payload info false xid us xinfo db xids rest hi hu hx hd hs h n =
    rw
      (
        hi,
        u64-le64 us (sub_payload xinfo db xids rest) hu,
        parse_sub_xids-sub_payload xinfo (le64 us) db xids rest 8 refl hx hd hs h n,
      )
      (ground arith)
