-- ===== src/Reader/Emit.antt =====
-- What handling a record leaves alone.
use db_flashback.Base.{
  ℕ, bit_and, ◌≡◌, refl, inl, inr, true, false, ◌||◌, List, arith, ltb, ◌==◌, Bool-cases, length,
}
use db_flashback.Bytes.{Bytes, byte, u32}
use db_flashback.Change.{Change}
use db_flashback.Commit.{Commit}
use db_flashback.Reader.{
  Decoder, Core, take_changes, is_commit, is_abort, handle_commit, handle_abort, handle_xact, emit,
  emit_take,
}

-- No bound on the changes and no end of the time window: the parser reads all that it is given.
pub record Unlimited {S : Type 0} (p : Core S) : Type 0 where
  pub no_max : p.max_changes ≡ 0
  pub no_end : p.time_to ≡ 0
  pub reading : p.past_end ≡ false

module _ {S : Type 0} (dec : Decoder S) where
  handle_commit-Unlimited :
      (p : Core S) (rec : Bytes) (xid : ℕ) (cmt : Commit)
      → Unlimited p
      → Unlimited (handle_commit dec p rec xid cmt).0
  unfolding handle_commit
  handle_commit-Unlimited p rec xid cmt u = record {
    no_max = u.no_max;
    no_end = u.no_end;
    reading = rw (u.reading, u.no_end) refl;
  }

  handle_xact-Unlimited :
      (p : Core S) (rec : Bytes) (xid info : ℕ)
      → Unlimited p
      → Unlimited (handle_xact dec p rec xid info).0
  unfolding handle_xact
  handle_xact-Unlimited p rec xid info u = elim (Bool-cases (is_commit (bit_and info 0x70))) [
    | inl c ↦ rw c (handle_commit-Unlimited p rec xid _ u)
    | inr c ↦ elim (Bool-cases (is_abort (bit_and info 0x70))) [
      | inl a ↦
          rw (c, a)
            (unfold handle_abort in
              record { no_max = u.no_max; no_end = u.no_end; reading = u.reading })
      | inr a ↦ rw (c, a) (record { no_max = u.no_max; no_end = u.no_end; reading = u.reading })
    ]
  ]

  take_changes-Unlimited :
      (p : Core S) (ch : List Change) → Unlimited p → Unlimited (take_changes p ch).0
  unfolding take_changes
  take_changes-Unlimited p ch u = elim (Bool-cases (length ch == 0)) [
    | inl e ↦ rw e u
    | inr e ↦
        rw (e, ==_no_max) (record { no_max = u.no_max; no_end = u.no_end; reading = u.reading })
  ]
    where
      ==_no_max : (p.max_changes == 0) ≡ true
      ==_no_max = ground (arith, u.no_max)

  emit-Unlimited : (p : Core S) (rec : Bytes) → Unlimited p → Unlimited (emit dec p rec).0
  unfolding emit
  emit-Unlimited p rec u = elim (Bool-cases (p.past_end || ltb (length rec) 24)) [
    | inl e ↦ rw e (record { no_max = u.no_max; no_end = u.no_end; reading = u.reading })
    | inr e ↦ elim (Bool-cases (byte rec 17 == 1)) [
      | inl x ↦
          rw (e, x)
            (handle_xact-Unlimited _ rec (u32 rec 4) (byte rec 16)
              (record { no_max = u.no_max; no_end = u.no_end; reading = u.reading }))
      | inr x ↦ rw (e, x) (record { no_max = u.no_max; no_end = u.no_end; reading = u.reading })
    ]
  ]

  pub emit_take-Unlimited :
      (p : Core S) (rec : Bytes) → Unlimited p → Unlimited (emit_take dec p rec).0
  unfolding emit_take
  emit_take-Unlimited p rec u =
      take_changes-Unlimited (emit dec p rec).0 (emit dec p rec).1 (emit-Unlimited p rec u)
