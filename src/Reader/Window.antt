-- ===== src/Reader/Window.antt =====
-- The time window over a whole file.
use db_flashback.Base.{
  ℕ, zero, suc, ◌+◌, ◌-◌, bit_and, ◌≡◌, refl, ◌∙◌, ◌≢◌, ◌⊎◌, inl, inr, false, ◌||◌, List, [], ◌∷◌,
  ◌++◌, ltb, ◌==◌, if◌then◌else◌, ==_iff, Bool-cases, length, take, All,
}
use mathlib.Core.Path.{subst₂}
use db_flashback.Bytes.{Bytes, byte, u32}
use db_flashback.Change.{Change}
use db_flashback.Commit.Window.{InWindow, filter_commit_time-InWindow}
use db_flashback.Reader.Framing.{feed_pages}
use db_flashback.Reader.Rule.{IsRule, feed_pages-Obeys}
use db_flashback.Reader.{
  is_xlog_checkpoint, Decoder, Core, Reader, take_changes, is_commit, is_abort, handle_commit,
  handle_abort, handle_xact, emit, emit_take,
}

-- `flashbackDecodeHeapRecord` hands out nothing for a record of the transaction manager that is
-- no commit.
pub record IsQuiet {S : Type 0} (dec : Decoder S) : Type 0 where
  pub quiet :
      (s : S) (rec : Bytes)
      → byte rec 17 ≡ 1
      → is_commit (bit_and (byte rec 16) 0x70) ≡ false
      → (dec.decode s rec).1 ≡ []

-- The window stays, and with a bound set all that is handed out lies in it.
pub record StaysIn {S : Type 0} (p : Core S) (out : List Change) (q : Core S) : Type 0 where
  pub same_from : q.time_from ≡ p.time_from
  pub same_to : q.time_to ≡ p.time_to
  pub within : (p.time_from ≢ 0) ⊎ (p.time_to ≢ 0) → All (InWindow p.time_from p.time_to) out

pub All-append {ℓ κ} :
    {A : Type ℓ} (P : A → Type κ) (xs ys : List A) → All P xs → All P ys → All P (xs ++ ys)
All-append P [] ys a b = b
All-append P (x ∷ xs) ys a b = (a.0, All-append P xs ys a.1 b)

All-take {ℓ κ} : {A : Type ℓ} (P : A → Type κ) (n : ℕ) (xs : List A) → All P xs → All P (take n xs)
All-take P zero xs a = tt
All-take P (suc n) [] a = tt
All-take P (suc n) (x ∷ xs) a = (a.0, All-take P n xs a.1)

All-true : (cs : List Change) → All (λ (c : Change). Unit {0}) cs
All-true [] = tt
All-true (c ∷ cs) = (tt, All-true cs)

-- The window of a later state is that of the first.
within_same :
    {S : Type 0} {p o s : Core S} {a b : List Change}
    → StaysIn p a o
    → StaysIn o b s
    → (p.time_from ≢ 0) ⊎ (p.time_to ≢ 0)
    → All (InWindow p.time_from p.time_to) b
within_same {b = b} x y h =
    subst₂ (λ f t. (f ≢ 0) ⊎ (t ≢ 0) → All (InWindow f t) b) x.same_from x.same_to y.within h

module _ {S : Type 0} (dec : Decoder S) (q : IsQuiet dec) where
  handle_xact-StaysIn :
      (p : Core S) (rec : Bytes)
      → byte rec 17 ≡ 1
      → StaysIn p
          (handle_xact dec p rec (u32 rec 4) (byte rec 16)).1
          (handle_xact dec p rec (u32 rec 4) (byte rec 16)).0
  unfolding handle_xact
  handle_xact-StaysIn p rec x = elim (Bool-cases (is_commit (bit_and (byte rec 16) 0x70))) [
    | inl c ↦ rw c (
        unfold handle_commit in
        record {
          same_from = refl;
          same_to = refl;
          within = filter_commit_time-InWindow p.time_from p.time_to _;
        })
    | inr c ↦ elim (Bool-cases (is_abort (bit_and (byte rec 16) 0x70))) [
      | inl a ↦
          rw (c, a)
            (unfold handle_abort in record { same_from = refl; same_to = refl; within = λ _. tt })
      | inr a ↦
          rw (c, a)
            (record {
              same_from = refl;
              same_to = refl;
              within = λ _. rw (q.quiet p.decoder_state rec x c) tt;
            })
    ]
  ]

  emit-StaysIn : (p : Core S) (rec : Bytes) → StaysIn p (emit dec p rec).1 (emit dec p rec).0
  unfolding emit
  emit-StaysIn p rec =
      let p2 = record p {
        records = p.records + 1;
        checkpoints = p.checkpoints + (if is_xlog_checkpoint rec then 1 else 0);
      } in
      elim (Bool-cases (p.past_end || ltb (length rec) 24)) [
        | inl e ↦ rw e (record { same_from = refl; same_to = refl; within = λ _. tt })
        | inr e ↦ elim (Bool-cases (byte rec 17 == 1)) [
          | inl x ↦
              rw (e, x)
                (let h = handle_xact-StaysIn p2 rec ((==_iff _ _).0 x) in
                  record { same_from = h.same_from; same_to = h.same_to; within = h.within })
          | inr x ↦ rw (e, x) (record { same_from = refl; same_to = refl; within = λ _. tt })
        ]
      ]

  take_changes-All :
      (p : Core S) (out : List Change) (P : Change → Type 0)
      → All P out
      → ((take_changes p out).0.time_from ≡ p.time_from)
        × ((take_changes p out).0.time_to ≡ p.time_to)
        × All P (take_changes p out).1
  unfolding take_changes
  take_changes-All p out P a =
      let left = p.max_changes - p.emitted in
      elim (Bool-cases (length out == 0)) [
        | inl b ↦ rw b (refl, refl, tt)
        | inr b ↦ elim (Bool-cases (p.max_changes == 0)) [
          | inl c ↦ rw (b, c) (refl, refl, a)
          | inr c ↦ elim (Bool-cases (left == 0)) [
            | inl d ↦ rw (b, c, d) (refl, refl, tt)
            | inr d ↦ elim (Bool-cases (ltb left (length out))) [
              | inl e ↦ rw (b, c, d, e) (refl, refl, All-take P left out a)
              | inr e ↦ rw (b, c, d, e) (refl, refl, a)
            ]
          ]
        ]
      ]

  emit_take-StaysIn :
      (p : Core S) (rec : Bytes) → StaysIn p (emit_take dec p rec).1 (emit_take dec p rec).0
  unfolding emit_take
  emit_take-StaysIn p rec =
      let e = emit-StaysIn p rec in
      let t = take_changes-All (emit dec p rec).0 (emit dec p rec).1 in
      record {
        same_from = (t (λ c. Unit) (All-true (emit dec p rec).1)).0 ∙ e.same_from;
        same_to = (t (λ c. Unit) (All-true (emit dec p rec).1)).1 ∙ e.same_to;
        within = λ h. (t (InWindow p.time_from p.time_to) (e.within h)).2;
      }

  StaysIn-IsRule : IsRule dec StaysIn
  StaysIn-IsRule = record {
    none_out = λ p. record { same_from = refl; same_to = refl; within = λ _. tt };
    truncated = λ p. record { same_from = refl; same_to = refl; within = λ _. tt };
    one = emit_take-StaysIn;
    then_on = λ p o s a b x y. record {
      same_from = y.same_from ∙ x.same_from;
      same_to = y.same_to ∙ x.same_to;
      within =
          λ h. All-append (InWindow p.time_from p.time_to) a b (x.within h) (within_same x y h);
    };
  }

  pub feed_pages-StaysIn :
      (pages : List Bytes) (r : Reader S)
      → StaysIn r.core (feed_pages dec r pages).1 (feed_pages dec r pages).0.core
  feed_pages-StaysIn = feed_pages-Obeys dec StaysIn StaysIn-IsRule

  -- With a bound of the time window set, every change that any pages give carries a commit time
  -- in the window.
  pub feed_pages-InWindow :
      (pages : List Bytes) (r : Reader S)
      → (r.core.time_from ≢ 0) ⊎ (r.core.time_to ≢ 0)
      → All (InWindow r.core.time_from r.core.time_to) (feed_pages dec r pages).1
  feed_pages-InWindow pages r h = (feed_pages-StaysIn pages r).within h
