-- ===== src/Reader/Bound.antt =====
-- The bound on the number of changes.
use db_flashback.Base.{
  ◌+◌, ◌-◌, ◌≤◌, ◌≡◌, refl, sym, ◌∙◌, subst, ◌≢◌, List, arith, length, length-append, length-take,
}
use db_flashback.Bytes.{Bytes}
use db_flashback.Change.{Change}
use db_flashback.Reader.Framing.{feed_pages}
use db_flashback.Reader.Rule.{IsRule, feed_pages-Obeys}
use db_flashback.Reader.{Decoder, Core, Reader, take_changes, emit, emit_take}

-- The changes handed out are counted, and a bound that was kept stays kept.
pub record Counts {S : Type 0} (p : Core S) (out : List Change) (q : Core S) : Type 0 where
  pub same_max : q.max_changes ≡ p.max_changes
  pub counted : q.emitted ≡ p.emitted + length out
  pub kept : p.max_changes ≢ 0 → p.emitted ≤ p.max_changes → q.emitted ≤ p.max_changes

module _ {S : Type 0} (dec : Decoder S) where
  emit_max : (p : Core S) (rec : Bytes) → (emit dec p rec).0.max_changes ≡ p.max_changes
  unfolding emit
  emit_max p rec = ground arith

  emit_emitted : (p : Core S) (rec : Bytes) → (emit dec p rec).0.emitted ≡ p.emitted
  unfolding emit
  emit_emitted p rec = ground arith

  take_changes-Counts :
      (p : Core S) (out : List Change) → Counts p (take_changes p out).1 (take_changes p out).0
  unfolding take_changes
  take_changes-Counts p out = ground (arith, length-take (p.max_changes - p.emitted) out)

  emit_take-Counts :
      (p : Core S) (rec : Bytes) → Counts p (emit_take dec p rec).1 (emit_take dec p rec).0
  unfolding emit_take
  emit_take-Counts p rec =
      let c = take_changes-Counts (emit dec p rec).0 (emit dec p rec).1 in
      let m = emit_max p rec in
      let e = emit_emitted p rec in
      record {
        same_max = c.same_max ∙ m;
        counted = omega arith;
        kept = λ n l.
            subst (λ k. (emit_take dec p rec).0.emitted ≤ k) m
              (c.kept (λ z. n (sym m ∙ z)) (omega arith));
      }

  Counts-IsRule : IsRule dec Counts
  Counts-IsRule = record {
    none_out = λ p. record { same_max = refl; counted = omega arith; kept = λ n h. h };
    truncated = λ p. record { same_max = refl; counted = omega arith; kept = λ n h. h };
    one = emit_take-Counts;
    then_on = λ p q s a b x y. record {
      same_max = y.same_max ∙ x.same_max;
      counted = omega (arith, x.counted, y.counted, length-append a b);
      kept = λ n l.
          subst (λ k. s.emitted ≤ k) x.same_max
            (y.kept (λ z. n (sym x.same_max ∙ z))
              (subst (λ k. q.emitted ≤ k) (sym x.same_max) (x.kept n l)));
    };
  }

  -- With a bound that is not yet passed, reading any pages hands out at most what is left of it,
  -- and the counter grows by exactly the number of changes handed out.
  pub feed_pages_bound :
      (pages : List Bytes) (r : Reader S)
      → r.core.max_changes ≢ 0
      → r.core.emitted ≤ r.core.max_changes
      → ((feed_pages dec r pages).0.core.emitted
          ≡ r.core.emitted + length (feed_pages dec r pages).1)
        × (r.core.emitted + length (feed_pages dec r pages).1 ≤ r.core.max_changes)
  feed_pages_bound pages r n h =
      let c = feed_pages-Obeys dec Counts Counts-IsRule pages r in
      (c.counted, omega (arith, c.counted, c.kept n h))
