-- ===== src/Reader/Short.antt =====
-- A record whose header of 24 bytes is itself cut by the end of a page.
use db_flashback.Base.{
  ℕ, ◌+◌, ◌-◌, ◌<◌, ◌≡◌, refl, sym, ap, ◌∙◌, ◌≢◌, inl, false, List, [], ◌∷◌, ◌++◌, append-nil,
  append_assoc, arith, ltb, le→ltb, length, drop, All, length-append, length-replicate, drop-append,
}
use db_flashback.Bytes.{Bytes}
use db_flashback.Reader.Chain.Pages.{
  feed_page-fresh, feed_page-goes_on, feed_pages-nil, feed_pages-step, emit_all-append,
  emit_all-Unlimited,
}
use db_flashback.Reader.Chain.Walk.{at, length-pos, walk-lay}
use db_flashback.Reader.Chain.{IsRecord, padding, lay, Tail, ended, IsPage, emit_all}
use db_flashback.Reader.Emit.{Unlimited}
use db_flashback.Reader.Framing.{after_changes, done, continue_record, count_page, feed_pages}
use db_flashback.Reader.{Decoder, Core, Reader, max_align}

module _ {S : Type 0} (dec : Decoder S) where
  -- With nothing open, the end of a record is skipped.
  continue-lost :
      (r : Reader S) (p : Core S) (rest : Bytes) (recs : List Bytes) (tail : Bytes)
      → rest ≢ []
      → All IsRecord recs
      → Tail [] [] tail
      → continue_record dec
          (length rest)
          (at r p [] [])
          (rest ++ (padding (length rest) ++ lay recs tail))
        ≡ after_changes (emit_all dec p recs).1 (done (at r (emit_all dec p recs).0 [] []))
  unfolding continue_record
  continue-lost r p rest recs tail ne a t =
      rw (fits, room, behind)
        (walk-lay dec recs tail (length (lay recs tail)) r p a t (omega arith))
    where
      body : Bytes
      body = rest ++ (padding (length rest) ++ lay recs tail)

      size :
          length body
          ≡ length rest + (max_align (length rest) - length rest + length (lay recs tail))
      size = omega (
        arith,
        length-append rest (padding (length rest) ++ lay recs tail),
        length-append (padding (length rest)) (lay recs tail),
        length-replicate {A = ℕ} (max_align (length rest) - length rest) 0,
      )

      fits : ltb (length body) (length rest) ≡ false
      fits = le→ltb _ _ (omega (arith, size))

      room : ltb (length body) (max_align (length rest)) ≡ false
      room = le→ltb _ _ (omega (arith, size))

      behind : drop (max_align (length rest)) body ≡ lay recs tail
      behind =
          ap (drop (max_align (length rest)))
            (sym (append_assoc rest (padding (length rest)) (lay recs tail)))
          ∙ drop-append (rest ++ padding (length rest)) (lay recs tail) (
              omega (
                arith,
                length-append rest (padding (length rest)),
                length-replicate {A = ℕ} (max_align (length rest) - length rest) 0,
              ))

  -- A record that starts in the last 23 bytes or fewer of a page and goes on on the next is lost:
  -- both pages give only the changes of the records before it and behind it, so `emit` is never
  -- called on it.
  pub feed_pages_short_header :
      (r : Reader S) (p : Core S) (page page' seen rest : Bytes) (recs recs' : List Bytes)
      (tail : Bytes)
      → Unlimited p
      → All IsRecord recs
      → All IsRecord recs'
      → IsRecord (seen ++ rest)
      → length seen < 24
      → rest ≢ []
      → IsPage page 0 (lay recs seen)
      → IsPage page' (length rest) (rest ++ (padding (length rest) ++ lay recs' tail))
      → Tail [] [] tail
      → (feed_pages dec (at r p [] []) (page ∷ (page' ∷ []))).1 ≡ (emit_all dec p (recs ++ recs')).1
  feed_pages_short_header r p page page' seen rest recs recs' tail u a a' h l ne g g' t =
      first.0
      ∙ ap (◌++◌ (emit_all dec p recs).1)
          (second.0 ∙ ap (◌++◌ (emit_all dec q recs').1) end ∙ append-nil _)
      ∙ sym (ap (λ x. x.1) (emit_all-append dec recs recs' p))
    where
      q : Core S
      q = (emit_all dec p recs).0

      r1 : Reader S
      r1 = count_page r page

      r2 : Reader S
      r2 = at (count_page r1 page') (emit_all dec q recs').0 [] []

      end : (feed_pages dec r2 []).1 ≡ []
      end =
          ap (λ t. t.1)
            (feed_pages-nil dec r2
              (emit_all-Unlimited dec recs' q (emit_all-Unlimited dec recs p u)))

      first :
          ((feed_pages dec (at r p [] []) (page ∷ (page' ∷ []))).1
            ≡ (emit_all dec p recs).1 ++ (feed_pages dec (at r1 q [] []) (page' ∷ [])).1)
          × ((feed_pages dec (at r p [] []) (page ∷ (page' ∷ []))).0.core
              ≡ (feed_pages dec (at r1 q [] []) (page' ∷ [])).0.core)
      first =
          feed_pages-step dec (at r p [] []) (at r1 q [] []) page (page' ∷ []) _ u
            (feed_page-fresh dec r p page recs seen g a (ended refl refl (inl l)))

      second :
          ((feed_pages dec (at r1 q [] []) (page' ∷ [])).1
            ≡ (emit_all dec q recs').1 ++ (feed_pages dec r2 []).1)
          × ((feed_pages dec (at r1 q [] []) (page' ∷ [])).0.core ≡ (feed_pages dec r2 []).0.core)
      second = feed_pages-step dec (at r1 q [] []) r2 page' [] _ (emit_all-Unlimited dec recs p u) (
          feed_page-goes_on dec (at r1 q [] []) page' (length rest) _ g'
            (omega (arith, length-pos rest ne))
          ∙ continue-lost (count_page r1 page') q rest recs' tail ne a' t)
