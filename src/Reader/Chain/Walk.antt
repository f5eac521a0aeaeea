-- ===== src/Reader/Chain/Walk.antt =====
-- The inner loop of `feedFile` on the body of a page.
use db_flashback.Base.{
  ℕ, zero, suc, ◌+◌, ◌-◌, ◌*◌, ◌≤◌, ◌<◌, ◌≡◌, refl, sym, ap, ◌∙◌, ◌≢◌, ◌⊎◌, inl, inr, false, ◌||◌,
  List, [], ◌∷◌, ◌++◌, append_assoc, arith, ltb, ◌==◌, if◌then◌else◌, lt→ltb, le→ltb, ==_ne,
  Bool-cases, length, take, drop, All, length-append, length-replicate, take-append, drop-append,
}
use db_flashback.Bytes.{Bytes, u32, u32-append_left}
use db_flashback.Reader.Chain.{IsRecord, padding, lay, Tail, ended, begun, emit_all}
use db_flashback.Reader.Framing.{after_changes, done, walk}
use db_flashback.Reader.{Decoder, Core, Reader, max_align, emit_take}

-- A record at the front of a body is found by its length word.
front_word : (rec more : Bytes) → IsRecord rec → u32 (rec ++ more) 0 ≡ length rec
front_word rec more h = u32-append_left rec more (omega (arith, h.at_least)) ∙ h.length_word

pub length-pos {ℓ} : {A : Type ℓ} (xs : List A) → xs ≢ [] → 0 < length xs
length-pos [] ne = absurd (ne refl)
length-pos (x ∷ xs) ne = omega arith

-- The length of the record that is open, 0 where none is.
abbrev pub need : Bytes → Bytes → ℕ
need seen rest = if length rest == 0 then 0 else length (seen ++ rest)

pub open_need : (seen rest : Bytes) → rest ≢ [] → need seen rest ≡ length (seen ++ rest)
open_need seen [] ne = absurd (ne refl)
open_need seen (x ∷ rest) ne = rw (==_ne (length (x ∷ rest)) 0 (omega arith)) refl

-- A reader at a point of the stream: the record that is open, and nothing to skip.
abbrev pub at : {S : Type 0} → Reader S → Core S → Bytes → Bytes → Reader S
at r p seen rest = record r { core = p; cont = seen; cont_need = need seen rest; pad_skip = 0 }

module _ {S : Type 0} (dec : Decoder S) where
  -- One round takes one record and its padding.
  walk-record :
      (fuel : ℕ) (r : Reader S) (rec more : Bytes)
      → IsRecord rec
      → walk dec (suc fuel) r (rec ++ (padding (length rec) ++ more))
        ≡ after_changes
            (emit_take dec r.core rec).1
            (walk dec fuel (record r { core = (emit_take dec r.core rec).0 }) more)
  unfolding walk
  walk-record fuel r rec more h = rw (word, long, low, fits, front, h.no_switch, room, behind) refl
    where
      body : Bytes
      body = rec ++ (padding (length rec) ++ more)

      word : u32 body 0 ≡ length rec
      word = front_word rec (padding (length rec) ++ more) h

      size : length body ≡ length rec + (max_align (length rec) - length rec + length more)
      size = omega (
        arith,
        length-append rec (padding (length rec) ++ more),
        length-append (padding (length rec)) more,
        length-replicate {A = ℕ} (max_align (length rec) - length rec) 0,
      )

      long : ltb (length body) 24 ≡ false
      long = le→ltb _ _ (omega (arith, size, h.at_least))

      low : (ltb (length rec) 24 || ltb (1024 * 1024) (length rec)) ≡ false
      low = ground (arith, h.at_least, h.at_most)

      fits : ltb (length body) (length rec) ≡ false
      fits = le→ltb _ _ (omega (arith, size))

      room : ltb (length body) (max_align (length rec)) ≡ false
      room = le→ltb _ _ (omega (arith, size))

      front : take (length rec) body ≡ rec
      front = take-append rec (padding (length rec) ++ more) refl

      behind : drop (max_align (length rec)) body ≡ more
      behind =
          ap (drop (max_align (length rec))) (sym (append_assoc rec (padding (length rec)) more))
          ∙ drop-append (rec ++ padding (length rec)) more (
              omega (
                arith,
                length-append rec (padding (length rec)),
                length-replicate {A = ℕ} (max_align (length rec) - length rec) 0,
              ))

  walk-stop :
      (fuel : ℕ) (r : Reader S) (tail : Bytes)
      → (length tail < 24) ⊎ (u32 tail 0 < 24)
      → walk dec fuel r tail ≡ done r
  unfolding walk
  walk-stop zero r tail h = refl
  walk-stop (suc fuel) r tail (inl h) = rw (lt→ltb _ _ h) refl
  walk-stop (suc fuel) r tail (inr h) = elim (Bool-cases (ltb (length tail) 24)) [
    | inl a ↦ rw a refl
    | inr a ↦ rw (a, lt→ltb (u32 tail 0) 24 h) refl
  ]

  walk-begun :
      (fuel : ℕ) (r : Reader S) (seen rest : Bytes)
      → IsRecord (seen ++ rest)
      → 24 ≤ length seen
      → rest ≢ []
      → walk dec (suc fuel) r seen
        ≡ done (record r { cont = seen; cont_need = length (seen ++ rest) })
  unfolding walk
  walk-begun fuel r seen rest h l ne =
      rw (word, le→ltb (length seen) 24 l, low, lt→ltb (length seen) (length (seen ++ rest)) more)
        refl
    where
      word : u32 seen 0 ≡ length (seen ++ rest)
      word = sym (u32-append_left seen rest (omega arith)) ∙ h.length_word

      low : (ltb (length (seen ++ rest)) 24 || ltb (1024 * 1024) (length (seen ++ rest))) ≡ false
      low = ground (arith, h.at_least, h.at_most)

      more : length seen < length (seen ++ rest)
      more = omega (arith, length-append seen rest, length-pos rest ne)

  walk-Tail :
      (fuel : ℕ) (r : Reader S) (p : Core S) {seen rest tail : Bytes}
      → Tail seen rest tail
      → length tail ≤ fuel
      → walk dec fuel (at r p [] []) tail ≡ done (at r p seen rest)
  walk-Tail fuel r p {seen} {rest} {tail} (ended hs hr hw) hf =
      rw (hs, hr) (walk-stop fuel (at r p [] []) tail hw)
  walk-Tail zero r p (begun e h l ne) hf = absurd (omega (arith, ap length e))
  walk-Tail (suc fuel) r p {seen} {rest} {tail} (begun e h l ne) hf =
      rw (e, open_need seen rest ne) (walk-begun fuel (at r p [] []) seen rest h l ne)

  -- A body of whole records and a tail.
  pub walk-lay :
      (recs : List Bytes) (tail : Bytes) (fuel : ℕ) (r : Reader S) (p : Core S) {seen rest : Bytes}
      → All IsRecord recs
      → Tail seen rest tail
      → length (lay recs tail) ≤ fuel
      → walk dec fuel (at r p [] []) (lay recs tail)
        ≡ after_changes (emit_all dec p recs).1 (done (at r (emit_all dec p recs).0 seen rest))
  unfolding emit_all
  walk-lay [] tail fuel r p a t hf = walk-Tail fuel r p t hf
  walk-lay (rec ∷ recs) tail zero r p a t hf =
      absurd
        (omega (arith, length-append rec (padding (length rec) ++ lay recs tail), a.0.at_least))
  walk-lay (rec ∷ recs) tail (suc fuel) r p a t hf =
      walk-record fuel (at r p [] []) rec (lay recs tail) a.0
      ∙ ap (after_changes (emit_take dec p rec).1) (
          walk-lay recs tail fuel r (emit_take dec p rec).0 a.1 t (
            omega (
              arith,
              length-append rec (padding (length rec) ++ lay recs tail),
              length-append (padding (length rec)) (lay recs tail),
              a.0.at_least,
            )))
      ∙ simp append_assoc
