-- ===== src/Reader/Chain/Pages.antt =====
-- The pages of a chain, one after the other.
use db_flashback.Base.{
  ℕ, ◌+◌, ◌-◌, ◌≤◌, ◌<◌, min, ◌≡◌, refl, sym, ap, ◌∙◌, subst, ◌≢◌, Bool, true, false, ◌||◌, List,
  [], ◌∷◌, ◌++◌, append-nil, append_assoc, arith, ltb, leb, ◌==◌, if◌then◌else◌, lt→ltb, le→leb,
  lt→leb, le→ltb, ==_ne, length, take, drop, All, length-append, length-replicate, take-append,
  drop-append, take_all,
}
use db_flashback.Bytes.{Bytes}
use db_flashback.Change.{Change}
use db_flashback.Reader.Chain.Walk.{at, open_need, length-pos, walk-lay}
use db_flashback.Reader.Chain.{
  IsRecord, padding, lay, Tail, IsPage, Chain, over, fresh, closes, middle, emit_all,
}
use db_flashback.Reader.Emit.{Unlimited, emit_take-Unlimited}
use db_flashback.Reader.Framing.{
  after_changes, done, continue_record, count_page, feed_page, is_full, feed_pages,
}
use db_flashback.Reader.{Decoder, Core, Reader, max_align, emit_take}

third_else {ℓ} :
    {A : Type ℓ} {x y z : Bool} (a b c d : A)
    → x ≡ false
    → y ≡ false
    → z ≡ false
    → (if x then a else if y then b else if z then c else d) ≡ d
third_else a b c d hx hy hz = rw (hx, hy, hz) refl

second_else {ℓ} :
    {A : Type ℓ} (a b : Bool) (x y z : A)
    → a ≡ false
    → b ≡ false
    → (if a then x else if b then y else z) ≡ z
second_else true b x y z h h' = absurd cc
second_else false true x y z h h' = absurd cc
second_else false false x y z h h' = refl

module _ {S : Type 0} (dec : Decoder S) where
  pub feed_page-fresh :
      (r : Reader S) (p : Core S) (page : Bytes) (recs : List Bytes) (tail : Bytes)
      {seen rest : Bytes}
      → IsPage page 0 (lay recs tail)
      → All IsRecord recs
      → Tail seen rest tail
      → feed_page dec (at r p [] []) page
        ≡ after_changes
            (emit_all dec p recs).1
            (done (at (count_page r page) (emit_all dec p recs).0 seen rest))
  unfolding feed_page
  feed_page-fresh r p page recs tail g a t =
      rw (g.known_magic, g.goes_on, g.body_is)
        (walk-lay dec recs tail (length (lay recs tail)) (count_page r page) p a t le_self)
    where
      le_self : length (lay recs tail) ≤ length (lay recs tail)
      le_self = omega arith

  pub feed_page-goes_on :
      (r : Reader S) (page : Bytes) (rem : ℕ) (body : Bytes)
      → IsPage page rem body
      → rem ≢ 0
      → feed_page dec r page ≡ continue_record dec rem (count_page r page) body
  unfolding feed_page
  feed_page-goes_on r page rem body g n =
      rw (g.known_magic, g.goes_on, ==_ne rem 0 n, g.rem_len n, g.body_is) refl

  -- The page holds the end of the open record.
  continue-closes :
      (r : Reader S) (p : Core S) (seen rest : Bytes) (recs : List Bytes) (tail : Bytes)
      {seen' rest' : Bytes}
      → IsRecord (seen ++ rest)
      → rest ≢ []
      → All IsRecord recs
      → Tail seen' rest' tail
      → continue_record dec
          (length rest)
          (at r p seen rest)
          (rest ++ (padding (length rest) ++ lay recs tail))
        ≡ after_changes
            (emit_all dec p ((seen ++ rest) ∷ recs)).1
            (done (at r (emit_all dec p ((seen ++ rest) ∷ recs)).0 seen' rest'))
  unfolding continue_record emit_all
  continue-closes r p seen rest recs tail h ne a t =
      rw (open_need seen rest ne, least, tests, whole, long, front, h.no_switch)
        (rw (fits, room, behind)
          (ap (after_changes (emit_take dec p (seen ++ rest)).1) (
              walk-lay dec recs tail (length (lay recs tail)) r (emit_take dec p (seen ++ rest)).0 a
                t (omega arith))
            ∙ simp append_assoc))
    where
      body : Bytes
      body = rest ++ (padding (length rest) ++ lay recs tail)

      size :
          length body
          ≡ length rest + (max_align (length rest) - length rest + length (lay recs tail))
      size = omega (
        arith,
        length-append rest (padding (length rest) ++ lay recs tail),
        length-append (padding (length rest)) (lay recs tail),
        length-replicate {A = ℕ} (max_align (length rest) - length rest) 0,
      )

      least : min (length rest) (length body) ≡ length rest
      least = omega (arith, size)

      tests : (length (seen ++ rest) == 0 || length rest == 0) ≡ false
      tests = ground (arith, h.at_least, length-pos rest ne)

      whole : take (length rest) body ≡ rest
      whole = take-append rest (padding (length rest) ++ lay recs tail) refl

      long : leb (length (seen ++ rest)) (length (seen ++ rest)) ≡ true
      long = le→leb _ _ (omega arith)

      front : take (length (seen ++ rest)) (seen ++ rest) ≡ seen ++ rest
      front = take_all (length (seen ++ rest)) (seen ++ rest) (omega arith)

      fits : ltb (length body) (length rest) ≡ false
      fits = le→ltb _ _ (omega (arith, size))

      room : ltb (length body) (max_align (length rest)) ≡ false
      room = le→ltb _ _ (omega (arith, size))

      behind : drop (max_align (length rest)) body ≡ lay recs tail
      behind =
          ap (drop (max_align (length rest)))
            (sym (append_assoc rest (padding (length rest)) (lay recs tail)))
          ∙ drop-append (rest ++ padding (length rest)) (lay recs tail) (
              omega (
                arith,
                length-append rest (padding (length rest)),
                length-replicate {A = ℕ} (max_align (length rest) - length rest) 0,
              ))

  -- The page lies inside the open record.
  continue-middle :
      (r : Reader S) (p : Core S) (seen chunk rest' : Bytes)
      → chunk ≢ []
      → rest' ≢ []
      → continue_record dec (length (chunk ++ rest')) (at r p seen (chunk ++ rest')) chunk
        ≡ done (at r p (seen ++ chunk) rest')
  unfolding continue_record
  continue-middle r p seen chunk rest' nc nr =
      rw
        (
          open_need seen (chunk ++ rest') some_left,
          open_need (seen ++ chunk) rest' nr,
          same,
          least,
          tests,
          whole,
          short,
        )
        (rw inside refl)
    where
      c : 0 < length chunk
      c = length-pos chunk nc

      e : length (chunk ++ rest') ≡ length chunk + length rest'
      e = length-append chunk rest'

      t : length (seen ++ (chunk ++ rest')) ≡ length seen + length (chunk ++ rest')
      t = length-append seen (chunk ++ rest')

      some_left : chunk ++ rest' ≢ []
      some_left q = absurd (omega (arith, ap length q, e, c))

      same : (seen ++ chunk) ++ rest' ≡ seen ++ (chunk ++ rest')
      same = append_assoc seen chunk rest'

      least : min (length (chunk ++ rest')) (length chunk) ≡ length chunk
      least = omega (arith, e)

      tests : (length (seen ++ (chunk ++ rest')) == 0 || length chunk == 0) ≡ false
      tests = ground (arith, t, e, c)

      whole : take (length chunk) chunk ≡ chunk
      whole = take_all (length chunk) chunk (omega arith)

      short : leb (length (seen ++ (chunk ++ rest'))) (length (seen ++ chunk)) ≡ false
      short = lt→leb _ _ (omega (arith, t, e, length-append seen chunk, length-pos rest' nr))

      inside : ltb (length chunk) (length (chunk ++ rest')) ≡ true
      inside = lt→ltb _ _ (omega (arith, e, length-pos rest' nr))

  feed_page-middle :
      (r : Reader S) (p : Core S) (seen chunk rest' page : Bytes)
      → chunk ≢ []
      → rest' ≢ []
      → IsPage page (length (chunk ++ rest')) chunk
      → feed_page dec (at r p seen (chunk ++ rest')) page
        ≡ after_changes
            (emit_all dec p []).1
            (done (at (count_page r page) (emit_all dec p []).0 (seen ++ chunk) rest'))
  unfolding emit_all
  feed_page-middle r p seen chunk rest' page nc nr g =
      feed_page-goes_on (at r p seen (chunk ++ rest')) page (length (chunk ++ rest')) chunk g
        (omega (arith, length-append chunk rest', length-pos chunk nc))
      ∙ continue-middle (count_page r page) p seen chunk rest' nc nr

  pub emit_all-Unlimited :
      (recs : List Bytes) (p : Core S) → Unlimited p → Unlimited (emit_all dec p recs).0
  unfolding emit_all
  emit_all-Unlimited [] p u = u
  emit_all-Unlimited (rec ∷ recs) p u =
      emit_all-Unlimited recs (emit_take dec p rec).0 (emit_take-Unlimited dec p rec u)

  pub emit_all-append :
      (xs ys : List Bytes) (p : Core S)
      → emit_all dec p (xs ++ ys) ≡ (
        (emit_all dec (emit_all dec p xs).0 ys).0,
        (emit_all dec p xs).1 ++ (emit_all dec (emit_all dec p xs).0 ys).1,
      )
  unfolding emit_all
  emit_all-append [] ys p = refl
  emit_all-append (x ∷ xs) ys p =
      rw (emit_all-append xs ys (emit_take dec p x).0, append_assoc) refl

  -- At the end of the pages.
  pub feed_pages-nil : (r : Reader S) → Unlimited r.core → feed_pages dec r [] ≡ (r, [])
  unfolding feed_pages
  feed_pages-nil r u =
      let full : is_full r.core ≡ false = ground (arith, u.no_max) in
      second_else _ _ _ _ _ u.reading full

  -- A page that does not stop the reader, and what the pages behind it give.
  pub feed_pages-step :
      (r r' : Reader S) (page : Bytes) (pages : List Bytes) (out : List Change)
      → Unlimited r.core
      → feed_page dec r page ≡ after_changes out (done r')
      → ((feed_pages dec r (page ∷ pages)).1 ≡ out ++ (feed_pages dec r' pages).1)
        × ((feed_pages dec r (page ∷ pages)).0.core ≡ (feed_pages dec r' pages).0.core)
  unfolding feed_pages
  feed_pages-step r r' page pages out u e = (
    ap (λ t. t.1) goes_on
        ∙ ap (λ o. o.changes ++ (feed_pages dec o.reader pages).1) e
        ∙ ap (λ c. c ++ (feed_pages dec r' pages).1) (append-nil out),
    ap (λ t. t.0.core) goes_on ∙ ap (λ o. (feed_pages dec o.reader pages).0.core) e,
  )
    where
      full : is_full r.core ≡ false
      full = ground (arith, u.no_max)

      goes_on : feed_pages dec r (page ∷ pages) ≡ (
        (feed_pages dec (feed_page dec r page).reader pages).0,
        (feed_page dec r page).changes ++ (feed_pages dec (feed_page dec r page).reader pages).1,
      )
      goes_on = third_else _ _ _ _ u.reading full (ap (λ o. o.stop) e)

  join :
      (xs ys : List Bytes) (r : Reader S) (p : Core S) (seen rest seen' rest' page : Bytes)
      (pages : List Bytes)
      → Unlimited p
      → feed_page dec (at r p seen rest) page
        ≡ after_changes
            (emit_all dec p xs).1
            (done (at (count_page r page) (emit_all dec p xs).0 seen' rest'))
      → ((r' : Reader S) (q : Core S)
          → Unlimited q
          → ((feed_pages dec (at r' q seen' rest') pages).1 ≡ (emit_all dec q ys).1)
            × ((feed_pages dec (at r' q seen' rest') pages).0.core ≡ (emit_all dec q ys).0))
      → ((feed_pages dec (at r p seen rest) (page ∷ pages)).1 ≡ (emit_all dec p (xs ++ ys)).1)
        × ((feed_pages dec (at r p seen rest) (page ∷ pages)).0.core
            ≡ (emit_all dec p (xs ++ ys)).0)
  join xs ys r p seen rest seen' rest' page pages u e ih =
      let q = (emit_all dec p xs).0 in
      let (changes, core) =
        feed_pages-step (at r p seen rest) (at (count_page r page) q seen' rest') page pages _ u
          e in
      let (changes', core') = ih (count_page r page) q (emit_all-Unlimited xs p u) in
      let all = emit_all-append xs ys p in
      (
        changes ∙ ap (◌++◌ (emit_all dec p xs).1) changes' ∙ sym (ap (λ t. t.1) all),
        core ∙ core' ∙ sym (ap (λ t. t.0) all),
      )

  -- On pages with a known magic, whose headers say how many bytes of a record go on, and of records
  -- of 24 bytes to a megabyte, each with its whole header of 24 bytes on the page where it begins,
  -- going on over any number of pages, and none a switch to another segment: a reader with no bound
  -- and no end time hands exactly the completed records to `emit`, whole and in order, and so hands
  -- out their changes.
  pub feed_pages-Chain :
      {seen rest : Bytes} {pages recs : List Bytes}
      → Chain seen rest pages recs
      → (r : Reader S) (p : Core S) → Unlimited p
      → ((feed_pages dec (at r p seen rest) pages).1 ≡ (emit_all dec p recs).1)
        × ((feed_pages dec (at r p seen rest) pages).0.core ≡ (emit_all dec p recs).0)
  feed_pages-Chain (over {seen = seen} {rest = rest} ep er) r p u =
      let nil = feed_pages-nil (at r p seen rest) u in
      rw (ep, er)
        (
          ap (λ t. t.1) nil ∙ unfold emit_all in refl,
          ap (λ t. t.0.core) nil ∙ unfold emit_all in refl,
        )
  feed_pages-Chain
        (fresh {seen' = seen'} {rest' = rest'} {page = page} {pages = pages} {recs' = recs'} recs
          tail es er g a t c all)
        r p u =
      rw (es, er, all)
        (join recs recs' r p [] [] seen' rest' page pages u
          (feed_page-fresh r p page recs tail g a t) (λ r' q u'. feed_pages-Chain c r' q u'))
  feed_pages-Chain
        (closes {seen = seen} {rest = rest} {seen' = seen'} {rest' = rest'} {page = page}
          {pages = pages} {recs' = recs'} recs tail h ne g a t c all)
        r p u =
      rw all (
        join ((seen ++ rest) ∷ recs) recs' r p seen rest seen' rest' page pages u
          (feed_page-goes_on (at r p seen rest) page (length rest) _ g
              (omega (arith, length-pos rest ne))
            ∙ continue-closes (count_page r page) p seen rest recs tail h ne a t)
          (λ r' q u'. feed_pages-Chain c r' q u'))
  feed_pages-Chain
        (middle {seen = seen} {page = page} {chunk = chunk} {rest' = rest'} {pages = pages}
          {recs = recs} er nc nr g c)
        r p u =
      rw er (
        join [] recs r p seen (chunk ++ rest') (seen ++ chunk) rest' page pages u
          (feed_page-middle r p seen chunk rest' page nc nr
            (subst (λ x. IsPage page (length x) chunk) er g))
          (λ r' q u'. feed_pages-Chain c r' q u'))
