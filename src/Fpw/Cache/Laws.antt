-- ===== src/Fpw/Cache/Laws.antt =====
-- The invariant of the page cache, and what a write changes.
use db_flashback.Base.{
  ℕ, ◌-◌, ◌≤◌, max, ◌≡◌, refl, sym, ap, ◌∙◌, subst, ◌≢◌, ◌⊎◌, inl, inr, Bool, true, false, not,
  ◌&&◌, ◌||◌, some, List, [], ◌∷◌, ◌++◌, arith, leb, ◌==◌, if◌then◌else◌, ==_iff, ==_refl, ==_ne,
  Bool-cases, Option-cases, length, length-append, mem, lookup, insert, remove, keys, lookup-insert,
  NoRepeat, mem-lookup, insert_new, keys-insert_old, remove_absent,
}
use db_flashback.Bytes.{Bytes}
use db_flashback.Fpw.Cache.{FpwCache, page_or_nil, get, store, set}

-- `order` lists the keys of the map as they came, none twice, and a positive bound is kept.
pub record IsValid (c : FpwCache) : Type 0 where
  pub ordered : c.order ≡ keys c.pages
  pub distinct : NoRepeat c.pages
  pub bounded : (c.max ≡ 0) ⊎ (length c.pages ≤ c.max)

length-insert_old :
    (k : ℕ) (page : Bytes) (m : List (ℕ × Bytes))
    → mem k (keys m) ≡ true
    → length (insert k page m) ≡ length m
unfolding insert
length-insert_old k page [] h = cc
length-insert_old k page ((j, w) ∷ m) h = ground (arith, length-insert_old k page m)

insert_old-NoRepeat :
    (k : ℕ) (page : Bytes) (m : List (ℕ × Bytes))
    → mem k (keys m) ≡ true
    → NoRepeat m
    → NoRepeat (insert k page m)
unfolding insert
insert_old-NoRepeat k page [] h n = cc
insert_old-NoRepeat k page ((j, w) ∷ m) h n = elim (Bool-cases (j == k)) [
  | inl e ↦ rw e (ground (arith, n.0), n.1)
  | inr e ↦ rw e (
    rw (keys-insert_old k page m (ground arith)) n.0,
    insert_old-NoRepeat k page m (ground arith) n.1,
  )
]

keys-append :
    (m : List (ℕ × Bytes)) (k : ℕ) (page : Bytes)
    → keys (m ++ ((k, page) ∷ [])) ≡ keys m ++ (k ∷ [])
keys-append [] k page = refl
keys-append ((j, w) ∷ m) k page = ap (◌∷◌ j) (keys-append m k page)

mem-append : (x k : ℕ) (xs : List ℕ) → mem x (xs ++ (k ∷ [])) ≡ (mem x xs || k == x)
mem-append x k [] = ground arith
mem-append x k (y ∷ ys) = ground (arith, mem-append x k ys)

append-NoRepeat :
    (m : List (ℕ × Bytes)) (k : ℕ) (page : Bytes)
    → mem k (keys m) ≡ false
    → NoRepeat m
    → NoRepeat (m ++ ((k, page) ∷ []))
append-NoRepeat [] k page h n = (refl, tt)
append-NoRepeat ((j, w) ∷ m) k page h n = (
  rw (keys-append m k page, mem-append j k (keys m)) (ground (arith, n.0)),
  append-NoRepeat m k page (ground arith) n.1,
)

-- A cache whose order is that of its map.
abbrev in_order : ℕ → List (ℕ × Bytes) → FpwCache
in_order max m = record { max = max; order = keys m; pages = m }

ordered-eq : (c : FpwCache) → IsValid c → c ≡ in_order c.max c.pages
ordered-eq c v = λ i. record { max = c.max; order = v.ordered i; pages = c.pages }

-- The specification of a write: a queue of pages, the oldest first. A known key keeps its place;
-- a new one goes to the end, and where `max` pages are there the oldest leaves.
abbrev pub is_full : ℕ → List (ℕ × Bytes) → Bool
is_full max m = not (max == 0) && leb max (length m)

abbrev pub without_oldest : List (ℕ × Bytes) → List (ℕ × Bytes)
without_oldest [] = []
without_oldest (x ∷ m) = m

abbrev pub queue_set : ℕ → ℕ → Bytes → List (ℕ × Bytes) → List (ℕ × Bytes)
queue_set max k page m =
    if mem k (keys m)
    then insert k page m
    else (if is_full max m then without_oldest m else m) ++ ((k, page) ∷ [])

-- A new page behind those that are there.
put_last :
    (max k : ℕ) (page : Bytes) (m : List (ℕ × Bytes))
    → mem k (keys m) ≡ false
    → ◌≡◌ {A = FpwCache}
        (record { max = max; order = keys m ++ (k ∷ []); pages = insert k page m })
        (in_order max (m ++ ((k, page) ∷ [])))
put_last max k page m fresh = λ i. record {
  max = max;
  order = sym (keys-append m k page) i;
  pages = insert_new k page m fresh i;
}

store-new :
    (max k : ℕ) (page : Bytes) (m : List (ℕ × Bytes))
    → NoRepeat m
    → mem k (keys m) ≡ false
    → store (in_order max m) k page ≡ in_order max (queue_set max k page m)
unfolding store
store-new max k page [] n fresh = elim (Bool-cases (is_full max [])) [
  | inl full ↦ rw full (put_last max k page [] refl)
  | inr room ↦ rw room (put_last max k page [] refl)
]
store-new max k page ((old, w) ∷ m) n fresh = elim (Bool-cases (is_full max ((old, w) ∷ m))) [
  | inl full ↦ rw (full, fresh, gone, nonempty) (put_last max k page m (ground arith))
  | inr room ↦ rw (room, fresh) (put_last max k page ((old, w) ∷ m) fresh)
]
  where
    gone : remove old ((old, w) ∷ m) ≡ m
    gone = unfold remove in rw (==_refl old) (remove_absent old m n.0)

    nonempty : (length (old ∷ keys m) == 0) ≡ false
    nonempty = ground arith

some-mem :
    (k : ℕ) (m : List (ℕ × Bytes)) (old : Bytes) → lookup k m ≡ some old → mem k (keys m) ≡ true
unfolding lookup
some-mem k [] old e = cc
some-mem k ((j, w) ∷ m) old e = ground (arith, some-mem k m old)

set-pages :
    (max k : ℕ) (page : Bytes) (m : List (ℕ × Bytes))
    → NoRepeat m
    → page ≢ []
    → set (in_order max m) k page ≡ in_order max (queue_set max k page m)
unfolding set
set-pages max k [] m n h = absurd (h refl)
set-pages max k (b ∷ page) m n h = elim (Option-cases (lookup k m)) [
  | inl none_there ↦
      let fresh : mem k (keys m) ≡ false = mem-lookup k m none_there in
      rw (nonempty, none_there) (store-new max k (b ∷ page) m n fresh)
  | inr (old, there) ↦
      let known : mem k (keys m) ≡ true = some-mem k m old there in
      rw (nonempty, there, known)
        (λ i. record {
          max = max;
          order = sym (keys-insert_old k (b ∷ page) m known) i;
          pages = insert k (b ∷ page) m;
        })
]
  where
    nonempty : (length (b ∷ page) == 0) ≡ false
    nonempty = ground arith

without_oldest-NoRepeat : (m : List (ℕ × Bytes)) → NoRepeat m → NoRepeat (without_oldest m)
without_oldest-NoRepeat [] n = n
without_oldest-NoRepeat (x ∷ m) n = n.1

without_oldest-mem :
    (k : ℕ) (m : List (ℕ × Bytes))
    → mem k (keys m) ≡ false
    → mem k (keys (without_oldest m)) ≡ false
without_oldest-mem k [] h = h
without_oldest-mem k (x ∷ m) h = ground arith

queue_set-NoRepeat :
    (max k : ℕ) (page : Bytes) (m : List (ℕ × Bytes))
    → NoRepeat m
    → NoRepeat (queue_set max k page m)
queue_set-NoRepeat max k page m n = elim (Bool-cases (mem k (keys m))) [
  | inl known ↦ rw known (insert_old-NoRepeat k page m known n)
  | inr fresh ↦ elim (Bool-cases (is_full max m)) [
    | inl full ↦
        rw (fresh, full)
          (append-NoRepeat (without_oldest m) k page (without_oldest-mem k m fresh)
            (without_oldest-NoRepeat m n))
    | inr room ↦ rw (fresh, room) (append-NoRepeat m k page fresh n)
  ]
]

length-without_oldest : (m : List (ℕ × Bytes)) → length (without_oldest m) ≡ length m - 1
length-without_oldest [] = omega arith
length-without_oldest (x ∷ m) = omega arith

length-queue_set :
    (max k : ℕ) (page : Bytes) (m : List (ℕ × Bytes))
    → (max ≡ 0) ⊎ (length m ≤ max)
    → (max ≡ 0) ⊎ (length (queue_set max k page m) ≤ max)
length-queue_set max k page m (inl z) = inl z
length-queue_set max k page m (inr b) = elim (Bool-cases (mem k (keys m))) [
  | inl known ↦ inr (rw known (omega (arith, length-insert_old k page m known)))
  | inr fresh ↦ elim (Bool-cases (is_full max m)) [
    | inl full ↦ inr (
        rw (fresh, full)
          (ground
            (arith, length-append (without_oldest m) ((k, page) ∷ []), length-without_oldest m)))
    | inr room ↦ elim (Bool-cases (max == 0)) [
      | inl z ↦ inl ((==_iff max 0).0 z)
      | inr p ↦ inr (rw (fresh, room) (ground (arith, length-append m ((k, page) ∷ []))))
    ]
  ]
]

-- Storing a page keeps the invariant and acts on the pages as a bounded queue: a known key keeps
-- its place, a new one goes to the end, and only a full cache drops one page, the oldest.
pub set-IsValid :
    (c : FpwCache) (k : ℕ) (page : Bytes)
    → IsValid c
    → page ≢ []
    → IsValid (set c k page)
      × ((set c k page).pages ≡ queue_set c.max k page c.pages)
      × ((set c k page).max ≡ c.max)
set-IsValid c k page v h = rw (whole) (
  record {
    ordered = refl;
    distinct = queue_set-NoRepeat c.max k page c.pages v.distinct;
    bounded = length-queue_set c.max k page c.pages v.bounded;
  },
  refl,
  refl,
)
  where
    whole : set c k page ≡ in_order c.max (queue_set c.max k page c.pages)
    whole = ap (λ d. set d k page) (ordered-eq c v) ∙ set-pages c.max k page c.pages v.distinct h

lookup-append :
    (j k : ℕ) (page : Bytes) (m : List (ℕ × Bytes))
    → mem k (keys m) ≡ false
    → lookup j (m ++ ((k, page) ∷ [])) ≡ (if k == j then some page else lookup j m)
unfolding lookup
lookup-append j k page [] h = refl
lookup-append j k page ((i, w) ∷ m) h = ground (arith, lookup-append j k page m)

lookup-queue_set_self :
    (max k : ℕ) (page : Bytes) (m : List (ℕ × Bytes))
    → lookup k (queue_set max k page m) ≡ some page
lookup-queue_set_self max k page m = elim (Bool-cases (mem k (keys m))) [
  | inl known ↦ rw (known, lookup-insert k k page m, ==_refl k) refl
  | inr fresh ↦ elim (Bool-cases (is_full max m)) [
    | inl full ↦
        rw
          (
            fresh,
            full,
            lookup-append k k page (without_oldest m) (without_oldest-mem k m fresh),
            ==_refl k,
          )
          refl
    | inr room ↦ rw (fresh, room, lookup-append k k page m fresh, ==_refl k) refl
  ]
]

lookup-queue_set_ne :
    (max k j : ℕ) (page : Bytes) (m : List (ℕ × Bytes))
    → k ≢ j
    → (mem k (keys m) ≡ true) ⊎ (is_full max m ≡ false)
    → lookup j (queue_set max k page m) ≡ lookup j m
lookup-queue_set_ne max k j page m n h = elim (Bool-cases (mem k (keys m))) [
  | inl known ↦ rw (known, lookup-insert k j page m, ==_ne k j n) refl
  | inr fresh ↦ elim h [
    | inl known ↦ cc
    | inr room ↦ rw (fresh, room, lookup-append j k page m fresh, ==_ne k j n) refl
  ]
]

-- A stored page is what `Get` returns for its key, and unless a page has to leave, every other
-- key reads as before.
pub get-set :
    (c : FpwCache) (k j : ℕ) (page : Bytes)
    → IsValid c
    → page ≢ []
    → (get (set c k page) k ≡ page)
      × (k ≢ j
          → (mem k c.order ≡ true) ⊎ (is_full c.max c.pages ≡ false)
          → get (set c k page) j ≡ get c j)
unfolding get
get-set c k j page v h = (
  ap page_or_nil (ap (lookup k) pages ∙ lookup-queue_set_self c.max k page c.pages),
  λ n room. ap page_or_nil (
      ap (lookup j) pages
      ∙ lookup-queue_set_ne c.max k j page c.pages n
          (subst (λ o. (mem k o ≡ true) ⊎ (is_full c.max c.pages ≡ false)) v.ordered room)),
)
  where
    pages : (set c k page).pages ≡ queue_set c.max k page c.pages
    pages = (set-IsValid c k page v h).1
