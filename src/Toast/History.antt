-- ===== src/Toast/History.antt =====
-- The chunks of a value after any history of `put`.
use db_flashback.Base.{
  ℕ, zero, suc, ◌+◌, ◌^◌, ◌≤◌, ◌<◌, ◌≡◌, refl, sym, ap, ◌∙◌, inl, inr, Bool, false, ◌&&◌, Option,
  none, some, List, [], ◌∷◌, ◌++◌, append-nil, append_assoc, arith, leb, ◌==◌, if◌then◌else◌,
  ==_iff, ==_ne, Bool-cases, Option-cases, length, get_elem?, lookup, insert, lookup-insert,
}
use db_flashback.Bytes.{Bytes}
use db_flashback.Toast.{
  ℤ, pos, negsuc, Chunks, ToastCache, new_toast_cache, toast_key, parts_of, put, max_seq, gather,
  gather_all, get_value,
}

-- One call of `put`. The ids are 32 bits wide.
pub record Write : Type 0 where
  pub toast_oid : ℕ
  pub value_id : ℕ
  pub seq : ℤ
  pub chunk : Bytes
  pub oid_small : toast_oid < 2 ^ 32
  pub id_small : value_id < 2 ^ 32

-- The cache after a history, newest first.
unfoldable pub after_writes : List Write → ToastCache
after_writes [] = new_toast_cache
after_writes (w ∷ ws) = put (after_writes ws) w.toast_oid w.value_id w.seq w.chunk

abbrev pub is_seq : ℤ → ℕ → Bool
is_seq (pos n) i = n == i
is_seq (negsuc n) i = false

-- The bytes last written as chunk `i` of a value.
unfoldable pub latest : ℕ → ℕ → ℕ → List Write → Option Bytes
latest oid id i [] = none
latest oid id i (w ∷ ws) =
    if w.toast_oid == oid && (w.value_id == id && is_seq w.seq i)
    then some w.chunk
    else latest oid id i ws

toast_key-injective :
    (oid id oid' id' : ℕ)
    → id < 2 ^ 32
    → id' < 2 ^ 32
    → (toast_key oid id == toast_key oid' id') ≡ ((oid == oid') && (id == id'))
toast_key-injective oid id oid' id' h h' = ground arith

parts_of-insert :
    (k j : ℕ) (parts : Chunks) (c : ToastCache)
    → parts_of (record { chunks = insert k parts c.chunks }) j
      ≡ (if k == j then parts else parts_of c j)
unfolding parts_of
parts_of-insert k j parts c = elim (Bool-cases (k == j)) [
  | inl same ↦ rw (lookup-insert k j parts c.chunks, same) refl
  | inr other ↦ rw (lookup-insert k j parts c.chunks, other) refl
]

-- What one `put` does to the chunks of a value.
lookup-put :
    (c : ToastCache) (o v : ℕ) (seq : ℤ) (chunk : Bytes) (oid id i : ℕ)
    → v < 2 ^ 32
    → id < 2 ^ 32
    → 0 < id
    → lookup i (parts_of (put c o v seq chunk) (toast_key oid id)) ≡ (
        if o == oid && (v == id && is_seq seq i)
        then some chunk
        else lookup i (parts_of c (toast_key oid id)))
unfolding put
lookup-put c o v (negsuc n) chunk oid id i h h' nz = ground arith
lookup-put c o v (pos n) chunk oid id i h h' nz = elim (Bool-cases (v == 0)) [
  | inl z ↦ rw z (ground arith)
  | inr used ↦
      rw
        (
          used,
          parts_of-insert (toast_key o v) (toast_key oid id)
              (insert n chunk (parts_of c (toast_key o v))) c,
        )
        (elim (Bool-cases (toast_key o v == toast_key oid id)) [
          | inl same ↦
              rw (same, lookup-insert n i chunk (parts_of c (toast_key o v)))
                (let e : toast_key o v ≡ toast_key oid id = (==_iff _ _).0 same in
                  let p : parts_of c (toast_key o v) ≡ parts_of c (toast_key oid id) =
                    ap (parts_of c) e in
                  rw p (ground arith))
          | inr other ↦ rw other (ground arith)
        ])
]

lookup-after_writes :
    (ws : List Write) (oid id i : ℕ)
    → id < 2 ^ 32
    → 0 < id
    → lookup i (parts_of (after_writes ws) (toast_key oid id)) ≡ latest oid id i ws
unfolding after_writes latest
lookup-after_writes [] oid id i small some_id = unfold parts_of lookup in refl
lookup-after_writes (w ∷ ws) oid id i small some_id =
    lookup-put (after_writes ws) w.toast_oid w.value_id w.seq w.chunk oid id i w.id_small small
      some_id
    ∙ rw (lookup-after_writes ws oid id i small some_id) refl

lookup-max_seq :
    (part : ℕ × Bytes) (parts : Chunks)
    → (b : Bytes) × (lookup (max_seq (part ∷ parts)) (part ∷ parts) ≡ some b)
unfolding lookup max_seq
lookup-max_seq (s, b) [] = (b, ground arith)
lookup-max_seq (s, b) (part ∷ parts) = elim (Bool-cases (leb (max_seq (part ∷ parts)) s)) [
  | inl above ↦ (b, ground arith)
  | inr under ↦ let (d, e) = lookup-max_seq part parts in (d, ground arith)
]

max_seq-bound : (i : ℕ) (b : Bytes) (parts : Chunks) → lookup i parts ≡ some b → i ≤ max_seq parts
unfolding lookup max_seq
max_seq-bound i b [] h = cc
max_seq-bound i b ((s, d) ∷ parts) h = ground (arith, max_seq-bound i b parts)

abbrev pub concat : List Bytes → Bytes
concat [] = []
concat (b ∷ bs) = b ++ concat bs

gather_present :
    (cs : List Bytes) (i : ℕ) (parts : Chunks) (out : Bytes)
    → ((j : ℕ) → j < length cs → lookup (i + j) parts ≡ get_elem? cs j)
    → gather (length cs) i parts out ≡ some (out ++ concat cs)
unfolding gather
gather_present [] i parts out h = ap some (sym (append-nil out))
gather_present (c ∷ cs) i parts out h =
    rw (gather, ap (λ k. lookup k parts) (let z : i ≡ i + 0 = omega arith in z) ∙ h 0 (omega arith))
      (gather_present cs (suc i) parts (out ++ c) (λ j l.
          ap (λ k. lookup k parts) (let z : suc i + j ≡ i + suc j = omega arith in z)
          ∙ h (suc j) (omega arith))
        ∙ ap some (append_assoc out c (concat cs)))

gather_absent :
    (n i j : ℕ) (parts : Chunks) (out : Bytes)
    → j < n
    → lookup (i + j) parts ≡ none
    → gather n i parts out ≡ none
unfolding gather
gather_absent zero i j parts out l h = absurd (omega arith)
gather_absent (suc n) i zero parts out l h =
    rw (gather, ap (λ k. lookup k parts) (let z : i ≡ i + 0 = omega arith in z) ∙ h) refl
gather_absent (suc n) i (suc j) parts out l h =
    let missing : lookup (suc i + j) parts ≡ none =
      ap (λ k. lookup k parts) (let z : suc i + j ≡ i + suc j = omega arith in z) ∙ h in
    elim (Option-cases (lookup i parts)) [
      | inl e ↦ rw (gather, e) refl
      | inr (b, e) ↦
          rw (gather, e) (gather_absent n (suc i) j parts (out ++ b) (omega arith) missing)
    ]

get_elem?-bound : (cs : List Bytes) (i : ℕ) (b : Bytes) → get_elem? cs i ≡ some b → i < length cs
get_elem?-bound [] i b h = cc
get_elem?-bound (c ∷ cs) zero b h = omega arith
get_elem?-bound (c ∷ cs) (suc i) b h = omega (arith, get_elem?-bound cs i b h)

get_elem?-last :
    (c : Bytes) (cs : List Bytes) → (b : Bytes) × (get_elem? (c ∷ cs) (length cs) ≡ some b)
get_elem?-last c [] = (c, refl)
get_elem?-last c (d ∷ cs) = get_elem?-last d cs

gather_all-present :
    (c : Bytes) (cs : List Bytes) (parts : Chunks)
    → ((i : ℕ) → lookup i parts ≡ get_elem? (c ∷ cs) i)
    → gather_all parts ≡ some (concat (c ∷ cs))
gather_all-present c cs [] h = absurd (unfold lookup in (let e : none ≡ some c = h 0 in cc))
gather_all-present c cs (part ∷ parts) h =
    let (b, top) = lookup-max_seq part parts in
    let (d, last) = get_elem?-last c cs in
    let under = get_elem?-bound (c ∷ cs) (max_seq (part ∷ parts)) b (sym (h _) ∙ top) in
    let over = max_seq-bound (length cs) d (part ∷ parts) (h _ ∙ last) in
    let size : suc (max_seq (part ∷ parts)) ≡ length (c ∷ cs) = omega (arith, under, over) in
    rw size (
      gather_present (c ∷ cs) 0 (part ∷ parts) []
        (λ j l. ap (λ k. lookup k (part ∷ parts)) (let z : 0 + j ≡ j = omega arith in z) ∙ h j))

gather_all-absent :
    (i j : ℕ) (b : Bytes) (parts : Chunks)
    → i < j
    → lookup i parts ≡ none
    → lookup j parts ≡ some b
    → gather_all parts ≡ none
gather_all-absent i j b [] l h k = refl
gather_all-absent i j b (part ∷ parts) l h k =
    gather_absent (suc (max_seq (part ∷ parts))) 0 i (part ∷ parts) []
      (omega (arith, max_seq-bound j b (part ∷ parts) k))
      (ap (λ n. lookup n (part ∷ parts)) (let z : 0 + i ≡ i = omega arith in z) ∙ h)

-- After any history of writes to any values, a value whose chunks 0 to n − 1 were written, in
-- whatever order and however often, and no other, reads as the bytes last written as each of
-- them, one behind the other.
pub get_value-after_writes :
    (ws : List Write) (oid id : ℕ) (c : Bytes) (cs : List Bytes)
    → id < 2 ^ 32
    → 0 < id
    → ((i : ℕ) → latest oid id i ws ≡ get_elem? (c ∷ cs) i)
    → get_value (after_writes ws) oid id ≡ some (concat (c ∷ cs))
unfolding get_value
get_value-after_writes ws oid id c cs small used h = rw (==_ne id 0 (omega arith)) (
    gather_all-present c cs (parts_of (after_writes ws) (toast_key oid id))
      (λ i. lookup-after_writes ws oid id i small used ∙ h i))

-- After any history of writes, a value with a chunk missing before one that is there does not
-- read at all, rather than with a hole.
pub get_value-gap :
    (ws : List Write) (oid id i j : ℕ) (b : Bytes)
    → id < 2 ^ 32
    → 0 < id
    → i < j
    → latest oid id i ws ≡ none
    → latest oid id j ws ≡ some b
    → get_value (after_writes ws) oid id ≡ none
unfolding get_value
get_value-gap ws oid id i j b small used l missing there = rw (==_ne id 0 (omega arith)) (
    gather_all-absent i j b (parts_of (after_writes ws) (toast_key oid id)) l
      (lookup-after_writes ws oid id i small used ∙ missing)
      (lookup-after_writes ws oid id j small used ∙ there))
