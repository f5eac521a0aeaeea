-- ===== src/Fpw/Pglz/Total.antt =====
-- Decompression ends on every input.
use db_flashback.Base.{
  ℕ, zero, suc, ◌+◌, ◌/◌, ◌≤◌, ◌<◌, bit_and, ◌≡◌, refl, ◌⊎◌, inl, inr, ◌||◌, [], ◌∷◌, ◌++◌, arith,
  ltb, ◌==◌, ==_iff, Bool-cases, length,
}
use db_flashback.Bytes.{Bytes}
use db_flashback.Fpw.Pglz.{
  Error, Result, ok, err, stuck, Match, matched, failed, copy_match, read_match, take_match, finish,
  loop, pglz_decompress,
}

-- The outcome is no `stuck`, and what it hands out has the size asked for.
abbrev Settled : ℕ → Result → Type 0
Settled want (ok out) = length out ≡ want
Settled want (err e) = Unit
Settled want stuck = ⊥

finish-Settled : (src : Bytes) (want : ℕ) (out : Bytes) → Settled want (finish src want out)
finish-Settled [] want out = elim (Bool-cases (length out == want)) [
  | inl e ↦ rw e ((==_iff _ _).0 e)
  | inr e ↦ rw e tt
]
finish-Settled (x ∷ xs) want out = tt

-- A match takes at least two bytes.
abbrev Shorter : Bytes → Match → Type 0
Shorter src (matched nlen off rest) = length rest + 2 ≤ length src
Shorter src (failed e) = Unit

read_match-Shorter : (src : Bytes) → Shorter src (read_match src)
unfolding read_match
read_match-Shorter [] = tt
read_match-Shorter (a ∷ []) = tt
read_match-Shorter (a ∷ (b ∷ [])) = elim (Bool-cases (bit_and a 0x0f + 3 == 18)) [
  | inl e ↦ rw e tt
  | inr e ↦ rw e (omega arith)
]
read_match-Shorter (a ∷ (b ∷ (e ∷ rest))) = elim (Bool-cases (bit_and a 0x0f + 3 == 18)) [
  | inl h ↦ rw h (omega arith)
  | inr h ↦ rw h (omega arith)
]

take_match-Settled :
    (m : Match) (want : ℕ) (src out : Bytes) (k : Bytes → Bytes → Result)
    → Shorter src m
    → ((rest out : Bytes) → length rest + 2 ≤ length src → Settled want (k rest out))
    → Settled want (take_match m want out k)
take_match-Settled (failed e) want src out k s h = tt
take_match-Settled (matched nlen off rest) want src out k s h =
    elim (Bool-cases (off == 0 || ltb (length out) off)) [
      | inl e ↦ rw e tt
      | inr e ↦ rw e (h rest (copy_match nlen off want out) s)
    ]

loop-Settled :
    (fuel bits ctrl want : ℕ) (src out : Bytes)
    → length src < fuel
    → Settled want (loop fuel bits ctrl want src out)
unfolding loop
loop-Settled zero bits ctrl want src out h = elim h [ ]
loop-Settled (suc fuel) zero ctrl want [] out h = finish-Settled [] want out
loop-Settled (suc fuel) (suc bits) ctrl want [] out h = finish-Settled [] want out
loop-Settled (suc fuel) zero ctrl want (c ∷ src) out h = elim (Bool-cases (ltb (length out) want)) [
  | inl e ↦ rw e (loop-Settled fuel 8 c want src out (omega arith))
  | inr e ↦ rw e tt
]
loop-Settled (suc fuel) (suc bits) ctrl want (c ∷ src) out h =
    let step = loop-Settled fuel bits (ctrl / 2) want in
    let lit = step src (out ++ (c ∷ [])) (omega arith) in
    let mat =
      take_match-Settled (read_match (c ∷ src)) want (c ∷ src) out (loop fuel bits (ctrl / 2) want)
        (read_match-Shorter (c ∷ src)) (λ rest out' r. step rest out' (omega arith)) in
    elim (Bool-cases (ltb (length out) want)) [
      | inl e ↦ elim (Bool-cases (bit_and ctrl 1 == 0)) [
        | inl f ↦ rw (e, f) lit
        | inr f ↦ rw (e, f) mat
      ]
      | inr e ↦ rw e tt
    ]

Settled-cases :
    (want : ℕ) (r : Result)
    → Settled want r
    → ((out : Bytes) × (r ≡ ok out) × (length out ≡ want)) ⊎ ((e : Error) × (r ≡ err e))
Settled-cases want (ok out) s = inl (out, refl, s)
Settled-cases want (err e) s = inr (e, refl)
Settled-cases want stuck s = absurd s

-- On every input the decompressor ends, with an error or with exactly as many bytes as asked for.
pub pglz_decompress_total :
    (src : Bytes) (want : ℕ)
    → ((out : Bytes) × (pglz_decompress src want ≡ ok out) × (length out ≡ want))
      ⊎ ((e : Error) × (pglz_decompress src want ≡ err e))
pglz_decompress_total src want = Settled-cases want (pglz_decompress src want) settled
  where
    settled : Settled want (pglz_decompress src want)
    settled =
        unfold pglz_decompress in
        elim (Bool-cases (want == 0)) [
          | inl e ↦ rw e tt
          | inr e ↦ rw e (loop-Settled (length src + 1) 0 0 want src [] (omega arith))
        ]
