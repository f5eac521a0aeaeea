-- ===== src/Fpw/Pglz/RoundTrip.antt =====
-- Decompression of what PGLZ writes.
use db_flashback.Base.{
  ℕ, zero, suc, ◌+◌, ◌-◌, ◌*◌, ◌/◌, ◌%◌, ◌≤◌, ◌<◌, bit_and, ◌≡◌, refl, ap, ◌∙◌, ◌≢◌, inl, inr, true,
  false, List, [], ◌∷◌, ◌++◌, append_assoc, arith, ltb, ◌==◌, ltb→lt, lt→ltb, ==_ne, Bool-cases,
  length, length-append,
}
use db_flashback.Bytes.{Bytes, byte}
use db_flashback.Fpw.Pglz.Masks.{low_half, low_bit, match_off_lem}
use db_flashback.Fpw.Pglz.Tokens.{
  Token, literal, match, repeat_back, expand_one, expand, size_one, token_bytes, Fits, flag, flags,
  body, size, AllFit, WellGrouped, encode, expand_all, size_all, length-expand_one, length-expand,
  length-expand_all, size-pos, flags-lt,
}
use db_flashback.Fpw.Pglz.{ok, copy_match, matched, match_off, read_match, loop, pglz_decompress}

copy_match-repeat_back :
    (len off want : ℕ) (out : Bytes)
    → length out + len ≤ want
    → copy_match len off want out ≡ repeat_back len off out
unfolding copy_match repeat_back
copy_match-repeat_back zero off want out h = refl
copy_match-repeat_back (suc len) off want out h =
    let next : Bytes = byte out (length out - off) ∷ [] in
    rw (lt→ltb (length out) want (omega arith))
      (copy_match-repeat_back len off want (out ++ next) (omega (arith, length-append out next)))

read_match_short :
    (a b : ℕ) (rest : Bytes)
    → (bit_and a 0x0f + 3 == 18) ≡ false
    → read_match (a ∷ (b ∷ rest)) ≡ matched (bit_and a 0x0f + 3) (match_off a b) rest
unfolding read_match
read_match_short a b [] h = rw h
read_match_short a b (e ∷ rest) h = rw h

read_match_long :
    (a b e : ℕ) (rest : Bytes)
    → (bit_and a 0x0f + 3 == 18) ≡ true
    → read_match (a ∷ (b ∷ (e ∷ rest))) ≡ matched (bit_and a 0x0f + 3 + e) (match_off a b) rest
unfolding read_match
read_match_long a b e rest h = rw h

off_bytes : (off x : ℕ) → off ≤ 4095 → x < 16 → match_off (off / 256 * 16 + x) (off % 256) ≡ off
off_bytes off x h hx =
    match_off_lem (off / 256 * 16 + x) (off % 256) (omega arith) (omega arith) ∙ omega arith

len_byte : (off x : ℕ) → off ≤ 4095 → x < 16 → bit_and (off / 256 * 16 + x) 0x0f ≡ x
len_byte off x h hx = low_half (off / 256 * 16 + x) (omega arith) ∙ omega arith

-- A match is read back, in its short form and in its long one.
read_match-token_bytes :
    (len off n : ℕ) (rest : Bytes)
    → Fits (match len off) n
    → read_match (token_bytes (match len off) ++ rest) ≡ matched len off rest
read_match-token_bytes len off n rest (h3, h273, h1, h4095, hn) = elim (Bool-cases (ltb len 18)) [
  | inl short ↦
      let lt : len < 18 = ltb→lt len 18 short in
      let low : bit_and (off / 256 * 16 + (len - 3)) 0x0f ≡ len - 3 =
        len_byte off (len - 3) h4095 (omega arith) in
      let sum : bit_and (off / 256 * 16 + (len - 3)) 0x0f + 3 ≡ len = omega arith in
      let far = off_bytes off (len - 3) h4095 (omega arith) in
      rw short (read_match_short (off / 256 * 16 + (len - 3)) (off % 256) rest (ground arith) ∙ cc)
  | inr long ↦
      let low : bit_and (off / 256 * 16 + 15) 0x0f ≡ 15 = len_byte off 15 h4095 (omega arith) in
      let ge : 18 ≤ len = ground arith in
      let sum : bit_and (off / 256 * 16 + 15) 0x0f + 3 + (len - 18) ≡ len = omega arith in
      let far = off_bytes off 15 h4095 (omega arith) in
      rw long
        (read_match_long (off / 256 * 16 + 15) (off % 256) (len - 18) rest (ground arith) ∙ cc)
]

loop_match :
    (fuel bits ctrl want len off : ℕ) (src rest out : Bytes)
    → read_match src ≡ matched len off rest
    → bit_and ctrl 1 ≡ 1
    → 1 ≤ off
    → off ≤ length out
    → length out < want
    → loop (suc fuel) (suc bits) ctrl want src out
      ≡ loop fuel bits (ctrl / 2) want rest (copy_match len off want out)
unfolding loop
loop_match fuel bits ctrl want len off [] rest out e hc h1 ho hw = unfold read_match in cc
loop_match fuel bits ctrl want len off (c ∷ src) rest out e hc h1 ho hw =
    rw (lt→ltb (length out) want hw, hc, e) (ground arith)

-- One round of the inner loop takes one token.
loop-token :
    (t : Token) (fuel bits ctrl want : ℕ) (rest out : Bytes)
    → ctrl < 256
    → ctrl % 2 ≡ flag t
    → Fits t (length out)
    → length out + size_one t ≤ want
    → loop (suc fuel) (suc bits) ctrl want (token_bytes t ++ rest) out
      ≡ loop fuel bits (ctrl / 2) want rest (expand_one t out)
loop-token (literal c) fuel bits ctrl want rest out hc hf fit hw =
    unfold loop in rw (lt→ltb (length out) want (omega arith), low_bit ctrl hc, hf) refl
loop-token (match len off) fuel bits ctrl want rest out hc hf fit hw =
    loop_match fuel bits ctrl want len off (token_bytes (match len off) ++ rest) rest out
      (read_match-token_bytes len off (length out) rest fit) (low_bit ctrl hc ∙ hf) fit.2 fit.4
      (omega (arith, fit.0))
    ∙ rw (copy_match-repeat_back len off want out hw) refl

flag_le : (t : Token) → flag t ≤ 1
flag_le (literal c) = omega arith
flag_le (match len off) = omega arith

-- The inner loop takes a group.
loop-group :
    (ts : List Token) (fuel bits want : ℕ) (rest out : Bytes)
    → flags ts < 256
    → AllFit (length out) ts
    → length out + size ts ≤ want
    → {f b : ℕ} → f ≡ length ts + fuel
    → b ≡ length ts + bits
    → loop f b (flags ts) want (body ts ++ rest) out ≡ loop fuel bits 0 want rest (expand ts out)
loop-group [] fuel bits want rest out hl fit hw {f} {b} ef eb =
    let e : f ≡ fuel = omega arith in let e' : b ≡ bits = omega arith in rw (e, e') refl
loop-group (t ∷ ts) fuel bits want rest out hl fit hw {f = suc f} {b = suc b} ef eb =
    let half : flags (t ∷ ts) / 2 ≡ flags ts = omega (arith, flag_le t) in
    ap (λ src. loop (suc f) (suc b) (flags (t ∷ ts)) want src out)
      (append_assoc (token_bytes t) (body ts) rest)
    ∙ loop-token t f b (flags (t ∷ ts)) want (body ts ++ rest) out hl (omega (arith, flag_le t))
        fit.0 (omega arith)
    ∙ rw half (
        loop-group ts fuel bits want rest (expand_one t out) (omega arith)
          (rw (length-expand_one t out) fit.1) (omega (arith, length-expand_one t out)) {f = f}
          {b = b} (omega arith) (omega arith))
loop-group (t ∷ ts) fuel bits want rest out hl fit hw {f = zero} ef eb = absurd (omega arith)
loop-group (t ∷ ts) fuel bits want rest out hl fit hw {f = suc f} {b = zero} ef eb =
    absurd (omega arith)

length-token_bytes : (t : Token) → 1 ≤ length (token_bytes t)
length-token_bytes (literal c) = omega arith
length-token_bytes (match len off) = ground arith

length-body : (n : ℕ) (ts : List Token) → AllFit n ts → length ts ≤ length (body ts)
length-body n [] h = omega arith
length-body n (t ∷ ts) h = omega (
  arith,
  length-body (n + size_one t) ts h.1,
  length-token_bytes t,
  length-append (token_bytes t) (body ts),
)

loop-outer :
    (fuel ctrl want c : ℕ) (src out : Bytes)
    → length out < want
    → loop (suc fuel) 0 ctrl want (c ∷ src) out ≡ loop fuel 8 c want src out
unfolding loop
loop-outer fuel ctrl want c src out h = rw (lt→ltb (length out) want h) refl

loop_end :
    (fuel bits want : ℕ) (out : Bytes)
    → length out ≡ want
    → loop (suc fuel) bits 0 want [] out ≡ ok out
unfolding loop
loop_end fuel zero want out h = ground arith
loop_end fuel (suc bits) want out h = ground arith

-- The outer loop: from the flags of a group to the end of the input.
loop-encode :
    (g : List Token) (gs : List (List Token)) (fuel ctrl want : ℕ) (out : Bytes)
    → WellGrouped (length out) (g ∷ gs)
    → length out + size_all (g ∷ gs) ≡ want
    → length (encode (g ∷ gs)) < fuel
    → loop fuel 0 ctrl want (encode (g ∷ gs)) out ≡ ok (expand_all (g ∷ gs) out)
loop-encode g gs zero ctrl want out w hw hf = absurd (omega arith)
loop-encode g [] (suc zero) ctrl want out w hw hf = absurd (omega arith)
loop-encode g [] (suc (suc fuel)) ctrl want out (h1, h8, fit) hw hf =
    let some_size = size-pos (length out) g fit in
    let bytes = length-body (length out) g fit in
    let more = length-append (body g) [] in
    loop-outer (suc fuel) ctrl want (flags g) (body g ++ []) out (omega arith)
    ∙ loop-group g (suc (fuel - length g)) (8 - length g) want [] out (flags-lt g h8) fit
        (omega arith) {f = suc fuel} {b = 8} (omega arith) (omega arith)
    ∙ loop_end (fuel - length g) (8 - length g) want (expand g out)
        (omega (arith, length-expand g out))
loop-encode g (h ∷ gs) (suc fuel) ctrl want out (h8, fit, w) hw hf =
    let some_size = size-pos (length out) g fit in
    let bytes = length-body (length out) g fit in
    let more = length-append (body g) (encode (h ∷ gs)) in
    loop-outer fuel ctrl want (flags g) (body g ++ encode (h ∷ gs)) out (omega arith)
    ∙ loop-group g (fuel - length g) 0 want (encode (h ∷ gs)) out (flags-lt g (omega arith)) fit
        (omega arith) {f = fuel} {b = 8} (omega arith) (omega arith)
    ∙ loop-encode h gs (fuel - length g) 0 want (expand g out) (rw (length-expand g out) w)
        (omega (arith, length-expand g out)) (omega arith)

size-pos_group :
    (n : ℕ) (g : List Token) (gs : List (List Token)) → WellGrouped n (g ∷ gs) → 1 ≤ size g
size-pos_group n g [] w = omega (arith, size-pos n g w.2)
size-pos_group n g (h ∷ gs) w = omega (arith, size-pos n g w.1)

-- What PGLZ writes for any tokens that its format can express, in full groups of eight and a
-- last one, is decompressed to the bytes that the tokens stand for, into a buffer of their size.
pub pglz_decompress-encode :
    (g : List Token) (gs : List (List Token))
    → WellGrouped 0 (g ∷ gs)
    → pglz_decompress (encode (g ∷ gs)) (length (expand_all (g ∷ gs) []))
      ≡ ok (expand_all (g ∷ gs) [])
unfolding pglz_decompress
pglz_decompress-encode g gs w =
    let whole = length-expand_all (g ∷ gs) [] in
    let want = length (expand_all (g ∷ gs) []) in
    let pos : want ≢ 0 = omega (arith, size-pos_group 0 g gs w) in
    rw (==_ne want 0 pos)
      (loop-encode g gs (length (encode (g ∷ gs)) + 1) 0 want [] w (omega arith) (omega arith))
