-- ===== src/Fpw/Pglz.antt =====
-- `flashbackPGLZDecompress` of internal/service/flashback_fpw.go. `src` is what the position `sp`
-- has not passed, `out` is `dest[:dp]`.
pub mod Tokens
pub mod Masks
pub mod RoundTrip
pub mod Total
use db_flashback.Base.{
  ℕ, zero, suc, ◌+◌, ◌-◌, ◌*◌, ◌/◌, bit_and, bit_or, ◌||◌, [], ◌∷◌, ◌++◌, ltb, ◌==◌, if◌then◌else◌,
  length,
}
use db_flashback.Bytes.{Bytes, byte}

pub data Error : Type 0 where
  dest_empty truncated_match truncated_extra_len bad_offset incomplete : Error

-- `stuck` is no Go value: the loop ran out of fuel.
pub data Result : Type 0 where
  ok : Bytes → Result
  err : Error → Result
  stuck : Result

-- `for nlen > 0 && dp < len(dest) { dest[dp] = dest[dp-off] … }`
unfoldable pub copy_match : ℕ → ℕ → ℕ → Bytes → Bytes
copy_match zero off want out = out
copy_match (suc nlen) off want out =
    let more = copy_match nlen off want (out ++ (byte out (length out - off) ∷ [])) in
    if ltb (length out) want then more else out

-- The length and the distance of a match, and what follows it in `src`.
pub data Match : Type 0 where
  matched : ℕ → ℕ → Bytes → Match
  failed : Error → Match

abbrev pub match_off : ℕ → ℕ → ℕ
match_off a b = bit_or (bit_and a 0xf0 * 16) b

unfoldable pub read_match : Bytes → Match
read_match [] = failed truncated_match
read_match (a ∷ []) = failed truncated_match
read_match (a ∷ (b ∷ [])) =
    if bit_and a 0x0f + 3 == 18
    then failed truncated_extra_len
    else matched (bit_and a 0x0f + 3) (match_off a b) []
read_match (a ∷ (b ∷ (e ∷ rest))) =
    if bit_and a 0x0f + 3 == 18
    then matched (bit_and a 0x0f + 3 + e) (match_off a b) rest
    else matched (bit_and a 0x0f + 3) (match_off a b) (e ∷ rest)

-- The test behind the loops.
abbrev pub finish : Bytes → ℕ → Bytes → Result
finish [] want out = if length out == want then ok out else err incomplete
finish (x ∷ xs) want out = err incomplete

-- One match, with the loop that goes on behind it.
abbrev pub take_match : Match → ℕ → Bytes → (Bytes → Bytes → Result) → Result
take_match (failed e) want out loop = err e
take_match (matched nlen off rest) want out loop =
    let more = loop rest (copy_match nlen off want out) in
    if off == 0 || ltb (length out) off then err bad_offset else more

-- Both loops: `bits` are the rounds that the inner loop has left, 0 at the head of the outer one.
unfoldable pub loop : ℕ → ℕ → ℕ → ℕ → Bytes → Bytes → Result
loop zero bits ctrl want src out = stuck
loop (suc fuel) bits ctrl want [] out = finish [] want out
loop (suc fuel) zero ctrl want (c ∷ src) out =
    let more = loop fuel 8 c want src out in
    if ltb (length out) want then more else finish (c ∷ src) want out
loop (suc fuel) (suc bits) ctrl want (c ∷ src) out =
    let next = take_match (read_match (c ∷ src)) want out (loop fuel bits (ctrl / 2) want) in
    let more = loop fuel bits (ctrl / 2) want src (out ++ (c ∷ [])) in
    if ltb (length out) want
    then (if bit_and ctrl 1 == 0 then more else next)
    else finish (c ∷ src) want out

-- `flashbackPGLZDecompress` into a buffer of `want` bytes.
unfoldable pub pglz_decompress : Bytes → ℕ → Result
unfolding loop
pglz_decompress src want =
    if want == 0 then err dest_empty else loop (length src + 1) 0 0 want src []
