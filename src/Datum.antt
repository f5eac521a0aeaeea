-- ===== src/Datum.antt =====
-- Where values of a row begin and end, internal/service/flashback_datum.go: alignment and the
-- headers of values of variable length.
pub mod Varlena
mod Tests
use db_flashback.Base.{
  ℕ, ◌+◌, ◌-◌, ◌/◌, ◌%◌, bit_and, Bool, not, ◌&&◌, ◌||◌, Option, none, some, [], ◌∷◌, ltb, ◌==◌,
  if◌then◌else◌, length, take, drop,
}
use db_flashback.Bytes.{Bytes, byte, u32}

-- `typalign`: c, s, i, and anything else.
pub data Typalign : Type 0 where
  align_char align_short align_int align_other : Typalign

abbrev pub unit_of : Typalign → ℕ
unit_of align_char = 1
unit_of align_short = 2
unit_of align_int = 4
unit_of align_other = 8

-- `if m := off % a; m != 0 { off += a - m }`
abbrev pub align_to : ℕ → ℕ → ℕ
align_to a off = if off % a == 0 then off else off + (a - off % a)

-- `flashbackAlign`
unfoldable pub align_off : ℕ → Typalign → ℕ
align_off off align_char = off
align_off off align_short = align_to 2 off
align_off off align_int = align_to 4 off
align_off off align_other = align_to 8 off

-- `flashbackAlignPointer`; `varlena` is `col.Typlen < 0`.
unfoldable pub align_pointer : Bytes → ℕ → Bool → Typalign → ℕ
unfolding align_off
align_pointer raw off varlena typalign =
    if varlena && (ltb off (length raw) && not (byte raw off == 0))
    then off
    else align_off off typalign

-- A header of one byte.
unfoldable pub read_short : Bytes → Option (Option Bytes × ℕ)
read_short b =
    let n = byte b 0 / 2 in
    if ltb n 1 || ltb (length b) n then none else some (some (drop 1 (take n b)), n)

-- A header of four bytes.
unfoldable pub read_long : Bytes → Option (Option Bytes × ℕ)
unfolding u32
read_long b =
    let n = u32 b 0 / 4 in
    if ltb (length b) 4
    then none
    else if ltb n 4 || ltb (length b) n
    then none
    else some (some (drop 4 (take n b)), n)

-- `flashbackReadVarlena`: the data, nil for a pointer, and the bytes taken.
unfoldable pub read_varlena : Bytes → Option (Option Bytes × ℕ)
unfolding read_short read_long
read_varlena [] = none
read_varlena (h ∷ b) =
    if h == 1
    then (if ltb (length (h ∷ b)) 18 then none else some (none, 18))
    else if bit_and h 1 == 1
    then read_short (h ∷ b)
    else read_long (h ∷ b)
