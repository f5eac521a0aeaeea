-- ===== src/Datum/Varlena.antt =====
-- Values as PostgreSQL writes them (varattrib_1b and varattrib_4b), and their alignment.
use db_flashback.Base.{
  ℕ, suc, ◌+◌, ◌*◌, ◌/◌, ◌%◌, ◌^◌, ◌≤◌, ◌<◌, bit_and, ◌≡◌, refl, ◌∙◌, some, ◌∷◌, ◌++◌, arith,
  le→ltb, ==_ne, length, length-append, take-append,
}
use db_flashback.Bytes.{Bytes, le32, u32-le32}
use db_flashback.Datum.{
  Typalign, align_char, align_short, align_int, align_other, unit_of, align_off, read_short,
  read_long, read_varlena,
}
use db_flashback.Fpw.Pglz.Masks.{low_bit}

-- The next offset that the alignment allows, and the first one.
pub align_off_lem :
    (off : ℕ) (t : Typalign)
    → (off ≤ align_off off t)
      × (align_off off t < off + unit_of t)
      × (align_off off t % unit_of t ≡ 0)
unfolding align_off
align_off_lem off align_char = (omega arith, omega arith, omega arith)
align_off_lem off align_short = ground arith
align_off_lem off align_int = ground arith
align_off_lem off align_other = ground arith

-- A value behind a header of one byte, or of four.
abbrev pub short_varlena : Bytes → Bytes → Bytes
short_varlena v rest = (2 * (length v + 1) + 1) ∷ (v ++ rest)

abbrev pub long_varlena : Bytes → Bytes → Bytes
long_varlena v rest = le32 (4 * (length v + 4)) ++ (v ++ rest)

read_short-cons :
    (x : ℕ) (v rest : Bytes)
    → x / 2 ≡ suc (length v)
    → read_short (x ∷ (v ++ rest)) ≡ some (some v, suc (length v))
unfolding read_short
read_short-cons x v rest e =
    rw
      (
        e,
        le→ltb (suc (length v)) 1 (omega arith),
        le→ltb (suc (length (v ++ rest))) (suc (length v)) (omega (arith, length-append v rest)),
        take-append v rest refl,
      )
      refl

-- A value with a header of one byte is read back, whatever follows it.
pub read_varlena-short_varlena :
    (v rest : Bytes)
    → length v < 126
    → read_varlena (short_varlena v rest) ≡ some (some v, suc (length v))
unfolding read_varlena
read_varlena-short_varlena v rest h =
    let x = 2 * (length v + 1) + 1 in
    let odd : bit_and x 1 ≡ 1 = low_bit x (omega arith) ∙ omega arith in
    rw (==_ne x 1 (omega arith), odd) (read_short-cons x v rest (omega arith))

read_long-le32 :
    (w : ℕ) (v rest : Bytes)
    → w < 2 ^ 32
    → w / 4 ≡ suc (suc (suc (suc (length v))))
    → read_long (le32 w ++ (v ++ rest)) ≡ some (some v, suc (suc (suc (suc (length v)))))
unfolding read_long
read_long-le32 w v rest h e =
    rw
      (
        u32-le32 w (v ++ rest) h,
        e,
        le→ltb (suc (suc (suc (suc (length (v ++ rest)))))) 4 (omega arith),
        le→ltb (suc (suc (suc (suc (length v))))) 4 (omega arith),
        le→ltb (suc (suc (suc (suc (length (v ++ rest)))))) (suc (suc (suc (suc (length v)))))
            (omega (arith, length-append v rest)),
        take-append v rest refl,
      )
      refl

-- A value with a header of four bytes is read back, whatever follows it.
pub read_varlena-long_varlena :
    (v rest : Bytes)
    → length v + 4 < 2 ^ 30
    → read_varlena (long_varlena v rest) ≡ some (some v, suc (suc (suc (suc (length v)))))
unfolding read_varlena
read_varlena-long_varlena v rest h =
    let w = 4 * (length v + 4) in
    let even : bit_and (w % 256) 1 ≡ 0 = low_bit (w % 256) (omega arith) ∙ omega arith in
    rw (==_ne (w % 256) 1 (omega arith), even) (read_long-le32 w v rest (omega arith) (omega arith))
