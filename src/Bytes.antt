-- ===== src/Bytes.antt =====
-- Byte slices as lists of numbers below 256: the reads of Go's `encoding/binary` (little endian),
-- `b[lo:hi]`, and tests of flag bits.
use db_flashback.Base.{
  ℕ, zero, suc, ◌+◌, ◌-◌, ◌*◌, ◌/◌, ◌%◌, ◌^◌, ◌≤◌, ◌<◌, bit_and, ◌≡◌, refl, ap, Bool, not, List, [],
  ◌∷◌, ◌++◌, arith, ◌==◌, length, get_or, take, drop,
}

abbrev pub Bytes : Type 0
Bytes = List ℕ

-- `b[i]`; the code tests the length before each read.
abbrev pub byte : Bytes → ℕ → ℕ
byte b i = get_or b i 0

-- `binary.LittleEndian.Uint16(b[i:i+2])`
unfoldable pub u16 : Bytes → ℕ → ℕ
u16 b i = byte b i + 256 * byte b (i + 1)

-- `binary.LittleEndian.Uint32(b[i:i+4])`
unfoldable pub u32 : Bytes → ℕ → ℕ
u32 b i = byte b i + 256 * (byte b (i + 1) + 256 * (byte b (i + 2) + 256 * byte b (i + 3)))

-- `binary.LittleEndian.Uint64(b[i:i+8])`
unfoldable pub u64 : Bytes → ℕ → ℕ
unfolding u32
u64 b i = u32 b i + 2 ^ 32 * u32 b (i + 4)

-- `b[lo:hi]`
abbrev pub slice : Bytes → ℕ → ℕ → Bytes
slice b lo hi = take (hi - lo) (drop lo b)

-- `x&m != 0`
abbrev pub has : ℕ → ℕ → Bool
has x m = not (bit_and x m == 0)

-- What PostgreSQL and `binary.LittleEndian.PutUint16`, `PutUint32` write.
abbrev pub le16 : ℕ → Bytes
le16 v = v % 256 ∷ v / 256 % 256 ∷ []

abbrev pub le32 : ℕ → Bytes
le32 v = v % 256 ∷ v / 256 % 256 ∷ v / 65536 % 256 ∷ v / 16777216 % 256 ∷ []

abbrev pub le64 : ℕ → Bytes
le64 v = le32 (v % 2 ^ 32) ++ le32 (v / 2 ^ 32)

pub u16-le16 : (v : ℕ) (rest : Bytes) → v < 2 ^ 16 → u16 (le16 v ++ rest) 0 ≡ v
unfolding u16
u16-le16 v rest h = omega arith

pub u32-le32 : (v : ℕ) (rest : Bytes) → v < 2 ^ 32 → u32 (le32 v ++ rest) 0 ≡ v
unfolding u32
u32-le32 v rest h = omega arith

pub u64-le64 : (v : ℕ) (rest : Bytes) → v < 2 ^ 64 → u64 (le64 v ++ rest) 0 ≡ v
unfolding u64
u64-le64 v rest h = omega arith

-- A read behind a prefix is a read of what follows it.
pub byte-append :
    (xs ys : Bytes) (i : ℕ) {n : ℕ} → n ≡ length xs + i → byte (xs ++ ys) n ≡ byte ys i
byte-append [] ys i {n} e = ap (byte ys) (let h : n ≡ i = omega arith in h)
byte-append (x ∷ xs) ys i {n = zero} e = absurd (omega arith)
byte-append (x ∷ xs) ys i {n = suc n} e = byte-append xs ys i (omega arith)

pub u32-append : (xs ys : Bytes) {n : ℕ} → n ≡ length xs → u32 (xs ++ ys) n ≡ u32 ys 0
unfolding u32
u32-append xs ys {n} e = cc (
  byte-append xs ys 0 {n = n} (omega arith),
  byte-append xs ys 1 {n = n + 1} (omega arith),
  byte-append xs ys 2 {n = n + 2} (omega arith),
  byte-append xs ys 3 {n = n + 3} (omega arith),
)

-- The four bytes of another number in front.
pub u64-le32 : (v : ℕ) (ys : Bytes) → u64 (le32 v ++ ys) 4 ≡ u64 ys 0
unfolding u64
u64-le32 v ys = refl

-- A read inside a prefix does not see what follows.
pub byte-append_left : (xs ys : Bytes) (i : ℕ) → i < length xs → byte (xs ++ ys) i ≡ byte xs i
byte-append_left [] ys i h = elim h [ ]
byte-append_left (x ∷ xs) ys zero h = refl
byte-append_left (x ∷ xs) ys (suc i) h = byte-append_left xs ys i (omega arith)

pub u32-append_left : (xs ys : Bytes) → 4 ≤ length xs → u32 (xs ++ ys) 0 ≡ u32 xs 0
unfolding u32
u32-append_left xs ys h = cc (
  byte-append_left xs ys 0 (omega arith),
  byte-append_left xs ys (0 + 1) (omega arith),
  byte-append_left xs ys (0 + 2) (omega arith),
  byte-append_left xs ys (0 + 3) (omega arith),
)
