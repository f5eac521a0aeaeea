-- ===== src/Fpw/Pglz/Tokens.antt =====
-- PGLZ streams as PostgreSQL writes them: literals and matches in groups of up to eight, each
-- group behind the byte of its flags.
use db_flashback.Base.{
  ℕ, zero, suc, ◌+◌, ◌-◌, ◌*◌, ◌/◌, ◌%◌, ◌^◌, ◌≤◌, ◌<◌, ◌≡◌, List, [], ◌∷◌, ◌++◌, arith, ltb,
  if◌then◌else◌, length, length-append,
}
use db_flashback.Bytes.{Bytes, byte}
use native.Mathlib.Nat.{pow-suc}

pub data Token : Type 0 where
  literal : ℕ → Token
  match : ℕ → ℕ → Token

-- `len` bytes copied from `off` back, one at a time.
unfoldable pub repeat_back : ℕ → ℕ → Bytes → Bytes
repeat_back zero off out = out
repeat_back (suc len) off out = repeat_back len off (out ++ (byte out (length out - off) ∷ []))

-- The meaning of a token, behind the output so far.
abbrev pub expand_one : Token → Bytes → Bytes
expand_one (literal c) out = out ++ (c ∷ [])
expand_one (match len off) out = repeat_back len off out

abbrev pub expand : List Token → Bytes → Bytes
expand [] out = out
expand (t ∷ ts) out = expand ts (expand_one t out)

abbrev pub size_one : Token → ℕ
size_one (literal c) = 1
size_one (match len off) = len

abbrev pub token_bytes : Token → Bytes
token_bytes (literal c) = c ∷ []
token_bytes (match len off) =
    if ltb len 18
    then (off / 256 * 16 + (len - 3)) ∷ (off % 256) ∷ []
    else (off / 256 * 16 + 15) ∷ (off % 256) ∷ (len - 18) ∷ []

-- What PGLZ can express at an output of `n` bytes.
abbrev pub Fits : Token → ℕ → Type 0
Fits (literal c) n = c < 256
Fits (match len off) n = (3 ≤ len) × (len ≤ 273) × (1 ≤ off) × (off ≤ 4095) × (off ≤ n)

abbrev pub flag : Token → ℕ
flag (literal c) = 0
flag (match len off) = 1

abbrev pub flags : List Token → ℕ
flags [] = 0
flags (t ∷ ts) = flag t + 2 * flags ts

abbrev pub body : List Token → Bytes
body [] = []
body (t ∷ ts) = token_bytes t ++ body ts

abbrev pub size : List Token → ℕ
size [] = 0
size (t ∷ ts) = size_one t + size ts

-- Each token fits where it stands; `n` is the size of the output before.
abbrev pub AllFit : ℕ → List Token → Type 0
AllFit n [] = Unit
AllFit n (t ∷ ts) = Fits t n × AllFit (n + size_one t) ts

-- Full groups of eight tokens, and a last one of one to eight.
abbrev pub WellGrouped : ℕ → List (List Token) → Type 0
WellGrouped n [] = Unit
WellGrouped n (g ∷ []) = (1 ≤ length g) × (length g ≤ 8) × AllFit n g
WellGrouped n (g ∷ (h ∷ gs)) = (length g ≡ 8) × AllFit n g × WellGrouped (n + size g) (h ∷ gs)

abbrev pub encode : List (List Token) → Bytes
encode [] = []
encode (g ∷ gs) = flags g ∷ (body g ++ encode gs)

abbrev pub expand_all : List (List Token) → Bytes → Bytes
expand_all [] out = out
expand_all (g ∷ gs) out = expand_all gs (expand g out)

abbrev pub size_all : List (List Token) → ℕ
size_all [] = 0
size_all (g ∷ gs) = size g + size_all gs

length-repeat_back :
    (len off : ℕ) (out : Bytes) → length (repeat_back len off out) ≡ length out + len
unfolding repeat_back
length-repeat_back zero off out = omega arith
length-repeat_back (suc len) off out =
    let next : Bytes = byte out (length out - off) ∷ [] in
    omega (arith, length-repeat_back len off (out ++ next), length-append out next)

pub length-expand_one :
    (t : Token) (out : Bytes) → length (expand_one t out) ≡ length out + size_one t
length-expand_one (literal c) out = length-append out (c ∷ [])
length-expand_one (match len off) out = length-repeat_back len off out

pub length-expand : (ts : List Token) (out : Bytes) → length (expand ts out) ≡ length out + size ts
length-expand [] out = omega arith
length-expand (t ∷ ts) out =
    omega (arith, length-expand ts (expand_one t out), length-expand_one t out)

pub length-expand_all :
    (gs : List (List Token)) (out : Bytes) → length (expand_all gs out) ≡ length out + size_all gs
length-expand_all [] out = omega arith
length-expand_all (g ∷ gs) out =
    omega (arith, length-expand_all gs (expand g out), length-expand g out)

pub size-pos : (n : ℕ) (ts : List Token) → AllFit n ts → length ts ≤ size ts
size-pos n [] h = omega arith
size-pos n (literal c ∷ ts) h = omega (arith, size-pos (n + 1) ts h.1)
size-pos n (match len off ∷ ts) h = omega (arith, size-pos (n + len) ts h.1, h.0.0)

-- Eight flags fill a byte.
flags_scaled : (ts : List Token) (k : ℕ) → length ts ≤ k → flags ts < 2 ^ k
flags_scaled [] zero h = omega arith
flags_scaled [] (suc k) h = omega (arith, flags_scaled [] k (omega arith), pow-suc 2 k)
flags_scaled (t ∷ ts) zero h = absurd (omega arith)
flags_scaled (literal c ∷ ts) (suc k) h =
    omega (arith, flags_scaled ts k (omega arith), pow-suc 2 k)
flags_scaled (match l o ∷ ts) (suc k) h =
    omega (arith, flags_scaled ts k (omega arith), pow-suc 2 k)

pub flags-lt : (ts : List Token) → length ts ≤ 8 → flags ts < 256
flags-lt ts h = flags_scaled ts 8 h
