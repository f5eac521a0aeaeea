-- ===== src/Fpw/Pglz/Masks.antt =====
-- The masks of the PGLZ stream as arithmetic, checked by evaluation over bytes.
use db_flashback.Base.{
  ℕ, zero, suc, ◌+◌, ◌*◌, ◌/◌, ◌%◌, ◌<◌, bit_and, ◌≡◌, refl, Bool, true, ◌&&◌, arith, ◌==◌, ==_iff,
}
use db_flashback.Fpw.Pglz.{match_off}

-- A test that passes for every number under a bound, from the bound down.
passes_under : (ℕ → Bool) → ℕ → Bool
passes_under test zero = true
passes_under test (suc top) = passes_under test top && test top

passes_under_lem :
    (test : ℕ → Bool) (bound value : ℕ)
    → passes_under test bound ≡ true
    → value < bound
    → test value ≡ true
unfolding passes_under
passes_under_lem test zero value all small = absurd (omega arith)
passes_under_lem test (suc top) value all small = ground (arith, passes_under_lem test top value)

low_table : passes_under (λ x. bit_and x 0x0f == x % 16) 256 ≡ true
unfolding passes_under
low_table = refl

pub low_half : (x : ℕ) → x < 256 → bit_and x 0x0f ≡ x % 16
low_half x h = (==_iff _ _).0 (passes_under_lem _ 256 x low_table h)

ctrl_table : passes_under (λ x. bit_and x 1 == x % 2) 256 ≡ true
unfolding passes_under
ctrl_table = refl

pub low_bit : (x : ℕ) → x < 256 → bit_and x 1 ≡ x % 2
low_bit x h = (==_iff _ _).0 (passes_under_lem _ 256 x ctrl_table h)

off_table : passes_under (λ a. passes_under (λ b. match_off a b == a / 16 * 256 + b) 256) 256 ≡ true
unfolding passes_under
off_table = refl

pub match_off_lem : (a b : ℕ) → a < 256 → b < 256 → match_off a b ≡ a / 16 * 256 + b
match_off_lem a b h k = (==_iff _ _).0 (
    passes_under_lem (λ b. match_off a b == a / 16 * 256 + b) 256 b
      (passes_under_lem (λ a. passes_under (λ b. match_off a b == a / 16 * 256 + b) 256) 256 a
        off_table h)
      k)
