-- ===== src/Prelude/Bits.antt =====
-- Facts on the bit operations at variables: masks of one byte, and `|` of disjoint fields.
use Prim.Native.Nat.{
  ℕ, zero, suc, ◌+◌, ◌*◌, ◌/◌, ◌%◌, ◌^◌, ◌≤◌, ◌<◌, max, bit_and, bit_or, digits, bit_or-bitwise,
}
use mathlib.Core.Path.{◌≡◌, refl, ap}
use mathlib.Core.Bool.{Bool, true, ◌&&◌}
use native.Mathlib.Omega.{arith}
use native.Mathlib.Nat.{pow-suc}
use roll.Prelude.Tests.{◌==◌}

-- Both sides agree on every argument below `n`, by evaluation.
agree : (ℕ → ℕ) → (ℕ → ℕ) → ℕ → Bool
agree f g zero = true
agree f g (suc n) = f n == g n && agree f g n

agree→eq : (f g : ℕ → ℕ) (n x : ℕ) → agree f g n ≡ true → x < n → f x ≡ g x
unfolding agree
agree→eq f g zero x h lt = absurd (omega arith)
agree→eq f g (suc n) x h lt = ground (arith, agree→eq f g n x)

pub low_seven : (b : ℕ) → b < 256 → bit_and b 0x7f ≡ b % 128
unfolding agree
low_seven b h = agree→eq (λ x. bit_and x 0x7f) (λ x. x % 128) 256 b refl h

pub top_bit : (b : ℕ) → b < 256 → bit_and b 0x80 ≡ b / 128 * 128
unfolding agree
top_bit b h = agree→eq (λ x. bit_and x 0x80) (λ x. x / 128 * 128) 256 b refl h

pub with_top_bit : (b : ℕ) → b < 256 → bit_or b 0x80 ≡ b % 128 + 128
unfolding agree
with_top_bit b h = agree→eq (λ x. bit_or x 0x80) (λ x. x % 128 + 128) 256 b refl h

-- The definition of the bit operations on digits takes rounds; any bound on the first number is enough.
module _ (rest : ℕ → ℕ) (join : ℕ → ℕ → ℕ) where
  pub digits_enough :
      (value other rounds rounds' : ℕ)
      → value ≤ rounds
      → value ≤ rounds'
      → digits rest join rounds value other ≡ digits rest join rounds' value other
  digits_enough zero other zero zero e e' = refl
  digits_enough zero other zero (suc rounds') e e' = refl
  digits_enough zero other (suc rounds) zero e e' = refl
  digits_enough zero other (suc rounds) (suc rounds') e e' = refl
  digits_enough (suc value) other zero rounds' e e' = absurd (omega arith)
  digits_enough (suc value) other (suc rounds) zero e e' = absurd (omega arith)
  digits_enough (suc value) other (suc rounds) (suc rounds') e e' =
      ap (λ (high : ℕ). high * 2 + join (suc value % 2) (other % 2))
        (digits_enough (suc value / 2) (other / 2) rounds rounds' (omega arith) (omega arith))

zero-bit_or : (b : ℕ) → bit_or 0 b ≡ b
zero-bit_or b = bit_or-bitwise 0 b

bit_or_step : (a b : ℕ) → bit_or a b ≡ bit_or (a / 2) (b / 2) * 2 + max (a % 2) (b % 2)
bit_or_step zero b = omega (arith, zero-bit_or b, zero-bit_or (b / 2))
bit_or_step (suc a) b = omega (
  arith,
  bit_or-bitwise (suc a) b,
  bit_or-bitwise (suc a / 2) (b / 2),
  digits_enough (λ d. d) max (suc a / 2) (b / 2) a (suc a / 2) (omega arith) (omega arith),
)

pub pow_suc : (k : ℕ) → 2 ^ suc k ≡ 2 * 2 ^ k
pow_suc k = omega (arith, pow-suc 2 k)

double_high : (k high : ℕ) → high * 2 ^ suc k ≡ 2 * (high * 2 ^ k)
double_high k high = rw (pow_suc k) (omega arith)

-- A field of high bits is joined to the `k` bits below it by addition.
pub bit_or_disjoint :
    (k low high : ℕ) → low < 2 ^ k → bit_or low (high * 2 ^ k) ≡ low + high * 2 ^ k
bit_or_disjoint zero low high h = let z : low ≡ 0 = omega arith in rw (z, zero-bit_or) (omega arith)
bit_or_disjoint (suc k) low high h = rw (double_high k high) (
    omega (
      arith,
      bit_or_step low (2 * (high * 2 ^ k)),
      ap (bit_or (low / 2)) halved,
      bit_or_disjoint k (low / 2) high (omega (arith, pow_suc k)),
    ))
  where
    halved : 2 * (high * 2 ^ k) / 2 ≡ high * 2 ^ k
    halved = omega arith
