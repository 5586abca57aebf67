-- ===== src/Rolling/Reduce.antt =====
-- `reduce` of src/RK_finger.hpp and the choice of its fast path.
use roll.Prelude.{
  ℕ, zero, suc, ◌+◌, ◌-◌, ◌*◌, ◌/◌, ◌%◌, ◌^◌, ◌≤◌, ◌<◌, ◌≡◌, ◌⊎◌, inl, inr, refl, sym, ap, ◌∙◌, max,
  bit_and, true, arith,
}
use native.Mathlib.Nat.{
  div-add-mod, mod-lt, mod-eq_of_lt, mul_assoc, mul-le-mul_left, mul-div-le, le-div_iff_mul-le,
  div-mul-le_self, mul-le-mul_right, add-mul,
}
use roll.Prelude.Bits.{pow_suc}
use roll.Prelude.Remainders.{mod_of_multiples, low_bits}
use roll.Format.{u64_mod}
use roll.Rolling.{
  reduce, bit_width_loop, bit_width, has_single_bit, largest_modulus, configure_fast_reduction,
}

pub positive : (j : ℕ) → 0 < 2 ^ j
positive zero = omega arith
positive (suc j) = omega (arith, pow_suc j, positive j)

-- One fold by a Mersenne modulus is enough where the high part is below it.
fold_once : (m k v : ℕ) → m + 1 ≡ 2 ^ k → v / 2 ^ k < m → 2 * m < u64_mod → reduce m k v ≡ v % m
unfolding reduce
fold_once m k v e small fits = ground (arith, masked, low, below, above)
  where
    masked : bit_and v m ≡ v % 2 ^ k
    masked = ap (bit_and v) (omega (arith, e)) ∙ low_bits k v

    low : v % 2 ^ k < m + 1
    low = omega (arith, e, mod-lt v (positive k))

    same : v % m ≡ (v / 2 ^ k + v % 2 ^ k) % m
    same = mod_of_multiples m v (v / 2 ^ k + v % 2 ^ k) 0 (v / 2 ^ k) (
        omega (
          arith,
          div-add-mod v (2 ^ k),
          ap (λ (z : ℕ). z * (v / 2 ^ k)) e,
          add-mul m 1 (v / 2 ^ k),
        ))

    below : v / 2 ^ k + v % 2 ^ k < m → v % m ≡ v / 2 ^ k + v % 2 ^ k
    below h = same ∙ mod-eq_of_lt h

    above : m ≤ v / 2 ^ k + v % 2 ^ k → v % m ≡ v / 2 ^ k + v % 2 ^ k - m
    above h =
        same
        ∙ mod_of_multiples m (v / 2 ^ k + v % 2 ^ k) (v / 2 ^ k + v % 2 ^ k - m) 0 1 (omega arith)
        ∙ mod-eq_of_lt (omega (arith, low, small))

bit_width_loop-mask : (n j : ℕ) → j ≤ n → bit_width_loop n (2 ^ j - 1) ≡ j
unfolding bit_width_loop
bit_width_loop-mask zero j h = omega arith
bit_width_loop-mask (suc n) zero h = refl
bit_width_loop-mask (suc n) (suc j) h = ground (
  arith,
  pow_suc j,
  positive j,
  ap (bit_width_loop n) halved,
  bit_width_loop-mask n j (omega arith),
)
  where
    halved : (2 ^ suc j - 1) / 2 ≡ 2 ^ j - 1
    halved = omega (arith, pow_suc j, positive j)

bit_width_loop-le : (n x : ℕ) → bit_width_loop n x ≤ n
unfolding bit_width_loop
bit_width_loop-le zero x = omega arith
bit_width_loop-le (suc n) x = ground (arith, bit_width_loop-le n (x / 2))

-- A modulus before a power of two is that power less one.
has_single_bit-mask : (m : ℕ) → has_single_bit (m + 1) ≡ true → m + 1 ≡ 2 ^ bit_width m
unfolding has_single_bit bit_width
has_single_bit-mask m h =
    power
    ∙ ap (λ (j : ℕ). 2 ^ j)
        (sym (
          ap (bit_width_loop 64) mask
          ∙ bit_width_loop-mask 64 (bit_width_loop 64 (m + 1) - 1)
              (omega (arith, bit_width_loop-le 64 (m + 1)))))
  where
    power : m + 1 ≡ 2 ^ (bit_width_loop 64 (m + 1) - 1)
    power = ground arith

    mask : m ≡ 2 ^ (bit_width_loop 64 (m + 1) - 1) - 1
    mask = omega (arith, power)

-- What the constructor asks of the base and the modulus.
pub record IsBounded (a m : ℕ) : Type 0 where
  pub some_base : 0 < a
  pub some_modulus : 0 < m
  pub small : m ≤ largest_modulus a

-- The intermediate values of such a fingerprint fit into 64 bits.
pub IsBounded-fits :
    (a m : ℕ) → IsBounded a m → (2 * (a * m) + 255 < u64_mod) × (2 * (255 * m) + 255 < u64_mod)
unfolding largest_modulus
IsBounded-fits a m b = omega (
  arith,
  whole,
  mul_assoc 2 (max a 255) m,
  mul-le-mul_right {m = a} {n = max a 255} m (omega arith),
  mul-le-mul_right {m = 255} {n = max a 255} m (omega arith),
)
  where
    whole : 2 * max a 255 * m ≤ u64_mod - 1 - 255
    whole = omega (
      arith,
      mul-le-mul_left (2 * max a 255) b.small,
      mul-div-le (u64_mod - 1 - 255) (2 * max a 255),
    )

-- The largest value that the fingerprint reduces.
abbrev pub largest_input : ℕ → ℕ → ℕ
largest_input a m = max (2 * a * m + 255) (255 * (m - 1))

configure-cases :
    (a m : ℕ)
    → (configure_fast_reduction a m ≡ 0)
      ⊎ ((configure_fast_reduction a m ≡ bit_width m)
          × (has_single_bit ((m + 1) % u64_mod) ≡ true)
          × (largest_input a m / 2 ^ bit_width m < m))
unfolding configure_fast_reduction
configure-cases a m = ground arith

by_division : (m v : ℕ) → reduce m 0 v ≡ v % m
unfolding reduce
by_division m v = refl

div_mono : (p v w : ℕ) → 0 < p → v ≤ w → v / p ≤ w / p
div_mono p v w h le = (le-div_iff_mul-le h).1 (omega (arith, div-mul-le_self v p, le))

-- For a base and a modulus that the constructor accepts, and a value that the fingerprint can reduce: `reduce` with the
-- shift that `configure_fast_reduction` sets is the remainder, on the fast path and on the other.
pub reduce-configure :
    (a m v : ℕ)
    → IsBounded a m
    → v ≤ largest_input a m
    → reduce m (configure_fast_reduction a m) v ≡ v % m
reduce-configure a m v b h = elim (configure-cases a m) [
  | inl zero_shift ↦ rw zero_shift (by_division m v)
  | inr (shift, single, small) ↦ rw shift (
      fold_once m (bit_width m) v (power single)
        (omega (
          arith,
          small,
          div_mono (2 ^ bit_width m) v (largest_input a m) (positive (bit_width m)) h,
        ))
        fits)
]
  where
    fits : 2 * m < u64_mod
    fits = omega (arith, IsBounded-fits a m b)

    power : has_single_bit ((m + 1) % u64_mod) ≡ true → m + 1 ≡ 2 ^ bit_width m
    power single = has_single_bit-mask m (ap has_single_bit (omega (arith, fits)) ∙ single)
