-- ===== src/Prelude/Remainders.antt =====
-- Remainders: sums, products, differences and masks of the form `2 ^ k - 1`.
use Prim.Native.Nat.{
  ℕ, zero, suc, ◌+◌, ◌-◌, ◌*◌, ◌/◌, ◌%◌, ◌^◌, ◌≤◌, ◌<◌, min, bit_and, bit_and-bitwise,
}
use mathlib.Core.Path.{◌≡◌, refl, sym, ap, ◌∙◌}
use native.Mathlib.Omega.{arith}
use native.Mathlib.Nat.{div-add-mod, mod-lt, mod-eq_of_lt, mul-add, mul_assoc, mul_left_comm}
use native.Mathlib.Nat.{add-mul-mod_self_left}
use roll.Prelude.Bits.{pow_suc, digits_enough}

-- Multiples of the modulus do not matter.
pub mod_of_multiples : (m x y p q : ℕ) → x + m * p ≡ y + m * q → x % m ≡ y % m
mod_of_multiples m x y p q e =
    sym (add-mul-mod_self_left x m p) ∙ ap (λ (z : ℕ). z % m) e ∙ add-mul-mod_self_left y m q

pub mul-mod-add : (m a x b : ℕ) → (a * (x % m) + b) % m ≡ (a * x + b) % m
mul-mod-add m a x b = mod_of_multiples m (a * (x % m) + b) (a * x + b) (a * (x / m)) 0 together
  where
    split : a * x ≡ m * (a * (x / m)) + a * (x % m)
    split =
        ap (λ (z : ℕ). a * z) (sym (div-add-mod x m))
        ∙ mul-add a (m * (x / m)) (x % m)
        ∙ ap (λ (z : ℕ). z + a * (x % m)) (mul_left_comm a m (x / m))

    together : a * (x % m) + b + m * (a * (x / m)) ≡ a * x + b + m * 0
    together = omega (arith, split)

pub mul-add_cong : (m a b x y : ℕ) → x % m ≡ y % m → (a * x + b) % m ≡ (a * y + b) % m
mul-add_cong m a b x y e =
    sym (mul-mod-add m a x b) ∙ ap (λ (z : ℕ). (a * z + b) % m) e ∙ mul-mod-add m a y b

-- Taking a part off a sum of remainders leaves the other part.
pub evict_mod : (m e r : ℕ) → 0 < m → ((e + r) % m + m - e % m) % m ≡ r % m
evict_mod m e r h =
    mod_of_multiples m ((e + r) % m + m - e % m) r ((e + r) / m) (e / m + 1)
      (omega (arith, div-add-mod (e + r) m, div-add-mod e m, mod-lt e h, one_more))
  where
    one_more : m * (e / m + 1) ≡ m * (e / m) + m
    one_more = mul-add m (e / m) 1 ∙ omega arith

-- The lowest digit of `&`, and the digits above it.
low_digit :
    (value mask : ℕ)
    → bit_and value mask ≡ bit_and (value / 2) (mask / 2) * 2 + min (value % 2) (mask % 2)
low_digit zero mask = omega (arith, bit_and-bitwise 0 mask, bit_and-bitwise 0 (mask / 2))
low_digit (suc value) mask =
    bit_and-bitwise (suc value) mask
    ∙ ap (λ (high : ℕ). high * 2 + min (suc value % 2) (mask % 2))
        (digits_enough (λ d. 0) min (suc value / 2) (mask / 2) value (suc value / 2) (omega arith)
            (omega arith)
          ∙ sym (bit_and-bitwise (suc value / 2) (mask / 2)))

-- The remainder by `2 * m` is the remainder of the half by `m`, and the last bit.
mod-double : (v m : ℕ) → 0 < m → v / 2 % m * 2 + v % 2 ≡ v % (2 * m)
mod-double v m h =
    sym (mod-eq_of_lt (omega (arith, mod-lt (v / 2) h)))
    ∙ mod_of_multiples (2 * m) (v / 2 % m * 2 + v % 2) v (v / 2 / m) 0
        (omega (arith, div-add-mod (v / 2) m, mul_assoc 2 m (v / 2 / m)))

no_bits : (n v : ℕ) → v ≤ n → bit_and v 0 ≡ 0
no_bits zero zero h = refl
no_bits zero (suc v) h = absurd (omega arith)
no_bits (suc n) v h = omega (arith, low_digit v 0, no_bits n (v / 2) (omega arith))

-- A mask of the `k` low bits is the remainder by `2 ^ k`.
pub low_bits : (k v : ℕ) → bit_and v (2 ^ k - 1) ≡ v % 2 ^ k
low_bits zero v = omega (arith, no_bits v v (omega arith))
low_bits (suc k) v =
    low_digit v (2 ^ suc k - 1)
    ∙ omega (arith, ap (bit_and (v / 2)) halved, low_bits k (v / 2), pow_suc k, positive k)
    ∙ mod-double v (2 ^ k) (positive k)
    ∙ ap (λ (z : ℕ). v % z) (sym (pow_suc k))
  where
    positive : (j : ℕ) → 0 < 2 ^ j
    positive zero = omega arith
    positive (suc j) = omega (arith, pow_suc j, positive j)

    halved : (2 ^ suc k - 1) / 2 ≡ 2 ^ k - 1
    halved = omega (arith, pow_suc k, positive k)
