-- ===== src/Rolling/Roll.antt =====
-- Rolling the fingerprint of src/RK_finger.hpp, against the polynomial of the window's bytes.
use roll.Prelude.{
  ℕ, suc, ◌+◌, ◌-◌, ◌*◌, ◌%◌, ◌^◌, ◌≤◌, ◌<◌, ◌≡◌, refl, sym, ap, ◌∙◌, [], ◌∷◌, ◌++◌, length, arith,
}
use native.Mathlib.Nat.{
  pow-zero, mul-one, mod-lt, mul-le-mul, mul-le-mul_left, mul_assoc, add-mul, mul_comm, pow-suc,
}
use roll.Prelude.Remainders.{mul-add_cong, evict_mod}
use roll.Format.{u64_mod}
use roll.Io.{Bytes}
use roll.Rolling.{reduce, configure_fast_reduction}
use roll.Rolling.Reduce.{IsBounded, IsBounded-fits, largest_input, reduce-configure}

-- The bytes as the digits of a number to the base `a`, after `acc`.
unfoldable pub polynomial : ℕ → ℕ → Bytes → ℕ
polynomial a acc [] = acc
polynomial a acc (b ∷ bytes) = polynomial a (a * acc + b) bytes

pub polynomial-last :
    (a acc x : ℕ) (bytes : Bytes)
    → polynomial a acc (bytes ++ (x ∷ [])) ≡ a * polynomial a acc bytes + x
unfolding polynomial
polynomial-last a acc x [] = refl
polynomial-last a acc x (b ∷ bytes) = polynomial-last a (a * acc + b) x bytes

pub polynomial-first :
    (a acc : ℕ) (bytes : Bytes)
    → polynomial a acc bytes ≡ acc * a ^ length bytes + polynomial a 0 bytes
unfolding polynomial
polynomial-first a acc [] = omega (arith, one_digit)
  where
    one_digit : acc * a ^ length {A = ℕ} [] ≡ acc
    one_digit = ap (λ (z : ℕ). acc * z) (pow-zero a) ∙ mul-one acc
polynomial-first a acc (b ∷ bytes) =
    polynomial-first a (a * acc + b) bytes
    ∙ omega (arith, polynomial-first a (a * 0 + b) bytes, split)
  where
    zeros : (c : ℕ) → a * 0 + c ≡ c
    zeros c = omega arith

    split :
        (a * acc + b) * a ^ length bytes
        ≡ acc * a ^ suc (length bytes) + (a * 0 + b) * a ^ length bytes
    split = omega (
      arith,
      add-mul (a * acc) b (a ^ length bytes),
      ap (λ (z : ℕ). acc * z) (pow-suc a (length bytes)),
      mul_assoc acc (a ^ length bytes) a,
      mul_comm (acc * a ^ length bytes) a,
      mul_assoc a acc (a ^ length bytes),
      ap (λ (z : ℕ). z * a ^ length bytes) (zeros b),
    )

-- The first digit apart.
pub polynomial-digit :
    (a b : ℕ) (bytes : Bytes)
    → polynomial a 0 (b ∷ bytes) ≡ b * a ^ length bytes + polynomial a 0 bytes
unfolding polynomial
polynomial-digit a b bytes =
    ap (λ (z : ℕ). polynomial a z bytes) (omega arith) ∙ polynomial-first a b bytes

pub polynomial_cong :
    (m a x y : ℕ) (bytes : Bytes)
    → x % m ≡ y % m
    → polynomial a x bytes % m ≡ polynomial a y bytes % m
unfolding polynomial
polynomial_cong m a x y [] e = e
polynomial_cong m a x y (b ∷ bytes) e =
    polynomial_cong m a (a * x + b) (a * y + b) bytes (mul-add_cong m a b x y e)

-- One step of Horner's rule, reduced.
module _ (a m : ℕ) (b : IsBounded a m) where
  pub horner :
      (x c : ℕ)
      → x ≤ 2 * m
      → c < 256
      → reduce m (configure_fast_reduction a m) ((a * x % u64_mod + c) % u64_mod) ≡ (a * x + c) % m
  horner x c h hc =
      ap (reduce m (configure_fast_reduction a m)) plain
      ∙ reduce-configure a m (a * x + c) b (omega (arith, product, hc))
    where
      product : a * x ≤ 2 * a * m
      product = omega (arith, mul-le-mul_left a h, mul_assoc a 2 m, mul_comm a 2)

      whole : 2 * a * m + 255 < u64_mod
      whole = omega (arith, IsBounded-fits a m b, mul_assoc 2 a m)

      plain : (a * x % u64_mod + c) % u64_mod ≡ a * x + c
      plain = omega (arith, product, whole, hc)

  -- The part of the byte that leaves.
  leaving :
      (e h p : ℕ)
      → e < 256
      → 255 * h ≤ largest_input a m
      → h % m ≡ p % m
      → reduce m (configure_fast_reduction a m) (e * h % u64_mod) ≡ e * p % m
  leaving e h p he small hp =
      ap (reduce m (configure_fast_reduction a m)) plain
      ∙ reduce-configure a m (e * h) b (omega (arith, product, small))
      ∙ ap (λ (z : ℕ). z % m) (no_more (e * h))
      ∙ mul-add_cong m e 0 h p hp
      ∙ ap (λ (z : ℕ). z % m) (sym (no_more (e * p)))
    where
      no_more : (z : ℕ) → z ≡ z + 0
      no_more z = omega arith

      product : e * h ≤ 255 * h
      product = mul-le-mul (omega (arith, he)) (omega arith)

      whole : largest_input a m < u64_mod
      whole = omega (arith, IsBounded-fits a m b, mul_assoc 2 a m)

      plain : e * h % u64_mod ≡ e * h
      plain = omega (arith, product, small, whole)

  -- The fingerprint of a window after its first byte left and another came.
  pub rolled :
      (e c p r fp gone h : ℕ)
      → e < 256
      → c < 256
      → 255 * h ≤ largest_input a m
      → h % m ≡ p % m
      → fp ≡ (e * p + r) % m
      → gone ≡ reduce m (configure_fast_reduction a m) (e * h % u64_mod)
      → reduce m
          (configure_fast_reduction a m)
          ((a * (((fp + m) % u64_mod + u64_mod - gone) % u64_mod) % u64_mod + c) % u64_mod)
        ≡ (a * r + c) % m
  rolled e c p r fp gone h he hc small hp hfp hgone =
      ap (λ (z : ℕ). reduce m (configure_fast_reduction a m) ((a * z % u64_mod + c) % u64_mod))
        difference
      ∙ horner ((e * p + r) % m + m - e * p % m) c (omega (arith, below_fp)) hc
      ∙ mul-add_cong m a c ((e * p + r) % m + m - e * p % m) r
          (evict_mod m (e * p) r b.some_modulus)
    where
      below_fp : (e * p + r) % m < m
      below_fp = mod-lt (e * p + r) b.some_modulus

      left : gone ≡ e * p % m
      left = hgone ∙ leaving e h p he small hp

      difference : ((fp + m) % u64_mod + u64_mod - gone) % u64_mod ≡ (e * p + r) % m + m - e * p % m
      difference =
          omega (arith, hfp, left, below_fp, mod-lt (e * p) b.some_modulus, IsBounded-fits a m b)
