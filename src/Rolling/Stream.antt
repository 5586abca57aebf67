-- ===== src/Rolling/Stream.antt =====
-- The fingerprint of src/RK_finger.hpp from construction on, over a stream of bytes.
use roll.Prelude.{
  ℕ, zero, suc, ◌+◌, ◌-◌, ◌*◌, ◌%◌, ◌^◌, ◌≤◌, ◌<◌, ◌≡◌, ◌↔◌, ◌⊎◌, inl, inr, refl, sym, ap, subst,
  ◌∙◌, max, [], ◌∷◌, ◌++◌, All, ltb, some, if◌then◌else◌, length, take, drop, length-take,
  append_assoc, append-nil, arith,
}
use native.Mathlib.Nat.{
  mod-lt, mod-eq_of_lt, pow-suc, pow-zero, mul_assoc, mul_comm, mod-mod, mul-le-mul_left,
  le-div_iff_mul-le,
}
use roll.Prelude.Remainders.{mul-mod-add}
use roll.Format.{u64_mod}
use roll.Io.{Bytes}
use roll.Codec.Ints.{IsByte}
use roll.Rolling.{
  RkFinger, largest_modulus, reduce, configure_fast_reduction, power_loop, init_state, make, absorb,
  initialize, compute_next,
}
use roll.Rolling.Reduce.{IsBounded, IsBounded-fits, reduce-configure}
use roll.Rolling.Roll.{polynomial, polynomial_cong, horner}
use roll.Rolling.Window.{IsMade, Holds, to_Holds, compute_next-IsMade, compute_next-Holds}

-- `compute_next` on each byte in turn.
unfoldable pub slide : Bytes → RkFinger → RkFinger
slide [] f = f
slide (b ∷ bytes) f = slide bytes (compute_next b f)

absorb-polynomial :
    (f : RkFinger) (x : ℕ) (bytes : Bytes)
    → IsMade f
    → x ≤ f.modulus
    → All IsByte bytes
    → absorb f x bytes % f.modulus ≡ polynomial f.alphabet_size x bytes % f.modulus
unfolding absorb polynomial
absorb-polynomial f x [] made h hb = refl
absorb-polynomial f x (b ∷ bytes) made h hb =
    ap (λ (z : ℕ). absorb f z bytes % f.modulus) step
    ∙ absorb-polynomial f ((f.alphabet_size * x + b) % f.modulus) bytes made (omega (arith, below))
        hb.1
    ∙ polynomial_cong f.modulus f.alphabet_size ((f.alphabet_size * x + b) % f.modulus)
        (f.alphabet_size * x + b) bytes (mod-mod (f.alphabet_size * x + b) f.modulus)
  where
    below : (f.alphabet_size * x + b) % f.modulus < f.modulus
    below = mod-lt (f.alphabet_size * x + b) made.bounded.some_modulus

    step :
        reduce f.modulus f.mersenne_shift ((f.alphabet_size * x % u64_mod + b) % u64_mod)
        ≡ (f.alphabet_size * x + b) % f.modulus
    step = rw made.shift (horner f.alphabet_size f.modulus made.bounded x b (omega arith) hb.0)

absorb-lt :
    (f : RkFinger) (x : ℕ) (bytes : Bytes)
    → IsMade f
    → x < f.modulus
    → All IsByte bytes
    → absorb f x bytes < f.modulus
unfolding absorb
absorb-lt f x [] made h hb = h
absorb-lt f x (b ∷ bytes) made h hb =
    absorb-lt f (reduce f.modulus f.mersenne_shift ((f.alphabet_size * x % u64_mod + b) % u64_mod))
      bytes made
      (rw (made.shift, horner f.alphabet_size f.modulus made.bounded x b (omega (arith, h)) hb.0)
        (mod-lt (f.alphabet_size * x + b) made.bounded.some_modulus))
      hb.1

All-take : (n : ℕ) (xs : Bytes) → All IsByte xs → All IsByte (take n xs)
All-take zero xs h = tt
All-take (suc n) [] h = tt
All-take (suc n) (x ∷ xs) h = (h.0, All-take n xs h.1)

initialize-IsMade : (f : RkFinger) (initial : Bytes) → IsMade f → IsMade (initialize initial f).1
unfolding initialize
initialize-IsMade f initial made = record {
  bounded = made.bounded;
  some_window = made.some_window;
  shift = made.shift;
  small_power = made.small_power;
  power = made.power;
}

-- `initialize` holds the first window of what it is given.
initialize-Holds :
    (f : RkFinger) (initial : Bytes)
    → IsMade f
    → f.window_size ≤ length initial
    → All IsByte initial
    → Holds (initialize initial f).1 (take f.window_size initial)
unfolding initialize
initialize-Holds f initial made h hb =
    to_Holds (initialize initial f).1 [] (take f.window_size initial) (take f.window_size initial)
      window refl (omega (arith, size, made.some_window))
      (sym (append-nil (take f.window_size initial))) size (All-take f.window_size initial hb) value
  where
    count :
        (if ltb (length initial) f.window_size then length initial else f.window_size)
        ≡ f.window_size
    count = ground (arith, h)

    size : f.window_size ≡ length (take f.window_size initial)
    size = omega (arith, length-take f.window_size initial, h)

    nothing : f.window_size - f.window_size ≡ 0
    nothing = omega arith

    window : (initialize initial f).1.window ≡ take f.window_size initial
    window = rw (count, nothing) (append-nil (take f.window_size initial))

    value :
        (initialize initial f).1.fingerprint
        ≡ polynomial f.alphabet_size 0 (take f.window_size initial) % f.modulus
    value = rw count (
        sym (
          mod-eq_of_lt (
            absorb-lt f 0 (take f.window_size initial) made made.bounded.some_modulus
              (All-take f.window_size initial hb)))
        ∙ absorb-polynomial f 0 (take f.window_size initial) made (omega arith)
            (All-take f.window_size initial hb))

power_step :
    (a m h : ℕ) (b : IsBounded a m)
    → h ≤ max (m - 1) 1
    → reduce m (configure_fast_reduction a m) (h * a % u64_mod) ≡ h * a % m
power_step a m h b small =
    ap (reduce m (configure_fast_reduction a m)) plain
    ∙ reduce-configure a m (h * a) b (omega (arith, product, whole))
  where
    product : h * a ≤ a * m
    product =
        omega
          (arith, mul_comm h a, mul-le-mul_left {m = h} {n = m} a (omega (arith, b.some_modulus)))

    whole : 2 * a * m ≡ 2 * (a * m)
    whole = mul_assoc 2 a m

    plain : h * a % u64_mod ≡ h * a
    plain = omega (arith, product, IsBounded-fits a m b)

power_loop_lem :
    (n a m h : ℕ)
    → IsBounded a m
    → h ≤ max (m - 1) 1
    → (power_loop n a m (configure_fast_reduction a m) h % m ≡ h * a ^ n % m)
      × (power_loop n a m (configure_fast_reduction a m) h ≤ max (m - 1) 1)
unfolding power_loop
power_loop_lem zero a m h b small =
    (ap (λ (z : ℕ). z % m) (sym (ap (λ (z : ℕ). h * z) (pow-zero a) ∙ one h)), small)
  where
    one : (z : ℕ) → z * 1 ≡ z
    one z = omega arith
power_loop_lem (suc n) a m h b small =
    let (e, bound) =
      power_loop_lem n a m (h * a % m) b (omega (arith, mod-lt (h * a) b.some_modulus)) in
    rw (power_step a m h b small) (e ∙ joined, bound)
  where
    flip : (z : ℕ) → z * a ^ n ≡ a ^ n * z + 0
    flip z = omega (arith, mul_comm z (a ^ n))

    joined : h * a % m * a ^ n % m ≡ h * a ^ suc n % m
    joined =
        ap (λ (z : ℕ). z % m) (flip (h * a % m))
        ∙ mul-mod-add m (a ^ n) (h * a) 0
        ∙ ap (λ (z : ℕ). z % m)
            (sym (flip (h * a))
              ∙ mul_assoc h a (a ^ n)
              ∙ ap (λ (z : ℕ). h * z) (mul_comm a (a ^ n) ∙ sym (pow-suc a n)))

init_state-IsMade : (a w m : ℕ) → IsBounded a m → 0 < w → IsMade (init_state a w m)
unfolding init_state
init_state-IsMade a w m b h = record {
  bounded = b;
  some_window = h;
  shift = refl;
  small_power = omega (arith, powers.1, b.some_modulus, mul_assoc 2 a m);
  power = powers.0 ∙ ap (λ (z : ℕ). z % m) (one (a ^ (w - 1)));
}
  where
    one : (z : ℕ) → 1 * z ≡ z
    one z = omega arith

    powers :
        (power_loop (w - 1) a m (configure_fast_reduction a m) 1 % m ≡ 1 * a ^ (w - 1) % m)
        × (power_loop (w - 1) a m (configure_fast_reduction a m) 1 ≤ max (m - 1) 1)
    powers = power_loop_lem (w - 1) a m 1 b (omega arith)

positive_max : (a : ℕ) → 0 < 2 * max a 255
positive_max a = omega arith

le_or_lt : (a b : ℕ) → (a ≤ b) ⊎ (b < a)
le_or_lt a b = ground arith

fits-largest_modulus :
    (a m : ℕ) → 2 * (a * m) + 255 < u64_mod → 2 * (255 * m) + 255 < u64_mod → m ≤ largest_modulus a
unfolding largest_modulus
fits-largest_modulus a m h k = elim (le_or_lt a 255) [
  | inl small ↦
      (le-div_iff_mul-le (positive_max a)).1
        (subst (λ (z : ℕ). m * (2 * z) ≤ u64_mod - 1 - 255) (sym (below small)) (omega (arith, k)))
  | inr large ↦ (le-div_iff_mul-le (positive_max a)).1 (
      subst (λ (z : ℕ). m * (2 * z) ≤ u64_mod - 1 - 255) (sym (above large))
        (omega (arith, h, mul_comm a m)))
]
  where
    below : a ≤ 255 → max a 255 ≡ 255
    below small = omega arith

    above : 255 < a → max a 255 ≡ a
    above large = omega arith

-- The constructor of the fingerprint succeeds exactly where the window, the base and the modulus are not zero, and no
-- product of twice the modulus with the base or with a byte, and a byte more, reaches 2^64.
pub make-fits :
    (a w m : ℕ)
    → (make a w m ≡ some (init_state a w m)) ↔ (
        (0 < w)
        × (0 < a)
        × (0 < m)
        × (2 * (a * m) + 255 < u64_mod)
        × (2 * (255 * m) + 255 < u64_mod))
unfolding make
make-fits a w m = (
  (λ h.
      let b : IsBounded a m = record {
        some_base = ground arith;
        some_modulus = ground arith;
        small = ground arith;
      } in
      (
        ground arith,
        b.some_base,
        b.some_modulus,
        (IsBounded-fits a m b).0,
        (IsBounded-fits a m b).1,
      )),
  (λ h. ground (arith, h.0, h.1, h.2, fits-largest_modulus a m h.3 h.4)),
)

slide-Holds :
    (f : RkFinger) (window bytes : Bytes)
    → IsMade f
    → Holds f window
    → All IsByte bytes
    → (slide bytes f).fingerprint
      ≡ polynomial f.alphabet_size 0 (drop (length bytes) (window ++ bytes)) % f.modulus
unfolding slide compute_next
slide-Holds f window [] made held hb =
    held.value
    ∙ ap (λ (z : Bytes). polynomial f.alphabet_size 0 z % f.modulus) (sym (append-nil window))
slide-Holds f [] (b ∷ bytes) made held hb = absurd (omega (arith, ap length held.order))
slide-Holds f (oldest ∷ rest) (b ∷ bytes) made held hb =
    slide-Holds (compute_next b f) (rest ++ (b ∷ [])) bytes (compute_next-IsMade f b made)
      (compute_next-Holds f oldest rest b made held hb.0) hb.1
    ∙ ap (λ (z : Bytes). polynomial f.alphabet_size 0 (drop (length bytes) z) % f.modulus)
        (append_assoc rest (b ∷ []) bytes)

-- For parameters that the constructor accepts: after `initialize` on bytes that fill the window and `compute_next` on
-- each of `bytes` in turn, the fingerprint is the polynomial of the last window of bytes by the modulus.
pub slide-polynomial :
    (a w m : ℕ) (initial bytes : Bytes)
    → IsBounded a m
    → 0 < w
    → w ≤ length initial
    → All IsByte initial
    → All IsByte bytes
    → (slide bytes (initialize initial (init_state a w m)).1).fingerprint
      ≡ polynomial a 0 (drop (length bytes) (take w initial ++ bytes)) % m
unfolding initialize init_state
slide-polynomial a w m initial bytes b hw h hi hb =
    slide-Holds (initialize initial (init_state a w m)).1 (take w initial) bytes
      (initialize-IsMade (init_state a w m) initial (init_state-IsMade a w m b hw))
      (initialize-Holds (init_state a w m) initial (init_state-IsMade a w m b hw) h hi) hb
