-- ===== src/Main/Size.antt =====
-- `parse_size` of src/main.cpp against the number that the text denotes.
use roll.Prelude.{
  ℕ, zero, suc, ◌+◌, ◌-◌, ◌*◌, ◌/◌, ◌%◌, ◌^◌, ◌≤◌, ◌<◌, ◌≡◌, ◌⊎◌, inl, inr, refl, sym, ap, subst,
  ◌∙◌, true, false, ◌&&◌, Option, none, some, List, [], ◌∷◌, ◌++◌, ◌==◌, ltb, leb, if◌then◌else◌,
  length, All, append-nil, arith,
}
use native.Mathlib.Nat.{mul-le-mul_left}
use roll.Rolling.Reduce.{positive}
use roll.Format.{u64_mod}
use roll.Io.{Bytes}
use roll.Rolling.Roll.{polynomial}
use roll.Main.{digits_loop, suffix_power, shifted, with_suffix, parse_size}

-- The characters of decimal digits.
unfoldable pub digit_chars : List ℕ → Bytes
digit_chars [] = []
digit_chars (d ∷ digits) = (b'0' + d) ∷ digit_chars digits

abbrev pub IsDigit : ℕ → Type 0
IsDigit d = d < 10

-- A number if 64 bits hold it.
unfoldable pub in_u64 : ℕ → Option ℕ
in_u64 v = if ltb v u64_mod then some v else none

polynomial-grows : (acc : ℕ) (digits : List ℕ) → acc ≤ polynomial 10 acc digits
unfolding polynomial
polynomial-grows acc [] = omega arith
polynomial-grows acc (d ∷ digits) = omega (arith, polynomial-grows (10 * acc + d) digits)

-- The text stops being digits.
abbrev pub Stops : Bytes → Type 0
Stops [] = Unit {0}
Stops (c ∷ text) = (leb b'0' c && leb c b'9') ≡ false

digits_loop-fits :
    (value i : ℕ) (digits : List ℕ) (rest : Bytes)
    → All IsDigit digits
    → Stops rest
    → polynomial 10 value digits < u64_mod
    → digits_loop value i (digit_chars digits ++ rest)
      ≡ some (record { value = polynomial 10 value digits; i = i + length digits; rest = rest })
unfolding digits_loop digit_chars polynomial
digits_loop-fits value i [] [] hd hs h = λ j. some (record { value = value; i = same j; rest = [] })
  where
    same : i ≡ i + 0
    same = omega arith
digits_loop-fits value i [] (c ∷ rest) hd hs h =
    rw hs (λ j. some (record { value = value; i = same j; rest = c ∷ rest }))
  where
    same : i ≡ i + 0
    same = omega arith
digits_loop-fits value i (d ∷ digits) rest hd hs h =
    rw (is_digit, fits, next)
      (digits_loop-fits (10 * value + d) (i + 1) digits rest hd.1 hs h ∙ λ j.
        some (record { value = polynomial 10 (10 * value + d) digits; i = count j; rest = rest }))
  where
    small : 10 * value + d < u64_mod
    small = omega (arith, h, polynomial-grows (10 * value + d) digits)

    is_digit : leb b'0' (b'0' + d) && leb (b'0' + d) b'9' ≡ true
    is_digit = ground (arith, hd.0)

    fits : ltb ((u64_mod - 1 - (b'0' + d - b'0')) / 10) value ≡ false
    fits = ground (arith, small)

    next : (value * 10 + (b'0' + d - b'0')) % u64_mod ≡ 10 * value + d
    next = omega (arith, small)

    count : i + 1 + length digits ≡ i + suc (length digits)
    count = omega arith

digits_loop-overflow :
    (value i : ℕ) (digits : List ℕ) (rest : Bytes)
    → All IsDigit digits
    → value < u64_mod
    → u64_mod ≤ polynomial 10 value digits
    → digits_loop value i (digit_chars digits ++ rest) ≡ none
unfolding digits_loop digit_chars polynomial
digits_loop-overflow value i [] rest hd hv h = absurd (omega arith)
digits_loop-overflow value i (d ∷ digits) rest hd hv h = ground (
  arith,
  hd.0,
  below,
  again (λ small. digits_loop-overflow (10 * value + d) (i + 1) digits rest hd.1 small h),
)
  where
    below : 10 * value + d < u64_mod → (value * 10 + (b'0' + d - b'0')) % u64_mod ≡ 10 * value + d
    below small = omega (arith, small)

    again :
        (10 * value + d < u64_mod
          → digits_loop (10 * value + d) (i + 1) (digit_chars digits ++ rest) ≡ none)
        → 10 * value + d < u64_mod
        → digits_loop
            ((value * 10 + (b'0' + d - b'0')) % u64_mod)
            (i + 1)
            (digit_chars digits ++ rest)
          ≡ none
    again later small = rw (below small) (later small)

shifted-in_u64 :
    (v power : ℕ)
    → power < 4
    → v < u64_mod
    → shifted v (some power) ≡ in_u64 (v * 2 ^ (10 * (power + 1)))
unfolding shifted in_u64
shifted-in_u64 v zero hp h = ground (arith, h)
shifted-in_u64 v (suc zero) hp h = ground (arith, h)
shifted-in_u64 v (suc (suc zero)) hp h = ground (arith, h)
shifted-in_u64 v (suc (suc (suc zero))) hp h = ground (arith, h)
shifted-in_u64 v (suc (suc (suc (suc power)))) hp h = absurd (omega arith)

suffix_power-lt : (c power : ℕ) → suffix_power c ≡ some power → power < 4
unfolding suffix_power
suffix_power-lt c power h = ground arith

below_or_not : (a b : ℕ) → (a < b) ⊎ (b ≤ a)
below_or_not a b = ground arith

in_u64-small : (v : ℕ) → v < u64_mod → in_u64 v ≡ some v
unfolding in_u64
in_u64-small v h = ground arith

in_u64-large : (v m : ℕ) → u64_mod ≤ v → 0 < m → in_u64 (v * m) ≡ none
unfolding in_u64
in_u64-large v m h hm = ground (arith, mul-le-mul_left {m = 1} {n = m} v (omega (arith, hm)))

in_u64-none : (v : ℕ) → u64_mod ≤ v → in_u64 v ≡ none
unfolding in_u64
in_u64-none v h = ground arith

counted : (n : ℕ) → (0 + suc n == 0) ≡ false
counted n = ground arith

-- For one decimal digit or more: `parse_size` gives the number that they denote if it is below 2^64, and nothing if not.
pub parse_size-polynomial :
    (d : ℕ) (digits : List ℕ)
    → All IsDigit (d ∷ digits)
    → parse_size (digit_chars (d ∷ digits)) ≡ in_u64 (polynomial 10 0 (d ∷ digits))
unfolding parse_size with_suffix
parse_size-polynomial d digits hd =
    ap parse_size (sym (append-nil (digit_chars (d ∷ digits))))
    ∙ elim (below_or_not (polynomial 10 0 (d ∷ digits)) u64_mod) [
      | inl small ↦
          rw (digits_loop-fits 0 0 (d ∷ digits) [] hd tt small, counted (length digits))
            (sym (in_u64-small (polynomial 10 0 (d ∷ digits)) small))
      | inr large ↦
          rw (digits_loop-overflow 0 0 (d ∷ digits) [] hd (omega arith) large)
            (sym (in_u64-none (polynomial 10 0 (d ∷ digits)) large))
    ]

-- The letters of the units, in either case, and what they stand for.
pub data IsUnit : ℕ → ℕ → Type 0 where
  kilo : {c n : ℕ} → (c ≡ b'K') ⊎ (c ≡ b'k') → n ≡ 1024 → IsUnit c n
  mega : {c n : ℕ} → (c ≡ b'M') ⊎ (c ≡ b'm') → n ≡ 1024 * 1024 → IsUnit c n
  giga : {c n : ℕ} → (c ≡ b'G') ⊎ (c ≡ b'g') → n ≡ 1024 * 1024 * 1024 → IsUnit c n
  tera : {c n : ℕ} → (c ≡ b'T') ⊎ (c ≡ b't') → n ≡ 1024 * 1024 * 1024 * 1024 → IsUnit c n

-- What the table of `parse_size` says of a unit; its letter is no digit.
record HasPower (c n : ℕ) : Type 0 where
  power : ℕ
  found : suffix_power c ≡ some power
  value : 2 ^ (10 * (power + 1)) ≡ n
  stops : Stops (c ∷ [])

HasPower-letter :
    (upper lower : ℕ) {c n : ℕ}
    → (c ≡ upper) ⊎ (c ≡ lower)
    → HasPower upper n
    → HasPower lower n
    → HasPower c n
HasPower-letter upper lower {n = n} (inl e) h k = subst (λ z. HasPower z n) (sym e) h
HasPower-letter upper lower {n = n} (inr e) h k = subst (λ z. HasPower z n) (sym e) k

unit-HasPower : {c n : ℕ} → IsUnit c n → HasPower c n
unfolding suffix_power
unit-HasPower (kilo l e) =
    HasPower-letter b'K' b'k' l (record { power = 0; found = refl; value = sym e; stops = refl })
      (record { power = 0; found = refl; value = sym e; stops = refl })
unit-HasPower (mega l e) =
    HasPower-letter b'M' b'm' l (record { power = 1; found = refl; value = sym e; stops = refl })
      (record { power = 1; found = refl; value = sym e; stops = refl })
unit-HasPower (giga l e) =
    HasPower-letter b'G' b'g' l (record { power = 2; found = refl; value = sym e; stops = refl })
      (record { power = 2; found = refl; value = sym e; stops = refl })
unit-HasPower (tera l e) =
    HasPower-letter b'T' b't' l (record { power = 3; found = refl; value = sym e; stops = refl })
      (record { power = 3; found = refl; value = sym e; stops = refl })

suffixed :
    (d : ℕ) (digits : List ℕ) (c power : ℕ)
    → All IsDigit (d ∷ digits)
    → suffix_power c ≡ some power
    → Stops (c ∷ [])
    → parse_size (digit_chars (d ∷ digits) ++ (c ∷ []))
      ≡ in_u64 (polynomial 10 0 (d ∷ digits) * 2 ^ (10 * (power + 1)))
unfolding parse_size with_suffix
suffixed d digits c power hd e s = elim (below_or_not (polynomial 10 0 (d ∷ digits)) u64_mod) [
  | inl small ↦
      rw (digits_loop-fits 0 0 (d ∷ digits) (c ∷ []) hd s small, counted (length digits), e)
        (shifted-in_u64 (polynomial 10 0 (d ∷ digits)) power (suffix_power-lt c power e) small)
  | inr large ↦ rw (digits_loop-overflow 0 0 (d ∷ digits) (c ∷ []) hd (omega arith) large) (
      sym (
        in_u64-large (polynomial 10 0 (d ∷ digits)) (2 ^ (10 * (power + 1))) large
          (positive (10 * (power + 1)))))
]

-- For one decimal digit or more and then a letter K, M, G or T in either case, which stands for 1024 or its second, third
-- or fourth power: `parse_size` gives the number that the digits denote times that power if the product is below 2^64,
-- and nothing if not.
pub parse_size-IsUnit :
    (d : ℕ) (digits : List ℕ) (c n : ℕ)
    → All IsDigit (d ∷ digits)
    → IsUnit c n
    → parse_size (digit_chars (d ∷ digits) ++ (c ∷ [])) ≡ in_u64 (polynomial 10 0 (d ∷ digits) * n)
parse_size-IsUnit d digits c n hd unit =
    let h = unit-HasPower unit in
    suffixed d digits c h.power hd h.found h.stops
    ∙ ap (λ (m : ℕ). in_u64 (polynomial 10 0 (d ∷ digits) * m)) h.value
