-- ===== src/Codec/RoundTrip/Varint.antt =====
-- `read_varint` on the bytes of `push_varint`, and on any bytes.
use roll.Prelude.{
  ℕ, zero, suc, ◌+◌, ◌-◌, ◌*◌, ◌/◌, ◌%◌, ◌^◌, ◌≤◌, ◌<◌, bit_and, bit_or, ◌≡◌, ◌≢◌, ap, ◌∙◌, false,
  [], ◌∷◌, ◌++◌, ◌==◌, ltb, ltb→lt, ◌&&◌, Bool-cases, inl, inr, subst, arith,
}
use roll.Prelude.Bits.{low_seven, top_bit, bit_or_disjoint}
use roll.Format.{u64_mod}
use roll.Io.{Bytes}
use roll.Io.Memory.{memory_input}
use roll.Io.Action.{Result, ok}
use roll.Codec.Varint.{varint_max_bytes, groups, push_varint, push_varint-groups}
use roll.Codec.Reader.{Field, ReadError, read_varint_loop, read_varint}
use native.Mathlib.Nat.{div-add-mod}
use native.Mathlib.Numerals.{towards_suc}

abbrev loop : Field → ℕ → ℕ → ℕ → Bytes → Result ReadError ℕ × Bytes
loop = read_varint_loop memory_input

pow_seven : (s : ℕ) → 2 ^ (s + 7) ≡ 128 * 2 ^ s
pow_seven s = simp towards_suc (omega arith)

-- One more group of seven bits.
shift_seven : (i : ℕ) → 2 ^ (7 * (i + 1)) ≡ 128 * 2 ^ (7 * i)
shift_seven i = ap (λ k. 2 ^ k) (omega arith) ∙ pow_seven (7 * i)

-- `value |= bits << (7 * i)`, where the value has only bits below.
joined :
    (i value byte g : ℕ)
    → bit_and byte 0x7f ≡ g
    → value < 2 ^ (7 * i)
    → value + g * 2 ^ (7 * i) < u64_mod
    → bit_or value (bit_and byte 0x7f * 2 ^ (7 * i) % u64_mod) ≡ value + g * 2 ^ (7 * i)
joined i value byte g e hv fits = rw (e, whole) (bit_or_disjoint (7 * i) value g hv)
  where
    whole : g * 2 ^ (7 * i) % u64_mod ≡ g * 2 ^ (7 * i)
    whole = omega arith

-- A last byte, without the top bit, joins the value and ends the loop.
last_group :
    (what : Field) (rounds i value w : ℕ) (rest : Bytes)
    → w < 128
    → value < 2 ^ (7 * i)
    → value + w * 2 ^ (7 * i) < u64_mod
    → (i ≡ 9 → w ≤ 1)
    → loop what (suc rounds) i value (w ∷ rest) ≡ (ok (value + w * 2 ^ (7 * i)), rest)
unfolding read_varint_loop
last_group what rounds i value w rest hw hv fits last =
    rw (joined i value w w low hv fits) (ground (arith, top_bit w, low))
  where
    low : bit_and w 0x7f ≡ w
    low = omega (arith, low_seven w)

-- A byte with the top bit set goes on to the next group.
inner_group :
    (what : Field) (rounds i value g : ℕ) (rest : Bytes)
    → g < 128
    → value < 2 ^ (7 * i)
    → value + g * 2 ^ (7 * i) < u64_mod
    → i ≢ 9
    → loop what (suc rounds) i value ((g + 128) ∷ rest)
      ≡ loop what rounds (i + 1) (value + g * 2 ^ (7 * i)) rest
unfolding read_varint_loop
inner_group what rounds i value g rest hg hv fits inner =
    rw (joined i value (g + 128) g low hv fits, early, marked)
  where
    early : (i == varint_max_bytes - 1 && ltb 1 (bit_and (g + 128) 0x7f)) ≡ false
    early = ground arith

    marked : (bit_and (g + 128) 0x80 == 0) ≡ false
    marked = ground (arith, top_bit (g + 128))

    low : bit_and (g + 128) 0x7f ≡ g
    low = omega (arith, low_seven (g + 128))

-- The lowest group of `w` and the rest, at shift `7 * i`.
split_group : (w i : ℕ) → w * 2 ^ (7 * i) ≡ w % 128 * 2 ^ (7 * i) + w / 128 * 2 ^ (7 * (i + 1))
split_group w i =
    rw (shift_seven i) (omega (arith, ap (λ (t : ℕ). t * 2 ^ (7 * i)) (div-add-mod w 128)))

group_fits : (value g p : ℕ) → value < p → g < 128 → value + g * p < 128 * p
group_fits value g p hv hg = grind arith

-- In round `i` the groups of what is left are read, `9 - i` of them at most after this one.
loop-groups :
    (what : Field) (k i value w : ℕ) (rest : Bytes)
    → i + k ≡ 9
    → w < 128 ^ suc k
    → value < 2 ^ (7 * i)
    → value + w * 2 ^ (7 * i) < u64_mod
    → loop what (suc k) i value (groups k w ++ rest) ≡ (ok (value + w * 2 ^ (7 * i)), rest)
unfolding groups
loop-groups what zero i value w rest e hw hv fits =
    last_group what 0 i value w rest (omega arith) hv fits small
  where
    small : i ≡ 9 → w ≤ 1
    small n =
        let fits' : value + w * 2 ^ (7 * 9) < u64_mod =
          subst (λ j. value + w * 2 ^ (7 * j) < u64_mod) n fits in
        omega arith
loop-groups what (suc k) i value w rest e hw hv fits = elim (Bool-cases (ltb w 128)) [
  | inl one ↦ rw one (
      last_group what (suc k) i value w rest (ltb→lt w 128 one) hv fits (λ n. absurd (omega arith)))
  | inr more ↦ rw more (
      inner_group what (suc k) i value (w % 128) (groups k (w / 128) ++ rest) (omega arith) hv
        (omega (arith, split_group w i)) (λ n. omega arith)
      ∙ loop-groups what k (i + 1) (value + w % 128 * 2 ^ (7 * i)) (w / 128) rest (omega arith)
          (omega arith) below (omega (arith, split_group w i))
      ∙ ap (λ (x : ℕ). (ok x, rest)) (omega (arith, split_group w i)))
]
  where
    below : value + w % 128 * 2 ^ (7 * i) < 2 ^ (7 * (i + 1))
    below = rw (shift_seven i) (group_fits value (w % 128) (2 ^ (7 * i)) hv (omega arith))

pub read_varint-groups :
    (what : Field) (v : ℕ) (rest : Bytes)
    → v < u64_mod
    → read_varint memory_input what (groups 9 v ++ rest) ≡ (ok v, rest)
unfolding read_varint
read_varint-groups what v rest h =
    loop-groups what 9 0 0 v rest (omega arith) (omega arith) (omega arith) (omega arith)
    ∙ ap (λ (x : ℕ). (ok x, rest)) (omega arith)

-- `read_varint` reads back any 64-bit value that `push_varint` wrote, and leaves what follows it.
pub read_varint-push_varint :
    (what : Field) (v : ℕ) (rest : Bytes)
    → v < u64_mod
    → read_varint memory_input what (push_varint [] v ++ rest) ≡ (ok v, rest)
read_varint-push_varint what v rest h =
    rw (push_varint-groups [] v h) (read_varint-groups what v rest h)
