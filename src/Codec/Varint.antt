-- ===== src/Codec/Varint.antt =====
-- `push_varint` and `varint_size` of src/DeltaCodec.hpp: LEB128 integers.
use roll.Prelude.{
  ℕ, zero, suc, ◌+◌, ◌/◌, ◌%◌, ◌^◌, ◌≤◌, ◌<◌, bit_or, ◌≡◌, List, [], ◌∷◌, ◌++◌, All, All-append,
  length, leb, ltb, if◌then◌else◌, append_assoc, length-append, arith,
}
use roll.Prelude.Bits.{with_top_bit}
use roll.Format.{u64_mod}
use roll.Codec.Ints.{IsByte}

abbrev pub varint_max_bytes : ℕ
varint_max_bytes = 10

-- The loop divides `value` by 128, so `value` rounds are enough.
push_varint_loop : ℕ → List ℕ → ℕ → List ℕ
push_varint_loop zero out value = out ++ (value % 256 ∷ [])
push_varint_loop (suc fuel) out value =
    let rest = push_varint_loop fuel (out ++ (bit_or (value % 256) 0x80 ∷ [])) (value / 128) in
    if leb 0x80 value then rest else out ++ (value % 256 ∷ [])

unfoldable pub push_varint : List ℕ → ℕ → List ℕ
unfolding push_varint_loop
push_varint out value = push_varint_loop value out value

varint_size_loop : ℕ → ℕ → ℕ → ℕ
varint_size_loop zero n value = n
varint_size_loop (suc fuel) n value =
    let rest = varint_size_loop fuel (n + 1) (value / 128) in if leb 0x80 value then rest else n

unfoldable pub varint_size : ℕ → ℕ
unfolding varint_size_loop
varint_size value = varint_size_loop value 1 value

-- The groups of seven bits, lowest first, each but the last marked by its top bit: the encoding of
-- a value below `128 ^ (k + 1)`.
unfoldable pub groups : ℕ → ℕ → List ℕ
groups zero v = v ∷ []
groups (suc k) v =
    let rest = groups k (v / 128) in if ltb v 128 then v ∷ [] else (v % 128 + 128) ∷ rest

push_varint_loop-groups :
    (k fuel : ℕ) (out : List ℕ) (v : ℕ)
    → v ≤ fuel
    → v < 128 ^ suc k
    → push_varint_loop fuel out v ≡ out ++ groups k v
unfolding push_varint_loop groups
push_varint_loop-groups zero zero out v h lt = ground arith
push_varint_loop-groups (suc k) zero out v h lt = ground arith
push_varint_loop-groups zero (suc fuel) out v h lt = ground arith
push_varint_loop-groups (suc k) (suc fuel) out v h lt = ground (
  arith,
  with_top_bit (v % 256),
  push_varint_loop-groups k fuel (out ++ ((v % 128 + 128) ∷ [])) (v / 128),
  append_assoc out ((v % 128 + 128) ∷ []) (groups k (v / 128)),
)

-- `push_varint` keeps what was there and appends the groups.
pub push_varint-groups :
    (out : List ℕ) (v : ℕ) → v < u64_mod → push_varint out v ≡ out ++ groups 9 v
unfolding push_varint
push_varint-groups out v h = push_varint_loop-groups 9 v out v (omega arith) (omega arith)

pub groups-IsByte : (k v : ℕ) → v < 128 ^ suc k → All IsByte (groups k v)
unfolding groups
groups-IsByte zero v h = omega arith
groups-IsByte (suc k) v h = ground (arith, groups-IsByte k (v / 128) (omega arith))

pub length-groups : (k v : ℕ) → (1 ≤ length (groups k v)) × (length (groups k v) ≤ k + 1)
unfolding groups
length-groups zero v = omega arith
length-groups (suc k) v = ground (arith, length-groups k (v / 128))

varint_size_loop-groups :
    (k fuel n v : ℕ)
    → v ≤ fuel
    → v < 128 ^ suc k
    → varint_size_loop fuel n v + 1 ≡ n + length (groups k v)
unfolding varint_size_loop groups
varint_size_loop-groups zero zero n v h lt = ground arith
varint_size_loop-groups (suc k) zero n v h lt = ground arith
varint_size_loop-groups zero (suc fuel) n v h lt = ground arith
varint_size_loop-groups (suc k) (suc fuel) n v h lt =
    ground (arith, varint_size_loop-groups k fuel (n + 1) (v / 128))

pub varint_size-groups : (v : ℕ) → v < u64_mod → varint_size v ≡ length (groups 9 v)
unfolding varint_size
varint_size-groups v h = omega (arith, varint_size_loop-groups 9 v 1 v (omega arith) (omega arith))

-- For a 64-bit value behind bytes: `varint_size` is the number of bytes that `push_varint`
-- appends, 1 to 10, and all the result are bytes.
pub length-push_varint :
    (out : List ℕ) (v : ℕ)
    → v < u64_mod
    → All IsByte out
    → (length (push_varint out v) ≡ length out + varint_size v)
      × (1 ≤ varint_size v)
      × (varint_size v ≤ varint_max_bytes)
      × All IsByte (push_varint out v)
length-push_varint out v h o =
    rw (push_varint-groups out v h, varint_size-groups v h)
      (
        length-append out (groups 9 v),
        omega (arith, length-groups 9 v),
        omega (arith, length-groups 9 v),
        All-append IsByte out (groups 9 v) o (groups-IsByte 9 v (omega arith)),
      )
