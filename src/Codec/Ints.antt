-- ===== src/Codec/Ints.antt =====
-- `push_u32_be` and `load_u32_be` of src/DeltaCodec.hpp.
use roll.Prelude.{ℕ, ◌+◌, ◌*◌, ◌/◌, ◌%◌, ◌^◌, ◌<◌, ◌≡◌, List, [], ◌∷◌, ◌++◌, All, arith}
use roll.Format.{u32_mod}

-- `std::endian::native`
pub data Endian : Type 0 where
  little big : Endian

abbrev byte_at : ℕ → ℕ → ℕ
byte_at v k = v / 2 ^ (8 * k) % 256

-- `std::byteswap` of a `uint32_t`
abbrev byteswap32 : ℕ → ℕ
byteswap32 v = byte_at v 0 * 2 ^ 24 + byte_at v 1 * 2 ^ 16 + byte_at v 2 * 2 ^ 8 + byte_at v 3

-- The object representation of a `uint32_t`, and its value read back by `std::memcpy`.
abbrev bytes_of : Endian → ℕ → List ℕ
bytes_of little v = byte_at v 0 ∷ byte_at v 1 ∷ byte_at v 2 ∷ byte_at v 3 ∷ []
bytes_of big v = byte_at v 3 ∷ byte_at v 2 ∷ byte_at v 1 ∷ byte_at v 0 ∷ []

abbrev value_of : Endian → ℕ → ℕ → ℕ → ℕ → ℕ
value_of little a b c d = a + b * 2 ^ 8 + c * 2 ^ 16 + d * 2 ^ 24
value_of big a b c d = a * 2 ^ 24 + b * 2 ^ 16 + c * 2 ^ 8 + d

-- `if constexpr (std::endian::native == std::endian::little) value = std::byteswap(value);`
abbrev to_big : Endian → ℕ → ℕ
to_big little v = byteswap32 v
to_big big v = v

unfoldable pub push_u32_be_on : Endian → List ℕ → ℕ → List ℕ
push_u32_be_on host out value = out ++ bytes_of host (to_big host value)

-- The source reads four bytes at a pointer; it is called on buffers of at least four bytes.
unfoldable pub load_u32_be_on : Endian → List ℕ → ℕ
load_u32_be_on host (a ∷ b ∷ c ∷ d ∷ rest) = to_big host (value_of host a b c d)
load_u32_be_on host _ = 0

-- The other modules use the functions of a little-endian host.
unfoldable pub push_u32_be : List ℕ → ℕ → List ℕ
unfolding push_u32_be_on
push_u32_be = push_u32_be_on little

unfoldable pub load_u32_be : List ℕ → ℕ
unfolding load_u32_be_on
load_u32_be = load_u32_be_on little

abbrev pub IsByte : ℕ → Type 0
IsByte b = b < 256

-- The four bytes, highest first.
abbrev pub u32_be : ℕ → List ℕ
u32_be v = v / 2 ^ 24 ∷ v / 2 ^ 16 % 256 ∷ v / 2 ^ 8 % 256 ∷ v % 256 ∷ []

four :
    (out : List ℕ) {a b c d a' b' c' d' : ℕ}
    → a ≡ a'
    → b ≡ b'
    → c ≡ c'
    → d ≡ d'
    → out ++ (a ∷ b ∷ c ∷ d ∷ []) ≡ out ++ (a' ∷ b' ∷ c' ∷ d' ∷ [])
four out p q r s = cc

-- Every host appends the four bytes of a 32-bit value, highest first.
pub push_u32_be_on_lem :
    (host : Endian) (out : List ℕ) (v : ℕ)
    → v < u32_mod
    → push_u32_be_on host out v ≡ out ++ u32_be v
unfolding push_u32_be_on
push_u32_be_on_lem little out v h = four out (omega arith) (omega arith) (omega arith) (omega arith)
push_u32_be_on_lem big out v h = four out (omega arith) (omega arith) (omega arith) (omega arith)

pub push_u32_be_lem : (out : List ℕ) (v : ℕ) → v < u32_mod → push_u32_be out v ≡ out ++ u32_be v
unfolding push_u32_be
push_u32_be_lem = push_u32_be_on_lem little

pub u32_be-IsByte : (v : ℕ) → v < u32_mod → All IsByte (u32_be v)
u32_be-IsByte v h = omega arith

pub load-u32_be :
    (host : Endian) (v : ℕ) (rest : List ℕ)
    → v < u32_mod
    → load_u32_be_on host (u32_be v ++ rest) ≡ v
unfolding load_u32_be_on
load-u32_be little v rest h = omega arith
load-u32_be big v rest h = omega arith

-- Every host reads back the 32-bit value that any host wrote, whatever bytes follow.
pub load-push_u32_be :
    (reader writer : Endian) (v : ℕ) (rest : List ℕ)
    → v < u32_mod
    → load_u32_be_on reader (push_u32_be_on writer [] v ++ rest) ≡ v
load-push_u32_be reader writer v rest h =
    rw (push_u32_be_on_lem writer [] v h) (load-u32_be reader v rest h)

pub load_u32_be-lt : (bytes : List ℕ) → All IsByte bytes → load_u32_be bytes < u32_mod
unfolding load_u32_be
load_u32_be-lt [] h = omega arith
load_u32_be-lt (a ∷ []) h = omega arith
load_u32_be-lt (a ∷ b ∷ []) h = omega arith
load_u32_be-lt (a ∷ b ∷ c ∷ []) h = omega arith
load_u32_be-lt (a ∷ b ∷ c ∷ d ∷ rest) h = omega arith
