-- ===== src/Rolling.antt =====
-- `RKFinger` of src/RK_finger.hpp: the rolling fingerprint of a window of bytes.
pub mod Reduce
pub mod Roll
pub mod Window
pub mod Stream
use roll.Prelude.{
  ℕ, zero, suc, ◌+◌, ◌-◌, ◌*◌, ◌/◌, ◌%◌, ◌^◌, max, bit_and, Bool, true, false, not, ◌&&◌, ◌||◌,
  Option, none, some, List, [], ◌∷◌, ◌++◌, ◌==◌, ltb, leb, if◌then◌else◌, length, take, drop,
  replicate, get_elem?, min,
}
use roll.Format.{u64_mod}
use roll.Io.{Bytes}

-- The members. `window_head` is the index of the oldest byte of the ring `window`.
pub record RkFinger : Type 0 where
  pub alphabet_size : ℕ
  pub window_size : ℕ
  pub modulus : ℕ
  pub fingerprint : ℕ
  pub h : ℕ
  pub mersenne_shift : ℕ
  pub window : Bytes
  pub window_head : ℕ

-- The remainder by division, or by one fold where `mersenne_shift` is set.
unfoldable pub reduce : ℕ → ℕ → ℕ → ℕ
reduce modulus mersenne_shift value =
    if mersenne_shift == 0
    then value % modulus
    else let folded = (bit_and value modulus + value / 2 ^ mersenne_shift) % u64_mod in
      if leb modulus folded then folded - modulus else folded

-- `std::bit_width` of a 64-bit number.
unfoldable pub bit_width_loop : ℕ → ℕ → ℕ
bit_width_loop zero x = 0
bit_width_loop (suc bits) x = if x == 0 then 0 else 1 + bit_width_loop bits (x / 2)

unfoldable pub bit_width : ℕ → ℕ
unfolding bit_width_loop
bit_width x = bit_width_loop 64 x

-- `std::has_single_bit`: a power of two.
unfoldable pub has_single_bit : ℕ → Bool
unfolding bit_width
has_single_bit x = not (x == 0) && x == 2 ^ (bit_width x - 1)

-- The largest modulus for which the intermediate values fit into 64 bits.
unfoldable pub largest_modulus : ℕ → ℕ
largest_modulus alphabet_size = (u64_mod - 1 - 255) / (2 * max alphabet_size 255)

-- The `mersenne_shift` that `configure_fast_reduction` sets. Behind its guards nothing wraps.
unfoldable pub configure_fast_reduction : ℕ → ℕ → ℕ
configure_fast_reduction a modulus =
    let k = bit_width modulus in
    let max_input = max (2 * a * modulus + 255) (255 * (modulus - 1)) in
    if not (has_single_bit ((modulus + 1) % u64_mod))
    then 0
    else if a == 0
    then 0
    else if ltb (largest_modulus a) modulus
    then 0
    else if ltb (max_input / 2 ^ k) modulus
    then k
    else 0

-- The loop of `init_state` for `alphabet_size ^ rounds`.
unfoldable pub power_loop : ℕ → ℕ → ℕ → ℕ → ℕ → ℕ
power_loop zero a modulus shift h = h
power_loop (suc rounds) a modulus shift h =
    power_loop rounds a modulus shift (reduce modulus shift (h * a % u64_mod))

-- The members after `init_state`.
unfoldable pub init_state : ℕ → ℕ → ℕ → RkFinger
unfolding power_loop
init_state alphabet_size window_size modulus =
    let shift = configure_fast_reduction alphabet_size modulus in
    record {
      alphabet_size = alphabet_size;
      window_size = window_size;
      modulus = modulus;
      fingerprint = 0;
      h = power_loop (window_size - 1) alphabet_size modulus shift 1;
      mersenne_shift = shift;
      window = replicate window_size 0;
      window_head = 0;
    }

-- The constructor; `none` is the exception. The numbers are taken to fit their types.
unfoldable pub make : ℕ → ℕ → ℕ → Option RkFinger
make alphabet_size window_size modulus =
    if window_size == 0
    then none
    else if modulus == 0
    then none
    else if alphabet_size == 0
    then none
    else if ltb (largest_modulus alphabet_size) modulus
    then none
    else some (init_state alphabet_size window_size modulus)

-- The fingerprint over the bytes, from a value on.
unfoldable pub absorb : RkFinger → ℕ → Bytes → ℕ
absorb f fingerprint [] = fingerprint
absorb f fingerprint (b ∷ bytes) =
    absorb f
      (reduce f.modulus f.mersenne_shift ((f.alphabet_size * fingerprint % u64_mod + b) % u64_mod))
      bytes

-- The result is whether there was a full window.
unfoldable pub initialize : Bytes → RkFinger → Bool × RkFinger
initialize initial f =
    let n = if ltb (length initial) f.window_size then length initial else f.window_size in
    (
      leb f.window_size (length initial),
      record f {
        window = take n initial ++ replicate (f.window_size - n) 0;
        window_head = 0;
        fingerprint = absorb f 0 (take n initial);
      },
    )

-- `window_[i]`, for an index inside.
abbrev pub byte_of : Bytes → ℕ → ℕ
byte_of [] i = 0
byte_of (b ∷ bytes) zero = b
byte_of (b ∷ bytes) (suc i) = byte_of bytes i

unfoldable pub compute_next : ℕ → RkFinger → RkFinger
unfolding reduce
compute_next byte f =
    let evicted = byte_of f.window f.window_head in
    let gone = reduce f.modulus f.mersenne_shift (evicted * f.h % u64_mod) in
    let difference = ((f.fingerprint + f.modulus) % u64_mod + u64_mod - gone) % u64_mod in
    let head = f.window_head + 1 in
    record f {
      fingerprint =
          reduce f.modulus f.mersenne_shift
            ((f.alphabet_size * difference % u64_mod + byte) % u64_mod);
      window = take f.window_head f.window ++ (byte ∷ drop (f.window_head + 1) f.window);
      window_head = if head == f.window_size then 0 else head;
    }

abbrev pub alphabet_def_size : ℕ
alphabet_def_size = 256

abbrev pub window_def_size : ℕ
window_def_size = 48

abbrev pub modulus_def_size : ℕ
modulus_def_size = 2 ^ 31 - 1
