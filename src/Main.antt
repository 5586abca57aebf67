-- ===== src/Main.antt =====
-- The command line of src/main.cpp: the size of `--max-output`, and the exit status of an error.
pub mod Size
use roll.Prelude.{
  ℕ, zero, suc, ◌+◌, ◌-◌, ◌*◌, ◌/◌, ◌%◌, ◌^◌, bit_and, Bool, true, false, ◌&&◌, Option, none, some,
  List, [], ◌∷◌, ◌==◌, ltb, leb, if◌then◌else◌,
}
use roll.Format.{u64_mod}
use roll.Io.{Bytes}
use roll.Error.{
  DeltaErrc, corrupt_delta, integrity_mismatch, invalid_argument, limit_exceeded, io_error,
  internal_error,
}

-- What the loop over the digits leaves: the value, the number of digits, and the rest of the text.
pub record Digits : Type 0 where
  pub value : ℕ
  pub i : ℕ
  pub rest : Bytes

unfoldable pub digits_loop : ℕ → ℕ → Bytes → Option Digits
digits_loop value i [] = some (record { value = value; i = i; rest = [] })
digits_loop value i (c ∷ text) =
    let digit = c - b'0' in
    let more = digits_loop ((value * 10 + digit) % u64_mod) (i + 1) text in
    if leb b'0' c && leb c b'9'
    then (if ltb ((u64_mod - 1 - digit) / 10) value then none else more)
    else some (record { value = value; i = i; rest = c ∷ text })

-- `suffixes.find(text[i] & ~0x20)`
unfoldable pub suffix_power : ℕ → Option ℕ
suffix_power c =
    let upper = bit_and c 0xdf in
    if upper == b'K'
    then some 0
    else if upper == b'M'
    then some 1
    else if upper == b'G'
    then some 2
    else if upper == b'T'
    then some 3
    else none

unfoldable pub shifted : ℕ → Option ℕ → Option ℕ
shifted value none = none
shifted value (some power) =
    let shift = 10 * (power + 1) in
    if ltb ((u64_mod - 1) / 2 ^ shift) value then none else some (value * 2 ^ shift % u64_mod)

-- What follows the loop.
unfoldable pub with_suffix : Option Digits → Option ℕ
with_suffix none = none
with_suffix (some d) = if d.i == 0 then none else elim d.rest [
  | [] ↦ some d.value
  | c ∷ [] ↦ shifted d.value (suffix_power c)
  | c ∷ c' ∷ rest ↦ none
]

unfoldable pub parse_size : Bytes → Option ℕ
parse_size text = with_suffix (digits_loop 0 0 text)

unfoldable pub exit_status_for : DeltaErrc → ℕ
exit_status_for corrupt_delta = 1
exit_status_for integrity_mismatch = 1
exit_status_for invalid_argument = 1
exit_status_for limit_exceeded = 1
exit_status_for io_error = 2
exit_status_for internal_error = 2
