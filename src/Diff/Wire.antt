-- ===== src/Diff/Wire.antt =====
-- Opcodes as bytes, in the layout of src/DeltaCodec.hpp, and `read_diff_opcode` on them.
use roll.Prelude.{
  some, ℕ, ◌≤◌, ◌<◌, ◌≡◌, refl, ap, true, false, ◌⊎◌, List, [], ◌∷◌, ◌++◌, ◌==◌, length,
  append_assoc, arith,
}
use roll.Format.{u32_mod}
use roll.Io.{Bytes}
use roll.Io.Memory.{memory_input}
use roll.Io.Action.{ok}
use roll.Codec.Ints.{u32_be, load_u32_be, load-u32_be, little}
use roll.Codec.Reader.{
  DiffOpcode, missing_pos, missing_x_length, missing_inline_bytes, read_diff_opcode, at_diff_opcode,
  is_diff_opcode,
}
use roll.Codec.RoundTrip.Records.{read_exact_lem}
use roll.Diff.Rebuild.{delete_op}

abbrev pub inline_bytes : ℕ → ℕ → Bytes → Bytes
inline_bytes op pos bytes = op ∷ (u32_be pos ++ (length bytes ∷ bytes))

abbrev pub delete_bytes : ℕ → ℕ → Bytes
delete_bytes pos n = b'X' ∷ (u32_be pos ++ u32_be n)

-- The opcodes that the format can hold, with their bytes.
pub data Encodes : DiffOpcode → Bytes → Type 0 where
  inline :
      {o : DiffOpcode} {bytes : Bytes} (op pos : ℕ) (payload : Bytes)
      → (op ≡ b'D') ⊎ (op ≡ b'I')
      → pos < u32_mod
      → length payload ≤ 255
      → o ≡ record { op = op; pos = pos; delete_length = 0; bytes = payload }
      → bytes ≡ inline_bytes op pos payload
      → Encodes o bytes
  deletion :
      {o : DiffOpcode} {bytes : Bytes} (pos n : ℕ)
      → pos < u32_mod
      → n < u32_mod
      → o ≡ delete_op pos n
      → bytes ≡ delete_bytes pos n
      → Encodes o bytes

-- A run of opcodes, and its bytes.
pub data EncodesAll : List DiffOpcode → Bytes → Type 0 where
  end : EncodesAll [] []
  more :
      {ops : List DiffOpcode} {bytes : Bytes} {o : DiffOpcode} {whole : Bytes} (head : Bytes)
      → Encodes o head
      → whole ≡ head ++ bytes
      → EncodesAll ops bytes
      → EncodesAll (o ∷ ops) whole

load_lem : (v : ℕ) → v < u32_mod → load_u32_be (u32_be v) ≡ v
unfolding load_u32_be
load_lem v h = load-u32_be little v [] h

read_inline :
    (op pos : ℕ) (payload rest : Bytes)
    → (op ≡ b'D') ⊎ (op ≡ b'I')
    → pos < u32_mod
    → read_diff_opcode memory_input (inline_bytes op pos payload ++ rest)
      ≡ (ok (record { op = op; pos = pos; delete_length = 0; bytes = payload }), rest)
unfolding read_diff_opcode
read_inline op pos payload rest h hp = rw (
  known,
  read_exact_lem 4 missing_pos (u32_be pos) (length payload ∷ (payload ++ rest)) refl,
  load_lem pos hp,
  not_deletion,
  read_exact_lem (length payload) missing_inline_bytes payload rest refl,
)
  where
    known : is_diff_opcode (some op) ≡ true
    known = ground arith

    not_deletion : (op == b'X') ≡ false
    not_deletion = ground arith

read_deletion :
    (pos n : ℕ) (rest : Bytes)
    → pos < u32_mod
    → n < u32_mod
    → read_diff_opcode memory_input (delete_bytes pos n ++ rest) ≡ (ok (delete_op pos n), rest)
unfolding read_diff_opcode
read_deletion pos n rest hp hn = rw (
  read_exact_lem 4 missing_pos (u32_be pos) (u32_be n ++ rest) refl,
  load_lem pos hp,
  read_exact_lem 4 missing_x_length (u32_be n) rest refl,
  load_lem n hn,
)

-- The reader reads an opcode back from its bytes, and leaves what follows.
pub read-Encodes :
    {o : DiffOpcode} {bytes : Bytes} (rest : Bytes)
    → Encodes o bytes
    → read_diff_opcode memory_input (bytes ++ rest) ≡ (ok o, rest)
read-Encodes rest (inline op pos payload h hp hl ho hb) =
    rw (hb, ho) (read_inline op pos payload rest h hp)
read-Encodes rest (deletion pos n hp hn ho hb) = rw (hb, ho) (read_deletion pos n rest hp hn)

-- Its first byte is one that the applier takes for an opcode.
pub at-Encodes :
    {o : DiffOpcode} {bytes : Bytes} (rest : Bytes)
    → Encodes o bytes
    → at_diff_opcode memory_input (bytes ++ rest) ≡ (true, bytes ++ rest)
unfolding at_diff_opcode
at-Encodes rest (inline op pos payload h hp hl ho hb) = rw hb (rw known)
  where
    known : is_diff_opcode (some op) ≡ true
    known = ground arith
at-Encodes rest (deletion pos n hp hn ho hb) = rw hb

pub Encodes-length : {o : DiffOpcode} {bytes : Bytes} → Encodes o bytes → 1 ≤ length bytes
Encodes-length (inline op pos payload h hp hl ho hb) = omega (arith, ap length hb)
Encodes-length (deletion pos n hp hn ho hb) = omega (arith, ap length hb)

pub EncodesAll-append :
    {ops ops' : List DiffOpcode} {a b : Bytes}
    → EncodesAll ops a
    → EncodesAll ops' b
    → EncodesAll (ops ++ ops') (a ++ b)
EncodesAll-append end y = y
EncodesAll-append {b = b} (more {bytes} head h w x) y =
    more head h (rw w (append_assoc head bytes b)) (EncodesAll-append x y)
