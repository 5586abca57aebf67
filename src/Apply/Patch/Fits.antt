-- ===== src/Apply/Patch/Fits.antt =====
-- The bounds of `applyDiff` of src/Apply.hpp, for any opcodes.
use roll.Prelude.{
  ℕ, ◌+◌, ◌-◌, ◌≤◌, ◌≡◌, false, ◌++◌, ltb, length, take, drop, length-append, length-take, arith,
}
use roll.Io.{Bytes}
use roll.Io.Action.{ok}
use roll.Codec.Reader.{DiffOpcode}
use roll.Apply.Patch.{Patch, write_opcode, apply_opcode, copy_tail}

write_opcode-Fits :
    {p' : Patch} (target : ℕ) (p : Patch) (o : DiffOpcode)
    → write_opcode target p o ≡ ok p'
    → length p.output ≤ target
    → length p'.output ≤ target
unfolding write_opcode
write_opcode-Fits target p o e h = ground (arith, length-append p.output o.bytes)

-- No opcode that `applyDiff` accepts takes the output beyond the size that the entry declares, so
-- `target_size - output.size()` never wraps.
pub apply_opcode-Fits :
    {p' : Patch} (target : ℕ) (p : Patch) (o : DiffOpcode)
    → apply_opcode target p o ≡ ok p'
    → length p.output ≤ target
    → length p'.output ≤ target
unfolding apply_opcode
apply_opcode-Fits {p'} target p o e h = ground (arith, fits)
  where
    le_of_not : {a b : ℕ} → ltb a b ≡ false → b ≤ a
    le_of_not h' = ground arith

    fits :
        ltb (target - length p.output) (o.pos - p.new_pos) ≡ false
        → write_opcode target
            (record {
              olds = drop (o.pos - p.new_pos) p.olds;
              new_pos = p.new_pos + (o.pos - p.new_pos);
              output = p.output ++ take (o.pos - p.new_pos) p.olds;
            })
            o
          ≡ ok p'
        → length p'.output ≤ target
    fits small w = write_opcode-Fits target _ o w (
        omega (
          arith,
          length-append p.output (take (o.pos - p.new_pos) p.olds),
          length-take (o.pos - p.new_pos) p.olds,
          le_of_not small,
        ))

-- The chunk that `copy_tail` returns has the declared size.
pub copy_tail-length :
    {out : Bytes} (target : ℕ) (p : Patch) → copy_tail target p ≡ ok out → length out ≡ target
unfolding copy_tail
copy_tail-length target p e = ground arith
