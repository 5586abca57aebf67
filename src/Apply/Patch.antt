-- ===== src/Apply/Patch.antt =====
-- `applyDiff` of src/Apply.hpp: the opcodes of one MODIFIED entry against the old chunk.
pub mod Rebuilds
pub mod Loop
pub mod Fits
pub mod Diffs
pub mod Ends
use roll.Prelude.{
  ℕ, zero, suc, ◌+◌, ◌-◌, Bool, true, false, not, ◌||◌, List, [], ◌∷◌, ◌++◌, ◌==◌, ltb,
  if◌then◌else◌, length, take, drop,
}
use roll.Io.{Bytes, ByteInput}
use roll.Io.Action.{Result, ok, err, Action, continue, ◌>>=◌, ◌>>◌, pure, raise}
use roll.Codec.Reader.{ReadError, DiffOpcode, at_diff_opcode, read_diff_opcode, finish_diff}
use roll.Error.{
  DeltaError, corrupt_delta, internal_error, reader_code, reader_says, position_backwards,
  match_copy_bounds, inline_write_bounds, d_advance_bounds, x_delete_bounds, tail_copy_bounds,
  out_of_fuel, default_error, Message,
}

-- The locals of the loop. `old_pos` is the place where `olds` starts in the old data, so that
-- `old_data.size() - old_pos` is the length of `olds`.
pub record Patch : Type 0 where
  pub olds : Bytes
  pub new_pos : ℕ
  pub output : Bytes

abbrev pub corrupt : {A : Type 0} → Message → Result DeltaError A
corrupt m = err (record { code = corrupt_delta; message = m })

-- An 'X' deletes, a 'D' or an 'I' writes its bytes, and a 'D' also passes as many old bytes.
-- `target_size - output.size()` does not wrap, as `Fits.apply_opcode-Fits` shows.
write_opcode : ℕ → Patch → DiffOpcode → Result DeltaError Patch
write_opcode target p o =
    if o.op == b'D' || o.op == b'I'
    then if ltb (target - length p.output) (length o.bytes)
      then corrupt inline_write_bounds
      else if not (o.op == b'D')
      then ok (record p { new_pos = p.new_pos + length o.bytes; output = p.output ++ o.bytes })
      else if ltb (length p.olds) (length o.bytes)
      then corrupt d_advance_bounds
      else ok (record {
        olds = drop (length o.bytes) p.olds;
        new_pos = p.new_pos + length o.bytes;
        output = p.output ++ o.bytes;
      })
    else if ltb (length p.olds) o.delete_length
    then corrupt x_delete_bounds
    else ok (record p { olds = drop o.delete_length p.olds })

-- First the bytes up to the position are copied.
unfoldable pub apply_opcode : ℕ → Patch → DiffOpcode → Result DeltaError Patch
unfolding write_opcode
apply_opcode target p o =
    if ltb o.pos p.new_pos
    then corrupt position_backwards
    else let match_len = o.pos - p.new_pos in
      if ltb (length p.olds) match_len || ltb (target - length p.output) match_len
      then corrupt match_copy_bounds
      else write_opcode target
          (record {
            olds = drop match_len p.olds;
            new_pos = p.new_pos + match_len;
            output = p.output ++ take match_len p.olds;
          })
          o

-- `return output.size() == target_size;`, with the error that is set by then.
checked_size : ℕ → Bytes → Result DeltaError Bytes
checked_size target output = if length output == target then ok output else err default_error

-- The tail that no opcode mentions comes from the old data.
unfoldable pub copy_tail : ℕ → Patch → Result DeltaError Bytes
unfolding checked_size
copy_tail target p =
    let remaining = target - length p.output in
    if not (ltb (length p.output) target)
    then checked_size target p.output
    else if ltb (length p.olds) remaining
    then corrupt tail_copy_bounds
    else checked_size target (p.output ++ take remaining p.olds)

abbrev pub with_code : Bool → ReadError → DeltaError
with_code has_error e = record { code = reader_code has_error; message = reader_says e }

abbrev pub lift : {E S A : Type 0} → Result E A → Action E S A
lift r s = (r, s)

-- A failed read is an I/O error or a corrupt delta, by the state of the file after it.
abbrev pub converted : {A : Type 0} → Bool → Result ReadError A → Result DeltaError A
converted has_error (ok a) = ok a
converted has_error (err e) = err (with_code has_error e)

abbrev pub reading :
    (I : ByteInput) {A : Type 0} → Action ReadError I.State A → Action DeltaError I.State A
reading I m s = (converted (I.has_error (m s).1) (m s).0, (m s).1)

abbrev pub finished : Result ReadError (Unit {0}) → Result DeltaError (Unit {0})
finished (ok u) = ok u
finished (err e) = corrupt (reader_says e)

module _ (I : ByteInput) where
  open I use {State}

  abbrev more_opcodes : Action DeltaError State Bool
  more_opcodes s = (ok (at_diff_opcode I s).0, (at_diff_opcode I s).1)

  -- Each round takes a byte at least.
  unfoldable pub diff_loop : ℕ → ℕ → Patch → ℕ → Action DeltaError State (Patch × ℕ)
  diff_loop zero target p seen = raise (record { code = internal_error; message = out_of_fuel })
  diff_loop (suc fuel) target p seen = do
    more ← more_opcodes
    let rest = do
      opcode ← reading I (read_diff_opcode I)
      p' ← lift (apply_opcode target p opcode)
      diff_loop fuel target p' (seen + 1)
    if more then rest else pure (p, seen)

  unfoldable pub apply_diff : Bytes → ℕ → Action DeltaError State Bytes
  unfolding diff_loop copy_tail
  apply_diff old_data target_size s =
      (do
        (p, seen) ←
            diff_loop (suc (I.left s)) target_size
              (record { olds = old_data; new_pos = 0; output = [] }) 0
        lift (finished (finish_diff seen))
        lift (copy_tail target_size p))
        s
