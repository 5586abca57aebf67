-- ===== src/Apply/Patch/Loop.antt =====
-- The loop of `applyDiff` over the bytes of a run that rebuilds the chunk.
use roll.Prelude.{
  ℕ, zero, suc, ◌+◌, ◌≤◌, ◌<◌, ◌≡◌, refl, ap, ◌∙◌, true, false, List, [], ◌++◌, length,
  length-append, append_assoc, arith,
}
use roll.Io.{Bytes}
use roll.Io.Memory.{memory_input, first_byte}
use roll.Io.Action.{ok}
use roll.Codec.Reader.{DiffOpcode, is_diff_opcode, at_diff_opcode, read_diff_opcode, finish_diff}
use roll.Diff.Rebuild.{Rebuild}
use roll.Diff.Wire.{EncodesAll, end, more, read-Encodes, at-Encodes, Encodes-length}
use roll.Apply.Patch.{Patch, apply_opcode, diff_loop, apply_diff}
use roll.Apply.Patch.Rebuilds.{Runs, done, step, Rebuild-Runs}

-- What follows an opcode run does not begin with an opcode.
abbrev pub EndsRun : Bytes → Type 0
EndsRun rest = is_diff_opcode (first_byte rest) ≡ false

pub EncodesAll-length :
    {ops : List DiffOpcode} {bytes : Bytes} → EncodesAll ops bytes → length ops ≤ length bytes
EncodesAll-length end = omega arith
EncodesAll-length (more {bytes} head e w x) =
    omega (arith, Encodes-length e, EncodesAll-length x, ap length w, length-append head bytes)

at_end : (rest : Bytes) → EndsRun rest → at_diff_opcode memory_input rest ≡ (false, rest)
unfolding at_diff_opcode
at_end rest h = rw h

diff_loop_step :
    {p' : Patch} {o : DiffOpcode} {s s' : Bytes} (target fuel seen : ℕ) (p : Patch)
    → at_diff_opcode memory_input s ≡ (true, s)
    → read_diff_opcode memory_input s ≡ (ok o, s')
    → apply_opcode target p o ≡ ok p'
    → diff_loop memory_input (suc fuel) target p seen s
      ≡ diff_loop memory_input fuel target p' (seen + 1) s'
unfolding diff_loop
diff_loop_step target fuel seen p there read applied = ground (arith)

diff_loop-Runs :
    {ops : List DiffOpcode} {bytes : Bytes} {p q : Patch} (target fuel seen : ℕ) (rest : Bytes)
    → EncodesAll ops bytes
    → Runs target ops p q
    → EndsRun rest
    → length ops < fuel
    → diff_loop memory_input fuel target p seen (bytes ++ rest) ≡ (ok (q, seen + length ops), rest)
unfolding diff_loop
diff_loop-Runs target zero seen rest x r h hf = absurd (omega arith)
diff_loop-Runs {p} target (suc fuel) seen rest end done h hf =
    rw (at_end rest h) (ap (λ (n : ℕ). (ok (p, n), rest)) (omega arith))
diff_loop-Runs {p} {q} target (suc fuel) seen rest (more {ops} {bytes} head e w x) (step a r) h hf =
    rw (w, append_assoc head bytes rest)
      (diff_loop_step target fuel seen p (at-Encodes (bytes ++ rest) e)
          (read-Encodes (bytes ++ rest) e) a
        ∙ diff_loop-Runs target fuel (seen + 1) rest x r h (omega arith)
        ∙ ap (λ (n : ℕ). (ok (q, n), rest)) (omega arith))

finish_some : (n : ℕ) → 0 < n → finish_diff n ≡ ok tt
finish_some n h = ground arith

-- Any run of one opcode at least that rebuilds a chunk from the old one, in its bytes and followed by a byte that begins
-- no opcode: `applyDiff` produces the chunk and stops behind the run.
pub apply_diff-Rebuild :
    {ops : List DiffOpcode} {bytes old_data new_data : Bytes} (rest : Bytes)
    → Rebuild ops old_data 0 new_data
    → EncodesAll ops bytes
    → 0 < length ops
    → EndsRun rest
    → apply_diff memory_input old_data (length new_data) (bytes ++ rest) ≡ (ok new_data, rest)
unfolding apply_diff
apply_diff-Rebuild {ops} {bytes} {old_data} {new_data} rest r x some_op h =
    let (q, runs, copied) = Rebuild-Runs (length new_data) [] r refl (omega arith) in
    rw (
      diff_loop-Runs (length new_data) (suc (length (bytes ++ rest))) 0 rest x runs h
          (omega (arith, EncodesAll-length x, length-append bytes rest)),
      finish_some (0 + length ops) (omega arith),
      copied,
    )
