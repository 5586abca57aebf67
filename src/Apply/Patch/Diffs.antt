-- ===== src/Apply/Patch/Diffs.antt =====
-- `applyDiff` of src/Apply.hpp on the diffs of src/Delta.hpp.
use roll.Prelude.{ℕ, ◌<◌, ◌≡◌, ◌≢◌, refl, ◌∙◌, List, [], ◌++◌, length, append-nil, arith}
use roll.Format.{u32_mod}
use roll.Io.{Bytes}
use roll.Io.Memory.{memory_input}
use roll.Io.Action.{ok}
use roll.Codec.Reader.{DiffOpcode}
use roll.Diff.Rebuild.{Rebuild, tail}
use roll.Diff.Wire.{EncodesAll, end, more}
use roll.Diff.Segment.{Segment, place}
use roll.Diff.Emit.{Edit, emit_opcodes_from_ses}
use roll.Diff.Emit.Script.{Script, emit_opcodes-Segment}
use roll.Diff.Greedy.{create_greedy_diff}
use roll.Diff.Greedy.Rebuilds.{create_greedy_diff-Segment}
use roll.Apply.Patch.{apply_diff}
use roll.Apply.Patch.Loop.{EndsRun, apply_diff-Rebuild}

some_op :
    {ops : List DiffOpcode} {bytes : Bytes} → EncodesAll ops bytes → bytes ≢ [] → 0 < length ops
some_op end h = absurd (h refl)
some_op (more head e w x) h = omega arith

-- A diff that leads from the start of both files to their ends, if it is not empty, makes the new from the old.
apply_diff-Segment :
    {diff old_data new_data : Bytes} (k : ℕ) (rest : Bytes)
    → Segment diff [] (place old_data 0 new_data) (place [] k [])
    → diff ≢ []
    → EndsRun rest
    → apply_diff memory_input old_data (length new_data) (diff ++ rest) ≡ (ok new_data, rest)
apply_diff-Segment {diff} {old_data} {new_data} k rest s some h =
    rw s.appended
      (apply_diff-Rebuild rest whole s.encoded (some_op s.encoded (λ e. some (s.appended ∙ e))) h)
  where
    whole : Rebuild s.ops old_data 0 new_data
    whole = rw append-nil at (s.leads [] (tail [] refl))

-- For chunks below 4 GiB: if the greedy diff of two chunks is not empty, `applyDiff` on it, with the new chunk's size
-- and before a byte that begins no opcode, gives the new chunk and reads no further than the diff.
pub apply_diff-create_greedy_diff :
    (old_data new_data rest : Bytes)
    → length old_data < u32_mod
    → length new_data < u32_mod
    → create_greedy_diff old_data new_data ≢ []
    → EndsRun rest
    → apply_diff memory_input old_data
        (length new_data)
        (create_greedy_diff old_data new_data ++ rest)
      ≡ (ok new_data, rest)
apply_diff-create_greedy_diff old_data new_data rest ho hn some h =
    let (k, s) = create_greedy_diff-Segment old_data new_data ho hn in
    apply_diff-Segment k rest s some h

-- For chunks below 4 GiB and any edit script from one to the other: if its opcodes are not empty, `applyDiff` on them,
-- with the new chunk's size and before a byte that begins no opcode, gives the new chunk and reads no further.
pub apply_diff-emit_opcodes_from_ses :
    (ses : List Edit) (old_data new_data rest : Bytes)
    → Script ses old_data new_data
    → length old_data < u32_mod
    → length new_data < u32_mod
    → emit_opcodes_from_ses new_data ses ≢ []
    → EndsRun rest
    → apply_diff memory_input old_data
        (length new_data)
        (emit_opcodes_from_ses new_data ses ++ rest)
      ≡ (ok new_data, rest)
apply_diff-emit_opcodes_from_ses ses old_data new_data rest s ho hn some h =
    let (k, t) = emit_opcodes-Segment s ho hn in apply_diff-Segment k rest t some h
