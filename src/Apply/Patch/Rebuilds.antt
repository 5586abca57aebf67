-- ===== src/Apply/Patch/Rebuilds.antt =====
-- `applyDiff` of src/Apply.hpp produces what an opcode run rebuilds.
use roll.Prelude.{
  ℕ, suc, ◌+◌, ◌-◌, ◌≤◌, ◌≡◌, refl, ap, ◌∙◌, true, false, not, ◌||◌, List, [], ◌∷◌, ◌++◌, ◌==◌, ltb,
  length, length-append, take-append, drop-append, append_assoc, append-nil, arith,
}
use roll.Io.{Bytes}
use roll.Io.Action.{ok}
use roll.Codec.Reader.{DiffOpcode}
use roll.Diff.Rebuild.{Rebuild, tail, replace, insert, delete, replace_op, insert_op, delete_op}
use roll.Apply.Patch.{Patch, write_opcode, apply_opcode, copy_tail}

abbrev pub patch : Bytes → ℕ → Bytes → Patch
patch olds new_pos output = record { olds = olds; new_pos = new_pos; output = output }

-- The old bytes up to the opcode's position are copied.
apply_opcode-copy :
    (target j : ℕ) (same rest out : Bytes) (o : DiffOpcode)
    → o.pos ≡ j + length same
    → length out ≡ j
    → j + length same ≤ target
    → apply_opcode target (patch (same ++ rest) j out) o
      ≡ write_opcode target (patch rest (j + length same) (out ++ same)) o
unfolding apply_opcode
apply_opcode-copy target j same rest out o ho hl ht =
    rw (forward, distance, inside, take-append same rest, drop-append same rest)
  where
    forward : ltb o.pos j ≡ false
    forward = ground arith

    distance : o.pos - j ≡ length same
    distance = omega arith

    inside :
        ltb (length (same ++ rest)) (length same) || ltb (target - length out) (length same) ≡ false
    inside = ground (arith, length-append same rest)

write_replace :
    (target j : ℕ) (gone rest out bytes : Bytes) (pos : ℕ)
    → length gone ≡ length bytes
    → length out + length bytes ≤ target
    → write_opcode target (patch (gone ++ rest) j out) (replace_op pos bytes)
      ≡ ok (patch rest (j + length bytes) (out ++ bytes))
unfolding write_opcode
write_replace target j gone rest out bytes pos hg ht =
    rw (room, enough, ← hg, drop-append gone rest)
  where
    room : ltb (target - length out) (length bytes) ≡ false
    room = ground arith

    enough : ltb (length (gone ++ rest)) (length bytes) ≡ false
    enough = ground (arith, length-append gone rest)

write_insert :
    (target j : ℕ) (rest out bytes : Bytes) (pos : ℕ)
    → length out + length bytes ≤ target
    → write_opcode target (patch rest j out) (insert_op pos bytes)
      ≡ ok (patch rest (j + length bytes) (out ++ bytes))
unfolding write_opcode
write_insert target j rest out bytes pos ht = rw room
  where
    room : ltb (target - length out) (length bytes) ≡ false
    room = ground arith

write_delete :
    (target j : ℕ) (gone rest out : Bytes) (pos : ℕ)
    → write_opcode target (patch (gone ++ rest) j out) (delete_op pos (length gone))
      ≡ ok (patch rest j out)
unfolding write_opcode
write_delete target j gone rest out pos = rw (enough, drop-append gone rest)
  where
    enough : ltb (length (gone ++ rest)) (length gone) ≡ false
    enough = ground (arith, length-append gone rest)

-- The opcodes in order.
pub data Runs (target : ℕ) : List DiffOpcode → Patch → Patch → Type 0 where
  done : {p : Patch} → Runs target [] p p
  step :
      {ops : List DiffOpcode} {q : Patch} {o : DiffOpcode} {p r : Patch}
      → apply_opcode target p o ≡ ok q
      → Runs target ops q r
      → Runs target (o ∷ ops) p r

copy_tail-prefix :
    (out olds news extra : Bytes) (j : ℕ)
    → olds ≡ news ++ extra
    → copy_tail (length out + length news) (patch olds j out) ≡ ok (out ++ news)
unfolding copy_tail
copy_tail-prefix out olds [] extra j h = rw (none_left, append-nil out, exact)
  where
    none_left : not (ltb (length out) (length out + 0)) ≡ true
    none_left = ground arith

    exact : (length out == length out + 0) ≡ true
    exact = ground arith
copy_tail-prefix out olds (b ∷ news) extra j h =
    rw (some_left, distance, h, enough, take-append (b ∷ news) extra, exact)
  where
    some_left : not (ltb (length out) (length out + suc (length news))) ≡ false
    some_left = ground arith

    distance : length out + suc (length news) - length out ≡ suc (length news)
    distance = omega arith

    enough : ltb (suc (length (news ++ extra))) (suc (length news)) ≡ false
    enough = ground (arith, length-append news extra)

    exact : (length (out ++ (b ∷ news)) == length out + suc (length news)) ≡ true
    exact = ground (arith, length-append out (b ∷ news))

-- What `applyDiff` makes of a run that rebuilds `news` behind `out`.
abbrev Done : ℕ → List DiffOpcode → Bytes → ℕ → Bytes → Bytes → Type 0
Done target ops olds j out news =
    (q : Patch) × Runs target ops (patch olds j out) q × (copy_tail target q ≡ ok (out ++ news))

-- One opcode, and the rest of the run.
step-Done :
    {target : ℕ} {ops : List DiffOpcode} {o : DiffOpcode} {olds olds' out out' : Bytes} {j k : ℕ}
    (news news' : Bytes)
    → apply_opcode target (patch olds j out) o ≡ ok (patch olds' k out')
    → out' ++ news' ≡ out ++ news
    → Done target ops olds' k out' news'
    → Done target (o ∷ ops) olds j out news
step-Done news news' e whole (q, runs, copied) = (q, step e runs, copied ∙ ap ok whole)

-- The new data in three parts.
length_three : (a b c : Bytes) → length (a ++ (b ++ c)) ≡ length a + (length b + length c)
length_three a b c = omega (arith, length-append a (b ++ c), length-append b c)

module _ (target : ℕ) (out same bytes olds' news' : Bytes) (j k : ℕ) (o : DiffOpcode) where
  apply_replace :
      (gone olds : Bytes)
      → o ≡ replace_op (j + length same) bytes
      → olds ≡ same ++ (gone ++ olds')
      → length gone ≡ length bytes
      → k ≡ j + length same + length bytes
      → length out ≡ j
      → j + length same + length bytes ≤ target
      → apply_opcode target (patch olds j out) o ≡ ok (patch olds' k ((out ++ same) ++ bytes))
  apply_replace gone olds ho hs hg hk hl ht =
      rw (ho, hs, hk)
        (apply_opcode-copy target j same (gone ++ olds') out (replace_op (j + length same) bytes)
            refl hl (omega arith)
          ∙ write_replace target (j + length same) gone olds' (out ++ same) bytes (j + length same)
              hg (omega (arith, length-append out same)))

  apply_insert :
      (olds : Bytes)
      → o ≡ insert_op (j + length same) bytes
      → olds ≡ same ++ olds'
      → k ≡ j + length same + length bytes
      → length out ≡ j
      → j + length same + length bytes ≤ target
      → apply_opcode target (patch olds j out) o ≡ ok (patch olds' k ((out ++ same) ++ bytes))
  apply_insert olds ho hs hk hl ht =
      rw (ho, hs, hk)
        (apply_opcode-copy target j same olds' out (insert_op (j + length same) bytes) refl hl
            (omega arith)
          ∙ write_insert target (j + length same) olds' (out ++ same) bytes (j + length same)
              (omega (arith, length-append out same)))

  regroup :
      (news : Bytes)
      → news ≡ same ++ (bytes ++ news')
      → ((out ++ same) ++ bytes) ++ news' ≡ out ++ news
  regroup news hn = rw hn (simp append_assoc)

apply_delete :
    (target : ℕ) (out same olds' : Bytes) (j k : ℕ) (o : DiffOpcode) (gone olds : Bytes)
    → o ≡ delete_op (j + length same) (length gone)
    → olds ≡ same ++ (gone ++ olds')
    → k ≡ j + length same
    → length out ≡ j
    → j + length same ≤ target
    → apply_opcode target (patch olds j out) o ≡ ok (patch olds' k (out ++ same))
apply_delete target out same olds' j k o gone olds ho hs hk hl ht =
    rw (ho, hs, hk)
      (apply_opcode-copy target j same (gone ++ olds') out
          (delete_op (j + length same) (length gone)) refl hl ht
        ∙ write_delete target (j + length same) gone olds' (out ++ same) (j + length same))

-- A run that rebuilds `news` from the old data that is left goes through, and the tail copy ends
-- with `news` behind what was there.
pub Rebuild-Runs :
    {ops : List DiffOpcode} {olds news : Bytes} {j : ℕ} (target : ℕ) (out : Bytes)
    → Rebuild ops olds j news
    → length out ≡ j
    → target ≡ length out + length news
    → Done target ops olds j out news
Rebuild-Runs {olds} {news} {j} target out (tail extra h) hl ht =
    (patch olds j out, done, rw ht (copy_tail-prefix out olds news extra j h))
Rebuild-Runs {news} {j = j} target out
      (replace {olds'} {news'} {k} {o} {olds} same gone bytes ho hs hn hg hk r) hl ht =
    step-Done news news'
      (apply_replace target out same bytes olds' news' j k o gone olds ho hs hg hk hl
        (omega (arith, ap length hn, length_three same bytes news')))
      (regroup target out same bytes olds' news' j k o news hn)
      (Rebuild-Runs target ((out ++ same) ++ bytes) r
        (omega (arith, length-append (out ++ same) bytes, length-append out same))
        (omega (
          arith,
          ap length hn,
          length_three same bytes news',
          length-append (out ++ same) bytes,
          length-append out same,
        )))
Rebuild-Runs {news} {j = j} target out
      (insert {olds'} {news'} {k} {o} {olds} same bytes ho hs hn hk r) hl ht =
    step-Done news news'
      (apply_insert target out same bytes olds' news' j k o olds ho hs hk hl
        (omega (arith, ap length hn, length_three same bytes news')))
      (regroup target out same bytes olds' news' j k o news hn)
      (Rebuild-Runs target ((out ++ same) ++ bytes) r
        (omega (arith, length-append (out ++ same) bytes, length-append out same))
        (omega (
          arith,
          ap length hn,
          length_three same bytes news',
          length-append (out ++ same) bytes,
          length-append out same,
        )))
Rebuild-Runs {news} {j = j} target out
      (delete {olds'} {news'} {k} {o} {olds} same gone ho hs hn hk r) hl ht =
    step-Done news news'
      (apply_delete target out same olds' j k o gone olds ho hs hk hl
        (omega (arith, ap length hn, length-append same news')))
      (rw hn (append_assoc out same news'))
      (Rebuild-Runs target (out ++ same) r (omega (arith, length-append out same))
        (omega (arith, ap length hn, length-append same news', length-append out same)))
