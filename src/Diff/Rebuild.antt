-- ===== src/Diff/Rebuild.antt =====
-- What it means for a run of opcodes to rebuild a chunk, and that `applyDiff` of src/Apply.hpp then
-- does so.
use roll.Prelude.{ℕ, suc, ◌+◌, ◌≡◌, ap, ◌∙◌, List, [], ◌∷◌, ◌++◌, length, arith}
use roll.Io.{Bytes}
use roll.Codec.Reader.{DiffOpcode}

abbrev pub replace_op : ℕ → Bytes → DiffOpcode
replace_op pos bytes = record { op = b'D'; pos = pos; delete_length = 0; bytes = bytes }

abbrev pub insert_op : ℕ → Bytes → DiffOpcode
insert_op pos bytes = record { op = b'I'; pos = pos; delete_length = 0; bytes = bytes }

abbrev pub delete_op : ℕ → ℕ → DiffOpcode
delete_op pos n = record { op = b'X'; pos = pos; delete_length = n; bytes = [] }

-- `Rebuild ops olds j news`: run at new position `j`, where `olds` is what is left of the old data,
-- the opcodes and the final tail copy produce `news`. In each opcode `same` is copied first.
pub data Rebuild : List DiffOpcode → Bytes → ℕ → Bytes → Type 0 where
  tail : {olds news : Bytes} {j : ℕ} (extra : Bytes) → olds ≡ news ++ extra → Rebuild [] olds j news
  replace :
      {ops : List DiffOpcode} {olds' news' : Bytes} {k : ℕ} {o : DiffOpcode} {olds news : Bytes}
      {j : ℕ} (same gone bytes : Bytes)
      → o ≡ replace_op (j + length same) bytes
      → olds ≡ same ++ (gone ++ olds')
      → news ≡ same ++ (bytes ++ news')
      → length gone ≡ length bytes
      → k ≡ j + length same + length bytes
      → Rebuild ops olds' k news'
      → Rebuild (o ∷ ops) olds j news
  insert :
      {ops : List DiffOpcode} {olds' news' : Bytes} {k : ℕ} {o : DiffOpcode} {olds news : Bytes}
      {j : ℕ} (same bytes : Bytes)
      → o ≡ insert_op (j + length same) bytes
      → olds ≡ same ++ olds'
      → news ≡ same ++ (bytes ++ news')
      → k ≡ j + length same + length bytes
      → Rebuild ops olds' k news'
      → Rebuild (o ∷ ops) olds j news
  delete :
      {ops : List DiffOpcode} {olds' news' : Bytes} {k : ℕ} {o : DiffOpcode} {olds news : Bytes}
      {j : ℕ} (same gone : Bytes)
      → o ≡ delete_op (j + length same) (length gone)
      → olds ≡ same ++ (gone ++ olds')
      → news ≡ same ++ news'
      → k ≡ j + length same
      → Rebuild ops olds' k news'
      → Rebuild (o ∷ ops) olds j news

-- A byte that both sides share may stand in front.
pub Rebuild-skip :
    {ops : List DiffOpcode} {olds news : Bytes} {k j : ℕ} (x : ℕ)
    → k ≡ j + 1
    → Rebuild ops olds k news
    → Rebuild ops (x ∷ olds) j (x ∷ news)
Rebuild-skip x e (tail extra h) = tail extra (ap (λ l. x ∷ l) h)
Rebuild-skip {j = j} x e (replace {j = k} same gone bytes o ho hn hl hk r) =
    replace (x ∷ same) gone bytes (o ∙ ap (λ p. replace_op p bytes) shift) (ap (λ l. x ∷ l) ho)
      (ap (λ l. x ∷ l) hn) hl (omega arith) r
  where
    shift : k + length same ≡ j + suc (length same)
    shift = omega arith
Rebuild-skip {j = j} x e (insert {j = k} same bytes o ho hn hk r) =
    insert (x ∷ same) bytes (o ∙ ap (λ p. insert_op p bytes) shift) (ap (λ l. x ∷ l) ho)
      (ap (λ l. x ∷ l) hn) (omega arith) r
  where
    shift : k + length same ≡ j + suc (length same)
    shift = omega arith
Rebuild-skip {j = j} x e (delete {j = k} same gone o ho hn hk r) =
    delete (x ∷ same) gone (o ∙ ap (λ p. delete_op p (length gone)) shift) (ap (λ l. x ∷ l) ho)
      (ap (λ l. x ∷ l) hn) (omega arith) r
  where
    shift : k + length same ≡ j + suc (length same)
    shift = omega arith
