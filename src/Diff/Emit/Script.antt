-- ===== src/Diff/Emit/Script.antt =====
-- `emitOpcodesFromSES` of src/Delta.hpp on a script that turns the old data into the new.
use roll.Prelude.{
  ℕ, zero, suc, ◌+◌, ◌≤◌, ◌<◌, ◌≡◌, refl, sym, ap, ◌∙◌, List, [], ◌∷◌, ◌++◌, length, append_assoc,
  append-nil, length-append, arith,
}
use native.Mathlib.Nat.{zero-add}
use roll.Format.{u32_mod}
use roll.Io.{Bytes}
use roll.Diff.Emit.{
  Edit, equal, delete, insert, Block, collect_block, emit_block, emit_loop, emit_opcodes_from_ses,
}
use roll.Diff.Emit.Inline.{emit_block-Segment}
use roll.Diff.Segment.{Segment, Segment-refl, Segment-trans, place, skip-Segment}

-- An edit script from one byte list to another: the reading of its entries in the source.
pub data Script : List Edit → Bytes → Bytes → Type 0 where
  stop : Script [] [] []
  same :
      {s : List Edit} {olds news : Bytes} (x : ℕ)
      → Script s olds news
      → Script (equal ∷ s) (x ∷ olds) (x ∷ news)
  gone :
      {s : List Edit} {olds news : Bytes} (x : ℕ)
      → Script s olds news
      → Script (delete ∷ s) (x ∷ olds) news
  fresh :
      {s : List Edit} {olds news : Bytes} (x : ℕ)
      → Script s olds news
      → Script (insert ∷ s) olds (x ∷ news)

-- A block `b` that was collected from a script, after `deletes` and `inserts`.
record Collected (script : List Edit) (olds news : Bytes) (deletes : ℕ) (inserts : Bytes)
    (b : Block) : Type 0 where
  deleted : Bytes
  inserted : Bytes
  old_rest : Bytes
  olds_split : olds ≡ deleted ++ old_rest
  news_split : news ≡ inserted ++ b.news
  deletes_counted : b.deletes ≡ deletes + length deleted
  inserts_kept : b.inserts ≡ inserts ++ inserted
  script_rest : Script b.script old_rest b.news
  script_le : length b.script ≤ length script

collect_block-Collected :
    {script : List Edit} {olds news : Bytes} (deletes : ℕ) (inserts : Bytes)
    → Script script olds news
    → Collected script olds news deletes inserts (collect_block script news deletes inserts)
unfolding collect_block
collect_block-Collected deletes inserts stop = record {
  deleted = [];
  inserted = [];
  old_rest = [];
  olds_split = refl;
  news_split = refl;
  deletes_counted = omega arith;
  inserts_kept = sym (append-nil inserts);
  script_rest = stop;
  script_le = omega arith;
}
collect_block-Collected {olds} deletes inserts (same x s) = record {
  deleted = [];
  inserted = [];
  old_rest = olds;
  olds_split = refl;
  news_split = refl;
  deletes_counted = omega arith;
  inserts_kept = sym (append-nil inserts);
  script_rest = same x s;
  script_le = omega arith;
}
collect_block-Collected deletes inserts (gone x s) =
    let c = collect_block-Collected (deletes + 1) inserts s in
    record {
      deleted = x ∷ c.deleted;
      inserted = c.inserted;
      old_rest = c.old_rest;
      olds_split = ap (λ l. x ∷ l) c.olds_split;
      news_split = c.news_split;
      deletes_counted = omega (arith, c.deletes_counted);
      inserts_kept = c.inserts_kept;
      script_rest = c.script_rest;
      script_le = omega (arith, c.script_le);
    }
collect_block-Collected deletes inserts (fresh x s) =
    let c = collect_block-Collected deletes (inserts ++ x ∷ []) s in
    record {
      deleted = c.deleted;
      inserted = x ∷ c.inserted;
      old_rest = c.old_rest;
      olds_split = c.olds_split;
      news_split = ap (λ l. x ∷ l) c.news_split;
      deletes_counted = c.deletes_counted;
      inserts_kept = c.inserts_kept ∙ append_assoc inserts (x ∷ []) c.inserted;
      script_rest = c.script_rest;
      script_le = omega (arith, c.script_le);
    }

block_Segment :
    {script : List Edit} {olds news : Bytes} {b : Block} (diff : Bytes) (y : ℕ)
    → (c : Collected script olds news 0 [] b) → length olds < u32_mod
    → y + length news < u32_mod
    → Segment
        (emit_block diff y b.deletes b.inserts)
        diff
        (place olds y news)
        (place c.old_rest (y + length b.inserts) b.news)
block_Segment {b = b} diff y c small near =
    rw (c.olds_split, c.news_split, c.deletes_counted ∙ zero-add (length c.deleted), c.inserts_kept)
      (emit_block-Segment diff c.old_rest b.news y c.deleted c.inserted
        (omega (arith, ap length c.olds_split, length-append c.deleted c.old_rest))
        (omega (arith, ap length c.news_split, length-append c.inserted b.news)))

-- What is left behind a block stays within the bounds.
block_bounds :
    {script : List Edit} {olds news : Bytes} {b : Block} (y : ℕ)
    → (c : Collected script olds news 0 [] b) → length olds < u32_mod
    → y + length news < u32_mod
    → (length c.old_rest < u32_mod) × (y + length b.inserts + length b.news < u32_mod)
block_bounds {b = b} y c small near = (
  omega (arith, ap length c.olds_split, length-append c.deleted c.old_rest),
  omega (arith, ap length c.news_split, ap length c.inserts_kept, length-append c.inserted b.news),
)

emit_loop-Segment :
    (fuel : ℕ) {script : List Edit} {olds news : Bytes} (diff : Bytes) (y : ℕ)
    → Script script olds news
    → length script ≤ fuel
    → length olds < u32_mod
    → y + length news < u32_mod
    → (k : ℕ) × Segment (emit_loop fuel diff script news y) diff (place olds y news) (place [] k [])
unfolding emit_loop collect_block
emit_loop-Segment fuel diff y stop hf small near = (y, Segment-refl diff (place [] y []))
emit_loop-Segment zero diff y (same x s) hf small near = absurd (omega arith)
emit_loop-Segment zero diff y (gone x s) hf small near = absurd (omega arith)
emit_loop-Segment zero diff y (fresh x s) hf small near = absurd (omega arith)
emit_loop-Segment (suc fuel) diff y (same {olds} {news} x s) hf small near =
    let (k, rest) =
      emit_loop-Segment fuel diff (y + 1) s (omega arith) (omega arith) (omega arith) in
    (k, Segment-trans (skip-Segment diff (x ∷ []) olds news y) rest)
emit_loop-Segment (suc fuel) diff y (gone x s) hf small near =
    let c = collect_block-Collected 0 [] (gone x s) in
    let (near_olds, near_news) = block_bounds y c small near in
    let (k, rest) =
      emit_loop-Segment fuel _ _ c.script_rest
        (omega (arith, (collect_block-Collected (0 + 1) [] s).script_le)) near_olds near_news in
    (k, Segment-trans (block_Segment diff y c small near) rest)
emit_loop-Segment (suc fuel) diff y (fresh x s) hf small near =
    let c = collect_block-Collected 0 [] (fresh x s) in
    let (near_olds, near_news) = block_bounds y c small near in
    let (k, rest) =
      emit_loop-Segment fuel _ _ c.script_rest
        (omega (arith, (collect_block-Collected 0 ([] ++ x ∷ []) s).script_le)) near_olds
        near_news in
    (k, Segment-trans (block_Segment diff y c small near) rest)

-- The opcodes of a script lead from the start of both files to their ends.
pub emit_opcodes-Segment :
    {ses : List Edit} {old_data new_data : Bytes}
    → Script ses old_data new_data
    → length old_data < u32_mod
    → length new_data < u32_mod
    → (k : ℕ) × Segment
        (emit_opcodes_from_ses new_data ses)
        []
        (place old_data 0 new_data)
        (place [] k [])
unfolding emit_opcodes_from_ses
emit_opcodes-Segment {ses} s small near =
    emit_loop-Segment (length ses) [] 0 s (omega arith) small (omega arith)
