-- ===== src/Diff/Emit.antt =====
-- `emitInlineBytes`, `emitBlock` and `emitOpcodesFromSES` of src/Delta.hpp.
pub mod Inline
pub mod Script
use roll.Prelude.{
  ℕ, zero, suc, ◌+◌, ◌%◌, Bool, true, false, ◌&&◌, List, [], ◌∷◌, ◌++◌, ◌==◌, ltb, if◌then◌else◌,
  length, take, drop, min,
}
use roll.Io.{Bytes}
use roll.Format.{u32_mod}
use roll.Codec.Ints.{push_u32_be}

-- An entry of the script: 0, -1 or +1 in the source.
pub data Edit : Type 0 where
  equal delete insert : Edit

-- `bytes` is what `off` has not reached. Each round takes a byte at least.
unfoldable pub emit_inline_loop : ℕ → Bytes → ℕ → ℕ → ℕ → Bytes → Bytes
emit_inline_loop fuel diff op pos off [] = diff
emit_inline_loop zero diff op pos off (b ∷ bytes) = diff
emit_inline_loop (suc fuel) diff op pos off (b ∷ bytes) =
    let count = min 255 (length (b ∷ bytes)) in
    let head = push_u32_be (diff ++ op ∷ []) ((pos + off) % u32_mod) in
    let diff' = (head ++ count % 256 ∷ []) ++ take count (b ∷ bytes) in
    emit_inline_loop fuel diff' op pos (off + count) (drop count (b ∷ bytes))

unfoldable pub emit_inline_bytes : Bytes → ℕ → ℕ → Bytes → Bytes
emit_inline_bytes diff op pos bytes = emit_inline_loop (length bytes) diff op pos 0 bytes

unfoldable pub emit_delete : Bytes → ℕ → ℕ → Bytes
emit_delete diff pos deletes =
    if ltb 0 deletes
    then push_u32_be (push_u32_be (diff ++ b'X' ∷ []) (pos % u32_mod)) (deletes % u32_mod)
    else diff

unfoldable pub emit_insert : Bytes → ℕ → Bytes → Bytes
emit_insert diff pos [] = diff
emit_insert diff pos (b ∷ inserts) = emit_inline_bytes diff b'I' pos (b ∷ inserts)

unfoldable pub emit_block : Bytes → ℕ → ℕ → Bytes → Bytes
emit_block diff pos deletes inserts =
    if ltb 0 deletes && deletes == length inserts
    then emit_inline_bytes diff b'D' pos inserts
    else emit_insert (emit_delete diff pos deletes) pos inserts

-- The block of entries that are not `equal` at the front of a script: how many bytes it deletes,
-- the bytes that it inserts, and what is left of the script and of the new data. `news` is what
-- `y` has not reached; a script of the new data does not run past its end.
pub record Block : Type 0 where
  pub deletes : ℕ
  pub inserts : Bytes
  pub script : List Edit
  pub news : Bytes

unfoldable pub collect_block : List Edit → Bytes → ℕ → Bytes → Block
collect_block (delete ∷ script) news deletes inserts =
    collect_block script news (deletes + 1) inserts
collect_block (insert ∷ script) (b ∷ news) deletes inserts =
    collect_block script news deletes (inserts ++ b ∷ [])
collect_block script news deletes inserts = record {
  deletes = deletes;
  inserts = inserts;
  script = script;
  news = news;
}

-- The outer loop: each round takes an entry at least.
unfoldable pub emit_loop : ℕ → Bytes → List Edit → Bytes → ℕ → Bytes
emit_loop fuel diff [] news y = diff
emit_loop zero diff (e ∷ script) news y = diff
emit_loop (suc fuel) diff (equal ∷ script) news y = emit_loop fuel diff script (drop 1 news) (y + 1)
emit_loop (suc fuel) diff (e ∷ script) news y =
    let block = collect_block (e ∷ script) news 0 [] in
    emit_loop fuel (emit_block diff y block.deletes block.inserts) block.script block.news
      (y + length block.inserts)

unfoldable pub emit_opcodes_from_ses : Bytes → List Edit → Bytes
emit_opcodes_from_ses new_data ses = emit_loop (length ses) [] ses new_data 0
