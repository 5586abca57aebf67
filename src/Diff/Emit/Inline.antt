-- ===== src/Diff/Emit/Inline.antt =====
-- `emitInlineBytes` and `emitBlock` of src/Delta.hpp as stretches of a diff.
use roll.Prelude.{
  ℕ, zero, suc, ◌+◌, ◌%◌, ◌≤◌, ◌<◌, ◌≡◌, refl, sym, ap, ◌∙◌, subst, inl, inr, ◌&&◌, Bool-cases, [],
  ◌∷◌, ◌++◌, ◌==◌, ltb, lt→ltb, length, take, drop, min, append_assoc, length-take,
  take-append-drop, length-drop, arith,
}
use roll.Format.{u32_mod}
use roll.Io.{Bytes}
use roll.Codec.Ints.{push_u32_be}
use roll.Diff.Emit.{emit_inline_loop, emit_inline_bytes, emit_delete, emit_insert, emit_block}
use roll.Diff.Greedy.Rebuilds as Greedy
use native.Mathlib.Nat.{add-zero}
use roll.Diff.Segment.{
  Segment, Segment-refl, Segment-trans, place, replace-Segment, delete-Segment, push_inline,
  push_delete,
}

abbrev written : ℕ → Bytes → ℕ → ℕ → Bytes → Bytes
written op diff j n bytes =
    (push_u32_be (diff ++ op ∷ []) (j % u32_mod) ++ n % 256 ∷ []) ++ take n bytes

-- An opcode that writes `bytes` while the applier passes `gone`: as many for a 'D', none for an 'I'.
-- `Passes` is kept from round to round, and a round leads behind its bytes.
record Inline (op : ℕ) (Passes : Bytes → Bytes → Type 0) : Type 0 where
  none_left : (gone : Bytes) → Passes gone [] → gone ≡ []
  kept : (gone bytes : Bytes) (n : ℕ) → Passes gone bytes → Passes (drop n gone) (drop n bytes)
  round :
      (diff gone bytes olds news : Bytes) (j n : ℕ)
      → Passes gone bytes
      → n ≡ min 255 (length bytes)
      → j < u32_mod
      → Segment
          (written op diff j n bytes)
          diff
          (place (gone ++ olds) j (bytes ++ news))
          (place (drop n gone ++ olds) (j + n) (drop n bytes ++ news))

module _ (op : ℕ) {Passes : Bytes → Bytes → Type 0} (inline : Inline op Passes) (olds news : Bytes)
    (pos : ℕ) where
  emit_inline_loop-Segment :
      (fuel : ℕ) (diff : Bytes) (off : ℕ) (gone bytes : Bytes)
      → Passes gone bytes
      → length bytes ≤ fuel
      → pos + off + length bytes < u32_mod
      → Segment
          (emit_inline_loop fuel diff op pos off bytes)
          diff
          (place (gone ++ olds) (pos + off) (bytes ++ news))
          (place olds (pos + off + length bytes) news)
  unfolding emit_inline_loop
  emit_inline_loop-Segment fuel diff off gone [] h hf near = rw (inline.none_left gone h) (
      subst (λ k. Segment diff diff (place olds (pos + off) news) (place olds k news)) (omega arith)
        (Segment-refl diff (place olds (pos + off) news)))
  emit_inline_loop-Segment zero diff off gone (b ∷ bytes) h hf near = absurd (omega arith)
  emit_inline_loop-Segment (suc fuel) diff off gone (b ∷ bytes) h hf near =
      let all : Bytes = b ∷ bytes in
      let n : ℕ = min 255 (length all) in
      let out : Bytes = written op diff (pos + off) n all in
      let loop : Bytes = emit_inline_loop fuel out op pos (off + n) (drop n all) in
      Segment-trans (inline.round diff gone all olds news (pos + off) n h refl (omega arith)) (
        subst
          (λ k.
            Segment loop out (place (drop n gone ++ olds) k (drop n all ++ news))
              (place olds (pos + off + length all) news))
          (omega arith)
          (subst
            (λ k.
              Segment loop out (place (drop n gone ++ olds) (pos + (off + n)) (drop n all ++ news))
                (place olds k news))
            (omega (arith, length-drop n all))
            (emit_inline_loop-Segment fuel out (off + n) (drop n gone) (drop n all)
              (inline.kept gone all n h) (omega (arith, length-drop n all))
              (omega (arith, length-drop n all)))))

abbrev SameLength : Bytes → Bytes → Type 0
SameLength gone bytes = length gone ≡ length bytes

replace_payload :
    (diff gone payload olds news : Bytes) (j n : ℕ)
    → length payload ≡ n
    → length gone ≡ n
    → n ≤ 255
    → j < u32_mod
    → Segment
        ((push_u32_be (diff ++ b'D' ∷ []) (j % u32_mod) ++ n % 256 ∷ []) ++ payload)
        diff
        (place (gone ++ olds) j (payload ++ news))
        (place olds (j + n) news)
replace_payload diff gone payload olds news j n e g small near =
    rw (← e, push_inline diff payload b'D' j (omega arith) near)
      (replace-Segment diff payload olds news j (omega arith) near gone (omega arith))

-- A list is its first `n` and the rest, in front of more.
split_front : (n : ℕ) (a b : Bytes) → take n a ++ (drop n a ++ b) ≡ a ++ b
split_front n a b =
    sym (append_assoc (take n a) (drop n a) b) ∙ ap (λ l. l ++ b) (take-append-drop n a)

replace_inline : Inline b'D' SameLength
replace_inline = record {
  none_left = λ gone h.
      elim gone as (λ g. length g ≡ 0 → g ≡ []) [
        | [] ↦ λ _. refl
        | x ∷ g ↦ λ e. absurd (omega arith)
      ]
        h;
  kept = λ gone bytes n h. omega (arith, length-drop n gone, length-drop n bytes);
  round = λ diff gone bytes olds news j n h e near.
      rw (← split_front n gone olds, ← split_front n bytes news)
        (replace_payload diff (take n gone) (take n bytes) (drop n gone ++ olds)
          (drop n bytes ++ news) j n (omega (arith, length-take n bytes))
          (omega (arith, length-take n gone)) (omega arith) near);
}

abbrev NoneGone : Bytes → Bytes → Type 0
NoneGone gone bytes = gone ≡ []

drop-nil : (n : ℕ) → drop {A = ℕ} n [] ≡ []
drop-nil zero = refl
drop-nil (suc n) = refl

insert_payload :
    (diff gone bytes olds news : Bytes) (j n : ℕ)
    → NoneGone gone bytes
    → n ≡ min 255 (length bytes)
    → j < u32_mod
    → Segment
        (written b'I' diff j n bytes)
        diff
        (place (gone ++ olds) j (bytes ++ news))
        (place (drop n gone ++ olds) (j + n) (drop n bytes ++ news))
insert_payload diff gone bytes olds news j n h e near =
    rw (h, drop-nil n, ← split_front n bytes news)
      (Greedy.insert_payload diff olds (take n bytes) (drop n bytes ++ news) j n
        (omega (arith, length-take n bytes)) (omega arith) near)

insert_inline : Inline b'I' NoneGone
insert_inline = record {
  none_left = λ gone h. h;
  kept = λ gone bytes n h. rw (h, drop-nil n);
  round = insert_payload;
}

module _ (diff olds news : Bytes) (pos : ℕ) where
  emit_replace_bytes :
      (gone bytes : Bytes)
      → length gone ≡ length bytes
      → pos + length bytes < u32_mod
      → Segment
          (emit_inline_bytes diff b'D' pos bytes)
          diff
          (place (gone ++ olds) pos (bytes ++ news))
          (place olds (pos + length bytes) news)
  unfolding emit_inline_bytes
  emit_replace_bytes gone bytes h near =
      subst
        (λ k.
          Segment (emit_inline_loop (length bytes) diff b'D' pos 0 bytes) diff
            (place (gone ++ olds) k (bytes ++ news)) (place olds (k + length bytes) news))
        (add-zero pos)
        (emit_inline_loop-Segment b'D' replace_inline olds news pos (length bytes) diff 0 gone bytes
          h (omega arith) (omega arith))

  emit_insert_bytes :
      (bytes : Bytes)
      → pos + length bytes < u32_mod
      → Segment
          (emit_inline_bytes diff b'I' pos bytes)
          diff
          (place olds pos (bytes ++ news))
          (place olds (pos + length bytes) news)
  unfolding emit_inline_bytes
  emit_insert_bytes bytes near =
      subst
        (λ k.
          Segment (emit_inline_loop (length bytes) diff b'I' pos 0 bytes) diff
            (place olds k (bytes ++ news)) (place olds (k + length bytes) news))
        (add-zero pos)
        (emit_inline_loop-Segment b'I' insert_inline olds news pos (length bytes) diff 0 [] bytes
          refl (omega arith) (omega arith))

emit_insert-Segment :
    (diff olds news : Bytes) (pos : ℕ) (bytes : Bytes)
    → pos + length bytes < u32_mod
    → Segment
        (emit_insert diff pos bytes)
        diff
        (place olds pos (bytes ++ news))
        (place olds (pos + length bytes) news)
unfolding emit_insert
emit_insert-Segment diff olds news pos [] near =
    subst (λ k. Segment diff diff (place olds pos news) (place olds k news)) (omega arith)
      (Segment-refl diff (place olds pos news))
emit_insert-Segment diff olds news pos (b ∷ bytes) near =
    emit_insert_bytes diff olds news pos (b ∷ bytes) near

emit_delete-Segment :
    (diff olds news : Bytes) (pos : ℕ) (gone : Bytes)
    → length gone < u32_mod
    → pos < u32_mod
    → Segment
        (emit_delete diff pos (length gone))
        diff
        (place (gone ++ olds) pos news)
        (place olds pos news)
unfolding emit_delete
emit_delete-Segment diff olds news pos [] small near = Segment-refl diff (place olds pos news)
emit_delete-Segment diff olds news pos (a ∷ gone) small near =
    rw
      (
        lt→ltb 0 (length (a ∷ gone)) (omega arith),
        push_delete diff pos (length (a ∷ gone)) near small,
      )
      (delete-Segment diff (a ∷ gone) olds news pos small near)

-- One change block: it deletes `gone` and inserts `bytes`.
pub emit_block-Segment :
    (diff olds news : Bytes) (pos : ℕ) (gone bytes : Bytes)
    → length gone < u32_mod
    → pos + length bytes < u32_mod
    → Segment
        (emit_block diff pos (length gone) bytes)
        diff
        (place (gone ++ olds) pos (bytes ++ news))
        (place olds (pos + length bytes) news)
unfolding emit_block
emit_block-Segment diff olds news pos gone bytes small near =
    elim (Bool-cases (ltb 0 (length gone) && length gone == length bytes)) [
      | inl balanced ↦
          rw balanced (emit_replace_bytes diff olds news pos gone bytes (ground arith) near)
      | inr other ↦ rw other (
          Segment-trans (emit_delete-Segment diff olds (bytes ++ news) pos gone small (omega arith))
            (emit_insert-Segment (emit_delete diff pos (length gone)) olds news pos bytes near))
    ]
