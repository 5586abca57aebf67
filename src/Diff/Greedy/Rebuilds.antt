-- ===== src/Diff/Greedy/Rebuilds.antt =====
-- The greedy diff of src/Delta.hpp rebuilds the new data: the main loop, and what it leaves.
use roll.Prelude.{
  ℕ, zero, suc, ◌+◌, ◌%◌, ◌≤◌, ◌<◌, ◌≡◌, refl, ap, subst, ◌⊎◌, inl, inr, [], ◌∷◌, ◌++◌, length,
  take, drop, min, append-nil, length-append, length-take, take-append-drop, length-drop, arith,
}
use roll.Format.{u32_mod}
use roll.Io.{Bytes}
use roll.Diff.Wire.{delete_bytes}
use roll.Codec.Ints.{push_u32_be}
use roll.Diff.Greedy.{
  Cursor, skip_equal, take_unequal, emit_replace, greedy_loop, emit_rest_delete, emit_rest_insert,
  create_greedy_diff,
}
use roll.Diff.Greedy.Segments.{
  Advanced, Advanced-skip, cursor, Differ, Ended, skip_equal_lem, take_unequal_lem,
}
use roll.Diff.Segment.{
  Segment, Segment-refl, Segment-trans, place, replace-Segment, insert-Segment, delete-Segment,
  push_inline, push_delete,
}

emit_replace-Segment :
    (diff : Bytes) (i j : ℕ) (olds news gone fresh : Bytes) (c : Cursor)
    → Advanced i j olds news gone fresh c
    → i ≡ j
    → length fresh ≤ 255
    → j < u32_mod
    → Segment (emit_replace diff i fresh) diff (place olds j news) (place c.olds c.j c.news)
unfolding emit_replace
emit_replace-Segment diff i j olds news [] [] c adv e small near = Advanced-skip diff adv
emit_replace-Segment diff i j olds news (x ∷ gone) [] c adv e small near =
    absurd (omega (arith, adv.same_length))
emit_replace-Segment diff i j olds news gone (b ∷ fresh) c adv e small near =
    rw
      (
        e,
        push_inline diff (b ∷ fresh) b'D' j small near,
        adv.olds_split,
        adv.news_split,
        adv.j_advanced,
      )
      (replace-Segment diff (b ∷ fresh) c.olds c.news j small near gone adv.same_length)

-- What holds when the main loop stops.
record Stopped (diff : Bytes) (j : ℕ) (olds news result : Bytes) (c : Cursor) : Type 0 where
  segment : Segment result diff (place olds j news) (place c.olds c.j c.news)
  aligned : c.i ≡ c.j
  ended : Ended c.olds c.news
  covered : c.j + length c.news ≡ j + length news
  olds_le : length c.olds ≤ length olds

Stopped-here :
    (diff : Bytes) (i j : ℕ) (olds news : Bytes)
    → i ≡ j
    → Ended olds news
    → Stopped diff j olds news diff (cursor i j olds news)
Stopped-here diff i j olds news e h = record {
  segment = Segment-refl diff (place olds j news);
  aligned = e;
  ended = h;
  covered = refl;
  olds_le = omega arith;
}

-- One round, and the rounds after it.
Stopped-after :
    (diff diff' : Bytes) (j : ℕ) (olds news result : Bytes) (c d : Cursor)
    → Segment diff' diff (place olds j news) (place c.olds c.j c.news)
    → c.j + length c.news ≡ j + length news
    → length c.olds ≤ length olds
    → Stopped diff' c.j c.olds c.news result d
    → Stopped diff j olds news result d
Stopped-after diff diff' j olds news result c d s hn ho st = record {
  segment = Segment-trans s st.segment;
  aligned = st.aligned;
  ended = st.ended;
  covered = omega (arith, st.covered);
  olds_le = omega (arith, st.olds_le);
}

covered_after :
    {i j : ℕ} {olds news gone fresh : Bytes} {c : Cursor}
    → Advanced i j olds news gone fresh c
    → (c.j + length c.news ≡ j + length news) × (length olds ≡ length fresh + length c.olds)
covered_after {gone = gone} {fresh} {c} adv = (
  omega (arith, adv.j_advanced, ap length adv.news_split, length-append fresh c.news),
  omega (arith, adv.same_length, ap length adv.olds_split, length-append gone c.olds),
)

-- A round of the loop takes a byte of the old data, or ends it.
round_shrinks :
    (fuel : ℕ) (olds news same fresh olds' news' rest : Bytes)
    → 1 ≤ length news
    → length olds ≤ suc fuel
    → length olds ≡ length same + length olds'
    → length news ≡ length same + length news'
    → length olds' ≡ length fresh + length rest
    → Differ olds' news' ⊎ Ended olds' news'
    → (Differ olds' news' → 1 ≤ length fresh)
    → length rest ≤ fuel
round_shrinks fuel olds news same fresh olds' news' rest hn hf ho hw hr (inl d) goes =
    omega (arith, goes d)
round_shrinks fuel olds news same fresh olds' news' rest hn hf ho hw hr (inr (inl e)) goes =
    omega (arith, ap length e)
round_shrinks fuel olds news same fresh olds' news' rest hn hf ho hw hr (inr (inr e)) goes =
    omega (arith, ap length e)

greedy_loop-Stopped :
    (fuel : ℕ) (diff : Bytes) (i j : ℕ) (olds news : Bytes)
    → length olds ≤ fuel
    → i ≡ j
    → j + length news < u32_mod
    → Stopped diff j olds news
        (greedy_loop fuel diff i j olds news).0
        (greedy_loop fuel diff i j olds news).1
unfolding greedy_loop
greedy_loop-Stopped zero diff i j [] news hf e near = Stopped-here diff i j [] news e (inl refl)
greedy_loop-Stopped zero diff i j (a ∷ olds) news hf e near = absurd (omega arith)
greedy_loop-Stopped (suc fuel) diff i j [] news hf e near =
    Stopped-here diff i j [] news e (inl refl)
greedy_loop-Stopped (suc fuel) diff i j (a ∷ olds) [] hf e near =
    Stopped-here diff i j (a ∷ olds) [] e (inr refl)
greedy_loop-Stopped (suc fuel) diff i j (a ∷ olds) (b ∷ news) hf e near =
    let (same, adv, stop) = skip_equal_lem i j (a ∷ olds) (b ∷ news) in
    let c : Cursor = skip_equal i j (a ∷ olds) (b ∷ news) in
    let (gone, fresh, adv', grown, small, goes) =
      take_unequal_lem c.i c.j [] c.olds c.news (omega arith) in
    let taken : Bytes × Cursor = take_unequal c.i c.j [] c.olds c.news in
    let d : Cursor = taken.1 in
    let (covered, olds_le) = covered_after adv in
    let (covered', olds_le') = covered_after adv' in
    let aligned : c.i ≡ c.j = omega (arith, adv.i_advanced, adv.j_advanced) in
    let replaced : Segment (emit_replace diff c.i taken.0) diff (place c.olds c.j c.news)
        (place d.olds d.j d.news) =
      rw grown (
        emit_replace-Segment diff c.i c.j c.olds c.news gone fresh d adv' aligned
          (omega (arith, ap length grown)) (omega arith)) in
    Stopped-after diff (emit_replace diff c.i taken.0) j (a ∷ olds) (b ∷ news) _ d _
      (Segment-trans (Advanced-skip diff adv) replaced) (omega arith) (omega arith)
      (greedy_loop-Stopped fuel (emit_replace diff c.i taken.0) d.i d.j d.olds d.news
        (round_shrinks fuel (a ∷ olds) (b ∷ news) same fresh c.olds c.news d.olds (omega arith) hf
          olds_le (omega (arith, adv.j_advanced)) olds_le' stop (λ x. goes x (omega arith)))
        (omega (arith, adv'.i_advanced, adv'.j_advanced)) (omega arith))

emit_rest_delete-Segment :
    (diff : Bytes) (i j : ℕ) (olds news : Bytes)
    → i ≡ j
    → length olds < u32_mod
    → j < u32_mod
    → Segment (emit_rest_delete diff i olds) diff (place olds j news) (place [] j news)
unfolding emit_rest_delete
emit_rest_delete-Segment diff i j [] news e small near = Segment-refl diff (place [] j news)
emit_rest_delete-Segment diff i j (a ∷ olds) news e small near =
    rw (e, push_delete diff j (length (a ∷ olds)) near small)
      (subst
        (λ l.
          Segment (diff ++ delete_bytes j (length (a ∷ olds))) diff (place l j news)
            (place [] j news))
        (append-nil (a ∷ olds)) (delete-Segment diff (a ∷ olds) [] news j small near))

pub insert_payload :
    (diff olds payload rest : Bytes) (j n : ℕ)
    → length payload ≡ n
    → n ≤ 255
    → j < u32_mod
    → Segment
        ((push_u32_be (diff ++ b'I' ∷ []) (j % u32_mod) ++ n % 256 ∷ []) ++ payload)
        diff
        (place olds j (payload ++ rest))
        (place olds (j + n) rest)
insert_payload diff olds payload rest j n e small near =
    rw (← e, push_inline diff payload b'I' j (omega arith) near)
      (insert-Segment diff payload olds rest j (omega arith) near)

-- The next `n` bytes, 255 at most.
insert_step :
    (diff olds news : Bytes) (j n : ℕ)
    → n ≡ min 255 (length news)
    → j < u32_mod
    → Segment
        ((push_u32_be (diff ++ b'I' ∷ []) (j % u32_mod) ++ n % 256 ∷ []) ++ take n news)
        diff
        (place olds j news)
        (place olds (j + n) (drop n news))
insert_step diff olds news j n e near =
    subst
      (λ l. Segment (head ++ take n news) diff (place olds j l) (place olds (j + n) (drop n news)))
      (take-append-drop n news)
      (insert_payload diff olds (take n news) (drop n news) j n (omega (arith, length-take n news))
        (omega arith) near)
  where
    head : Bytes
    head = push_u32_be (diff ++ b'I' ∷ []) (j % u32_mod) ++ n % 256 ∷ []

emit_rest_insert-Segment :
    (fuel : ℕ) (diff olds : Bytes) (j : ℕ) (news : Bytes)
    → length news ≤ fuel
    → j + length news < u32_mod
    → Segment
        (emit_rest_insert fuel diff j news)
        diff
        (place olds j news)
        (place olds (j + length news) [])
unfolding emit_rest_insert
emit_rest_insert-Segment fuel diff olds j [] hf near =
    subst (λ k. Segment diff diff (place olds j []) (place olds k [])) (omega arith)
      (Segment-refl diff (place olds j []))
emit_rest_insert-Segment zero diff olds j (b ∷ news) hf near = absurd (omega arith)
emit_rest_insert-Segment (suc fuel) diff olds j (b ∷ news) hf near =
    let all : Bytes = b ∷ news in
    let n : ℕ = min 255 (length all) in
    let out : Bytes =
      (push_u32_be (diff ++ b'I' ∷ []) (j % u32_mod) ++ n % 256 ∷ []) ++ take n all in
    Segment-trans (insert_step diff olds all j n refl (omega arith)) (
      subst
        (λ k.
          Segment (emit_rest_insert fuel out (j + n) (drop n all)) out
            (place olds (j + n) (drop n all)) (place olds k []))
        (omega (arith, length-drop n all))
        (emit_rest_insert-Segment fuel out olds (j + n) (drop n all)
          (omega (arith, length-drop n all)) (omega (arith, length-drop n all))))

-- The greedy diff leads from the start of both files to their ends.
pub create_greedy_diff-Segment :
    (old_data new_data : Bytes)
    → length old_data < u32_mod
    → length new_data < u32_mod
    → (k : ℕ) × Segment
        (create_greedy_diff old_data new_data)
        []
        (place old_data 0 new_data)
        (place [] k [])
unfolding create_greedy_diff
create_greedy_diff-Segment old_data new_data ho hn =
    let st =
      greedy_loop-Stopped (length old_data) [] 0 0 old_data new_data (omega arith) refl
        (omega arith) in
    let looped : Bytes × Cursor = greedy_loop (length old_data) [] 0 0 old_data new_data in
    let c : Cursor = looped.1 in
    (
      c.j + length c.news,
      Segment-trans
          (Segment-trans st.segment (
            emit_rest_delete-Segment looped.0 c.i c.j c.olds c.news st.aligned
              (omega (arith, st.olds_le)) (omega (arith, st.covered))))
          (emit_rest_insert-Segment (length c.news) (emit_rest_delete looped.0 c.i c.olds) [] c.j
            c.news (omega arith) (omega (arith, st.covered))),
    )
