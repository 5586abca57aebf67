-- ===== src/Diff/Greedy/Segments.antt =====
-- The greedy diff of src/Delta.hpp rebuilds the new data.
use roll.Prelude.{
  ℕ, suc, ◌+◌, ◌≤◌, ◌<◌, ◌≡◌, refl, sym, ap, ◌∙◌, ◌⊎◌, inl, inr, false, not, ◌&&◌, Bool-cases,
  ==_iff, [], ◌∷◌, ◌++◌, ◌==◌, ltb, length, append_assoc, append-nil, length-append, arith,
}
use roll.Io.{Bytes}
use roll.Diff.Greedy.{Cursor, skip_equal, take_unequal}
use roll.Diff.Segment.{Segment, place, skip-Segment}

-- The cursor `c` is `n` bytes further on both sides.
pub record Advanced (i j : ℕ) (olds news gone fresh : Bytes) (c : Cursor) : Type 0 where
  pub olds_split : olds ≡ gone ++ c.olds
  pub news_split : news ≡ fresh ++ c.news
  pub same_length : length gone ≡ length fresh
  pub i_advanced : c.i ≡ i + length fresh
  pub j_advanced : c.j ≡ j + length fresh

-- Both sides have a byte, and these differ.
abbrev pub Differ : Bytes → Bytes → Type 0
Differ [] news = ⊥
Differ (a ∷ olds) [] = ⊥
Differ (a ∷ olds) (b ∷ news) = (a == b) ≡ false

abbrev pub Ended : Bytes → Bytes → Type 0
Ended olds news = (olds ≡ []) ⊎ (news ≡ [])

abbrev pub cursor : ℕ → ℕ → Bytes → Bytes → Cursor
cursor i j olds news = record { i = i; j = j; olds = olds; news = news }

pub Advanced-refl :
    (i j : ℕ) (olds news : Bytes) → Advanced i j olds news [] [] (cursor i j olds news)
Advanced-refl i j olds news = record {
  olds_split = refl;
  news_split = refl;
  same_length = refl;
  i_advanced = omega arith;
  j_advanced = omega arith;
}

Advanced-cons :
    {i j : ℕ} {olds news gone fresh : Bytes} {c : Cursor} (a b : ℕ)
    → Advanced (i + 1) (j + 1) olds news gone fresh c
    → Advanced i j (a ∷ olds) (b ∷ news) (a ∷ gone) (b ∷ fresh) c
Advanced-cons a b adv = record {
  olds_split = ap (λ l. a ∷ l) adv.olds_split;
  news_split = ap (λ l. b ∷ l) adv.news_split;
  same_length = ap suc adv.same_length;
  i_advanced = omega (arith, adv.i_advanced);
  j_advanced = omega (arith, adv.j_advanced);
}

pub skip_equal_lem :
    (i j : ℕ) (olds news : Bytes)
    → (same : Bytes) × Advanced i j olds news same same (skip_equal i j olds news)
      × (Differ (skip_equal i j olds news).olds (skip_equal i j olds news).news
          ⊎ Ended (skip_equal i j olds news).olds (skip_equal i j olds news).news)
unfolding skip_equal
skip_equal_lem i j [] news = ([], Advanced-refl i j [] news, inr (inl refl))
skip_equal_lem i j (a ∷ olds) [] = ([], Advanced-refl i j (a ∷ olds) [], inr (inr refl))
skip_equal_lem i j (a ∷ olds) (b ∷ news) = elim (Bool-cases (a == b)) [
  | inl e ↦
      let (same, adv, stop) = skip_equal_lem (i + 1) (j + 1) olds news in
      rw (e, ← (==_iff a b).0 e) (a ∷ same, Advanced-cons a a adv, stop)
  | inr d ↦ rw d ([], Advanced-refl i j (a ∷ olds) (b ∷ news), inl d)
]

pub take_unequal_lem :
    (i j : ℕ) (got olds news : Bytes)
    → length got ≤ 255
    → (gone fresh : Bytes) × Advanced i j olds news gone fresh (take_unequal i j got olds news).1
      × ((take_unequal i j got olds news).0 ≡ got ++ fresh)
      × (length (take_unequal i j got olds news).0 ≤ 255)
      × (Differ olds news → length got < 255 → 1 ≤ length fresh)
unfolding take_unequal
take_unequal_lem i j got [] news h =
    ([], [], Advanced-refl i j [] news, sym (append-nil got), h, λ d. absurd d)
take_unequal_lem i j got (a ∷ olds) [] h =
    ([], [], Advanced-refl i j (a ∷ olds) [], sym (append-nil got), h, λ d. absurd d)
take_unequal_lem i j got (a ∷ olds) (b ∷ news) h =
    elim (Bool-cases (not (a == b) && ltb (length got) 255)) [
      | inl goes ↦
          let (gone, fresh, adv, grown, small, _) =
            take_unequal_lem (i + 1) (j + 1) (got ++ b ∷ []) olds news
              (ground (arith, length-append got (b ∷ []))) in
          rw goes (
            a ∷ gone,
            b ∷ fresh,
            Advanced-cons a b adv,
            grown ∙ append_assoc got (b ∷ []) fresh,
            small,
            λ _ _. omega arith,
          )
      | inr stops ↦ rw stops (
        [],
        [],
        Advanced-refl i j (a ∷ olds) (b ∷ news),
        sym (append-nil got),
        h,
        λ d l. ground arith,
      )
    ]

-- From equal positions, a cursor further on both sides after opcodes or none.
pub Advanced-skip :
    {i j : ℕ} {olds news same : Bytes} {c : Cursor} (diff : Bytes)
    → Advanced i j olds news same same c
    → Segment diff diff (place olds j news) (place c.olds c.j c.news)
Advanced-skip {j = j} {same = same} {c = c} diff adv =
    rw (adv.olds_split, adv.news_split, adv.j_advanced) (skip-Segment diff same c.olds c.news j)
