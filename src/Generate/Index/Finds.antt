-- ===== src/Generate/Index/Finds.antt =====
-- What `find_unused` of src/ChunkIndex.hpp finds.
use roll.Prelude.{
  ℕ, ◌+◌, ◌≡◌, refl, sym, ap, subst, ◌∙◌, Bool, true, false, ◌&&◌, Option, none, some, List, [],
  ◌∷◌, ◌++◌, ◌==◌, ==_self, if◌then◌else◌, length, drop, drop-drop, get_elem?, get_elem?-drop,
  get_elem?-append, All, All-append, All-get_elem?, same_bytes, same_bytes_self, same_bytes→eq,
  append_assoc, length-append, arith,
}
use roll.Hash.{SignedChunk, same_chunk}
use roll.Generate.Index.{
  Bucket, add_position, index_loop, chunk_index, flag_of, skip_used, find_unused,
}

same_chunk_self : (c : SignedChunk) → same_chunk c c ≡ true
unfolding same_chunk
same_chunk_self c = ground (arith, same_bytes_self c.hash, ==_self c.chunk_size)

both : (b c : Bool) → (b && c) ≡ true → (b ≡ true) × (c ≡ true)
both b c h = ground arith

-- Chunks that are the same as one are the same as each other.
same_chunk_trans :
    (k c d : SignedChunk) → same_chunk k c ≡ true → same_chunk k d ≡ true → same_chunk c d ≡ true
unfolding same_chunk
same_chunk_trans k c d h g =
    let (h₁, h₂) = both (same_bytes k.hash c.hash) (k.chunk_size == c.chunk_size) h in
    let (g₁, g₂) = both (same_bytes k.hash d.hash) (k.chunk_size == d.chunk_size) g in
    subst (λ z. (same_bytes z d.hash && c.chunk_size == d.chunk_size) ≡ true)
      (same_bytes→eq k.hash c.hash h₁) (ground (arith, g₁, h₂, g₂))

module _ (chunks : List SignedChunk) where
  -- The position holds a chunk that is the same as the key.
  pub record Holds (key : SignedChunk) (p : ℕ) : Type 0 where
    pub chunk : SignedChunk
    pub there : get_elem? chunks p ≡ some chunk
    pub alike : same_chunk key chunk ≡ true

  -- Each position stands in the bucket of its content.
  abbrev pub IsIndex : List Bucket → Type 0
  IsIndex buckets = All (λ b. All (Holds b.key) b.positions) buckets

  add_position-IsIndex :
      (c : SignedChunk) (i : ℕ) (buckets : List Bucket)
      → get_elem? chunks i ≡ some c
      → IsIndex buckets
      → IsIndex (add_position c i buckets)
  unfolding add_position
  add_position-IsIndex c i [] e h =
      ((record { chunk = c; there = e; alike = same_chunk_self c }, tt), tt)
  add_position-IsIndex c i (b ∷ buckets) e h =
      go (add_position-IsIndex c i buckets e h.1) (same_chunk b.key c) refl
    where
      go :
          IsIndex (add_position c i buckets)
          → (s : Bool) → same_chunk b.key c ≡ s
          → IsIndex (
              if s
              then record b { positions = b.positions ++ (i ∷ []) } ∷ buckets
              else b ∷ add_position c i buckets)
      go rest true s = (
        All-append (Holds b.key) b.positions (i ∷ []) h.0
            (record { chunk = c; there = e; alike = s }, tt),
        h.1,
      )
      go rest false s = (h.0, rest)

  index_loop-IsIndex :
      (i : ℕ) (before rest : List SignedChunk) (buckets : List Bucket)
      → chunks ≡ before ++ rest
      → i ≡ length before
      → IsIndex buckets
      → IsIndex (index_loop i rest buckets)
  unfolding index_loop
  index_loop-IsIndex i before [] buckets e n h = h
  index_loop-IsIndex i before (c ∷ rest) buckets e n h =
      index_loop-IsIndex (i + 1) (before ++ (c ∷ [])) rest (add_position c i buckets)
        (e ∙ sym (append_assoc before (c ∷ []) rest))
        (omega (arith, n, length-append before (c ∷ [])))
        (add_position-IsIndex c i buckets
          (ap (λ z. get_elem? z i) e
            ∙ ap (λ (k : ℕ). get_elem? (before ++ (c ∷ rest)) k) n
            ∙ get_elem?-append before rest c)
          h)

  -- The constructor gives such an index.
  pub chunk_index-IsIndex : IsIndex (chunk_index chunks)
  unfolding chunk_index
  chunk_index-IsIndex = index_loop-IsIndex 0 [] chunks [] refl refl tt

  some-inj : {x y : ℕ} → some x ≡ some y → x ≡ y
  some-inj e = cc

  -- Behind the cursor stands a position that is not used.
  skip_used-unused :
      (used : List Bool) (positions rest : List ℕ) (cursor : ℕ) {p : ℕ}
      → drop cursor positions ≡ rest
      → get_elem? positions (skip_used used rest cursor) ≡ some p
      → flag_of used p ≡ false
  unfolding skip_used
  skip_used-unused used positions [] cursor e h =
      absurd (nothing (ap (λ z. get_elem? z 0) (sym e) ∙ get_elem?-drop cursor positions ∙ h))
    where
      nothing : {p : ℕ} → ◌≡◌ {A = Option ℕ} none (some p) → ⊥
      nothing h = cc
  skip_used-unused used positions (q ∷ rest) cursor {p} e h =
      go
        (λ h'.
          skip_used-unused used positions rest (cursor + 1)
            (sym (drop-drop cursor 1 positions) ∙ ap (drop 1) e) h')
        (flag_of used q) refl h
    where
      go :
          (get_elem? positions (skip_used used rest (cursor + 1)) ≡ some p → flag_of used p ≡ false)
          → (b : Bool) → flag_of used q ≡ b
          → get_elem? positions (if b then skip_used used rest (cursor + 1) else cursor) ≡ some p
          → flag_of used p ≡ false
      go again true u h' = again h'
      go again false u h' =
          ap (flag_of used)
            (some-inj (sym h' ∙ sym (get_elem?-drop cursor positions) ∙ ap (λ z. get_elem? z 0) e))
          ∙ u

  -- What is found is not used, and holds a chunk that is the same as the probe.
  pub record Finds (used : List Bool) (probe : SignedChunk) (p : ℕ) : Type 0 where
    pub unused : flag_of used p ≡ false
    pub chunk : SignedChunk
    pub there : get_elem? chunks p ≡ some chunk
    pub alike : same_chunk chunk probe ≡ true

  abbrev pub Answers : List Bool → SignedChunk → Option ℕ → Type 0
  Answers used probe none = Unit {0}
  Answers used probe (some p) = Finds used probe p

  answer :
      (used : List Bool) (probe : SignedChunk) (o : Option ℕ)
      → ((p : ℕ) → o ≡ some p → Finds used probe p)
      → Answers used probe o
  answer used probe none k = tt
  answer used probe (some p) k = k p refl

  -- On an index in which each position stands in the bucket of its content, whatever the cursors
  -- are: what `find_unused` finds is a position that is not used and holds a chunk of the same
  -- digest and length as the probe, and the index stays such.
  pub find_unused-IsIndex :
      (used : List Bool) (probe : SignedChunk) (buckets : List Bucket)
      → IsIndex buckets
      → Answers used probe (find_unused used probe buckets).0
        × IsIndex (find_unused used probe buckets).1
  unfolding find_unused
  find_unused-IsIndex used probe [] h = (tt, tt)
  find_unused-IsIndex used probe (b ∷ buckets) h =
      go (find_unused-IsIndex used probe buckets h.1) (same_chunk b.key probe) refl
    where
      cursor : ℕ
      cursor = skip_used used (drop b.cursor b.positions) b.cursor

      rest : Option ℕ × List Bucket
      rest = find_unused used probe buckets

      result : Bool → Option ℕ × List Bucket
      result s =
          if s
          then (get_elem? b.positions cursor, record b { cursor = cursor } ∷ buckets)
          else (rest.0, b ∷ rest.1)

      go :
          Answers used probe rest.0 × IsIndex rest.1
          → (s : Bool) → same_chunk b.key probe ≡ s
          → Answers used probe (result s).0 × IsIndex (result s).1
      go again true s = (
        answer used probe (get_elem? b.positions cursor) (λ p e.
            let held = All-get_elem? (Holds b.key) cursor b.positions h.0 e in
            record {
              unused =
                  skip_used-unused used b.positions (drop b.cursor b.positions) b.cursor refl e;
              chunk = held.chunk;
              there = held.there;
              alike = same_chunk_trans b.key held.chunk probe held.alike s;
            }),
        (h.0, h.1),
      )
      go again false s = (again.0, (h.0, again.1))
