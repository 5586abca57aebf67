-- ===== src/Signature/Loop.antt =====
-- The loop of `generate_signatures` of src/Signature.hpp comes to the end of the file.
use roll.Prelude.{
  ℕ, zero, suc, ◌+◌, ◌-◌, ◌≤◌, ◌<◌, ◌≡◌, refl, sym, ap, subst, ◌∙◌, min, Bool, true, false, not,
  Option, none, some, [], ◌∷◌, ◌++◌, ◌==◌, if◌then◌else◌, length, take, drop, take-append-drop,
  length-take, length-drop, length-append, arith,
}
use roll.Format.{delta_max_chunk_size}
use roll.Io.{Bytes}
use roll.Io.Memory.{memory_seek, first_byte}
use roll.Hash.{StrongHash, IsStrongHash}
use roll.Rolling.{initialize}
use roll.Signature.{is_boundary, cut, start_chunk, push_byte, chunk_loop}
use roll.Signature.Rounds.{State, IsAt, cut-Cuts, push_byte-IsAt, is_boundary-max}

pub nil_of_length : (xs : Bytes) → length xs ≡ 0 → xs ≡ []
nil_of_length [] h = refl
nil_of_length (x ∷ xs) h = absurd (omega arith)

module _ (U : StrongHash) (laws : IsStrongHash U) (file : Bytes) (compute : Bool) where
  abbrev St : Type 0
  St = State U laws file compute

  abbrev At : Bytes → St → Type 0
  At = IsAt U laws file compute

  -- A chunk is begun; if it has no full window, nothing is left.
  record Starts (past : Bytes) (c : St) (r : Bool × St) : Type 0 where
    at : At past r.1
    partial : r.0 ≡ false → r.1.file.1 ≡ []
    below : r.0 ≡ true → length r.1.chunk < delta_max_chunk_size
    shorter : length r.1.file.1 ≤ length c.file.1

  start_chunk-Starts :
      (past : Bytes) (c : St)
      → At past c
      → c.chunk ≡ []
      → Starts past c (start_chunk U memory_seek c)
  unfolding start_chunk initialize
  start_chunk-Starts past c a fresh = go (length bytes == 0) refl
    where
      w : ℕ
      w = c.fingerprint.window_size

      bytes : Bytes
      bytes = take w c.file.1

      begun : Bool × St
      begun = (
        (initialize bytes c.fingerprint).0,
        record c {
          file = (c.file.0, drop w c.file.1);
          fingerprint = (initialize bytes c.fingerprint).1;
          bytes_read = c.bytes_read + length bytes;
          chunk = bytes;
        },
      )

      measured : length bytes ≡ min w (length c.file.1)
      measured = length-take w c.file.1

      left : length (drop w c.file.1) ≡ length c.file.1 - w
      left = length-drop w c.file.1

      whole : past ++ (bytes ++ drop w c.file.1) ≡ file
      whole =
          ap (λ z. past ++ z) (take-append-drop w c.file.1)
          ∙ ap (λ z. past ++ (z ++ c.file.1)) (sym fresh)
          ∙ a.together

      go :
          (b : Bool)
          → (length bytes == 0) ≡ b
          → Starts past c
              (if b then (false, record c { file = (c.file.0, drop w c.file.1) }) else begun)
      go true e =
          let none_left : length c.file.1 ≡ 0 = ground (arith, measured, a.window) in
          record {
            at = record {
              tiles = a.tiles;
              whole = a.whole;
              content = a.content;
              together =
                  ap (λ z. past ++ (c.chunk ++ z))
                    (nil_of_length (drop w c.file.1) (omega (arith, left, none_left))
                      ∙ sym (nil_of_length c.file.1 none_left))
                  ∙ a.together;
              counted = a.counted;
              window = a.window;
              small = a.small;
            };
            partial = λ h. nil_of_length (drop w c.file.1) (omega (arith, left, none_left));
            below = λ h. absurd cc;
            shorter = omega (arith, left);
          }
      go false e = record {
        at = record {
          tiles = a.tiles;
          whole = a.whole;
          content = a.content;
          together = whole;
          counted = omega (arith, a.counted, empty);
          window = a.window;
          small = omega (arith, measured, a.window);
        };
        partial = λ h. nil_of_length (drop w c.file.1) (ground (arith, h, left, measured));
        below = λ h. omega (arith, measured, a.window);
        shorter = omega (arith, left);
      }
        where
          empty : length c.chunk ≡ 0
          empty = ap length fresh

  -- The loop ends, at the end of the file.
  pub record Ends (r : Option St) : Type 0 where
    pub result : St
    pub past : Bytes
    pub runs : r ≡ some result
    pub at : At past result
    pub used : result.file.1 ≡ []

  abbrev Again : ℕ → Type 0
  Again rounds =
      (init : Bool) (past : Bytes) (c : St)
      → At past c
      → (init ≡ true → c.chunk ≡ [])
      → (init ≡ false → length c.chunk < delta_max_chunk_size)
      → length c.file.1 < rounds
      → Ends (chunk_loop U memory_seek rounds init c)

  module _ (rounds : ℕ) (again : Again rounds) (past : Bytes) (c : St) (a : At past c) where
    abbrev after_byte : St → Option St
    after_byte pushed =
        if is_boundary (length pushed.chunk) pushed.fingerprint.fingerprint
        then elim (cut U memory_seek pushed) [
          | none ↦ none
          | some c'' ↦ chunk_loop U memory_seek rounds true c''
        ]
        else chunk_loop U memory_seek rounds false pushed

    abbrev after_read : Bytes → Option St
    after_read rest = elim (first_byte rest) [
      | none ↦ some (record c { file = (c.file.0, drop 1 rest) })
      | some byte ↦ after_byte (push_byte U memory_seek byte (c.file.0, drop 1 rest) c)
    ]

    after_byte-Ends :
        (pushed : St)
        → At past pushed
        → 0 < length pushed.chunk
        → length pushed.file.1 < rounds
        → Ends (after_byte pushed)
    after_byte-Ends pushed at some_byte enough =
        go (is_boundary (length pushed.chunk) pushed.fingerprint.fingerprint) refl
      where
        go :
            (b : Bool)
            → is_boundary (length pushed.chunk) pushed.fingerprint.fingerprint ≡ b
            → Ends (
                if b
                then elim (cut U memory_seek pushed) [
                  | none ↦ none
                  | some c'' ↦ chunk_loop U memory_seek rounds true c''
                ]
                else chunk_loop U memory_seek rounds false pushed)
        go true e =
            let cuts = cut-Cuts U laws file compute past pushed at some_byte in
            subst
              (λ (z : Option St).
                Ends (elim z [ none ↦ none | some c'' ↦ chunk_loop U memory_seek rounds true c'' ]))
              (sym cuts.runs)
              (again true (past ++ pushed.chunk) cuts.result cuts.at (λ h. cuts.empty)
                (λ h. absurd cc) (subst (λ z. length z.1 < rounds) (sym cuts.same_file) enough))
        go false e =
            again false past pushed at (λ h. absurd cc)
              (λ h. is_boundary-max (length pushed.chunk) pushed.fingerprint.fingerprint e) enough

    after_read-Ends :
        (rest : Bytes)
        → c.file.1 ≡ rest
        → length c.chunk < delta_max_chunk_size
        → length rest < suc rounds
        → Ends (after_read rest)
    unfolding push_byte
    after_read-Ends [] e below enough = record {
      result = record c { file = (c.file.0, []) };
      past = past;
      runs = refl;
      used = refl;
      at = record {
        tiles = a.tiles;
        whole = a.whole;
        content = a.content;
        together = ap (λ z. past ++ (c.chunk ++ z)) (sym e) ∙ a.together;
        counted = a.counted;
        window = a.window;
        small = a.small;
      };
    }
    after_read-Ends (byte ∷ rest) e below enough =
        after_byte-Ends (push_byte U memory_seek byte (c.file.0, rest) c)
          (push_byte-IsAt U laws file compute past rest byte c a e below)
          (omega (arith, length-append c.chunk (byte ∷ []))) (omega (arith, enough))

    after_start-Ends :
        (ready : Bool)
        → (ready ≡ false → c.file.1 ≡ [])
        → (ready ≡ true → length c.chunk < delta_max_chunk_size)
        → length c.file.1 < suc rounds
        → Ends (if not ready then some c else after_read c.file.1)
    after_start-Ends true partial below enough = after_read-Ends c.file.1 refl (below refl) enough
    after_start-Ends false partial below enough = record {
      result = c;
      past = past;
      runs = refl;
      at = a;
      used = partial refl;
    }

  -- With more rounds than bytes that are left.
  pub chunk_loop-Ends : (rounds : ℕ) → Again rounds
  unfolding chunk_loop
  chunk_loop-Ends zero init past c a fresh below enough = absurd (omega arith)
  chunk_loop-Ends (suc rounds) true past c a fresh below enough =
      let s = start_chunk-Starts past c a (fresh refl) in
      after_start-Ends rounds (chunk_loop-Ends rounds) past (start_chunk U memory_seek c).1 s.at
        (start_chunk U memory_seek c).0 s.partial s.below (omega (arith, s.shorter, enough))
  chunk_loop-Ends (suc rounds) false past c a fresh below enough =
      after_start-Ends rounds (chunk_loop-Ends rounds) past c a true (λ h. absurd cc)
        (λ h. below refl) enough
