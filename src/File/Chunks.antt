-- ===== src/File/Chunks.antt =====
-- `read_chunk` of src/FileIO.cpp takes as many of the bytes that are left as it is asked for.
use roll.Prelude.{
  ℕ, zero, suc, ◌+◌, ◌-◌, ◌≤◌, ◌<◌, ◌≡◌, refl, sym, ap, ap₂, subst, ◌∙◌, min, Bool, true, false,
  not, ◌||◌, [], ◌∷◌, ◌++◌, ◌==◌, ltb, if◌then◌else◌, length, take, drop, drop-drop, length-take,
  length-append, append_assoc, append-nil, take_of_length, arith,
}
use roll.Io.{Bytes}
use roll.File.Reads.{IsBacked, IsWell, pending, Reads, read_step-Reads, unreadable-IsWell}
use roll.File.{Stream, File, read_buffer_size, unreadable, read_step, chunk_loop, read_chunk}

take-drop : (m k n : ℕ) (xs : Bytes) → n ≡ m + k → take m xs ++ take k (drop m xs) ≡ take n xs
take-drop zero k n xs h = ap (λ (j : ℕ). take j xs) (omega arith)
take-drop (suc m) k zero xs h = absurd (omega arith)
take-drop (suc m) k (suc n) [] h = none k
  where
    none : (k : ℕ) → ◌≡◌ {A = Bytes} (take k []) []
    none zero = refl
    none (suc k) = refl
take-drop (suc m) k (suc n) (x ∷ xs) h = ap (λ l. x ∷ l) (take-drop m k n xs (omega arith))

drop_of_length : (n : ℕ) (xs : Bytes) → length xs ≤ n → drop n xs ≡ []
drop_of_length zero [] h = refl
drop_of_length zero (x ∷ xs) h = absurd (omega arith)
drop_of_length (suc n) [] h = refl
drop_of_length (suc n) (x ∷ xs) h = drop_of_length n xs (omega arith)

module _ (S : Stream) (laws : IsBacked S) where
  -- The loop, with `m` bytes to go.
  chunk_loop-Reads :
      (fuel chunk_size m : ℕ) (vec : Bytes) (f : File S.State)
      → IsWell S laws f
      → m ≡ chunk_size - length vec
      → m < fuel
      → Reads S laws f
          (vec ++ take m (pending S laws f))
          (drop m (pending S laws f))
          (chunk_loop S fuel chunk_size vec f)
  unfolding chunk_loop
  chunk_loop-Reads zero chunk_size m vec f w e h = absurd (omega arith)
  chunk_loop-Reads (suc fuel) chunk_size m vec f w e h =
      go (λ rest n g w' e' h'. chunk_loop-Reads fuel chunk_size n rest g w' e' h')
        (ltb (length vec) chunk_size) refl
    where
      step : ℕ
      step = min (chunk_size - length vec) read_buffer_size

      P : Bytes
      P = pending S laws f

      got : Bytes
      got = (read_step S step f).0

      g : File S.State
      g = (read_step S step f).1

      read : Reads S laws f (take step P) (drop step P) (read_step S step f)
      read = read_step-Reads S laws step f w

      Again : Type 0
      Again =
          (rest : Bytes) (n : ℕ) (g : File S.State)
          → IsWell S laws g
          → n ≡ chunk_size - length rest
          → n < fuel
          → Reads S laws g (rest ++ take n (pending S laws g)) (drop n (pending S laws g))
              (chunk_loop S fuel chunk_size rest g)

      taken : length got ≡ min step (length P)
      taken = ap length read.gives ∙ length-take step P

      short : ltb (length got) step ≡ true → length P ≤ step
      short e₁ = ground (arith, taken)

      full : ltb (length got) step ≡ false → step ≤ length P
      full e₁ = ground (arith, taken)

      last :
          ltb (length got) step ≡ true
          → m ≡ step + (m - step)
          → Reads S laws f (vec ++ take m P) (drop m P) (vec ++ got, g)
      last e₁ le = record {
        gives =
            ap (λ xs. vec ++ xs)
              (read.gives
                ∙ take_of_length step P (short e₁)
                ∙ sym (take_of_length m P (omega (arith, short e₁, le))));
        leaves =
            read.leaves
            ∙ drop_of_length step P (short e₁)
            ∙ sym (drop_of_length m P (omega (arith, short e₁, le)));
        well = read.well;
        content = read.content;
      }

      go_on :
          Again
          → 0 < step
          → m ≡ step + (m - step)
          → ltb (length got) step ≡ false
          → Reads S laws f
              (vec ++ take m P)
              (drop m P)
              (chunk_loop S fuel chunk_size (vec ++ got) g)
      go_on again some le e₁ =
          let sized : length got ≡ step = omega (arith, taken, full e₁) in
          let a =
            again (vec ++ got) (m - step) g read.well
              (omega (arith, e, le, length-append vec got, sized)) (omega (arith, some, le, h)) in
          record {
            gives =
                a.gives
                ∙ append_assoc vec got (take (m - step) (pending S laws g))
                ∙ ap (λ xs. vec ++ xs)
                    (ap₂ (λ xs ys. xs ++ take (m - step) ys) read.gives read.leaves
                      ∙ take-drop step (m - step) m P le);
            leaves =
                a.leaves
                ∙ ap (drop (m - step)) read.leaves
                ∙ drop-drop step (m - step) P
                ∙ ap (λ (j : ℕ). drop j P) (sym le);
            well = a.well;
            content = a.content ∙ read.content;
          }

      inner :
          Again
          → 0 < step
          → m ≡ step + (m - step)
          → (b : Bool) → ltb (length got) step ≡ b
          → Reads S laws f (vec ++ take m P) (drop m P) (
              if b || g.io_error
              then (vec ++ got, g)
              else chunk_loop S fuel chunk_size (vec ++ got) g)
      inner again some le true e₁ = last e₁ le
      inner again some le false e₁ =
          subst
            (λ b.
              Reads S laws f (vec ++ take m P) (drop m P)
                (if b then (vec ++ got, g) else chunk_loop S fuel chunk_size (vec ++ got) g))
            (sym read.well.no_error) (go_on again some le e₁)

      go :
          Again
          → (b : Bool) → ltb (length vec) chunk_size ≡ b
          → Reads S laws f (vec ++ take m P) (drop m P) (
              if not b
              then (vec, f)
              else if ltb (length got) step || g.io_error
              then (vec ++ got, g)
              else chunk_loop S fuel chunk_size (vec ++ got) g)
      go again true e₀ =
          let more : length vec < chunk_size = ground arith in
          inner again (omega (arith, more)) (omega (arith, e)) (ltb (length got) step) refl
      go again false e₀ =
          let none : m ≡ 0 = ground (arith, e) in
          record {
            gives = sym (append-nil vec) ∙ ap (λ (j : ℕ). vec ++ take j P) (sym none);
            leaves = ap (λ (j : ℕ). drop j P) (sym none);
            well = w;
            content = refl;
          }

  -- On a readable file without an error, with a buffer in its bounds, over a stream that keeps the
  -- laws: `read_chunk` gives the first of the bytes that are left, as many as it is asked for or
  -- all, and leaves the others; the file stays so, and so does its content.
  pub read_chunk-Reads :
      (chunk_size : ℕ) (f : File S.State)
      → IsWell S laws f
      → Reads S laws f
          (take chunk_size (pending S laws f))
          (drop chunk_size (pending S laws f))
          (read_chunk S chunk_size f)
  unfolding read_chunk
  read_chunk-Reads zero f w = record { gives = refl; leaves = refl; well = w; content = refl }
  read_chunk-Reads (suc n) f w =
      subst (λ b. Begun (if b then ([], f) else begun)) (sym some)
        (subst
          (λ b. Begun (
            if b
            then ([], record f { io_error = true })
            else chunk_loop S (suc (suc n)) (suc n) [] f))
          (sym (unreadable-IsWell S laws f w))
          (chunk_loop-Reads (suc (suc n)) (suc n) (suc n) [] f w (omega arith) (omega arith)))
    where
      Begun : Bytes × File S.State → Type 0
      Begun = Reads S laws f (take (suc n) (pending S laws f)) (drop (suc n) (pending S laws f))

      begun : Bytes × File S.State
      begun =
          if unreadable S f
          then ([], record f { io_error = true })
          else chunk_loop S (suc (suc n)) (suc n) [] f

      some : (suc n == 0) ≡ false
      some = ground arith
