-- ===== src/Generate/Checks/Covers.antt =====
-- Chunks that cover a file, and the readings of src/Delta.hpp over them.
use roll.Prelude.{
  ℕ, zero, suc, ◌+◌, ◌-◌, ◌≤◌, ◌<◌, ◌≡◌, refl, sym, ap, ◌∙◌, true, false, List, [], ◌∷◌, ◌++◌,
  ==_self, ltb, length, take, drop, take-append-drop, drop-drop, length-take, length-drop,
  same_bytes, same_bytes_self, arith,
}
use roll.Format.{delta_digest_bytes, delta_max_chunk_size}
use roll.Io.{Bytes}
use roll.Io.Action.{ok}
use roll.Io.Memory.{memory_file}
use roll.Error.{Message, old_input_changed, new_input_changed}
use roll.Hash.{StrongHash, IsStrongHash, SignedChunk, chunk_digest}
use roll.Generate.Checks.{
  covers_loop, covers_exactly, read_signed_chunk, at_snapshot_end, verify_old_file, hash_chunks,
  trailer_digest, check_trailer,
}

-- The bytes that a chunk names.
abbrev pub bytes_of : Bytes → SignedChunk → Bytes
bytes_of file c = take c.chunk_size (drop c.start_offset file)

-- The chunks' bytes in turn.
unfoldable pub join_chunks : Bytes → List SignedChunk → Bytes
join_chunks file [] = []
join_chunks file (c ∷ chunks) = bytes_of file c ++ join_chunks file chunks

covers_loop-step :
    (size covered : ℕ) (c : SignedChunk) (chunks : List SignedChunk)
    → covers_loop size (c ∷ chunks) covered ≡ true
    → (c.start_offset ≡ covered)
      × (0 < c.chunk_size)
      × (c.chunk_size ≤ delta_max_chunk_size)
      × (c.chunk_size ≤ size - covered)
      × (covers_loop size chunks (covered + c.chunk_size) ≡ true)
unfolding covers_loop
covers_loop-step size covered c chunks h = ground arith

covers_loop-end : (size covered : ℕ) → covers_loop size [] covered ≡ true → covered ≡ size
unfolding covers_loop
covers_loop-end size covered h = ground arith

drop-nil : (n : ℕ) → drop {A = ℕ} n [] ≡ []
drop-nil zero = refl
drop-nil (suc n) = refl

drop_all : (xs : Bytes) (n : ℕ) → n ≡ length xs → drop n xs ≡ []
drop_all [] n h = drop-nil n
drop_all (x ∷ xs) zero h = absurd (omega arith)
drop_all (x ∷ xs) (suc n) h = drop_all xs n (omega arith)

join-covers :
    (file : Bytes) (chunks : List SignedChunk) (covered : ℕ)
    → covers_loop (length file) chunks covered ≡ true
    → join_chunks file chunks ≡ drop covered file
unfolding join_chunks
join-covers file [] covered h =
    sym (drop_all file covered (covers_loop-end (length file) covered h))
join-covers file (c ∷ chunks) covered h =
    let (start, some, small, fits, rest) = covers_loop-step (length file) covered c chunks h in
    ap (λ (n : ℕ). take c.chunk_size (drop n file) ++ join_chunks file chunks) start
    ∙ ap (λ (z : Bytes). take c.chunk_size (drop covered file) ++ z)
        (join-covers file chunks (covered + c.chunk_size) rest
          ∙ sym (drop-drop covered c.chunk_size file))
    ∙ take-append-drop c.chunk_size (drop covered file)

-- Chunks that `coversExactly` accepts for a file's size make up the file: their bytes in turn are the file.
pub join-covers_exactly :
    (file : Bytes) (chunks : List SignedChunk)
    → covers_exactly chunks (length file) ≡ true
    → join_chunks file chunks ≡ file
unfolding covers_exactly
join-covers_exactly file chunks h = join-covers file chunks 0 h

-- The signature of each chunk is that of its bytes.
pub data AllSigned (U : StrongHash) (file : Bytes) : List SignedChunk → Type 0 where
  no_chunks : AllSigned U file []
  one_more :
      {c : SignedChunk} {chunks : List SignedChunk}
      → c.hash ≡ chunk_digest U (bytes_of file c)
      → AllSigned U file chunks
      → AllSigned U file (c ∷ chunks)

module _ (U : StrongHash) (laws : IsStrongHash U) where
  read_signed_chunk-ok :
      (file : Bytes) (c : SignedChunk)
      → length (bytes_of file c) ≡ c.chunk_size
      → c.hash ≡ chunk_digest U (bytes_of file c)
      → read_signed_chunk U memory_file c file ≡ (ok (bytes_of file c), file)
  unfolding read_signed_chunk
  read_signed_chunk-ok file c sized signed =
      rw (sized, ==_self c.chunk_size, ap length signed ∙ whole, long, same) refl
    where
      digest_size : length (U.hash (bytes_of file c)) ≡ U.hash_size
      digest_size =
          rw (laws.hash_lem (bytes_of file c))
            (laws.length-finalize (U.update (bytes_of file c) U.init))

      whole : length (chunk_digest U (bytes_of file c)) ≡ delta_digest_bytes
      whole =
          length-take delta_digest_bytes (U.hash (bytes_of file c))
          ∙ omega (arith, laws.enough, digest_size)

      long : ltb (length (U.hash (bytes_of file c))) delta_digest_bytes ≡ false
      long = ground (arith, laws.enough, digest_size)

      same : same_bytes c.hash (chunk_digest U (bytes_of file c)) ≡ true
      same = rw signed (same_bytes_self (chunk_digest U (bytes_of file c)))

  at_snapshot_end-ok :
      (m : Message) (file : Bytes) → at_snapshot_end U memory_file m file ≡ (ok tt, file)
  unfolding at_snapshot_end
  at_snapshot_end-ok m file = rw (drop_all file (length file) refl) refl

  sized-covers :
      (file : Bytes) (c : SignedChunk) (chunks : List SignedChunk) (covered : ℕ)
      → covers_loop (length file) (c ∷ chunks) covered ≡ true
      → length (bytes_of file c) ≡ c.chunk_size
  sized-covers file c chunks covered h =
      let (start, some, small, fits, rest) = covers_loop-step (length file) covered c chunks h in
      omega (
        arith,
        length-take c.chunk_size (drop c.start_offset file),
        length-drop c.start_offset file,
        start,
        fits,
      )

  rest-covers :
      (file : Bytes) (c : SignedChunk) (chunks : List SignedChunk) (covered : ℕ)
      → covers_loop (length file) (c ∷ chunks) covered ≡ true
      → covers_loop (length file) chunks (covered + c.chunk_size) ≡ true
  rest-covers file c chunks covered h =
      let (start, some, small, fits, rest) = covers_loop-step (length file) covered c chunks h in
      rest

  verify_old_file-loop :
      (file : Bytes) (chunks : List SignedChunk) (covered : ℕ)
      → covers_loop (length file) chunks covered ≡ true
      → AllSigned U file chunks
      → verify_old_file U memory_file chunks file ≡ (ok tt, file)
  unfolding verify_old_file
  verify_old_file-loop file [] covered h s = at_snapshot_end-ok old_input_changed file
  verify_old_file-loop file (c ∷ chunks) covered h (one_more signed s) =
      rw (read_signed_chunk-ok file c (sized-covers file c chunks covered h) signed) (
        verify_old_file-loop file chunks (covered + c.chunk_size)
          (rest-covers file c chunks covered h) s)

  hash_chunks-join :
      (file : Bytes) (chunks : List SignedChunk) (covered : ℕ) (h : U.State)
      → covers_loop (length file) chunks covered ≡ true
      → AllSigned U file chunks
      → hash_chunks U memory_file chunks h file ≡ (ok (U.update (join_chunks file chunks) h), file)
  unfolding hash_chunks join_chunks
  hash_chunks-join file [] covered h cov s = rw (laws.update-nil h) refl
  hash_chunks-join file (c ∷ chunks) covered h cov (one_more signed s) =
      rw (read_signed_chunk-ok file c (sized-covers file c chunks covered cov) signed) (
        hash_chunks-join file chunks (covered + c.chunk_size) (U.update (bytes_of file c) h)
          (rest-covers file c chunks covered cov) s
        ∙ λ i. (ok (laws.update-update (bytes_of file c) (join_chunks file chunks) h i), file))

  -- For a hash with the stated laws, chunks that `coversExactly` accepts for the file's size and that carry the digests
  -- of their bytes: `verifyOldFile` accepts the file, and the trailer of a file without a precomputed digest is the hash
  -- of the whole file, as the second reading computes it.
  pub checks-covers_exactly :
      (file : Bytes) (chunks : List SignedChunk)
      → covers_exactly chunks (length file) ≡ true
      → AllSigned U file chunks
      → (verify_old_file U memory_file chunks file ≡ (ok tt, file))
        × (check_trailer U memory_file chunks [] file ≡ (ok (U.hash file), file))
  unfolding covers_exactly check_trailer trailer_digest
  checks-covers_exactly file chunks cov s = (
    verify_old_file-loop file chunks 0 cov s,
    rw
        (
          hash_chunks-join file chunks 0 U.init cov s,
          at_snapshot_end-ok new_input_changed file,
          join-covers file chunks 0 cov,
          laws.hash_lem file,
        )
        refl,
  )
