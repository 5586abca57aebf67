-- ===== src/Signature/Tiles.antt =====
-- Chunks that stand one behind the other, as the signatures of src/Signature.hpp do.
use roll.Prelude.{
  ℕ, ◌+◌, ◌≤◌, ◌<◌, ◌≡◌, sym, ap, subst, ◌∙◌, true, List, [], ◌∷◌, ◌++◌, length, take, drop,
  take-append, drop-append, append_assoc, append-nil, length-append, arith,
}
use roll.Format.{delta_max_chunk_size}
use roll.Io.{Bytes}
use roll.Hash.{StrongHash, SignedChunk, chunk_digest}
use roll.Generate.Checks.{covers_loop}
use roll.Generate.Checks.Covers.{AllSigned, no_chunks, one_more, bytes_of}

module _ (U : StrongHash) where
  -- The chunk is the signature of `piece`, which starts at `offset`.
  pub record IsSignature (c : SignedChunk) (offset : ℕ) (piece : Bytes) : Type 0 where
    pub start : c.start_offset ≡ offset
    pub size : c.chunk_size ≡ length piece
    pub digest : c.hash ≡ chunk_digest U piece
    pub some : 0 < length piece
    pub small : length piece ≤ delta_max_chunk_size

  -- The chunks are the signatures of pieces that make up the bytes, of which the first starts at the offset.
  pub data Tiles : ℕ → Bytes → List SignedChunk → Type 0 where
    done : {offset : ℕ} → Tiles offset [] []
    tile :
        {offset : ℕ} {c : SignedChunk} {chunks : List SignedChunk} (piece rest : Bytes)
        → IsSignature c offset piece
        → Tiles (offset + length piece) rest chunks
        → Tiles offset (piece ++ rest) (c ∷ chunks)

  pub Tiles-append :
      {offset : ℕ} {bytes : Bytes} {chunks : List SignedChunk} {c : SignedChunk} (piece : Bytes)
      → Tiles offset bytes chunks
      → IsSignature c (offset + length bytes) piece
      → Tiles offset (bytes ++ piece) (chunks ++ (c ∷ []))
  Tiles-append {offset} {c = c} piece done s =
      subst (λ z. Tiles offset z (c ∷ [])) (append-nil piece)
        (tile piece []
          (record {
            start = s.start ∙ nothing;
            size = s.size;
            digest = s.digest;
            some = s.some;
            small = s.small;
          })
          done)
    where
      nothing : offset + 0 ≡ offset
      nothing = omega arith
  Tiles-append {offset} {c = c} piece (tile {c = head} {chunks = chunks} first rest t more) s =
      subst (λ z. Tiles offset z (head ∷ (chunks ++ (c ∷ []))))
        (sym (append_assoc first rest piece))
        (tile first (rest ++ piece) t (
          Tiles-append {c = c} piece more (record {
            start = s.start ∙ sums;
            size = s.size;
            digest = s.digest;
            some = s.some;
            small = s.small;
          })))
    where
      sums : offset + length (first ++ rest) ≡ offset + length first + length rest
      sums = omega (arith, length-append first rest)

  -- Such chunks pass the check of the generator.
  pub covers_loop-Tiles :
      {offset : ℕ} {bytes : Bytes} {chunks : List SignedChunk} (size : ℕ)
      → Tiles offset bytes chunks
      → size ≡ offset + length bytes
      → covers_loop size chunks offset ≡ true
  unfolding covers_loop
  covers_loop-Tiles size done h = ground (arith, h)
  covers_loop-Tiles {offset} size (tile {c = c} {chunks = chunks} piece rest s more) h =
      let again = covers_loop-Tiles size more (omega (arith, h, length-append piece rest)) in
      ground (arith, s.start, s.size, s.some, s.small, h, length-append piece rest, moved again)
    where
      moved :
          covers_loop size chunks (offset + length piece) ≡ true
          → covers_loop size chunks (offset + c.chunk_size) ≡ true
      moved again = ap (λ (n : ℕ). covers_loop size chunks (offset + n)) s.size ∙ again

  -- They carry the digests of their bytes.
  pub AllSigned-Tiles :
      {offset : ℕ} {bytes : Bytes} {chunks : List SignedChunk} (file before : Bytes)
      → Tiles offset bytes chunks
      → file ≡ before ++ bytes
      → offset ≡ length before
      → AllSigned U file chunks
  AllSigned-Tiles file before done h e = no_chunks
  AllSigned-Tiles {offset} file before (tile {c = c} piece rest s more) h e =
      one_more (s.digest ∙ ap (chunk_digest U) (sym there)) (
        AllSigned-Tiles file (before ++ piece) more (h ∙ sym (append_assoc before piece rest))
          (omega (arith, e, length-append before piece)))
    where
      there : bytes_of file c ≡ piece
      there =
          ap (λ (n : ℕ). take n (drop c.start_offset file)) s.size
          ∙ ap (λ (n : ℕ). take (length piece) (drop n file)) (s.start ∙ e)
          ∙ ap (λ z. take (length piece) (drop (length before) z)) h
          ∙ ap (take (length piece)) (drop-append before (piece ++ rest))
          ∙ take-append piece rest
