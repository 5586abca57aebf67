-- ===== src/Generate/Checks.antt =====
-- The checks of src/Delta.hpp that its inputs are still the signed ones, and the trailer.
pub mod Covers
use roll.Prelude.{
  ℕ, zero, suc, ◌+◌, ◌-◌, Bool, true, false, not, ◌&&◌, ◌||◌, Option, none, some, List, [], ◌∷◌,
  ◌==◌, ltb, if◌then◌else◌, length, take, same_bytes,
}
use roll.Format.{delta_digest_bytes, delta_max_chunk_size}
use roll.Io.{Bytes, FileInput}
use roll.Io.Action.{Result, ok, err, Action, continue, ◌>>=◌, ◌>>◌, pure, raise}
use roll.Error.{
  DeltaErrc, DeltaError, Message, io_error, integrity_mismatch, cannot_read_signed, input_changed,
  old_input_changed, new_input_changed,
}
use roll.Hash.{StrongHash, SignedChunk}

-- The loop of `coversExactly`.
unfoldable pub covers_loop : ℕ → List SignedChunk → ℕ → Bool
covers_loop size [] covered = covered == size
covers_loop size (c ∷ chunks) covered =
    let rest = covers_loop size chunks (covered + c.chunk_size) in
    if not (c.start_offset == covered)
      || (c.chunk_size == 0
          || (ltb delta_max_chunk_size c.chunk_size || ltb (size - covered) c.chunk_size))
    then false
    else rest

unfoldable pub covers_exactly : List SignedChunk → ℕ → Bool
covers_exactly chunks size = covers_loop size chunks 0

module _ (U : StrongHash) (F : FileInput) where
  abbrev failed : {A : Type 0} → DeltaErrc → Message → Action DeltaError F.State A
  failed c m = raise (record { code = c; message = m })

  -- The bytes of a chunk, as the signature described them.
  unfoldable pub read_signed_chunk : SignedChunk → Action DeltaError F.State Bytes
  read_signed_chunk chunk f =
      let (bytes, f') = F.read_chunk_at chunk.chunk_size chunk.start_offset f in
      let digest = U.hash bytes in
      if F.has_error f' || not (length bytes == chunk.chunk_size)
      then failed io_error cannot_read_signed f'
      else if not (length chunk.hash == delta_digest_bytes)
          || (ltb (length digest) delta_digest_bytes
              || not (same_bytes chunk.hash (take delta_digest_bytes digest)))
      then failed integrity_mismatch input_changed f'
      else (ok bytes, f')

  -- `!file.read_chunk(1, file.size()).empty() || file.has_error()`
  unfoldable pub at_snapshot_end : Message → Action DeltaError F.State (Unit {0})
  at_snapshot_end m f =
      let (bytes, f') = F.read_chunk_at 1 (F.size f) f in
      if not (length bytes == 0) || F.has_error f'
      then failed integrity_mismatch m f'
      else (ok tt, f')

  unfoldable pub verify_old_file : List SignedChunk → Action DeltaError F.State (Unit {0})
  verify_old_file [] = at_snapshot_end old_input_changed
  verify_old_file (c ∷ chunks) = do read_signed_chunk c; verify_old_file chunks

  -- The loop of `writeTrailer` over the new file, on the hash so far.
  unfoldable pub hash_chunks : List SignedChunk → U.State → Action DeltaError F.State U.State
  hash_chunks [] h = pure h
  hash_chunks (c ∷ chunks) h = do bytes ← read_signed_chunk c; hash_chunks chunks (U.update bytes h)

  -- The digest of the trailer: what the signature computed, or the hash of a second reading.
  unfoldable pub trailer_digest : List SignedChunk → Bytes → Action DeltaError F.State Bytes
  trailer_digest chunks [] = do h ← hash_chunks chunks U.init; pure (U.finalize h)
  trailer_digest chunks (b ∷ digest) = pure (b ∷ digest)

  -- What `writeTrailer` does to the new file, up to the writing.
  unfoldable pub check_trailer : List SignedChunk → Bytes → Action DeltaError F.State Bytes
  check_trailer chunks precomputed = do
    digest ← trailer_digest chunks precomputed
    at_snapshot_end new_input_changed
    pure digest
