-- ===== src/Signature.antt =====
-- `Signature::generate_signatures` of src/Signature.hpp on an open file: chunks cut where the fingerprint says so.
pub mod Tiles
pub mod Rounds
pub mod Loop
pub mod Covers
use roll.Prelude.{
  ℕ, zero, suc, ◌+◌, ◌-◌, bit_and, Bool, true, false, not, ◌||◌, Option, none, some, List, [], ◌∷◌,
  ◌++◌, ◌==◌, ltb, leb, if◌then◌else◌, length, take,
}
use roll.Format.{
  delta_digest_bytes, delta_min_chunk_size, delta_target_chunk_size, delta_max_chunk_size,
  delta_boundary_target,
}
use roll.Io.{Bytes, SeekInput}
use roll.Hash.{StrongHash, SignedChunk}
use roll.Rolling.{
  RkFinger, init_state, initialize, compute_next, alphabet_def_size, window_def_size,
  modulus_def_size,
}

-- The chunks so far, and the hash of the whole file in the mode that wants it.
pub record Signed (H : Type 0) : Type 0 where
  pub chunks : List SignedChunk
  pub whole : Option H

-- The boundary test on a chunk of `size` bytes.
unfoldable pub is_boundary : ℕ → ℕ → Bool
is_boundary size fingerprint =
    let mask = if ltb size delta_target_chunk_size then 0x3fff else 0x0fff in
    if leb delta_max_chunk_size size
    then true
    else if leb delta_min_chunk_size size
    then bit_and fingerprint mask == bit_and delta_boundary_target mask
    else false

module _ (U : StrongHash) where
  abbrev pub update_whole : Bytes → Option U.State → Option U.State
  update_whole bytes none = none
  update_whole bytes (some h) = some (U.update bytes h)

  -- `none` is the exception for a hash that is too short.
  unfoldable pub emit_chunk : Bytes → ℕ → ℕ → Signed U.State → Option (Signed U.State)
  emit_chunk bytes signature start_offset p =
      if ltb U.hash_size delta_digest_bytes
      then none
      else some (record {
        chunks =
            p.chunks
            ++ (record {
              signature = signature;
              hash = take delta_digest_bytes (U.hash bytes);
              start_offset = start_offset;
              chunk_size = length bytes;
            }
                ∷ []);
        whole = update_whole bytes p.whole;
      })

  module _ (I : SeekInput) where
    -- The locals of the loop.
    pub record Chunker : Type 0 where
      pub file : I.State
      pub fingerprint : RkFinger
      pub bytes_read : ℕ
      pub chunk : Bytes
      pub signed : Signed U.State

    -- `emit_chunk` on the current chunk, which ends at `bytes_read`.
    unfoldable pub cut : Chunker → Option Chunker
    unfolding emit_chunk
    cut c =
        elim (emit_chunk c.chunk c.fingerprint.fingerprint (c.bytes_read - length c.chunk)
          c.signed) [ none ↦ none | some signed ↦ some (record c { chunk = []; signed = signed }) ]

    -- The start of a chunk: a window of bytes. The Boolean is false where the loop ends.
    unfoldable pub start_chunk : Chunker → Bool × Chunker
    unfolding initialize
    start_chunk c =
        let (bytes, file) = I.read_chunk c.fingerprint.window_size c.file in
        let (full_window, fingerprint) = initialize bytes c.fingerprint in
        if length bytes == 0 then (false, record c { file = file }) else (
          full_window,
          record c {
            file = file;
            fingerprint = fingerprint;
            bytes_read = c.bytes_read + length bytes;
            chunk = bytes;
          },
        )

    unfoldable pub push_byte : ℕ → I.State → Chunker → Chunker
    unfolding compute_next
    push_byte byte file c = record c {
      file = file;
      fingerprint = compute_next byte c.fingerprint;
      bytes_read = c.bytes_read + 1;
      chunk = c.chunk ++ (byte ∷ []);
    }

    -- The loop, to the state in which it ends. The Boolean is `init`. Each round but the last takes a byte at least.
    unfoldable pub chunk_loop : ℕ → Bool → Chunker → Option Chunker
    unfolding cut start_chunk push_byte is_boundary
    chunk_loop zero init c = none
    chunk_loop (suc rounds) init c =
        let (ready, c') = if init then start_chunk c else (true, c) in
        let (next, file) = I.read_byte c'.file in
        if not ready then some c' else elim next [
          | none ↦ some (record c' { file = file })
          | some byte ↦
              (let pushed = push_byte byte file c' in
                let more = chunk_loop rounds false pushed in
                if is_boundary (length pushed.chunk) pushed.fingerprint.fingerprint
                then elim (cut pushed) [ none ↦ none | some c'' ↦ chunk_loop rounds true c'' ]
                else more)
        ]

    -- The residual chunk at the end of the file.
    unfoldable pub cut_residual : Chunker → Option Chunker
    unfolding cut
    cut_residual c = if ltb 0 (length c.chunk) then cut c else some c

    -- The lambda `finish`: the chunks and the digest, or failure with neither.
    unfoldable pub finish_signature : Chunker → Option (List SignedChunk × Bytes)
    finish_signature c =
        if I.has_error c.file || not (c.bytes_read == I.size c.file)
        then none
        else some (c.signed.chunks, elim c.signed.whole [ none ↦ [] | some h ↦ U.finalize h ])

    -- The default-constructed fingerprint.
    abbrev pub default_fingerprint : RkFinger
    default_fingerprint = init_state alphabet_def_size window_def_size modulus_def_size

    abbrev pub finish_option : Option Chunker → Option (Option (List SignedChunk × Bytes))
    finish_option none = none
    finish_option (some c) = some (finish_signature c)

    abbrev pub residual_option : Option Chunker → Option Chunker
    residual_option none = none
    residual_option (some c) = cut_residual c

    -- On an open file: the chunks and the digest, which is empty in the mode `Skip`. The inner `none` is the result
    -- false, the outer one the exception.
    unfoldable pub generate_signatures : Bool → I.State → Option (Option (List SignedChunk × Bytes))
    unfolding cut cut_residual chunk_loop finish_signature
    generate_signatures compute s =
        let (initial, file) = I.read_chunk_at window_def_size 0 s in
        let (full_window, fingerprint) = initialize initial default_fingerprint in
        let signed : Signed U.State = record {
          chunks = [];
          whole = if compute then some U.init else none;
        } in
        let empty : Chunker = record {
          file = file;
          fingerprint = default_fingerprint;
          bytes_read = 0;
          chunk = [];
          signed = signed;
        } in
        let first : Chunker = record empty {
          fingerprint = fingerprint;
          bytes_read = length initial;
          chunk = initial;
        } in
        if length initial == 0
        then some (finish_signature empty)
        else if not full_window
        then finish_option (cut first)
        else finish_option (residual_option (chunk_loop (suc (I.left file)) false first))
