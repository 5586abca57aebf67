-- ===== src/Apply/Entries/Complete.antt =====
-- The applier of src/Apply.hpp on deltas whose records describe the chunks of the new file.
use roll.Prelude.{
  ℕ, ◌+◌, ◌-◌, ◌≤◌, ◌≡◌, refl, ◌∙◌, true, false, Option, none, some, List, ◌++◌, ==_self, ltb,
  length, get_elem?, same_bytes_self, take, drop, length-take, arith,
}
use roll.Format.{
  EntryType, original_chunk, added_chunk, modified_chunk, delta_digest_bytes, delta_max_chunk_size,
}
use roll.Io.{Bytes}
use roll.Io.Action.{ok, Action}
use roll.Io.Memory.{memory_input, memory_file, memory_output}
use roll.Codec.Layout.{original_record, added_record, modified_record, IsU64}
use roll.Codec.Reader.{
  ReadError, references_old, short_payload, read_entry_header, read_payload, DeltaEntryHeader,
}
use roll.Codec.RoundTrip.Records.{
  header_of, read-original_record, read-added_record, read-modified_record, read_exact_lem,
}
use roll.Error.{Message, cannot_read_chunk, cannot_read_source}
use roll.Hash.{StrongHash, IsStrongHash, SignedChunk, chunk_digest}
use roll.Apply.Patch.{apply_diff, converted}
use roll.Apply.Patch.Loop.{EndsRun}
use roll.Apply.Entries.{
  ApplyRun, reader, source_of, read_old, produce, append_chunk, apply_entry, verify_digest,
}

-- The bytes of a chunk in the old file, all of them there.
abbrev pub IsChunkOf : Bytes → SignedChunk → Bytes → Type 0
IsChunkOf old c bytes =
    (take c.chunk_size (drop c.start_offset old) ≡ bytes) × (length bytes ≡ c.chunk_size)

module _ (U : StrongHash) where
  -- `Describes U old chunks record bytes`: the record stands for the chunk `bytes`, given the old
  -- file and its signature.
  pub data Describes (old : Bytes) (chunks : List SignedChunk) : Bytes → Bytes → Type 0 where
    original :
        {rec bytes : Bytes} (i : ℕ) (c : SignedChunk)
        → IsU64 i
        → get_elem? chunks i ≡ some c
        → length c.hash ≡ delta_digest_bytes
        → IsChunkOf old c bytes
        → rec ≡ original_record i c.hash
        → Describes old chunks rec bytes
    added :
        {rec bytes : Bytes}
        → length bytes ≤ delta_max_chunk_size
        → rec ≡ added_record (chunk_digest U bytes) bytes
        → Describes old chunks rec bytes
    modified :
        {rec bytes : Bytes} (i : ℕ) (c : SignedChunk) (old_data diff : Bytes)
        → IsU64 i
        → get_elem? chunks i ≡ some c
        → IsChunkOf old c old_data
        → length bytes ≤ delta_max_chunk_size
        → ((rest : Bytes)
            → EndsRun rest
            → apply_diff memory_input old_data (length bytes) (diff ++ rest) ≡ (ok bytes, rest))
        → rec ≡ modified_record i (length bytes) (chunk_digest U bytes) diff
        → Describes old chunks rec bytes

  abbrev pub MemoryRun : Type 0
  MemoryRun = ApplyRun U memory_input memory_file memory_output

  abbrev pub run : Bytes → Bytes → Bytes → U.State → ℕ → ℕ → MemoryRun
  run delta old out h entries written = record {
    delta = delta;
    old_file = old;
    output = out;
    whole_file_hash = h;
    stats = record { entries_processed = entries; bytes_written = written };
  }

  reader-ok :
      {A : Type 0} (m : Action ReadError Bytes A) {s' : Bytes} {a : A} (r : MemoryRun)
      → m r.delta ≡ (ok a, s')
      → reader U memory_input memory_file memory_output m r ≡ (ok a, record r { delta = s' })
  reader-ok m r e =
      λ i. (converted (memory_input.has_error (e i).1) (e i).0, record r { delta = (e i).1 })

  read_old-ok :
      (c : SignedChunk) {bytes : Bytes} (m : Message) (r : MemoryRun)
      → IsChunkOf r.old_file c bytes
      → read_old U memory_input memory_file memory_output c m r ≡ (ok bytes, r)
  unfolding read_old
  read_old-ok c {bytes} m r (e, n) = rw (e, n, ==_self c.chunk_size)

  append_chunk-ok :
      (max : ℕ) (bytes delta old out : Bytes) (h : U.State) (n written : ℕ)
      → written + length bytes ≤ max
      → append_chunk U memory_input memory_file memory_output max bytes
          (run delta old out h n written)
        ≡ (ok tt, run delta old (out ++ bytes) (U.update bytes h) (n + 1) (written + length bytes))
  unfolding append_chunk
  append_chunk-ok max bytes delta old out h n written fits = rw inside
    where
      inside : ltb (max - written) (length bytes) ≡ false
      inside = ground arith

  -- An entry goes through if its four parts do.
  apply_entry-parts :
      (max : ℕ) (chunks : List SignedChunk) (header : DeltaEntryHeader)
      (source : Option SignedChunk) (produced : Bytes) (r r1 r2 r3 r4 : MemoryRun)
      → reader U memory_input memory_file memory_output (read_entry_header memory_input) r
        ≡ (ok header, r1)
      → source_of U memory_input memory_file memory_output chunks header r1 ≡ (ok source, r2)
      → produce U memory_input memory_file memory_output header.type header source r2
        ≡ (ok produced, r3)
      → append_chunk U memory_input memory_file memory_output max produced r3 ≡ (ok tt, r4)
      → apply_entry U memory_input memory_file memory_output max chunks r ≡ (ok tt, r4)
  unfolding apply_entry
  apply_entry-parts max chunks header source produced r r1 r2 r3 r4 e1 e2 e3 e4 = ground arith

  source_of-none :
      (chunks : List SignedChunk) (n : ℕ) (digest : Bytes) (r : MemoryRun)
      → source_of U memory_input memory_file memory_output chunks
          (header_of added_chunk 0 n digest)
          r
        ≡ (ok none, r)
  unfolding source_of
  source_of-none chunks n digest r = refl

  source_of-some :
      (type : EntryType) (chunks : List SignedChunk) (c : SignedChunk) (i n : ℕ) (digest : Bytes)
      (r : MemoryRun)
      → references_old type ≡ true
      → get_elem? chunks i ≡ some c
      → source_of U memory_input memory_file memory_output chunks (header_of type i n digest) r
        ≡ (ok (some c), r)
  unfolding source_of
  source_of-some type chunks c i n digest r h e = ground arith

  module _ (laws : IsStrongHash U) where
    length-chunk_digest : (bytes : Bytes) → length (chunk_digest U bytes) ≡ delta_digest_bytes
    length-chunk_digest bytes =
        length-take delta_digest_bytes (U.hash bytes) ∙ omega (arith, laws.enough, sized)
      where
        sized : length (U.hash bytes) ≡ U.hash_size
        sized = rw (laws.hash_lem bytes) (laws.length-finalize (U.update bytes U.init))

    verify_digest-chunk_digest :
        (bytes : Bytes) → verify_digest U bytes (chunk_digest U bytes) ≡ true
    unfolding verify_digest
    verify_digest-chunk_digest bytes =
        rw (length-chunk_digest bytes) (same_bytes_self (chunk_digest U bytes))

    produce-original :
        (c : SignedChunk) {bytes : Bytes} (i : ℕ) (r : MemoryRun)
        → IsChunkOf r.old_file c bytes
        → produce U memory_input memory_file memory_output original_chunk
            (header_of original_chunk i 0 c.hash)
            (some c)
            r
          ≡ (ok bytes, r)
    unfolding produce
    produce-original c i r h = rw (same_bytes_self c.hash) (read_old-ok c cannot_read_chunk r h)

    produce-added :
        (bytes rest old out : Bytes) (h : U.State) (n written : ℕ)
        → produce U memory_input memory_file memory_output added_chunk
            (header_of added_chunk 0 (length bytes) (chunk_digest U bytes))
            none
            (run (bytes ++ rest) old out h n written)
          ≡ (ok bytes, run rest old out h n written)
    unfolding produce read_payload
    produce-added bytes rest old out h n written = rw (
      read_exact_lem (length bytes) short_payload bytes rest refl,
      verify_digest-chunk_digest bytes,
    )

    produce-modified :
        (c : SignedChunk) {bytes old_data : Bytes} (diff : Bytes) (i : ℕ) (rest old out : Bytes)
        (h : U.State) (n written : ℕ)
        → IsChunkOf old c old_data
        → apply_diff memory_input old_data (length bytes) (diff ++ rest) ≡ (ok bytes, rest)
        → produce U memory_input memory_file memory_output modified_chunk
            (header_of modified_chunk i (length bytes) (chunk_digest U bytes))
            (some c)
            (run (diff ++ rest) old out h n written)
          ≡ (ok bytes, run rest old out h n written)
    unfolding produce
    produce-modified c {bytes} {old_data} diff i rest old out h n written there e = rw (
      read_old-ok c cannot_read_source (run (diff ++ rest) old out h n written) there,
      e,
      verify_digest-chunk_digest bytes,
    )

    -- A record that describes a chunk appends it.
    pub apply_entry-Describes :
        {old rec bytes : Bytes} {chunks : List SignedChunk} (max : ℕ) (rest out : Bytes)
        (h : U.State) (n written : ℕ)
        → Describes old chunks rec bytes
        → EndsRun rest
        → written + length bytes ≤ max
        → apply_entry U memory_input memory_file memory_output max chunks
            (run (rec ++ rest) old out h n written)
          ≡ (ok tt, run rest old (out ++ bytes) (U.update bytes h) (n + 1) (written + length bytes))
    apply_entry-Describes {old} {bytes = bytes} {chunks} max rest out h n written
          (original i c hi there sized at w) e fits =
        rw w (
          apply_entry-parts max chunks (header_of original_chunk i 0 c.hash) (some c) bytes
            (run (original_record i c.hash ++ rest) old out h n written)
            (run rest old out h n written) (run rest old out h n written)
            (run rest old out h n written) _
            (reader-ok (read_entry_header memory_input)
              (run (original_record i c.hash ++ rest) old out h n written)
              (read-original_record c.hash rest sized i hi))
            (source_of-some original_chunk chunks c i 0 c.hash (run rest old out h n written) refl
              there)
            (produce-original c i (run rest old out h n written) at)
            (append_chunk-ok max bytes rest old out h n written fits))
    apply_entry-Describes {old} {bytes = bytes} {chunks} max rest out h n written (added small w) e
          fits =
        rw w (
          apply_entry-parts max chunks
            (header_of added_chunk 0 (length bytes) (chunk_digest U bytes)) none bytes
            (run (added_record (chunk_digest U bytes) bytes ++ rest) old out h n written)
            (run (bytes ++ rest) old out h n written) (run (bytes ++ rest) old out h n written)
            (run rest old out h n written) _
            (reader-ok (read_entry_header memory_input)
              (run (added_record (chunk_digest U bytes) bytes ++ rest) old out h n written)
              (read-added_record (chunk_digest U bytes) rest (length-chunk_digest bytes) bytes
                small))
            (source_of-none chunks (length bytes) (chunk_digest U bytes)
              (run (bytes ++ rest) old out h n written))
            (produce-added bytes rest old out h n written)
            (append_chunk-ok max bytes rest old out h n written fits))
    apply_entry-Describes {old} {bytes = bytes} {chunks} max rest out h n written
          (modified i c old_data diff hi there at small patches w) e fits =
        rw w (
          apply_entry-parts max chunks
            (header_of modified_chunk i (length bytes) (chunk_digest U bytes)) (some c) bytes
            (run (modified_record i (length bytes) (chunk_digest U bytes) diff ++ rest) old out h n
              written)
            (run (diff ++ rest) old out h n written) (run (diff ++ rest) old out h n written)
            (run rest old out h n written) _
            (reader-ok (read_entry_header memory_input)
              (run (modified_record i (length bytes) (chunk_digest U bytes) diff ++ rest) old out h
                n written)
              (read-modified_record (chunk_digest U bytes) rest (length-chunk_digest bytes) i
                (length bytes) diff hi small))
            (source_of-some modified_chunk chunks c i (length bytes) (chunk_digest U bytes)
              (run (diff ++ rest) old out h n written) refl there)
            (produce-modified c diff i rest old out h n written at (patches rest e))
            (append_chunk-ok max bytes rest old out h n written fits))
