-- ===== src/Apply/Entries.antt =====
-- `apply_delta_impl` of src/Apply.hpp from the delta's header on, and `verifyDigest`.
pub mod Complete
pub mod Stream
pub mod Untouched
pub mod Limit
pub mod Ends
use roll.Prelude.{
  ℕ, zero, suc, ◌+◌, ◌-◌, Bool, true, false, not, ◌||◌, Option, none, some, List, [], ◌∷◌, ◌==◌,
  ltb, leb, if◌then◌else◌, length, get_elem?, same_bytes, take,
}
use roll.Format.{EntryType, original_chunk, added_chunk, modified_chunk, delta_digest_bytes}
use roll.Io.{Bytes, ByteInput, FileInput, ByteOutput}
use roll.Io.Action.{Result, ok, err, Action, continue, ◌>>=◌, ◌>>◌, pure, raise}
use roll.Codec.Reader.{
  ReadError, DeltaEntryHeader, Item, entry, trailer, end_of_stream, references_old, next_item,
  read_header, read_entry_header, read_payload, read_trailer, finish,
}
use roll.Error.{
  DeltaErrc, DeltaError, ApplyStats, Message, io_error, corrupt_delta, integrity_mismatch,
  limit_exceeded, internal_error, whole_file_mismatch, index_out_of_range, original_mismatch,
  added_mismatch, modified_mismatch, cannot_read_chunk, cannot_read_source, over_limit,
  cannot_write_chunk, out_of_fuel,
}
use roll.Hash.{StrongHash, SignedChunk}
use roll.Apply.Patch.{reading, lift, apply_diff}

abbrev failure : DeltaErrc → Message → DeltaError
failure c m = record { code = c; message = m }

-- `verifyDigest`, for a hash of 16 bytes at least: `resize` then only cuts the digest short.
unfoldable pub verify_digest : StrongHash → Bytes → Bytes → Bool
verify_digest U bytes expected =
    if not (length expected == delta_digest_bytes)
    then false
    else same_bytes (take delta_digest_bytes (U.hash bytes)) expected

-- The delta, the old file, the output, the hash of what was written, and the statistics.
pub record Run (D F O H : Type 0) : Type 0 where
  pub delta : D
  pub old_file : F
  pub output : O
  pub whole_file_hash : H
  pub stats : ApplyStats

module _ (U : StrongHash) (I : ByteInput) (F : FileInput) (O : ByteOutput) where
  abbrev pub ApplyRun : Type 0
  ApplyRun = Run I.State F.State O.State U.State

  -- A method of the reader, on the delta.
  abbrev pub from_delta : {A : Type 0} → Action DeltaError I.State A → Action DeltaError ApplyRun A
  from_delta m r = ((m r.delta).0, record r { delta = (m r.delta).1 })

  abbrev pub reader : {A : Type 0} → Action ReadError I.State A → Action DeltaError ApplyRun A
  reader m = from_delta (reading I m)

  abbrev pub require : Bool → DeltaErrc → Message → Action DeltaError ApplyRun (Unit {0})
  require b c m r = if b then (ok tt, r) else (err (failure c m), r)

  -- The chunk that the header names, for the types that name one.
  unfoldable pub source_of :
      List SignedChunk → DeltaEntryHeader → Action DeltaError ApplyRun (Option SignedChunk)
  source_of chunks header r =
      if not (references_old header.type)
      then (ok none, r)
      else elim (get_elem? chunks header.old_index) [
        | none ↦ (err (failure corrupt_delta index_out_of_range), r)
        | some chunk ↦ (ok (some chunk), r)
      ]

  -- The bytes of a chunk of the old file, all of them or an error.
  unfoldable pub read_old : SignedChunk → Message → Action DeltaError ApplyRun Bytes
  read_old chunk m r =
      let (bytes, f) = F.read_chunk_at chunk.chunk_size chunk.start_offset r.old_file in
      if F.has_error f || not (length bytes == chunk.chunk_size)
      then (err (failure io_error m), record r { old_file = f })
      else (ok bytes, record r { old_file = f })

  -- The three cases of the switch. `source` is set for the types that name a chunk.
  unfoldable pub produce :
      EntryType → DeltaEntryHeader → Option SignedChunk → Action DeltaError ApplyRun Bytes
  produce original_chunk header (some source) = do
    require (same_bytes source.hash header.digest) integrity_mismatch original_mismatch
    read_old source cannot_read_chunk
  produce added_chunk header source = do
    produced ← reader (read_payload I header.out_size)
    require (verify_digest U produced header.digest) integrity_mismatch added_mismatch
    pure produced
  produce modified_chunk header (some source) = do
    old_data ← read_old source cannot_read_source
    produced ← from_delta (apply_diff I old_data header.out_size)
    require (verify_digest U produced header.digest) integrity_mismatch modified_mismatch
    pure produced
  produce _ header none = raise (failure internal_error index_out_of_range)

  -- The limit, the output, the hash and the statistics.
  unfoldable pub append_chunk : ℕ → Bytes → Action DeltaError ApplyRun (Unit {0})
  append_chunk max produced r =
      if ltb (max - r.stats.bytes_written) (length produced)
      then (err (failure limit_exceeded over_limit), r)
      else let (written, out) = O.write_chunk produced r.output in
        if not written
        then (err (failure io_error cannot_write_chunk), record r { output = out })
        else (
          ok tt,
          record r {
            output = out;
            whole_file_hash = U.update produced r.whole_file_hash;
            stats = record {
              entries_processed = r.stats.entries_processed + 1;
              bytes_written = r.stats.bytes_written + length produced;
            };
          },
        )

  unfoldable pub apply_entry : ℕ → List SignedChunk → Action DeltaError ApplyRun (Unit {0})
  apply_entry max chunks = do
    header ← reader (read_entry_header I)
    source ← source_of chunks header
    produced ← produce header.type header source
    append_chunk max produced

  unfoldable pub apply_trailer : Action DeltaError ApplyRun (Unit {0})
  apply_trailer = do
    expected ← reader (read_trailer I U.hash_size)
    computed ← λ r. (ok (U.finalize r.whole_file_hash), r)
    require (same_bytes computed expected) integrity_mismatch whole_file_mismatch

  abbrev next : ApplyRun → Item × ApplyRun
  next r = ((next_item I r.delta).0, record r { delta = (next_item I r.delta).1 })

  -- The loop; the result is `saw_trailer`. Each entry takes a byte at least.
  unfoldable pub apply_entries : ℕ → ℕ → List SignedChunk → Action DeltaError ApplyRun Bool
  apply_entries zero max chunks = raise (failure internal_error out_of_fuel)
  apply_entries (suc fuel) max chunks = do
    item ← λ r. (ok (next r).0, (next r).1)
    let more = do apply_entry max chunks; apply_entries fuel max chunks
    elim item [ end_of_stream ↦ pure false | trailer ↦ do apply_trailer; pure true | entry ↦ more ]

  -- From the header to the checks behind the loop. `chunks` is the signature of the old file.
  unfoldable pub apply_stream : ℕ → List SignedChunk → Action DeltaError ApplyRun (Unit {0})
  apply_stream max chunks = do
    reader (read_header I)
    fuel ← λ r. (ok (suc (I.left r.delta)), r)
    saw_trailer ← apply_entries fuel max chunks
    reader (finish I saw_trailer)
