-- ===== src/Apply/Entries/Untouched.antt =====
-- The steps of `apply_delta_impl` of src/Apply.hpp that leave the output and the statistics alone: all but the one that
-- appends a chunk.
use roll.Prelude.{◌≡◌, sym, subst, Bool, true, false, Option, none, some, List, same_bytes, arith}
use roll.Format.{EntryType, original_chunk, added_chunk, modified_chunk}
use roll.Io.{Bytes, ByteInput, FileInput, ByteOutput}
use roll.Io.Action.{Result, ok, err, Action, continue, ◌>>=◌, pure}
use roll.Codec.Reader.{DeltaEntryHeader, read_payload, read_trailer}
use roll.Error.{
  ApplyStats, DeltaErrc, DeltaError, Message, integrity_mismatch, original_mismatch, added_mismatch,
  modified_mismatch, whole_file_mismatch, cannot_read_chunk, cannot_read_source,
}
use roll.Hash.{StrongHash, SignedChunk}
use roll.Apply.Patch.{reading, apply_diff}
use roll.Apply.Entries.{
  ApplyRun, from_delta, reader, require, source_of, read_old, produce, apply_trailer, verify_digest,
}

module _ (U : StrongHash) (I : ByteInput) (F : FileInput) (O : ByteOutput)
    (P : O.State → ApplyStats → Type 0) where
  abbrev State : Type 0
  State = ApplyRun U I F O

  -- The step keeps a property of the output and the statistics, whatever its result.
  abbrev pub Keeps : {A : Type 0} → Action DeltaError State A → Type 0
  Keeps m = (r : State) → P r.output r.stats → P (m r).1.output (m r).1.stats

  pub bind-Keeps :
      {A B : Type 0} (m : Action DeltaError State A) (f : A → Action DeltaError State B)
      → Keeps m
      → ((a : A) → Keeps (f a))
      → Keeps (m >>= f)
  bind-Keeps {A} {B} m f k l r h = go (m r).0 (m r).1 (k r h)
    where
      go :
          (x : Result DeltaError A) (r' : State)
          → P r'.output r'.stats
          → P (continue x f r').1.output (continue x f r').1.stats
      go (ok a) r' w = l a r' w
      go (err e) r' w = w

  same :
      (r r' : State)
      → P r.output r.stats
      → r'.output ≡ r.output
      → r'.stats ≡ r.stats
      → P r'.output r'.stats
  same r r' w e s = subst (λ z. P z r'.stats) (sym e) (subst (P r.output) (sym s) w)

  pub delta-Keeps : {A : Type 0} (m : Action DeltaError I.State A) → Keeps (from_delta U I F O m)
  delta-Keeps m r h = h

  require-Keeps : (b : Bool) (c : DeltaErrc) (m : Message) → Keeps (require U I F O b c m)
  require-Keeps true c m r h = h
  require-Keeps false c m r h = h

  pub source_of-Keeps :
      (chunks : List SignedChunk) (header : DeltaEntryHeader)
      → Keeps (source_of U I F O chunks header)
  unfolding source_of
  source_of-Keeps chunks header r h =
      same r (source_of U I F O chunks header r).1 h (ground arith) (ground arith)

  read_old-Keeps : (chunk : SignedChunk) (m : Message) → Keeps (read_old U I F O chunk m)
  unfolding read_old
  read_old-Keeps chunk m r h = same r (read_old U I F O chunk m r).1 h (ground arith) (ground arith)

  abbrev checked : DeltaEntryHeader → Message → Bytes → Action DeltaError State Bytes
  checked header m produced =
      require U I F O (verify_digest U produced header.digest) integrity_mismatch m >>= λ u.
      pure produced

  checked-Keeps :
      (header : DeltaEntryHeader) (m : Message) (produced : Bytes)
      → Keeps (checked header m produced)
  checked-Keeps header m produced =
      bind-Keeps (require U I F O (verify_digest U produced header.digest) integrity_mismatch m)
        (λ u. pure produced) (require-Keeps _ integrity_mismatch m) (λ u r h. h)

  pub produce-Keeps :
      (type : EntryType) (header : DeltaEntryHeader) (source : Option SignedChunk)
      → Keeps (produce U I F O type header source)
  unfolding produce
  produce-Keeps original_chunk header (some source) =
      bind-Keeps
        (require U I F O (same_bytes source.hash header.digest) integrity_mismatch
          original_mismatch)
        (λ u. read_old U I F O source cannot_read_chunk)
        (require-Keeps _ integrity_mismatch original_mismatch)
        (λ u. read_old-Keeps source cannot_read_chunk)
  produce-Keeps original_chunk header none = λ r h. h
  produce-Keeps added_chunk header source =
      bind-Keeps (reader U I F O (read_payload I header.out_size)) (checked header added_mismatch)
        (delta-Keeps (reading I (read_payload I header.out_size)))
        (checked-Keeps header added_mismatch)
  produce-Keeps modified_chunk header (some source) =
      bind-Keeps (read_old U I F O source cannot_read_source)
        (λ old_data.
          from_delta U I F O (apply_diff I old_data header.out_size)
          >>= checked header modified_mismatch)
        (read_old-Keeps source cannot_read_source)
        (λ old_data.
          bind-Keeps (from_delta U I F O (apply_diff I old_data header.out_size))
            (checked header modified_mismatch) (delta-Keeps (apply_diff I old_data header.out_size))
            (checked-Keeps header modified_mismatch))
  produce-Keeps modified_chunk header none = λ r h. h

  pub apply_trailer-Keeps : Keeps (apply_trailer U I F O)
  unfolding apply_trailer
  apply_trailer-Keeps =
      bind-Keeps (reader U I F O (read_trailer I U.hash_size)) compared
        (delta-Keeps (reading I (read_trailer I U.hash_size)))
        (λ expected r h.
          require-Keeps (same_bytes (U.finalize r.whole_file_hash) expected) integrity_mismatch
            whole_file_mismatch r h)
    where
      compared : Bytes → Action DeltaError State (Unit {0})
      compared expected r =
          require U I F O (same_bytes (U.finalize r.whole_file_hash) expected) integrity_mismatch
            whole_file_mismatch r
