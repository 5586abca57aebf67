-- ===== src/Apply/Entries/Ends.antt =====
-- The loop of `apply_delta` of src/Apply.hpp ends in the rounds that the model gives it, for any bytes in place of the delta.
use roll.Prelude.{
  ℕ, zero, suc, ◌<◌, ◌≡◌, ◌≢◌, ap, subst, Bool, true, false, Option, none, some, List, same_bytes,
  arith,
}
use roll.Format.{EntryType, original_chunk, added_chunk, modified_chunk}
use roll.Io.{Bytes, ByteInput, FileInput, ByteOutput}
use roll.Io.Action.{Result, ok, err, Action, ◌>>=◌, pure, bind-cases}
use roll.Codec.Reader.{
  DeltaEntryHeader, Item, entry, trailer, end_of_stream, next_item, read_header, read_entry_header,
  read_payload, read_trailer, finish,
}
use roll.Codec.Reader.Progress.{IsForward}
use roll.Codec.Reader.Forward.{
  read_entry_header-Progress, read_payload-Shrinks, next_item-left, read_header-Shrinks,
  read_trailer-Shrinks, finish-Shrinks,
}
use roll.Error.{
  DeltaErrc, DeltaError, Message, out_of_fuel, integrity_mismatch, original_mismatch,
  added_mismatch, modified_mismatch, whole_file_mismatch, cannot_read_chunk, cannot_read_source,
}
use roll.Hash.{StrongHash, SignedChunk}
use roll.Apply.Patch.{reading, apply_diff}
use roll.Apply.Patch.Ends.{
  Fine, Fine-errors, CalmAt, bind-Calm, reading-Calm, reading-takes, apply_diff-Calm,
}
use roll.Apply.Entries.{
  ApplyRun, from_delta, reader, require, source_of, read_old, produce, append_chunk, apply_entry,
  apply_trailer, apply_entries, apply_stream, verify_digest,
}

module _ (U : StrongHash) (I : ByteInput) (laws : IsForward I) (F : FileInput)
    (O : ByteOutput) where
  abbrev State : Type 0
  State = ApplyRun U I F O

  abbrev left : State → ℕ
  left r = I.left r.delta

  abbrev Calm : State → {A : Type 0} → Action DeltaError State A → Type 0
  Calm r m = CalmAt left r (m r).0 (m r).1

  delta-Calm :
      {A : Type 0} (m : Action DeltaError I.State A) (r : State)
      → CalmAt I.left r.delta (m r.delta).0 (m r.delta).1
      → Calm r (from_delta U I F O m)
  delta-Calm m r c = record { fine = c.fine; shorter = c.shorter }

  still :
      {A : Type 0} (m : Action DeltaError State A) (r : State)
      → Fine (m r).0
      → (m r).1.delta ≡ r.delta
      → Calm r m
  still m r h e = record { fine = h; shorter = omega (arith, ap I.left e) }

  require-Calm :
      (b : Bool) (c : DeltaErrc) (m : Message) (r : State)
      → m ≢ out_of_fuel
      → Calm r (require U I F O b c m)
  require-Calm true c m r h = record { fine = tt; shorter = omega arith }
  require-Calm false c m r h = record { fine = h; shorter = omega arith }

  source_of-Calm :
      (chunks : List SignedChunk) (header : DeltaEntryHeader) (r : State)
      → Calm r (source_of U I F O chunks header)
  unfolding source_of
  source_of-Calm chunks header r =
      still (source_of U I F O chunks header) r
        (Fine-errors (source_of U I F O chunks header r).0 (λ e h k. ground arith)) (ground arith)

  read_old-Calm :
      (chunk : SignedChunk) (m : Message) (r : State)
      → m ≢ out_of_fuel
      → Calm r (read_old U I F O chunk m)
  unfolding read_old
  read_old-Calm chunk m r h =
      still (read_old U I F O chunk m) r
        (Fine-errors (read_old U I F O chunk m r).0 (λ e g k. ground (arith, h))) (ground arith)

  append_chunk-Calm :
      (max : ℕ) (bytes : Bytes) (r : State) → Calm r (append_chunk U I F O max bytes)
  unfolding append_chunk
  append_chunk-Calm max bytes r =
      still (append_chunk U I F O max bytes) r
        (Fine-errors (append_chunk U I F O max bytes r).0 (λ e g k. ground arith)) (ground arith)

  abbrev checked : DeltaEntryHeader → Message → Bytes → Action DeltaError State Bytes
  checked header m produced =
      require U I F O (verify_digest U produced header.digest) integrity_mismatch m >>= λ u.
      pure produced

  checked-Calm :
      (header : DeltaEntryHeader) (m : Message) (produced : Bytes) (r : State)
      → m ≢ out_of_fuel
      → Calm r (checked header m produced)
  checked-Calm header m produced r h =
      bind-Calm left (require U I F O (verify_digest U produced header.digest) integrity_mismatch m)
        (λ u. pure produced) r
        (require-Calm (verify_digest U produced header.digest) integrity_mismatch m r h)
        (λ u r' e. record { fine = tt; shorter = omega arith })

  produce-Calm :
      (type : EntryType) (header : DeltaEntryHeader) (source : Option SignedChunk) (r : State)
      → Calm r (produce U I F O type header source)
  unfolding produce
  produce-Calm original_chunk header (some source) r =
      bind-Calm left
        (require U I F O (same_bytes source.hash header.digest) integrity_mismatch
          original_mismatch)
        (λ u. read_old U I F O source cannot_read_chunk) r
        (require-Calm (same_bytes source.hash header.digest) integrity_mismatch original_mismatch r
          (λ h. cc))
        (λ u r' e. read_old-Calm source cannot_read_chunk r' (λ h. cc))
  produce-Calm original_chunk header none r = record { fine = λ h. cc; shorter = omega arith }
  produce-Calm added_chunk header source r =
      bind-Calm left (reader U I F O (read_payload I header.out_size))
        (checked header added_mismatch) r
        (delta-Calm (reading I (read_payload I header.out_size)) r (
          reading-Calm I laws (read_payload I header.out_size) r.delta
            (read_payload-Shrinks I laws header.out_size r.delta)))
        (λ produced r' e. checked-Calm header added_mismatch produced r' (λ h. cc))
  produce-Calm modified_chunk header (some source) r =
      bind-Calm left (read_old U I F O source cannot_read_source) patched r
        (read_old-Calm source cannot_read_source r (λ h. cc))
        (λ old_data r' e.
          bind-Calm left (from_delta U I F O (apply_diff I old_data header.out_size))
            (checked header modified_mismatch) r'
            (delta-Calm (apply_diff I old_data header.out_size) r'
              (apply_diff-Calm I laws old_data header.out_size r'.delta))
            (λ produced r'' e'. checked-Calm header modified_mismatch produced r'' (λ h. cc)))
    where
      patched : Bytes → Action DeltaError State Bytes
      patched old_data =
          from_delta U I F O (apply_diff I old_data header.out_size)
          >>= checked header modified_mismatch
  produce-Calm modified_chunk header none r = record { fine = λ h. cc; shorter = omega arith }

  -- After the header of an entry.
  abbrev after_header : ℕ → List SignedChunk → DeltaEntryHeader → Action DeltaError State (Unit {0})
  after_header max chunks header = source_of U I F O chunks header >>= λ source.
      (produce U I F O header.type header source >>= append_chunk U I F O max)

  after_header-Calm :
      (max : ℕ) (chunks : List SignedChunk) (header : DeltaEntryHeader) (r : State)
      → Calm r (after_header max chunks header)
  after_header-Calm max chunks header r =
      bind-Calm left (source_of U I F O chunks header)
        (λ source. produce U I F O header.type header source >>= append_chunk U I F O max) r
        (source_of-Calm chunks header r)
        (λ source r' e.
          bind-Calm left (produce U I F O header.type header source) (append_chunk U I F O max) r'
            (produce-Calm header.type header source r')
            (λ bytes r'' e'. append_chunk-Calm max bytes r''))

  header_step : (r : State) → Calm r (reader U I F O (read_entry_header I))
  header_step r = delta-Calm (reading I (read_entry_header I)) r (
      reading-Calm I laws (read_entry_header I) r.delta
        ((read_entry_header-Progress I laws).shrinks r.delta))

  apply_entry-Calm :
      (max : ℕ) (chunks : List SignedChunk) (r : State) → Calm r (apply_entry U I F O max chunks)
  unfolding apply_entry
  apply_entry-Calm max chunks r =
      bind-Calm left (reader U I F O (read_entry_header I)) (after_header max chunks) r
        (header_step r) (λ header r' e. after_header-Calm max chunks header r')

  -- An entry that is applied has taken a byte.
  abbrev Took : State → {A : Type 0} → Result DeltaError A → State → Type 0
  Took r (ok a) r' = left r' < left r
  Took r (err e) r' = Unit {0}

  took : {A : Type 0} (r r' : State) (x : Result DeltaError A) → left r' < left r → Took r x r'
  took r r' (ok a) h = h
  took r r' (err e) h = tt

  apply_entry-Took :
      (max : ℕ) (chunks : List SignedChunk) (r : State)
      → Took r (apply_entry U I F O max chunks r).0 (apply_entry U I F O max chunks r).1
  unfolding apply_entry
  apply_entry-Took max chunks r =
      bind-cases (Took r) (reader U I F O (read_entry_header I)) (after_header max chunks) r
        (λ e r' eq. tt)
        (λ header r' eq.
          took r (after_header max chunks header r').1 (after_header max chunks header r').0 (
            omega (
              arith,
              (after_header-Calm max chunks header r').shorter,
              reading-takes I laws (read_entry_header I) (read_entry_header-Progress I laws) r.delta
                  (λ i. ((eq i).0, (eq i).1.delta)),
            )))

  apply_trailer-Calm : (r : State) → Calm r (apply_trailer U I F O)
  unfolding apply_trailer
  apply_trailer-Calm r =
      bind-Calm left (reader U I F O (read_trailer I U.hash_size)) compared r
        (delta-Calm (reading I (read_trailer I U.hash_size)) r (
          reading-Calm I laws (read_trailer I U.hash_size) r.delta
            (read_trailer-Shrinks I laws U.hash_size r.delta)))
        (λ expected r' e.
          require-Calm (same_bytes (U.finalize r'.whole_file_hash) expected) integrity_mismatch
            whole_file_mismatch r' (λ h. cc))
    where
      compared : Bytes → Action DeltaError State (Unit {0})
      compared expected r =
          require U I F O (same_bytes (U.finalize r.whole_file_hash) expected) integrity_mismatch
            whole_file_mismatch r

  apply_entries-Calm :
      (fuel max : ℕ) (chunks : List SignedChunk) (r : State)
      → left r < fuel
      → Calm r (apply_entries U I F O fuel max chunks)
  unfolding apply_entries
  apply_entries-Calm zero max chunks r enough = absurd (omega arith)
  apply_entries-Calm (suc fuel) max chunks r enough =
      let c = go (λ r' h. apply_entries-Calm fuel max chunks r' h) (next_item I r.delta).0 in
      record { fine = c.fine; shorter = omega (arith, c.shorter, next_item-left I laws r.delta) }
    where
      r₀ : State
      r₀ = record r { delta = (next_item I r.delta).1 }

      next_step : Item → Action DeltaError State Bool
      next_step item = elim item [
        | end_of_stream ↦ pure false
        | trailer ↦ apply_trailer U I F O >>= λ u. pure true
        | entry ↦ apply_entry U I F O max chunks >>= λ u. apply_entries U I F O fuel max chunks
      ]

      go :
          ((r' : State) → left r' < fuel → Calm r' (apply_entries U I F O fuel max chunks))
          → (item : Item) → Calm r₀ (next_step item)
      go again end_of_stream = record { fine = tt; shorter = omega arith }
      go again trailer =
          bind-Calm left (apply_trailer U I F O) (λ u. pure true) r₀ (apply_trailer-Calm r₀)
            (λ u r' e. record { fine = tt; shorter = omega arith })
      go again entry =
          bind-Calm left (apply_entry U I F O max chunks)
            (λ u. apply_entries U I F O fuel max chunks) r₀ (apply_entry-Calm max chunks r₀)
            (λ u r' e. again r' (
              omega (
                arith,
                enough,
                next_item-left I laws r.delta,
                subst (λ z. Took r₀ z.0 z.1) e (apply_entry-Took max chunks r₀),
              )))

  -- For a delta that is read forward, of any bytes, and any other files, hash, limit and
  -- signature: the loops over the entries and over the opcodes end within the rounds that the
  -- model gives them, so no result of `apply_delta` is the model's running out of fuel.
  pub apply_stream-Fine :
      (max : ℕ) (chunks : List SignedChunk) (r : State) → Fine (apply_stream U I F O max chunks r).0
  unfolding apply_stream
  apply_stream-Fine max chunks r =
      (bind-Calm left (reader U I F O (read_header I)) (λ u r. walked (suc (I.left r.delta)) r) r
        (delta-Calm (reading I (read_header I)) r
          (reading-Calm I laws (read_header I) r.delta (read_header-Shrinks I laws r.delta)))
        (λ u r₁ e.
          bind-Calm left (apply_entries U I F O (suc (I.left r₁.delta)) max chunks) ended r₁
            (apply_entries-Calm (suc (I.left r₁.delta)) max chunks r₁ (omega arith))
            (λ saw r₂ e'. delta-Calm (reading I (finish I saw)) r₂ (
              reading-Calm I laws (finish I saw) r₂.delta
                (finish-Shrinks I laws saw r₂.delta))))).fine
    where
      ended : Bool → Action DeltaError State (Unit {0})
      ended saw = reader U I F O (finish I saw)

      walked : ℕ → Action DeltaError State (Unit {0})
      walked fuel = apply_entries U I F O fuel max chunks >>= ended
