-- ===== src/Apply/Entries/Limit.antt =====
-- The limit of `apply_delta` of src/Apply.hpp on its output, for any bytes in place of the delta and an output that may fail.
use roll.Prelude.{
  ℕ, zero, suc, ◌-◌, ◌≤◌, ◌≡◌, refl, ap, Bool, true, false, Option, List, ◌++◌, ltb, length, take,
  length-append, length-take, arith,
}
use roll.Io.{Bytes, ByteInput, FileInput, ByteOutput}
use roll.Io.Action.{Result, ok, err, Action, continue, ◌>>=◌, pure}
use roll.Codec.Reader.{
  DeltaEntryHeader, Item, entry, trailer, end_of_stream, next_item, read_header, read_entry_header,
  finish,
}
use roll.Error.{ApplyStats, DeltaError}
use roll.Hash.{StrongHash, SignedChunk}
use roll.Apply.Patch.{reading}
use roll.Apply.Entries.{
  ApplyRun, reader, source_of, produce, append_chunk, apply_entry, apply_trailer, apply_entries,
  apply_stream,
}
use roll.Apply.Entries.Untouched.{
  Keeps, delta-Keeps, source_of-Keeps, produce-Keeps, apply_trailer-Keeps,
}

-- What the applier relies on in its output: a write that succeeds appends the bytes, and one that fails may have appended
-- the first of them.
pub record Appends (O : ByteOutput) : Type 0 where
  pub content : O.State → Bytes
  pub write-succeeds :
      (bytes : Bytes) (s : O.State)
      → (O.write_chunk bytes s).0 ≡ true
      → content (O.write_chunk bytes s).1 ≡ content s ++ bytes
  pub write-fails :
      (bytes : Bytes) (s : O.State)
      → (O.write_chunk bytes s).0 ≡ false
      → (n : ℕ) × (content (O.write_chunk bytes s).1 ≡ content s ++ take n bytes)

module _ (O : ByteOutput) (laws : Appends O) (max : ℕ) where
  -- What was written is counted, and within the limit.
  pub record IsWithin (out : O.State) (stats : ApplyStats) : Type 0 where
    pub counted : length (laws.content out) ≡ stats.bytes_written
    pub limited : stats.bytes_written ≤ max

  -- Behind a write that failed: no byte is counted that is not there, and what is there is within the limit.
  pub record IsBelow (out : O.State) (stats : ApplyStats) : Type 0 where
    pub counted : stats.bytes_written ≤ length (laws.content out)
    pub limited : length (laws.content out) ≤ max

  below : {out : O.State} {stats : ApplyStats} → IsWithin out stats → IsBelow out stats
  below h = record { counted = omega arith; limited = omega arith }

  -- By the result: exact after a success.
  abbrev pub Ends : {A : Type 0} → Result DeltaError A → O.State → ApplyStats → Type 0
  Ends (ok a) = IsWithin
  Ends (err e) = IsBelow

  module _ (U : StrongHash) (I : ByteInput) (F : FileInput) where
    abbrev State : Type 0
    State = ApplyRun U I F O

    abbrev Good : {A : Type 0} → Action DeltaError State A → Type 0
    Good m = (r : State) → IsWithin r.output r.stats → Ends (m r).0 (m r).1.output (m r).1.stats

    bind-Good :
        {A B : Type 0} (m : Action DeltaError State A) (f : A → Action DeltaError State B)
        → Good m
        → ((a : A) → Good (f a))
        → Good (m >>= f)
    bind-Good {A} {B} m f k l r h = go (m r).0 (m r).1 (k r h)
      where
        go :
            (x : Result DeltaError A) (r' : State)
            → Ends x r'.output r'.stats
            → Ends (continue x f r').0 (continue x f r').1.output (continue x f r').1.stats
        go (ok a) r' w = l a r' w
        go (err e) r' w = w

    Keeps-Good : {A : Type 0} (m : Action DeltaError State A) → Keeps U I F O IsWithin m → Good m
    Keeps-Good {A} m k r h = go (m r).0 (k r h)
      where
        go :
            (x : Result DeltaError A)
            → IsWithin (m r).1.output (m r).1.stats
            → Ends x (m r).1.output (m r).1.stats
        go (ok a) w = w
        go (err e) w = below w

    append_chunk-Good : (bytes : Bytes) → Good (append_chunk U I F O max bytes)
    unfolding append_chunk
    append_chunk-Good bytes r h =
        go (ltb (max - r.stats.bytes_written) (length bytes)) refl (O.write_chunk bytes r.output).0
          refl
      where
        go :
            (b : Bool)
            → ltb (max - r.stats.bytes_written) (length bytes) ≡ b
            → (written : Bool) → (O.write_chunk bytes r.output).0 ≡ written
            → Ends
                (append_chunk U I F O max bytes r).0
                (append_chunk U I F O max bytes r).1.output
                (append_chunk U I F O max bytes r).1.stats
        go true e b e' = rw e (below h)
        go false e true e' =
            rw (e, e')
              (record {
                counted = omega (
                  arith,
                  h.counted,
                  ap length (laws.write-succeeds bytes r.output e'),
                  length-append (laws.content r.output) bytes,
                );
                limited = ground (arith, h.limited);
              })
        go false e false e' =
            let (n, p) = laws.write-fails bytes r.output e' in
            let q = length-append (laws.content r.output) (take n bytes) in
            rw (e, e')
              (record {
                counted = omega (arith, h.counted, ap length p, q);
                limited = ground (arith, h.limited, h.counted, ap length p, q, length-take n bytes);
              })

    apply_entry-Good : (chunks : List SignedChunk) → Good (apply_entry U I F O max chunks)
    unfolding apply_entry
    apply_entry-Good chunks =
        bind-Good (reader U I F O (read_entry_header I)) sourced
          (Keeps-Good (reader U I F O (read_entry_header I))
            (delta-Keeps U I F O IsWithin (reading I (read_entry_header I))))
          (λ header.
            bind-Good (source_of U I F O chunks header) (made header)
              (Keeps-Good (source_of U I F O chunks header)
                (source_of-Keeps U I F O IsWithin chunks header))
              (λ source.
                bind-Good (produce U I F O header.type header source) (append_chunk U I F O max)
                  (Keeps-Good (produce U I F O header.type header source)
                    (produce-Keeps U I F O IsWithin header.type header source))
                  append_chunk-Good))
      where
        made : DeltaEntryHeader → Option SignedChunk → Action DeltaError State (Unit {0})
        made header source = produce U I F O header.type header source >>= append_chunk U I F O max

        sourced : DeltaEntryHeader → Action DeltaError State (Unit {0})
        sourced header = source_of U I F O chunks header >>= made header

    apply_entries-Good :
        (fuel : ℕ) (chunks : List SignedChunk) → Good (apply_entries U I F O fuel max chunks)
    unfolding apply_entries
    apply_entries-Good zero chunks r h = below h
    apply_entries-Good (suc fuel) chunks r h =
        go (apply_entries-Good fuel chunks) (next_item I r.delta).0
          (record r { delta = (next_item I r.delta).1 }) h
      where
        next_step : Item → Action DeltaError State Bool
        next_step item = elim item [
          | end_of_stream ↦ pure false
          | trailer ↦ apply_trailer U I F O >>= λ u. pure true
          | entry ↦ apply_entry U I F O max chunks >>= λ u. apply_entries U I F O fuel max chunks
        ]

        go : Good (apply_entries U I F O fuel max chunks) → (item : Item) → Good (next_step item)
        go again end_of_stream = λ r h. h
        go again trailer =
            bind-Good (apply_trailer U I F O) (λ u. pure true)
              (Keeps-Good (apply_trailer U I F O) (apply_trailer-Keeps U I F O IsWithin))
              (λ u r h. h)
        go again entry =
            bind-Good (apply_entry U I F O max chunks) (λ u. apply_entries U I F O fuel max chunks)
              (apply_entry-Good chunks) (λ u. again)

    -- For an output whose writes append their bytes, or the first of them where they fail, that is counted and within
    -- the limit at the start, and whatever bytes the delta has and whatever files and signature there are: if
    -- `apply_delta` accepts the delta, the output has as many bytes as the statistics count, and no more than the limit;
    -- if it fails, also in a write, it has no fewer than they count, and no more than the limit.
    pub apply_stream-Ends :
        (chunks : List SignedChunk) (r : State)
        → IsWithin r.output r.stats
        → Ends
            (apply_stream U I F O max chunks r).0
            (apply_stream U I F O max chunks r).1.output
            (apply_stream U I F O max chunks r).1.stats
    unfolding apply_stream
    apply_stream-Ends chunks =
        bind-Good (reader U I F O (read_header I)) (λ u r. walked (suc (I.left r.delta)) r)
          (Keeps-Good (reader U I F O (read_header I))
            (delta-Keeps U I F O IsWithin (reading I (read_header I))))
          (λ u r.
            bind-Good (apply_entries U I F O (suc (I.left r.delta)) max chunks) ended
              (apply_entries-Good (suc (I.left r.delta)) chunks)
              (λ saw.
                Keeps-Good (ended saw) (delta-Keeps U I F O IsWithin (reading I (finish I saw))))
              r)
      where
        ended : Bool → Action DeltaError State (Unit {0})
        ended saw = reader U I F O (finish I saw)

        walked : ℕ → Action DeltaError State (Unit {0})
        walked fuel = apply_entries U I F O fuel max chunks >>= ended
