-- ===== src/Apply/Entries/Stream.antt =====
-- The applier of src/Apply.hpp on a whole delta: the header, the records and the trailer.
use roll.Prelude.{
  ℕ, zero, suc, ◌+◌, ◌≤◌, ◌<◌, ◌≡◌, refl, sym, ap, ◌∙◌, true, List, [], ◌∷◌, ◌++◌, length,
  same_bytes_self, append_assoc, append-nil, length-append, arith,
}
use roll.Format.{delta_magic, delta_format_version, delta_trailer_tag}
use roll.Io.{Bytes}
use roll.Io.Action.{ok}
use roll.Io.Memory.{memory_input, memory_file, memory_output}
use roll.Codec.Reader.{entry, next_item, read_header, finish}
use roll.Codec.RoundTrip.Records.{read_trailer_lem}
use roll.Hash.{StrongHash, IsStrongHash, SignedChunk}
use roll.Apply.Patch.Loop.{EndsRun}
use roll.Apply.Entries.{apply_entry, apply_trailer, apply_entries, apply_stream}
use roll.Apply.Entries.Complete.{
  Describes, original, added, modified, run, MemoryRun, apply_entry-Describes,
}

-- The bytes of `DeltaWriter::write_header`.
abbrev pub header_bytes : Bytes
header_bytes = delta_magic ++ (0 ∷ 0 ∷ 0 ∷ delta_format_version ∷ [])

module _ (U : StrongHash) where
  -- The records of a whole new file, chunk after chunk, and how many they are.
  pub data Records (old : Bytes) (chunks : List SignedChunk) : ℕ → Bytes → Bytes → Type 0 where
    done : Records old chunks 0 [] []
    more :
        {count : ℕ} {rec bytes recs news : Bytes}
        → Describes U old chunks rec bytes
        → Records old chunks count recs news
        → Records old chunks (suc count) (rec ++ recs) (bytes ++ news)

  -- A record begins with its tag.
  Describes-tag :
      {old rec bytes : Bytes} {chunks : List SignedChunk} (rest : Bytes)
      → Describes U old chunks rec bytes
      → (next_item memory_input (rec ++ rest) ≡ (entry, rec ++ rest))
        × EndsRun (rec ++ rest)
        × (0 < length rec)
  unfolding next_item
  Describes-tag rest (original i c hi there sized at w) = rw w (refl, refl, omega arith)
  Describes-tag rest (added small w) = rw w (refl, refl, omega arith)
  Describes-tag rest (modified i c old_data diff hi there at small patches w) =
      rw w (refl, refl, omega arith)

  Records-EndsRun :
      {count : ℕ} {old recs news : Bytes} {chunks : List SignedChunk} (rest : Bytes)
      → Records old chunks count recs news
      → EndsRun rest
      → EndsRun (recs ++ rest)
  Records-EndsRun rest done h = h
  Records-EndsRun rest (more {rec} {recs = recs} d r) h =
      rw (append_assoc rec recs rest) ((Describes-tag (recs ++ rest) d).1)

  apply_trailer_lem :
      (old out digest : Bytes) (h : U.State) (n written : ℕ)
      → U.finalize h ≡ digest
      → length digest ≡ U.hash_size
      → apply_trailer U memory_input memory_file memory_output
          (run U (delta_trailer_tag ∷ digest) old out h n written)
        ≡ (ok tt, run U [] old out h n written)
  unfolding apply_trailer
  apply_trailer_lem old out digest h n written e sized =
      rw (read_trailer_lem digest U.hash_size sized, e, same_bytes_self digest)

  -- A round of the loop over a record.
  apply_entries_step :
      (fuel max : ℕ) (chunks : List SignedChunk) (r r' : MemoryRun U)
      → next_item memory_input r.delta ≡ (entry, r.delta)
      → apply_entry U memory_input memory_file memory_output max chunks r ≡ (ok tt, r')
      → apply_entries U memory_input memory_file memory_output (suc fuel) max chunks r
        ≡ apply_entries U memory_input memory_file memory_output fuel max chunks r'
  unfolding apply_entries
  apply_entries_step fuel max chunks r r' e1 e2 = ground arith

  -- The round at the trailer.
  apply_entries_last :
      (fuel max : ℕ) (chunks : List SignedChunk) (old out digest : Bytes) (h : U.State)
      (n written : ℕ)
      → U.finalize h ≡ digest
      → length digest ≡ U.hash_size
      → apply_entries U memory_input memory_file memory_output
          (suc fuel)
          max
          chunks
          (run U (delta_trailer_tag ∷ digest) old out h n written)
        ≡ (ok true, run U [] old out h n written)
  unfolding apply_entries next_item
  apply_entries_last fuel max chunks old out digest h n written e sized =
      rw (apply_trailer_lem old out digest h n written e sized) refl

  module _ (laws : IsStrongHash U) where
    -- The loop over the records of a new file and the trailer with its hash.
    apply_entries-Records :
        {count : ℕ} {old recs news : Bytes} {chunks : List SignedChunk} (fuel max : ℕ)
        (out digest : Bytes) (h : U.State) (n written : ℕ)
        → Records old chunks count recs news
        → U.finalize (U.update news h) ≡ digest
        → length digest ≡ U.hash_size
        → written + length news ≤ max
        → length recs < fuel
        → apply_entries U memory_input memory_file memory_output fuel max chunks
            (run U (recs ++ (delta_trailer_tag ∷ digest)) old out h n written)
          ≡ (
            ok true,
            run U [] old (out ++ news) (U.update news h) (n + count) (written + length news),
          )
    apply_entries-Records zero max out digest h n written r e sized fits enough =
        absurd (omega arith)
    apply_entries-Records {old = old} {chunks = chunks} (suc fuel) max out digest h n written done e
          sized fits enough =
        apply_entries_last fuel max chunks old out digest h n written
          (ap U.finalize (sym (laws.update-nil h)) ∙ e) sized
        ∙ λ i. (ok true, run U [] old (unappended i) (unhashed i) (nothing n i) (nothing written i))
      where
        nothing : (k : ℕ) → k ≡ k + 0
        nothing k = omega arith

        unappended : out ≡ out ++ []
        unappended = sym (append-nil out)

        unhashed : h ≡ U.update [] h
        unhashed = sym (laws.update-nil h)
    apply_entries-Records {old = old} {chunks = chunks} (suc fuel) max out digest h n written
          (more {count} {rec} {bytes} {recs} {news} d r) e sized fits enough =
        rw (append_assoc rec recs (delta_trailer_tag ∷ digest)) (
          apply_entries_step fuel max chunks
            (run U (rec ++ (recs ++ (delta_trailer_tag ∷ digest))) old out h n written)
            (run U (recs ++ (delta_trailer_tag ∷ digest)) old (out ++ bytes) (U.update bytes h)
              (n + 1) (written + length bytes))
            (tagged.0)
            (apply_entry-Describes U laws max (recs ++ (delta_trailer_tag ∷ digest)) out h n written
              d (Records-EndsRun (delta_trailer_tag ∷ digest) r refl) (omega (arith, both)))
          ∙ apply_entries-Records fuel max (out ++ bytes) digest (U.update bytes h) (n + 1)
              (written + length bytes) r (ap U.finalize (laws.update-update bytes news h) ∙ e) sized
              (omega (arith, both)) (omega (arith, length-append rec recs, tagged.2))
          ∙ λ i. (
            ok true,
            run U [] old (append_assoc out bytes news i) (laws.update-update bytes news h i)
                (counted i) (sums i),
          ))
      where
        tagged :
            (next_item memory_input (rec ++ (recs ++ (delta_trailer_tag ∷ digest)))
              ≡ (entry, rec ++ (recs ++ (delta_trailer_tag ∷ digest))))
            × EndsRun (rec ++ (recs ++ (delta_trailer_tag ∷ digest)))
            × (0 < length rec)
        tagged = Describes-tag (recs ++ (delta_trailer_tag ∷ digest)) d

        both : length (bytes ++ news) ≡ length bytes + length news
        both = length-append bytes news

        counted : n + 1 + count ≡ n + suc count
        counted = omega arith

        sums : written + length bytes + length news ≡ written + length (bytes ++ news)
        sums = omega (arith, both)

    -- For a hash with the stated laws: `apply_delta` on a delta of a header, one record for each
    -- chunk of the new file in turn and the new file's hash behind the trailer tag accepts it. It
    -- writes the new file, no more and no less, and counts its records and bytes, when the limit
    -- on the output admits the new file.
    pub apply_stream-Records :
        {count : ℕ} {old recs news : Bytes} {chunks : List SignedChunk} (max : ℕ)
        → Records old chunks count recs news
        → length news ≤ max
        → apply_stream U memory_input memory_file memory_output max chunks
            (run U (header_bytes ++ (recs ++ (delta_trailer_tag ∷ U.hash news))) old [] U.init 0 0)
          ≡ (ok tt, run U [] old news (U.update news U.init) count (length news))
    unfolding apply_stream read_header finish
    apply_stream-Records {count} {old} {recs} {news} {chunks} max r fits = rw looped refl
      where
        fuel : ℕ
        fuel = suc (length (recs ++ (delta_trailer_tag ∷ U.hash news)))

        sized : length (U.hash news) ≡ U.hash_size
        sized = rw (laws.hash_lem news) (laws.length-finalize (U.update news U.init))

        left_zero : (k : ℕ) → 0 + k ≡ k
        left_zero k = omega arith

        looped :
            apply_entries U memory_input memory_file memory_output fuel max chunks
              (run U (recs ++ (delta_trailer_tag ∷ U.hash news)) old [] U.init 0 0)
            ≡ (ok true, run U [] old news (U.update news U.init) count (length news))
        looped =
            apply_entries-Records fuel max [] (U.hash news) U.init 0 0 r (sym (laws.hash_lem news))
              sized (omega arith)
              (omega (arith, length-append recs (delta_trailer_tag ∷ U.hash news)))
            ∙ λ i. (
              ok true,
              run U [] old news (U.update news U.init) (left_zero count i)
                  (left_zero (length news) i),
            )
