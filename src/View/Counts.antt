-- ===== src/View/Counts.antt =====
-- The count of entries in the statistics of `apply_delta_impl` of src/Apply.hpp, which the viewer counts too.
use roll.Prelude.{ℕ, ◌+◌, ◌≡◌, refl, sym, ap, ◌∙◌, Option, List, arith}
use roll.Io.{Bytes, ByteInput, FileInput, ByteOutput}
use roll.Io.Action.{ok, Action, ◌>>=◌}
use roll.Codec.Reader.{DeltaEntryHeader, read_entry_header}
use roll.Error.{ApplyStats, DeltaError}
use roll.Hash.{StrongHash, SignedChunk}
use roll.Apply.Entries.{
  ApplyRun, reader, source_of, produce, append_chunk, apply_entry, apply_trailer,
}
use roll.Apply.Entries.Untouched.{source_of-Keeps, produce-Keeps, apply_trailer-Keeps}
use roll.View.Follows.{bind-inv}

module _ (U : StrongHash) (I : ByteInput) (F : FileInput) (O : ByteOutput) where
  abbrev State : Type 0
  State = ApplyRun U I F O

  abbrev Counts : ℕ → O.State → ApplyStats → Type 0
  Counts n out stats = stats.entries_processed ≡ n

  append_chunk-counts :
      (max : ℕ) (bytes : Bytes) (r r' : State) {u : Unit {0}}
      → append_chunk U I F O max bytes r ≡ (ok u, r')
      → r'.stats.entries_processed ≡ r.stats.entries_processed + 1
  unfolding append_chunk
  append_chunk-counts max bytes r r' h = ground (arith, h)

  -- An entry that is applied counts one.
  pub apply_entry-counts :
      (max : ℕ) (chunks : List SignedChunk) (r r' : State) {u : Unit {0}}
      → apply_entry U I F O max chunks r ≡ (ok u, r')
      → r'.stats.entries_processed ≡ r.stats.entries_processed + 1
  unfolding apply_entry
  apply_entry-counts max chunks r r' h =
      let (header, r₁, e₁, e₂) = bind-inv (reader U I F O (read_entry_header I)) sourced h in
      let (source, r₂, e₃, e₄) = bind-inv (source_of U I F O chunks header) (made header) e₂ in
      let (bytes, r₃, e₅, e₆) =
        bind-inv (produce U I F O header.type header source) (append_chunk U I F O max) e₄ in
      append_chunk-counts max bytes r₃ r' e₆
      ∙ ap (λ (n : ℕ). n + 1)
          (sym (ap (λ p. p.1.stats.entries_processed) e₅)
            ∙ produce-Keeps U I F O (Counts r₂.stats.entries_processed) header.type header source r₂
                refl
            ∙ sym (ap (λ p. p.1.stats.entries_processed) e₃)
            ∙ source_of-Keeps U I F O (Counts r₁.stats.entries_processed) chunks header r₁ refl
            ∙ sym (ap (λ p. p.1.stats.entries_processed) e₁))
    where
      made : DeltaEntryHeader → Option SignedChunk → Action DeltaError State (Unit {0})
      made header source = produce U I F O header.type header source >>= append_chunk U I F O max

      sourced : DeltaEntryHeader → Action DeltaError State (Unit {0})
      sourced header = source_of U I F O chunks header >>= made header

  -- The trailer counts nothing.
  pub apply_trailer-counts :
      (r r' : State) {u : Unit {0}}
      → apply_trailer U I F O r ≡ (ok u, r')
      → r'.stats.entries_processed ≡ r.stats.entries_processed
  apply_trailer-counts r r' h =
      sym (ap (λ p. p.1.stats.entries_processed) h)
      ∙ apply_trailer-Keeps U I F O (Counts r.stats.entries_processed) r refl
