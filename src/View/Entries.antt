-- ===== src/View/Entries.antt =====
-- One entry, and the trailer, in the viewer of src/DeltaViewer.cpp and in the applier of src/Apply.hpp.
use roll.Prelude.{ℕ, ◌≡◌, refl, sym, ap, subst, ◌∙◌, Option, none, some, List, ◌++◌, same_bytes}
use roll.Format.{EntryType, original_chunk, added_chunk, modified_chunk}
use roll.Io.{Bytes, ByteInput, FileInput, ByteOutput}
use roll.Io.Action.{ok, Action, ◌>>=◌, pure}
use roll.Codec.Reader.{DeltaEntryHeader, read_entry_header, read_payload, read_trailer}
use roll.Error.{
  DeltaError, integrity_mismatch, original_mismatch, added_mismatch, modified_mismatch,
  whole_file_mismatch, cannot_read_chunk, cannot_read_source,
}
use roll.Hash.{StrongHash, SignedChunk}
use roll.Apply.Patch.{reading, apply_diff}
use roll.Apply.Entries.{
  ApplyRun, from_delta, reader, require, source_of, read_old, produce, append_chunk, apply_entry,
  apply_trailer, verify_digest,
}
use roll.View.Follows.{
  bind-inv, at, Goes, Goes-bind, Goes-viewed, Goes-print, Goes-pure, apply_diff-Goes, require-delta,
  read_old-delta, source_of-delta, append_chunk-delta,
}
use roll.View.{
  Console, Viewing, View, print, parse_diff_data, view_body, view_entry, view_trailer, added_lines,
  diff_lines, header_lines, trailer_lines, newline,
}

module _ (console : Console) (U : StrongHash) (I : ByteInput) (F : FileInput) (O : ByteOutput) where
  abbrev pub State : Type 0
  State = ApplyRun U I F O

  -- A step that the applier takes in the delta.
  pub delta_step :
      {A : Type 0} (m : Action DeltaError I.State A) (r r' : State) {a : A}
      → from_delta U I F O m r ≡ (ok a, r')
      → m r.delta ≡ (ok a, r'.delta)
  delta_step m r r' e = λ i. ((e i).0, (e i).1.delta)

  -- To move the end.
  pub ends-at :
      {B : Type 0} {n : View console I B} {v : Viewing I.State} {s s' : I.State}
      → Goes console I n v s
      → s ≡ s'
      → Goes console I n v s'
  ends-at {n = n} {v = v} g e = subst (Goes console I n v) e g

  -- The body of an entry that the applier produces.
  produce-Goes :
      (type : EntryType) (header : DeltaEntryHeader) (source : Option SignedChunk) (r r' : State)
      {bytes : Bytes} (printed : Bytes)
      → produce U I F O type header source r ≡ (ok bytes, r')
      → Goes console I (view_body console I type header) (at console I r.delta printed) r'.delta
  unfolding produce view_body
  produce-Goes original_chunk header (some source) r r' printed h =
      let (u, r₁, e₁, e₂) =
        bind-inv
          (require U I F O (same_bytes source.hash header.digest) integrity_mismatch
            original_mismatch)
          (λ u. read_old U I F O source cannot_read_chunk) h in
      let g = Goes-pure console I {b = tt} {printed = printed} (
        require-delta console I U F O _ integrity_mismatch original_mismatch r r₁ e₁
        ∙ read_old-delta console I U F O source cannot_read_chunk r₁ r' e₂) in
      record { value = g.value; printed = g.printed; runs = g.runs }
  produce-Goes original_chunk header none r r' printed h = absurd cc
  produce-Goes added_chunk header source r r' printed h =
      let (raw, r₁, e₁, e₂) =
        bind-inv (reader U I F O (read_payload I header.out_size)) checked h in
      let (u, r₂, e₃, e₄) =
        bind-inv
          (require U I F O (verify_digest U raw header.digest) integrity_mismatch added_mismatch)
          (λ u. pure raw) e₂ in
      let g =
        Goes-viewed console I (reading I (read_payload I header.out_size))
          (λ raw. print console I (added_lines console raw))
          (delta_step (reading I (read_payload I header.out_size)) r r₁ e₁)
          (record { value = tt; printed = _; runs = refl }) in
      ends-at (record { value = g.value; printed = g.printed; runs = g.runs })
        (require-delta console I U F O _ integrity_mismatch added_mismatch r₁ r₂ e₃
          ∙ ap (λ z. z.1.delta) e₄)
    where
      checked : Bytes → Action DeltaError State Bytes
      checked raw =
          require U I F O (verify_digest U raw header.digest) integrity_mismatch added_mismatch
          >>= λ u. pure raw
  produce-Goes modified_chunk header (some source) r r' printed h =
      let (old_data, r₁, e₁, e₂) =
        bind-inv (read_old U I F O source cannot_read_source) patched h in
      let (made, r₂, e₃, e₄) =
        bind-inv (from_delta U I F O (apply_diff I old_data header.out_size)) checked e₂ in
      let (u, r₃, e₅, e₆) =
        bind-inv
          (require U I F O (verify_digest U made header.digest) integrity_mismatch
            modified_mismatch)
          (λ u. pure made) e₄ in
      let g =
        Goes-bind console I (parse_diff_data console I)
          (λ n. print console I (diff_lines console n.0 n.1))
          (apply_diff-Goes console I old_data made header.out_size r₁.delta r₂.delta _
            (delta_step (apply_diff I old_data header.out_size) r₁ r₂ e₃))
          (λ n printed'. record { value = tt; printed = _; runs = refl }) in
      ends-at
        (subst
          (λ z.
            Goes console I (view_body console I modified_chunk header) (at console I z printed)
              r₂.delta)
          (sym (read_old-delta console I U F O source cannot_read_source r r₁ e₁))
          (record { value = g.value; printed = g.printed; runs = g.runs }))
        (require-delta console I U F O _ integrity_mismatch modified_mismatch r₂ r₃ e₅
          ∙ ap (λ z. z.1.delta) e₆)
    where
      checked : Bytes → Action DeltaError State Bytes
      checked made =
          require U I F O (verify_digest U made header.digest) integrity_mismatch modified_mismatch
          >>= λ u. pure made

      patched : Bytes → Action DeltaError State Bytes
      patched old_data = from_delta U I F O (apply_diff I old_data header.out_size) >>= checked
  produce-Goes modified_chunk header none r r' printed h = absurd cc

  pub apply_entry-Goes :
      (max chunk_num : ℕ) (chunks : List SignedChunk) (r r' : State) {u : Unit {0}}
      (printed : Bytes)
      → apply_entry U I F O max chunks r ≡ (ok u, r')
      → Goes console I (view_entry console I chunk_num) (at console I r.delta printed) r'.delta
  unfolding apply_entry view_entry
  apply_entry-Goes max chunk_num chunks r r' printed h =
      let (header, r₁, e₁, e₂) = bind-inv (reader U I F O (read_entry_header I)) sourced h in
      let (source, r₂, e₃, e₄) = bind-inv (source_of U I F O chunks header) (made header) e₂ in
      let (bytes, r₃, e₅, e₆) =
        bind-inv (produce U I F O header.type header source) (append_chunk U I F O max) e₄ in
      let g =
        Goes-viewed console I (reading I (read_entry_header I))
          (λ header. print console I (header_lines console chunk_num header) >>= λ u. shown header)
          (delta_step (reading I (read_entry_header I)) r r₁ e₁)
          (Goes-print console I (λ u. shown header) _
            (Goes-bind console I (view_body console I header.type header)
              (λ u. print console I newline)
              (subst
                (λ z.
                  Goes console I (view_body console I header.type header)
                    (at console I z (printed ++ header_lines console chunk_num header)) r₃.delta)
                (sym (source_of-delta console I U F O chunks header r₁ r₂ e₃))
                (produce-Goes header.type header source r₂ r₃ _ e₅))
              (λ u p. record { value = tt; printed = _; runs = refl }))) in
      ends-at (record { value = g.value; printed = g.printed; runs = g.runs })
        (append_chunk-delta console I U F O max bytes r₃ r' e₆)
    where
      made : DeltaEntryHeader → Option SignedChunk → Action DeltaError State (Unit {0})
      made header source = produce U I F O header.type header source >>= append_chunk U I F O max

      sourced : DeltaEntryHeader → Action DeltaError State (Unit {0})
      sourced header = source_of U I F O chunks header >>= made header

      shown : DeltaEntryHeader → View console I (Unit {0})
      shown header = view_body console I header.type header >>= λ u. print console I newline

  pub apply_trailer-Goes :
      (r r' : State) {u : Unit {0}} (printed : Bytes)
      → apply_trailer U I F O r ≡ (ok u, r')
      → Goes console I (view_trailer console I U.hash_size) (at console I r.delta printed) r'.delta
  unfolding apply_trailer view_trailer
  apply_trailer-Goes r r' printed h =
      let (expected, r₁, e₁, e₂) =
        bind-inv (reader U I F O (read_trailer I U.hash_size)) checked h in
      let g =
        Goes-viewed console I (reading I (read_trailer I U.hash_size))
          (λ digest. print console I (trailer_lines digest))
          (delta_step (reading I (read_trailer I U.hash_size)) r r₁ e₁)
          (record { value = tt; printed = _; runs = refl }) in
      ends-at (record { value = g.value; printed = g.printed; runs = g.runs })
        (require-delta console I U F O _ integrity_mismatch whole_file_mismatch r₁ r' e₂)
    where
      checked : Bytes → Action DeltaError State (Unit {0})
      checked expected r =
          require U I F O (same_bytes (U.finalize r.whole_file_hash) expected) integrity_mismatch
            whole_file_mismatch r
