-- ===== src/View/Follows.antt =====
-- The viewer of src/DeltaViewer.cpp against the applier of src/Apply.hpp: both read a delta in the same way.
use roll.Prelude.{
  ℕ, zero, suc, ◌+◌, ◌≡◌, refl, ap, ◌∙◌, Bool, true, false, Option, List, [], ◌++◌, if◌then◌else◌,
  arith,
}
use roll.Io.{Bytes, ByteInput, FileInput, ByteOutput}
use roll.Io.Action.{Result, ok, err, Action, continue, ◌>>=◌, pure, bind-ok}
use roll.Codec.Reader.{
  ReadError, DeltaEntryHeader, DiffOpcode, at_diff_opcode, read_diff_opcode, finish_diff,
}
use roll.Error.{DeltaErrc, DeltaError, Message}
use roll.Hash.{StrongHash, SignedChunk}
use roll.Apply.Patch.{
  Patch, reading, lift, finished, apply_opcode, copy_tail, diff_loop, apply_diff,
}
use roll.Apply.Entries.{ApplyRun, require, source_of, read_old, append_chunk}
use roll.View.{
  Console, Viewing, View, viewed, print, view_opcodes, parse_diff_data, opcode_size, opcode_lines,
  more_opcodes,
}

-- A sequence that succeeds has two parts that do.
pub bind-inv :
    {E S A B : Type 0} (m : Action E S A) (f : A → Action E S B) {s s' : S} {b : B}
    → (m >>= f) s ≡ (ok b, s')
    → (a : A) × (s₁ : S) × (m s ≡ (ok a, s₁)) × (f a s₁ ≡ (ok b, s'))
bind-inv {E} {S} {A} {B} m f {s} {s'} {b} h = go (m s).0 (m s).1 refl h
  where
    go :
        (r : Result E A) (s₁ : S)
        → m s ≡ (r, s₁)
        → continue r f s₁ ≡ (ok b, s')
        → (a : A) × (s₁ : S) × (m s ≡ (ok a, s₁)) × (f a s₁ ≡ (ok b, s'))
    go (ok a) s₁ e h = (a, s₁, e, h)
    go (err x) s₁ e h = absurd cc

module _ (console : Console) (I : ByteInput) where
  abbrev pub at : I.State → Bytes → Viewing I.State
  at s printed = record { delta = s; printed = printed }

  -- The step of the viewer succeeds, and leaves the delta at `s'`.
  pub record Goes {B : Type 0} (n : View console I B) (v : Viewing I.State) (s' : I.State)
      : Type 0 where
    pub value : B
    pub printed : Bytes
    pub runs : n v ≡ (ok value, at s' printed)

  pub Goes-bind :
      {B C : Type 0} (n : View console I B) (f : B → View console I C) {v : Viewing I.State}
      {s₁ s₂ : I.State}
      → Goes n v s₁
      → ((b : B) (printed : Bytes) → Goes (f b) (at s₁ printed) s₂)
      → Goes (n >>= f) v s₂
  Goes-bind n f g k =
      let h = k g.value g.printed in
      record { value = h.value; printed = h.printed; runs = bind-ok n f g.runs ∙ h.runs }

  pub Goes-viewed :
      {B C : Type 0} (m : Action DeltaError I.State B) (f : B → View console I C)
      {s s₁ s₂ : I.State} {b : B} {printed : Bytes}
      → m s ≡ (ok b, s₁)
      → Goes (f b) (at s₁ printed) s₂
      → Goes (viewed console I m >>= f) (at s printed) s₂
  Goes-viewed m f {printed = printed} e h = record {
    value = h.value;
    printed = h.printed;
    runs = bind-ok (viewed console I m) f (λ i. ((e i).0, at (e i).1 printed)) ∙ h.runs;
  }

  pub Goes-print :
      {B : Type 0} (f : Unit {0} → View console I B) {s s₁ : I.State} {printed : Bytes}
      (bytes : Bytes)
      → Goes (f tt) (at s (printed ++ bytes)) s₁
      → Goes (print console I bytes >>= f) (at s printed) s₁
  Goes-print f bytes h = record { value = h.value; printed = h.printed; runs = h.runs }

  pub Goes-pure :
      {B : Type 0} {b : B} {s s' : I.State} {printed : Bytes}
      → s ≡ s'
      → Goes (pure b) (at s printed) s'
  Goes-pure {b = b} {printed = printed} e = record {
    value = b;
    printed = printed;
    runs = λ i. (ok b, at (e i) printed);
  }

  -- The viewer's loop over the opcodes counts those of the applier.
  record Counts (fuel size seen : ℕ) (v : Viewing I.State) (seen' : ℕ) (s' : I.State) : Type 0 where
    size' : ℕ
    printed : Bytes
    runs : view_opcodes console I fuel size seen v ≡ (ok (size', seen'), at s' printed)

  module _ (fuel size seen : ℕ) where
    abbrev next_view : DiffOpcode → View console I (ℕ × ℕ)
    next_view opcode = print console I (opcode_lines console seen opcode) >>= λ u.
        view_opcodes console I fuel (size + opcode_size opcode) (seen + 1)

    abbrev more_view : Bool → View console I (ℕ × ℕ)
    more_view more =
        if more
        then viewed console I (reading I (read_diff_opcode I)) >>= next_view
        else pure (size, seen)

  module _ (fuel target : ℕ) (p : Patch) (seen : ℕ) where
    abbrev next_patch : DiffOpcode → Action DeltaError I.State (Patch × ℕ)
    next_patch opcode =
        lift (apply_opcode target p opcode) >>= λ p'. diff_loop I fuel target p' (seen + 1)

    abbrev more_patch : Bool → Action DeltaError I.State (Patch × ℕ)
    more_patch more = if more then reading I (read_diff_opcode I) >>= next_patch else pure (p, seen)

  diff_loop-Counts :
      (fuel target size : ℕ) (p p' : Patch) (seen seen' : ℕ) (s s' : I.State) (printed : Bytes)
      → diff_loop I fuel target p seen s ≡ (ok (p', seen'), s')
      → Counts fuel size seen (at s printed) seen' s'
  unfolding diff_loop view_opcodes
  diff_loop-Counts zero target size p p' seen seen' s s' printed h = absurd cc
  diff_loop-Counts (suc fuel) target size p p' seen seen' s s' printed h =
      let c =
        go (λ z p₁ s₂ shown e. diff_loop-Counts fuel target z p₁ p' (seen + 1) seen' s₂ s' shown e)
          (at_diff_opcode I s).0 h in
      record { size' = c.0; printed = c.1; runs = c.2 }
    where
      s₁ : I.State
      s₁ = (at_diff_opcode I s).1

      Ends : View console I (ℕ × ℕ) → Viewing I.State → Type 0
      Ends n v = (size' : ℕ) × (printed' : Bytes) × (n v ≡ (ok (size', seen'), at s' printed'))

      Again : Type 0
      Again =
          (z : ℕ) (p₁ : Patch) (s₂ : I.State) (shown : Bytes)
          → diff_loop I fuel target p₁ (seen + 1) s₂ ≡ (ok (p', seen'), s')
          → Counts fuel z (seen + 1) (at s₂ shown) seen' s'

      go :
          Again
          → (more : Bool) → more_patch fuel target p seen more s₁ ≡ (ok (p', seen'), s')
          → Ends (more_view fuel size seen more) (at s₁ printed)
      go again false e = (
        size,
        printed,
        ap (λ r. (elim r.0 [ ok x ↦ ok (size, x.1) | err x ↦ err x ], at r.1 printed)) e,
      )
      go again true e =
          let (opcode, s₂, e₁, e₂) =
            bind-inv (reading I (read_diff_opcode I)) (next_patch fuel target p seen) e in
          let (p₁, s₃, e₃, e₄) =
            bind-inv (lift (apply_opcode target p opcode))
              (λ p'. diff_loop I fuel target p' (seen + 1)) e₂ in
          let shown = printed ++ opcode_lines console seen opcode in
          let c =
            again (size + opcode_size opcode) p₁ s₂ shown
              (ap (diff_loop I fuel target p₁ (seen + 1)) (ap (λ r. r.1) e₃) ∙ e₄) in
          (
            c.size',
            c.printed,
            bind-ok (viewed console I (reading I (read_diff_opcode I))) (next_view fuel size seen)
                  (λ i. ((e₁ i).0, at (e₁ i).1 printed))
                ∙ c.runs,
          )

  Goes-then :
      {B C : Type 0} (n : View console I B) (f : B → View console I C) {v : Viewing I.State}
      {s₁ s₂ : I.State} {b : B} {printed : Bytes}
      → n v ≡ (ok b, at s₁ printed)
      → Goes (f b) (at s₁ printed) s₂
      → Goes (n >>= f) v s₂
  Goes-then n f e h = record { value = h.value; printed = h.printed; runs = bind-ok n f e ∙ h.runs }

  finish_diff-ok :
      (r : Result ReadError (Unit {0})) (s s' : I.State) {u : Unit {0}}
      → lift (finished r) s ≡ (ok u, s')
      → reading I (lift r) s ≡ (ok u, s')
  finish_diff-ok (ok u) s s' e = e
  finish_diff-ok (err x) s s' e = absurd cc

  -- A diff that the applier accepts.
  pub apply_diff-Goes :
      (old_data bytes : Bytes) (target : ℕ) (s s' : I.State) (printed : Bytes)
      → apply_diff I old_data target s ≡ (ok bytes, s')
      → Goes (parse_diff_data console I) (at s printed) s'
  unfolding apply_diff parse_diff_data
  apply_diff-Goes old_data bytes target s s' printed h =
      let (q, s₁, e₁, e₂) = bind-inv (diff_loop I (suc (I.left s)) target start 0) after_loop h in
      let (u, s₂, e₃, e₄) =
        bind-inv (lift (finished (finish_diff q.1))) (λ u. lift (copy_tail target q.0)) e₂ in
      let c = diff_loop-Counts (suc (I.left s)) target 0 start q.0 0 q.1 s s₁ printed e₁ in
      let g = Goes-then (view_opcodes console I (suc (I.left s)) 0 0) (shown) c.runs (
        Goes-print (λ u. checked c.size' q.1) _
          (Goes-viewed (reading I (lift (finish_diff q.1))) (λ u. pure (c.size', q.1))
            (finish_diff-ok (finish_diff q.1) s₁ s₂ e₃) (Goes-pure (ap (λ r. r.1) e₄)))) in
      record { value = g.value; printed = g.printed; runs = g.runs }
    where
      start : Patch
      start = record { olds = old_data; new_pos = 0; output = [] }

      after_loop : Patch × ℕ → Action DeltaError I.State Bytes
      after_loop (p, seen) = lift (finished (finish_diff seen)) >>= λ u. lift (copy_tail target p)

      checked : ℕ → ℕ → View console I (ℕ × ℕ)
      checked size n = viewed console I (reading I (lift (finish_diff n))) >>= λ u. pure (size, n)

      shown : ℕ × ℕ → View console I (ℕ × ℕ)
      shown (size, n) = print console I (more_opcodes console n) >>= λ u. checked size n

  module _ (U : StrongHash) (F : FileInput) (O : ByteOutput) where
    -- The steps of the applier that do not read the delta.
    pub require-delta :
        (b : Bool) (c : DeltaErrc) (m : Message) (r r' : ApplyRun U I F O) {u : Unit {0}}
        → require U I F O b c m r ≡ (ok u, r')
        → r.delta ≡ r'.delta
    require-delta true c m r r' e = ap (λ z. z.1.delta) e
    require-delta false c m r r' e = absurd cc

    pub read_old-delta :
        (chunk : SignedChunk) (m : Message) (r r' : ApplyRun U I F O) {bytes : Bytes}
        → read_old U I F O chunk m r ≡ (ok bytes, r')
        → r.delta ≡ r'.delta
    unfolding read_old
    read_old-delta chunk m r r' e = ground arith

    pub source_of-delta :
        (chunks : List SignedChunk) (header : DeltaEntryHeader) (r r' : ApplyRun U I F O)
        {source : Option SignedChunk}
        → source_of U I F O chunks header r ≡ (ok source, r')
        → r.delta ≡ r'.delta
    unfolding source_of
    source_of-delta chunks header r r' e = ground arith

    pub append_chunk-delta :
        (max : ℕ) (bytes : Bytes) (r r' : ApplyRun U I F O) {u : Unit {0}}
        → append_chunk U I F O max bytes r ≡ (ok u, r')
        → r.delta ≡ r'.delta
    unfolding append_chunk
    append_chunk-delta max bytes r r' e = ground arith
