-- ===== src/Apply/Patch/Ends.antt =====
-- The loop of `applyDiff` of src/Apply.hpp ends in the rounds that the model gives it.
use roll.Prelude.{
  ℕ, zero, suc, ◌+◌, ◌≤◌, ◌<◌, ◌≡◌, ◌≢◌, refl, ap, subst, Bool, true, false, [], if◌then◌else◌,
  arith,
}
use roll.Io.{Bytes, ByteInput}
use roll.Io.Action.{Result, ok, err, Action, ◌>>=◌, pure, bind-cases}
use roll.Codec.Reader.{ReadError, DiffOpcode, at_diff_opcode, read_diff_opcode, finish_diff}
use roll.Codec.Reader.Progress.{IsForward, Progress}
use roll.Codec.Reader.Forward.{at_diff_opcode-left, read_diff_opcode-Progress}
use roll.Error.{DeltaError, out_of_fuel, reader_says}
use roll.Apply.Patch.{
  Patch, apply_opcode, write_opcode, copy_tail, checked_size, reading, lift, converted, finished,
  diff_loop, apply_diff,
}

-- The result is no run out of fuel.
abbrev pub Fine : {A : Type 0} → Result DeltaError A → Type 0
Fine (ok a) = Unit {0}
Fine (err e) = e.message ≢ out_of_fuel

pub if-Fine :
    {A : Type 0} (b : Bool) (r r' : Result DeltaError A)
    → Fine r
    → Fine r'
    → Fine (if b then r else r')
if-Fine true r r' h k = h
if-Fine false r r' h k = k

pub says : (e : ReadError) → reader_says e ≢ out_of_fuel
says e h = cc

-- By the errors that there are.
pub Fine-errors :
    {A : Type 0} (r : Result DeltaError A)
    → ((e : DeltaError) → r ≡ err e → e.message ≢ out_of_fuel)
    → Fine r
Fine-errors (ok a) h = tt
Fine-errors (err e) h = h e refl

apply_opcode-Fine : (target : ℕ) (p : Patch) (o : DiffOpcode) → Fine (apply_opcode target p o)
unfolding apply_opcode write_opcode
apply_opcode-Fine target p o = Fine-errors (apply_opcode target p o) (λ e h k. ground arith)

copy_tail-Fine : (target : ℕ) (p : Patch) → Fine (copy_tail target p)
unfolding copy_tail checked_size
copy_tail-Fine target p = Fine-errors (copy_tail target p) (λ e h k. ground arith)

finished-Fine : (r : Result ReadError (Unit {0})) → Fine (finished r)
finished-Fine (ok u) = tt
finished-Fine (err e) = says e

-- A step that ends well and goes on in the delta, which is measured.
module _ {S : Type 0} (left : S → ℕ) where
  pub record CalmAt (s : S) {A : Type 0} (r : Result DeltaError A) (s' : S) : Type 0 where
    pub fine : Fine r
    pub shorter : left s' ≤ left s

  pub bind-Calm :
      {A B : Type 0} (m : Action DeltaError S A) (f : A → Action DeltaError S B) (s : S)
      → CalmAt s (m s).0 (m s).1
      → ((a : A) (s' : S) → m s ≡ (ok a, s') → CalmAt s' (f a s').0 (f a s').1)
      → CalmAt s ((m >>= f) s).0 ((m >>= f) s).1
  bind-Calm m f s h k =
      bind-cases (CalmAt s) m f s
        (λ e s' eq. record {
          fine = subst Fine (ap (λ z. z.0) eq) h.fine;
          shorter = omega (arith, h.shorter, ap (λ z. left z.1) eq);
        })
        (λ a s' eq.
          let c = k a s' eq in
          record {
            fine = c.fine;
            shorter = omega (arith, c.shorter, h.shorter, ap (λ z. left z.1) eq);
          })

module _ (I : ByteInput) (laws : IsForward I) where
  abbrev pub Calm : I.State → {A : Type 0} → Action DeltaError I.State A → Type 0
  Calm s m = CalmAt I.left s (m s).0 (m s).1

  pub reading-Calm :
      {A : Type 0} (m : Action ReadError I.State A) (s : I.State)
      → I.left (m s).1 ≤ I.left s
      → Calm s (reading I m)
  reading-Calm {A} m s h = record { fine = go (m s).0; shorter = h }
    where
      go : (r : Result ReadError A) → Fine (converted (I.has_error (m s).1) r)
      go (ok a) = tt
      go (err e) = says e

  pub reading-takes :
      {A : Type 0} (m : Action ReadError I.State A)
      → Progress I laws m
      → {a : A} {s' : I.State} (s : I.State) → reading I m s ≡ (ok a, s')
      → I.left s' < I.left s
  reading-takes {A} m p {a} {s'} s e = go (m s).0 (m s).1 refl e
    where
      go :
          (r : Result ReadError A) (s₁ : I.State)
          → m s ≡ (r, s₁)
          → ◌≡◌ {A = Result DeltaError A × I.State}
              (converted (I.has_error (m s).1) r, s₁)
              (ok a, s')
          → I.left s' < I.left s
      go (ok a') s₁ e h = omega (arith, p.takes s e, ap (λ z. I.left z.1) h)
      go (err x) s₁ e h = absurd cc

  lift-Calm : {A : Type 0} (r : Result DeltaError A) (s : I.State) → Fine r → Calm s (lift r)
  lift-Calm r s h = record { fine = h; shorter = omega arith }

  -- A round takes an opcode, and there are more rounds than bytes.
  diff_loop-Calm :
      (fuel target : ℕ) (p : Patch) (seen : ℕ) (s : I.State)
      → I.left s < fuel
      → Calm s (diff_loop I fuel target p seen)
  unfolding diff_loop
  diff_loop-Calm zero target p seen s enough = absurd (omega arith)
  diff_loop-Calm (suc fuel) target p seen s enough =
      let c =
        go (λ p' s' h. diff_loop-Calm fuel target p' (seen + 1) s' h) (at_diff_opcode I s).0 in
      record { fine = c.fine; shorter = omega (arith, c.shorter, at_diff_opcode-left I laws s) }
    where
      s₁ : I.State
      s₁ = (at_diff_opcode I s).1

      Again : Type 0
      Again =
          (p' : Patch) (s' : I.State)
          → I.left s' < fuel
          → Calm s' (diff_loop I fuel target p' (seen + 1))

      patched : DiffOpcode → Action DeltaError I.State (Patch × ℕ)
      patched opcode =
          lift (apply_opcode target p opcode) >>= λ p'. diff_loop I fuel target p' (seen + 1)

      go :
          Again
          → (more : Bool)
          → Calm s₁ (if more then reading I (read_diff_opcode I) >>= patched else pure (p, seen))
      go again false = record { fine = tt; shorter = omega arith }
      go again true =
          bind-Calm I.left (reading I (read_diff_opcode I)) patched s₁
            (reading-Calm (read_diff_opcode I) s₁ ((read_diff_opcode-Progress I laws).shrinks s₁))
            (λ opcode s₂ e.
              bind-Calm I.left (lift (apply_opcode target p opcode))
                (λ p'. diff_loop I fuel target p' (seen + 1)) s₂
                (lift-Calm (apply_opcode target p opcode) s₂ (apply_opcode-Fine target p opcode))
                (λ p' s₃ e'. again p' s₃ (
                  omega (
                    arith,
                    ap (λ z. I.left z.1) e',
                    reading-takes (read_diff_opcode I) (read_diff_opcode-Progress I laws) s₁ e,
                    enough,
                    at_diff_opcode-left I laws s,
                  ))))

  pub apply_diff-Calm :
      (old_data : Bytes) (target : ℕ) (s : I.State) → Calm s (apply_diff I old_data target)
  unfolding apply_diff
  apply_diff-Calm old_data target s =
      let c =
        bind-Calm I.left (diff_loop I (suc (I.left s)) target start 0) ended s
          (diff_loop-Calm (suc (I.left s)) target start 0 s (omega arith))
          (λ q s' e.
            bind-Calm I.left (lift (finished (finish_diff q.1))) (λ u. lift (copy_tail target q.0))
              s' (lift-Calm (finished (finish_diff q.1)) s' (finished-Fine (finish_diff q.1)))
              (λ u s'' e'. lift-Calm (copy_tail target q.0) s'' (copy_tail-Fine target q.0))) in
      record { fine = c.fine; shorter = c.shorter }
    where
      start : Patch
      start = record { olds = old_data; new_pos = 0; output = [] }

      ended : Patch × ℕ → Action DeltaError I.State Bytes
      ended (p, seen) = lift (finished (finish_diff seen)) >>= λ u. lift (copy_tail target p)
