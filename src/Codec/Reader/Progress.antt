-- ===== src/Codec/Reader/Progress.antt =====
-- `DeltaReader` of src/DeltaCodec.hpp only goes forward, and an entry or an opcode takes a byte at least.
use roll.Prelude.{
  ℕ, ◌≤◌, ◌<◌, ◌≡◌, refl, sym, ap, subst, ◌∙◌, Bool, true, false, Option, none, some, ◌==◌,
  if◌then◌else◌, length, arith,
}
use roll.Io.{ByteInput}
use roll.Io.Action.{Result, ok, err, Action, continue, pure, raise, ◌>>=◌}
use roll.Codec.Reader.{ReadError, byte_or, read_exact}

-- A file read from front to back: no call gives back a byte.
pub record IsForward (I : ByteInput) : Type 0 where
  pub read_byte-left : (s : I.State) → I.left (I.read_byte s).1 ≤ I.left s
  pub read_byte-takes :
      (b : ℕ) (s : I.State) → (I.read_byte s).0 ≡ some b → I.left (I.read_byte s).1 < I.left s
  pub peek_byte-left : (s : I.State) → I.left (I.peek_byte s).1 ≤ I.left s
  pub read_chunk-left : (n : ℕ) (s : I.State) → I.left (I.read_chunk n s).1 ≤ I.left s

module _ (I : ByteInput) (laws : IsForward I) where
  abbrev pub Shrinks : {E A : Type 0} → Action E I.State A → Type 0
  Shrinks m = (s : I.State) → I.left (m s).1 ≤ I.left s

  -- A success has taken a byte.
  pub record Progress {E A : Type 0} (m : Action E I.State A) : Type 0 where
    pub shrinks : (s : I.State) → I.left (m s).1 ≤ I.left s
    pub takes : {a : A} {s' : I.State} (s : I.State) → m s ≡ (ok a, s') → I.left s' < I.left s

  pub bind-Shrinks :
      {E A B : Type 0} (m : Action E I.State A) (f : A → Action E I.State B)
      → Shrinks m
      → ((a : A) → Shrinks (f a))
      → Shrinks (m >>= f)
  bind-Shrinks {E} {A} m f h k s = go (m s).0 (m s).1 (h s)
    where
      go :
          (r : Result E A) (s' : I.State)
          → I.left s' ≤ I.left s
          → I.left (continue r f s').1 ≤ I.left s
      go (ok a) s' e = omega (arith, e, k a s')
      go (err x) s' e = e

  pub bind-Progress :
      {E A B : Type 0} (m : Action E I.State A) (f : A → Action E I.State B)
      → Progress m
      → ((a : A) → Shrinks (f a))
      → Progress (m >>= f)
  bind-Progress {E} {A} {B} m f p k = record {
    shrinks = bind-Shrinks m f p.shrinks k;
    takes = λ s e. go (m s).0 (m s).1 s refl e;
  }
    where
      go :
          (r : Result E A) (s₁ : I.State) {b : B} {s' : I.State} (s : I.State)
          → m s ≡ (r, s₁)
          → continue r f s₁ ≡ (ok b, s')
          → I.left s' < I.left s
      go (ok a) s₁ s e h = omega (arith, p.takes s e, k a s₁, ap (λ z. I.left z.1) h)
      go (err x) s₁ s e h = absurd cc

  pub if-Shrinks :
      {E A : Type 0} (b : Bool) (m n : Action E I.State A)
      → Shrinks m
      → Shrinks n
      → Shrinks (if b then m else n)
  if-Shrinks true m n h k = h
  if-Shrinks false m n h k = k

  pub pure-Shrinks : (A : Type 0) (a : A) → Shrinks {E = ReadError} (pure a)
  pure-Shrinks A a s = omega arith

  pub raise-Shrinks : (A : Type 0) (e : ReadError) → Shrinks {A = A} (raise e)
  raise-Shrinks A e s = omega arith

  abbrev byte_result : ReadError → Option ℕ → I.State → Result ReadError ℕ × I.State
  byte_result e none s = (err e, s)
  byte_result e (some b) s = (ok b, s)

  byte_or_lem :
      (e : ReadError) (s : I.State)
      → byte_or I e s ≡ byte_result e (I.read_byte s).0 (I.read_byte s).1
  byte_or_lem e s = go (I.read_byte s).0
    where
      go :
          (o : Option ℕ)
          → ◌≡◌ {A = Result ReadError ℕ × I.State}
              (elim o [ none ↦ (err e, (I.read_byte s).1) | some b ↦ (ok b, (I.read_byte s).1) ])
              (byte_result e o (I.read_byte s).1)
      go none = refl
      go (some b) = refl

  pub byte_or-Progress : (e : ReadError) → Progress (byte_or I e)
  byte_or-Progress e = record {
    shrinks = λ s.
        subst (λ z. I.left z.1 ≤ I.left s) (sym (byte_or_lem e s)) (shrinks (I.read_byte s).0 s);
    takes = λ s h. takes (I.read_byte s).0 s refl (sym (byte_or_lem e s) ∙ h);
  }
    where
      shrinks :
          (o : Option ℕ) (s : I.State) → I.left (byte_result e o (I.read_byte s).1).1 ≤ I.left s
      shrinks none s = laws.read_byte-left s
      shrinks (some b) s = laws.read_byte-left s

      takes :
          {a : ℕ} {s' : I.State} (o : Option ℕ) (s : I.State)
          → (I.read_byte s).0 ≡ o
          → byte_result e o (I.read_byte s).1 ≡ (ok a, s')
          → I.left s' < I.left s
      takes none s e h = absurd cc
      takes (some b) s e h = omega (arith, laws.read_byte-takes b s e, ap (λ z. I.left z.1) h)

  abbrev chosen : {E A : Type 0} → Bool → Result E A → Result E A → I.State → Result E A × I.State
  chosen b r r' s = if b then (r, s) else (r', s)

  chosen-left :
      {E A : Type 0} (b : Bool) (r r' : Result E A) (s : I.State)
      → I.left (chosen b r r' s).1 ≤ I.left s
  chosen-left true r r' s = omega arith
  chosen-left false r r' s = omega arith

  pub read_exact-Shrinks : (n : ℕ) (e : ReadError) → Shrinks (read_exact I n e)
  unfolding read_exact
  read_exact-Shrinks n e s = omega (
    arith,
    laws.read_chunk-left n s,
    chosen-left (length (I.read_chunk n s).0 == n) (ok (I.read_chunk n s).0) (err e)
        (I.read_chunk n s).1,
  )
