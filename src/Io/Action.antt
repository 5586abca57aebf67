-- ===== src/Io/Action.antt =====
-- A method that changes its object and may fail: the new state comes back beside the error too.

use roll.Prelude.{◌≡◌, refl}

pub data Result (E A : Type 0) : Type 0 where
  ok : A → Result E A
  err : E → Result E A

abbrev pub Action : Type 0 → Type 0 → Type 0 → Type 0
Action E S A = S → Result E A × S

module _ {E S A : Type 0} where
  abbrev pub pure : A → Action E S A
  pure a s = (ok a, s)

  abbrev pub raise : E → Action E S A
  raise e s = (err e, s)

module _ {E S A B : Type 0} where
  abbrev pub continue : Result E A → (A → Action E S B) → S → Result E B × S
  continue (ok a) f s = f a s
  continue (err e) f s = (err e, s)

  infixl 5 ◌>>=◌ ◌>>◌
  abbrev pub ◌>>=◌ : Action E S A → (A → Action E S B) → Action E S B
  ◌>>=◌ m f s = continue (m s).0 f (m s).1

  abbrev pub ◌>>◌ : Action E S A → Action E S B → Action E S B
  m >> n = m >>= λ _. n

-- A step that succeeds hands its value and its state to the rest.
pub bind-ok :
    {E S A B : Type 0} (m : Action E S A) (f : A → Action E S B) {s s' : S} {a : A}
    → m s ≡ (ok a, s')
    → (m >>= f) s ≡ f a s'
bind-ok m f e = λ i. continue (e i).0 f (e i).1

-- What holds of a sequence, from its two cases.
pub bind-cases :
    {E S A B : Type 0} (Q : Result E B → S → Type 0) (m : Action E S A) (f : A → Action E S B)
    (s : S)
    → ((e : E) (s' : S) → m s ≡ (err e, s') → Q (err e) s')
    → ((a : A) (s' : S) → m s ≡ (ok a, s') → Q (f a s').0 (f a s').1)
    → Q ((m >>= f) s).0 ((m >>= f) s).1
bind-cases {E} {S} {A} Q m f s fails continues = go (m s).0 (m s).1 refl
  where
    go : (r : Result E A) (s' : S) → m s ≡ (r, s') → Q (continue r f s').0 (continue r f s').1
    go (ok a) s' e = continues a s' e
    go (err x) s' e = fails x s' e
