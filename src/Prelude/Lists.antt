-- ===== src/Prelude/Lists.antt =====
-- Lists measured and indexed by native numbers, under the library's names.
use Prim.Native.Nat.{ℕ, zero, suc, ◌+◌, ◌-◌, ◌≤◌, min}
use mathlib.Core.Path.{◌≡◌, refl, ap, subst}
use mathlib.Core.List.{List, [], ◌∷◌, ◌++◌}
use mathlib.Core.Option.{Option, none, some}
use mathlib.Core.Bool.{Bool, true, false, ◌&&◌}
use native.Mathlib.Omega.{arith}
use roll.Prelude.Tests.{◌==◌}

module _ {ℓ} {A : Type ℓ} where
  abbrev pub length : List A → ℕ
  length [] = 0
  length (x ∷ xs) = suc (length xs)

  abbrev pub get_elem? : List A → ℕ → Option A
  get_elem? [] i = none
  get_elem? (x ∷ xs) zero = some x
  get_elem? (x ∷ xs) (suc i) = get_elem? xs i

  abbrev pub take : ℕ → List A → List A
  take zero xs = []
  take (suc n) [] = []
  take (suc n) (x ∷ xs) = x ∷ take n xs

  abbrev pub drop : ℕ → List A → List A
  drop zero xs = xs
  drop (suc n) [] = []
  drop (suc n) (x ∷ xs) = drop n xs

  abbrev pub replicate : ℕ → A → List A
  replicate zero a = []
  replicate (suc n) a = a ∷ replicate n a

  -- A predicate by recursion, which the tactics read and build.
  abbrev pub All {κ} : (A → Type κ) → List A → Type κ
  All P [] = Unit {κ}
  All P (x ∷ xs) = P x × All P xs

module _ {ℓ} {A : Type ℓ} where
  pub length-append : (xs ys : List A) → length (xs ++ ys) ≡ length xs + length ys
  length-append [] ys = omega arith
  length-append (x ∷ xs) ys = omega (arith, length-append xs ys)

  pub take-append-drop : (n : ℕ) (xs : List A) → take n xs ++ drop n xs ≡ xs
  take-append-drop zero xs = refl
  take-append-drop (suc n) [] = refl
  take-append-drop (suc n) (x ∷ xs) = ap (λ l. x ∷ l) (take-append-drop n xs)

  pub length-take : (n : ℕ) (xs : List A) → length (take n xs) ≡ min n (length xs)
  length-take zero xs = omega arith
  length-take (suc n) [] = omega arith
  length-take (suc n) (x ∷ xs) = omega (arith, length-take n xs)

  pub length-drop : (n : ℕ) (xs : List A) → length (drop n xs) ≡ length xs - n
  length-drop zero xs = omega arith
  length-drop (suc n) [] = omega arith
  length-drop (suc n) (x ∷ xs) = omega (arith, length-drop n xs)

  pub length-replicate : (n : ℕ) (a : A) → length (replicate n a) ≡ n
  length-replicate zero a = refl
  length-replicate (suc n) a = ap suc (length-replicate n a)

  -- The first `n` of a list that is split after `n`.
  pub take-append : (xs ys : List A) → take (length xs) (xs ++ ys) ≡ xs
  take-append [] ys = refl
  take-append (x ∷ xs) ys = ap (λ l. x ∷ l) (take-append xs ys)

  pub drop-append : (xs ys : List A) → drop (length xs) (xs ++ ys) ≡ ys
  drop-append [] ys = refl
  drop-append (x ∷ xs) ys = drop-append xs ys

  pub take_of_length : (n : ℕ) (xs : List A) → length xs ≤ n → take n xs ≡ xs
  take_of_length zero [] h = refl
  take_of_length zero (x ∷ xs) h = absurd (omega arith)
  take_of_length (suc n) [] h = refl
  take_of_length (suc n) (x ∷ xs) h = ap (λ l. x ∷ l) (take_of_length n xs (omega arith))

  pub All-append {κ} : (P : A → Type κ) (xs ys : List A) → All P xs → All P ys → All P (xs ++ ys)
  All-append P [] ys hx hy = hy
  All-append P (x ∷ xs) ys hx hy = (hx.0, All-append P xs ys hx.1 hy)

-- `std::equal` on two byte ranges of one length, and `==` of two vectors.
abbrev pub same_bytes : List ℕ → List ℕ → Bool
same_bytes [] [] = true
same_bytes [] (y ∷ ys) = false
same_bytes (x ∷ xs) [] = false
same_bytes (x ∷ xs) (y ∷ ys) = x == y && same_bytes xs ys

pub same_bytes→eq : (xs ys : List ℕ) → same_bytes xs ys ≡ true → xs ≡ ys
same_bytes→eq [] [] h = refl
same_bytes→eq [] (y ∷ ys) h = ground arith
same_bytes→eq (x ∷ xs) [] h = ground arith
same_bytes→eq (x ∷ xs) (y ∷ ys) h = ground (arith, same_bytes→eq xs ys)

pub same_bytes_self : (xs : List ℕ) → same_bytes xs xs ≡ true
same_bytes_self [] = refl
same_bytes_self (x ∷ xs) = ground (arith, same_bytes_self xs)

module _ {ℓ} {A : Type ℓ} where
  pub take-append-le : (n : ℕ) (xs ys : List A) → n ≤ length xs → take n (xs ++ ys) ≡ take n xs
  take-append-le zero xs ys h = refl
  take-append-le (suc n) [] ys h = absurd (omega arith)
  take-append-le (suc n) (x ∷ xs) ys h = ap (λ l. x ∷ l) (take-append-le n xs ys (omega arith))

  pub drop-append-le :
      (n : ℕ) (xs ys : List A) → n ≤ length xs → drop n (xs ++ ys) ≡ drop n xs ++ ys
  drop-append-le zero xs ys h = refl
  drop-append-le (suc n) [] ys h = absurd (omega arith)
  drop-append-le (suc n) (x ∷ xs) ys h = drop-append-le n xs ys (omega arith)

  -- The sums are given by an equation, since they do not compute at variables.
  pub take-append-ge :
      (n k : ℕ) (xs ys : List A) → n ≡ length xs + k → take n (xs ++ ys) ≡ xs ++ take k ys
  take-append-ge n k [] ys h = ap (λ (j : ℕ). take j ys) (omega arith)
  take-append-ge zero k (x ∷ xs) ys h = absurd (omega arith)
  take-append-ge (suc n) k (x ∷ xs) ys h = ap (λ l. x ∷ l) (take-append-ge n k xs ys (omega arith))

  pub drop-append-ge :
      (n k : ℕ) (xs ys : List A) → n ≡ length xs + k → drop n (xs ++ ys) ≡ drop k ys
  drop-append-ge n k [] ys h = ap (λ (j : ℕ). drop j ys) (omega arith)
  drop-append-ge zero k (x ∷ xs) ys h = absurd (omega arith)
  drop-append-ge (suc n) k (x ∷ xs) ys h = drop-append-ge n k xs ys (omega arith)

  pub take-take : (m n : ℕ) (xs : List A) → m ≤ n → take m (take n xs) ≡ take m xs
  take-take zero n xs h = refl
  take-take (suc m) zero xs h = absurd (omega arith)
  take-take (suc m) (suc n) [] h = refl
  take-take (suc m) (suc n) (x ∷ xs) h = ap (λ l. x ∷ l) (take-take m n xs (omega arith))

  take-nil : (n : ℕ) → ◌≡◌ {A = List A} [] (take n [])
  take-nil zero = refl
  take-nil (suc n) = refl

  drop-nil : (n : ℕ) → ◌≡◌ {A = List A} (drop n []) []
  drop-nil zero = refl
  drop-nil (suc n) = refl

  pub drop-take : (m n k : ℕ) (xs : List A) → k ≡ m + n → drop m (take k xs) ≡ take n (drop m xs)
  drop-take zero n k xs h = ap (λ (j : ℕ). take j xs) (omega arith)
  drop-take (suc m) n zero xs h = absurd (omega arith)
  drop-take (suc m) n (suc k) [] h = take-nil n
  drop-take (suc m) n (suc k) (x ∷ xs) h = drop-take m n k xs (omega arith)

  drop-drop_at : (m n k : ℕ) (xs : List A) → k ≡ m + n → drop n (drop m xs) ≡ drop k xs
  drop-drop_at zero n k xs h = ap (λ (j : ℕ). drop j xs) (omega arith)
  drop-drop_at (suc m) n zero xs h = absurd (omega arith)
  drop-drop_at (suc m) n (suc k) [] h = drop-nil n
  drop-drop_at (suc m) n (suc k) (x ∷ xs) h = drop-drop_at m n k xs (omega arith)

  pub drop-drop : (m n : ℕ) (xs : List A) → drop n (drop m xs) ≡ drop (m + n) xs
  drop-drop m n xs = drop-drop_at m n (m + n) xs refl

  pub get_elem?-drop : (i : ℕ) (xs : List A) → get_elem? (drop i xs) 0 ≡ get_elem? xs i
  get_elem?-drop zero xs = refl
  get_elem?-drop (suc i) [] = refl
  get_elem?-drop (suc i) (x ∷ xs) = get_elem?-drop i xs

  pub get_elem?-append : (xs ys : List A) (y : A) → get_elem? (xs ++ (y ∷ ys)) (length xs) ≡ some y
  get_elem?-append [] ys y = refl
  get_elem?-append (x ∷ xs) ys y = get_elem?-append xs ys y

  pub All-get_elem? {κ} :
      (P : A → Type κ) {a : A} (i : ℕ) (xs : List A) → All P xs → get_elem? xs i ≡ some a → P a
  All-get_elem? P i [] h e = absurd cc
  All-get_elem? P zero (x ∷ xs) h e = subst P (some-inj e) h.0
    where
      some-inj : {x y : A} → some x ≡ some y → x ≡ y
      some-inj e = cc
  All-get_elem? P (suc i) (x ∷ xs) h e = All-get_elem? P i xs h.1 e
