-- ===== src/Rolling/Window.antt =====
-- The window of src/RK_finger.hpp over a stream of bytes.
use roll.Prelude.{
  ℕ, suc, ◌+◌, ◌-◌, ◌*◌, ◌%◌, ◌^◌, ◌≤◌, ◌<◌, ◌≡◌, ◌⊎◌, inl, inr, refl, sym, ap, subst, ◌∙◌, [], ◌∷◌,
  ◌++◌, All, All-append, length, drop, take-append, length-append, append_assoc, append-nil, arith,
}
use roll.Format.{u64_mod}
use roll.Io.{Bytes}
use roll.Codec.Ints.{IsByte}
use roll.Rolling.{RkFinger, reduce, configure_fast_reduction, byte_of, compute_next}
use roll.Rolling.Reduce.{IsBounded, largest_input}
use roll.Rolling.Roll.{polynomial, polynomial-last, polynomial-digit, rolled}

-- What construction sets for good: the base and the modulus, the shift, and the power of the base.
pub record IsMade (f : RkFinger) : Type 0 where
  pub bounded : IsBounded f.alphabet_size f.modulus
  pub some_window : 0 < f.window_size
  pub shift : f.mersenne_shift ≡ configure_fast_reduction f.alphabet_size f.modulus
  pub small_power : 255 * f.h ≤ largest_input f.alphabet_size f.modulus
  pub power : f.h % f.modulus ≡ f.alphabet_size ^ (f.window_size - 1) % f.modulus

-- `f` holds the bytes `bytes` of a full window, oldest first. `back ++ front` is the ring from its head on.
pub record Holds (f : RkFinger) (bytes : Bytes) : Type 0 where
  pub front : Bytes
  pub oldest : ℕ
  pub back : Bytes
  pub ring : f.window ≡ front ++ (oldest ∷ back)
  pub head : f.window_head ≡ length front
  pub order : bytes ≡ oldest ∷ (back ++ front)
  pub full : f.window_size ≡ length bytes
  pub are_bytes : All IsByte bytes
  pub value : f.fingerprint ≡ polynomial f.alphabet_size 0 bytes % f.modulus

byte_of-append : (xs ys : Bytes) (b : ℕ) → byte_of (xs ++ (b ∷ ys)) (length xs) ≡ b
byte_of-append [] ys b = refl
byte_of-append (x ∷ xs) ys b = byte_of-append xs ys b

drop-suc : (xs ys : Bytes) (b : ℕ) → drop (suc (length xs)) (xs ++ (b ∷ ys)) ≡ ys
drop-suc [] ys b = refl
drop-suc (x ∷ xs) ys b = drop-suc xs ys b

drop_more : (xs ys : Bytes) (b : ℕ) → drop (length xs + 1) (xs ++ (b ∷ ys)) ≡ ys
drop_more xs ys b = rw one_more (drop-suc xs ys b)
  where
    one_more : length xs + 1 ≡ suc (length xs)
    one_more = omega arith

pub compute_next-IsMade : (f : RkFinger) (byte : ℕ) → IsMade f → IsMade (compute_next byte f)
unfolding compute_next
compute_next-IsMade f byte made = record {
  bounded = made.bounded;
  some_window = made.some_window;
  shift = made.shift;
  small_power = made.small_power;
  power = made.power;
}

-- The fingerprint after a step.
compute_next-value :
    (f : RkFinger) (bytes : Bytes) (byte : ℕ) (made : IsMade f) (held : Holds f bytes)
    → byte < 256
    → (compute_next byte f).fingerprint
      ≡ polynomial f.alphabet_size 0 ((held.back ++ held.front) ++ (byte ∷ [])) % f.modulus
unfolding compute_next
compute_next-value f bytes byte made held h =
    shifted
    ∙ rolled f.alphabet_size f.modulus made.bounded held.oldest byte
        (f.alphabet_size ^ (f.window_size - 1))
        (polynomial f.alphabet_size 0 (held.back ++ held.front)) f.fingerprint
        (reduce f.modulus (configure_fast_reduction f.alphabet_size f.modulus)
          (held.oldest * f.h % u64_mod))
        f.h old_byte h made.small_power made.power before refl
    ∙ ap (λ (z : ℕ). z % f.modulus)
        (sym (polynomial-last f.alphabet_size 0 byte (held.back ++ held.front)))
  where
    old_byte : held.oldest < 256
    old_byte = (subst (All IsByte) held.order held.are_bytes).0

    evicted : byte_of f.window f.window_head ≡ held.oldest
    evicted = rw (held.head, held.ring) (byte_of-append held.front held.back held.oldest)

    shifted :
        (compute_next byte f).fingerprint
        ≡ reduce f.modulus (configure_fast_reduction f.alphabet_size f.modulus) (
            (f.alphabet_size
                * (((f.fingerprint + f.modulus) % u64_mod
                      + u64_mod
                      - reduce f.modulus
                          (configure_fast_reduction f.alphabet_size f.modulus)
                          (held.oldest * f.h % u64_mod))
                    % u64_mod)
                % u64_mod
              + byte)
            % u64_mod)
    shifted = rw (evicted, made.shift) refl

    before :
        f.fingerprint
        ≡ (held.oldest * f.alphabet_size ^ (f.window_size - 1)
            + polynomial f.alphabet_size 0 (held.back ++ held.front))
          % f.modulus
    before =
        held.value
        ∙ ap (λ (z : Bytes). polynomial f.alphabet_size 0 z % f.modulus) held.order
        ∙ ap (λ (z : ℕ). z % f.modulus)
            (polynomial-digit f.alphabet_size held.oldest (held.back ++ held.front)
              ∙ ap
                  (λ (n : ℕ).
                    held.oldest * f.alphabet_size ^ n
                    + polynomial f.alphabet_size 0 (held.back ++ held.front))
                  (omega (arith, held.full, ap length held.order)))

compute_next-window :
    (f : RkFinger) (bytes : Bytes) (byte : ℕ) (held : Holds f bytes)
    → (compute_next byte f).window ≡ held.front ++ (byte ∷ held.back)
unfolding compute_next
compute_next-window f bytes byte held =
    rw
      (
        held.head,
        held.ring,
        take-append held.front (held.oldest ∷ held.back),
        drop_more held.front held.back held.oldest,
      )
      refl

compute_next-size : (f : RkFinger) (byte : ℕ) → (compute_next byte f).window_size ≡ f.window_size
unfolding compute_next
compute_next-size f byte = refl

pub to_Holds :
    (f : RkFinger) (front back bytes : Bytes)
    → f.window ≡ front ++ back
    → f.window_head ≡ length front
    → 0 < length back
    → bytes ≡ back ++ front
    → f.window_size ≡ length bytes
    → All IsByte bytes
    → f.fingerprint ≡ polynomial f.alphabet_size 0 bytes % f.modulus
    → Holds f bytes
to_Holds f front [] bytes ring head inside order full are_bytes value = absurd (omega arith)
to_Holds f front (oldest ∷ back) bytes ring head inside order full are_bytes value = record {
  front = front;
  oldest = oldest;
  back = back;
  ring = ring;
  head = head;
  order = order;
  full = full;
  are_bytes = are_bytes;
  value = value;
}

compute_next-head :
    (f : RkFinger) (bytes : Bytes) (byte : ℕ) (held : Holds f bytes)
    → ((held.back ≡ []) × ((compute_next byte f).window_head ≡ 0))
      ⊎ ((0 < length held.back) × ((compute_next byte f).window_head ≡ length held.front + 1))
unfolding compute_next
compute_next-head f bytes byte held = split held.back refl
  where
    size : f.window_size ≡ suc (length held.back + length held.front)
    size = omega (arith, held.full, ap length held.order, length-append held.back held.front)

    split :
        (back : Bytes)
        → held.back ≡ back
        → ((held.back ≡ []) × ((compute_next byte f).window_head ≡ 0))
          ⊎ ((0 < length held.back) × ((compute_next byte f).window_head ≡ length held.front + 1))
    split [] e = inl (e, ground (arith, size, ap length e, held.head))
    split (x ∷ back) e =
        inr (omega (arith, ap length e), ground (arith, size, ap length e, held.head))

-- One step moves the window by one byte.
pub compute_next-Holds :
    (f : RkFinger) (oldest : ℕ) (rest : Bytes) (byte : ℕ)
    → IsMade f
    → Holds f (oldest ∷ rest)
    → byte < 256
    → Holds (compute_next byte f) (rest ++ (byte ∷ []))
unfolding compute_next
compute_next-Holds f oldest rest byte made held h =
    elim (compute_next-head f (oldest ∷ rest) byte held) [
      | inl (last, head) ↦
          to_Holds (compute_next byte f) [] (held.front ++ (byte ∷ [])) (rest ++ (byte ∷ []))
            (window ∙ ap (λ (b : Bytes). held.front ++ (byte ∷ b)) last) head
            (omega (arith, length-append held.front (byte ∷ [])))
            (ap (λ (r : Bytes). r ++ (byte ∷ []))
                (others ∙ ap (λ (b : Bytes). b ++ held.front) last)
              ∙ sym (append-nil (held.front ++ (byte ∷ []))))
            size fresh value
      | inr (more, head) ↦
          to_Holds (compute_next byte f) (held.front ++ (byte ∷ [])) held.back (rest ++ (byte ∷ []))
            (window ∙ sym (append_assoc held.front (byte ∷ []) held.back))
            (head ∙ sym (length-append held.front (byte ∷ []))) more
            (ap (λ (r : Bytes). r ++ (byte ∷ [])) others
              ∙ append_assoc held.back held.front (byte ∷ []))
            size fresh value
    ]
  where
    window : (compute_next byte f).window ≡ held.front ++ (byte ∷ held.back)
    window = compute_next-window f (oldest ∷ rest) byte held

    others : rest ≡ held.back ++ held.front
    others = ap (drop 1) held.order

    size : (compute_next byte f).window_size ≡ length (rest ++ (byte ∷ []))
    size = compute_next-size f byte ∙ omega (arith, held.full, length-append rest (byte ∷ []))

    fresh : All IsByte (rest ++ (byte ∷ []))
    fresh = All-append IsByte rest (byte ∷ []) held.are_bytes.1 (h, tt)

    value :
        (compute_next byte f).fingerprint
        ≡ polynomial f.alphabet_size 0 (rest ++ (byte ∷ [])) % f.modulus
    value = rw others (compute_next-value f (oldest ∷ rest) byte made held h)
