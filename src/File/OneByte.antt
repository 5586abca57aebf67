-- ===== src/File/OneByte.antt =====
-- `read_byte` and `peek_byte` of src/FileIO.cpp on the next of the bytes that are left.
use roll.Prelude.{
  ℕ, zero, suc, ◌+◌, ◌-◌, ◌<◌, ◌≡◌, refl, sym, ap, ap₂, subst, ◌∙◌, Bool, true, false, none, [],
  ◌∷◌, ◌++◌, ◌==◌, if◌then◌else◌, length, get_elem?, take, drop, length-append, take-append-drop,
  take-append, arith,
}
use roll.Io.{Bytes}
use roll.Io.Memory.{first_byte}
use roll.File.Reads.{
  IsBacked, IsWell, ahead, pending, Reads, buffered-Reads, unreadable-IsWell, length-ahead,
}
use roll.File.{
  Stream, File, read_buffer_size, discard_read_buffer, stream_error, refill, filled, read_byte,
  peek_byte,
}

get_elem?-first_byte : (i : ℕ) (xs : Bytes) → get_elem? xs i ≡ first_byte (drop i xs)
get_elem?-first_byte zero [] = refl
get_elem?-first_byte zero (x ∷ xs) = refl
get_elem?-first_byte (suc i) [] = refl
get_elem?-first_byte (suc i) (x ∷ xs) = get_elem?-first_byte i xs

first_byte-take : (n : ℕ) (xs : Bytes) → 0 < n → first_byte (take n xs) ≡ first_byte xs
first_byte-take zero xs h = absurd (omega arith)
first_byte-take (suc n) [] h = refl
first_byte-take (suc n) (x ∷ xs) h = refl

first_byte-append : (xs ys : Bytes) → 0 < length xs → first_byte (xs ++ ys) ≡ first_byte xs
first_byte-append [] ys h = absurd (omega arith)
first_byte-append (x ∷ xs) ys h = refl

nil_of_take : (n : ℕ) (xs : Bytes) → 0 < n → length (take n xs) ≡ 0 → xs ≡ []
nil_of_take zero xs h e = absurd (omega arith)
nil_of_take (suc n) [] h e = refl
nil_of_take (suc n) (x ∷ xs) h e = absurd (omega arith)

module _ (S : Stream) (laws : IsBacked S) where
  -- The byte at the read position of a buffer that has one.
  first-pending :
      (f : File S.State)
      → IsWell S laws f
      → f.rpos < f.rlen
      → get_elem? f.rbuf f.rpos ≡ first_byte (pending S laws f)
  first-pending f w h =
      get_elem?-first_byte f.rpos f.rbuf
      ∙ sym (
          first_byte-append (ahead S laws f) (laws.rest f.stream)
            (omega (arith, length-ahead S laws f w, h))
          ∙ first_byte-take (f.rlen - f.rpos) (drop f.rpos f.rbuf) (omega (arith, h)))

  -- After `filled`: what is left is the same, and a byte is in the buffer unless none is left.
  record Fills (f : File S.State) (result : Bool × File S.State) : Type 0 where
    same : pending S laws result.1 ≡ pending S laws f
    well : IsWell S laws result.1
    content : laws.content result.1.stream ≡ laws.content f.stream
    some_byte : result.0 ≡ true → result.1.rpos < result.1.rlen
    no_byte : result.0 ≡ false → pending S laws f ≡ []

  refill-Fills : (f : File S.State) → IsWell S laws f → f.rpos ≡ f.rlen → Fills f (refill S f)
  unfolding refill
  refill-Fills f w e =
      subst
        (λ b. Fills f (
          if b
          then (false, record (discard_read_buffer f) { io_error = true })
          else got_some (length got == 0)))
        (sym (unreadable-IsWell S laws f w)) (go (length got == 0) refl)
    where
      got : Bytes
      got = (S.read read_buffer_size f.stream).0

      s : S.State
      s = (S.read read_buffer_size f.stream).1

      got_some : Bool → Bool × File S.State
      got_some b =
          if b
          then (false, record (discard_read_buffer f) { stream = s; io_error = stream_error S s })
          else (
            true,
            record f {
              stream = s;
              io_error = stream_error S s;
              rbuf = got ++ drop (length got) f.rbuf;
              rpos = 0;
              rlen = length got;
            },
          )

      empty : f.rlen - f.rpos ≡ 0
      empty = omega (arith, e)

      nothing_ahead : pending S laws f ≡ laws.rest f.stream
      nothing_ahead = ap (λ (j : ℕ). take j (drop f.rpos f.rbuf) ++ laws.rest f.stream) empty

      healthy : stream_error S s ≡ false
      healthy = laws.read-error read_buffer_size f.stream w.healthy

      got_none : length got ≡ 0 → laws.rest f.stream ≡ []
      got_none h =
          nil_of_take read_buffer_size (laws.rest f.stream) (omega arith)
            (ap length (sym (laws.read-gives read_buffer_size f.stream)) ∙ h)

      go : (b : Bool) → (length got == 0) ≡ b → Fills f (got_some b)
      go true h =
          let none : length got ≡ 0 = ground arith in
          record {
            same =
                laws.read-rest read_buffer_size f.stream
                ∙ ap (drop read_buffer_size) (got_none none)
                ∙ sym (nothing_ahead ∙ got_none none);
            well = record {
              is_open = laws.read-is_open read_buffer_size f.stream ∙ w.is_open;
              healthy = healthy;
              readable = w.readable;
              no_error = healthy;
              ordered = omega arith;
              bounded = omega arith;
            };
            content = laws.read-content read_buffer_size f.stream;
            some_byte = λ x. absurd cc;
            no_byte = λ x. nothing_ahead ∙ got_none none;
          }
      go false h =
          let some : 0 < length got = ground arith in
          record {
            same =
                ap₂ (λ xs ys. xs ++ ys) whole (laws.read-rest read_buffer_size f.stream)
                ∙ ap (λ xs. xs ++ drop read_buffer_size (laws.rest f.stream))
                    (laws.read-gives read_buffer_size f.stream)
                ∙ take-append-drop read_buffer_size (laws.rest f.stream)
                ∙ sym nothing_ahead;
            well = record {
              is_open = laws.read-is_open read_buffer_size f.stream ∙ w.is_open;
              healthy = healthy;
              readable = w.readable;
              no_error = healthy;
              ordered = omega arith;
              bounded = omega (arith, length-append got (drop (length got) f.rbuf));
            };
            content = laws.read-content read_buffer_size f.stream;
            some_byte = λ x. some;
            no_byte = λ x. absurd cc;
          }
        where
          all : length got - 0 ≡ length got
          all = omega arith

          whole : take (length got - 0) (got ++ drop (length got) f.rbuf) ≡ got
          whole =
              ap (λ (j : ℕ). take j (got ++ drop (length got) f.rbuf)) all
              ∙ take-append got (drop (length got) f.rbuf)

  filled-Fills : (f : File S.State) → IsWell S laws f → Fills f (filled S f)
  unfolding filled
  filled-Fills f w = go (f.rpos == f.rlen) refl
    where
      go : (b : Bool) → (f.rpos == f.rlen) ≡ b → Fills f (if b then refill S f else (true, f))
      go true e = refill-Fills f w (ground arith)
      go false e =
          let some : f.rpos < f.rlen = ground (arith, w.ordered) in
          record {
            same = refl;
            well = w;
            content = refl;
            some_byte = λ x. some;
            no_byte = λ x. absurd cc;
          }

  -- On a readable file without an error, with a buffer in its bounds, over a stream that keeps the
  -- laws: `read_byte` gives the next of the bytes that are left and takes it, or EOF where none is
  -- left; the file stays so, and so does its content.
  pub read_byte-Reads :
      (f : File S.State)
      → IsWell S laws f
      → Reads S laws f (first_byte (pending S laws f)) (drop 1 (pending S laws f)) (read_byte S f)
  unfolding read_byte
  read_byte-Reads f w = go (filled S f).0 refl
    where
      g : File S.State
      g = (filled S f).1

      fills : Fills f (filled S f)
      fills = filled-Fills f w

      go :
          (b : Bool)
          → (filled S f).0 ≡ b
          → Reads S laws f
              (first_byte (pending S laws f))
              (drop 1 (pending S laws f))
              (if b then (get_elem? g.rbuf g.rpos, record g { rpos = g.rpos + 1 }) else (none, g))
      go true e =
          let some = fills.some_byte e in
          let r = buffered-Reads S laws 1 g fills.well (omega (arith, some)) in
          record {
            gives = first-pending g fills.well some ∙ ap first_byte fills.same;
            leaves = r.leaves ∙ ap (drop 1) fills.same;
            well = r.well;
            content = fills.content;
          }
      go false e = record {
        gives = ap first_byte (sym (fills.no_byte e));
        leaves = fills.same ∙ fills.no_byte e ∙ ap (drop 1) (sym (fills.no_byte e));
        well = fills.well;
        content = fills.content;
      }

  -- On a readable file without an error, with a buffer in its bounds, over a stream that keeps the
  -- laws: `peek_byte` gives the next of the bytes that are left, or EOF where none is left, and
  -- leaves all of them; the file stays so, and so does its content.
  pub peek_byte-Reads :
      (f : File S.State)
      → IsWell S laws f
      → Reads S laws f (first_byte (pending S laws f)) (pending S laws f) (peek_byte S f)
  unfolding peek_byte
  peek_byte-Reads f w = go (filled S f).0 refl
    where
      g : File S.State
      g = (filled S f).1

      fills : Fills f (filled S f)
      fills = filled-Fills f w

      go :
          (b : Bool)
          → (filled S f).0 ≡ b
          → Reads S laws f
              (first_byte (pending S laws f))
              (pending S laws f)
              (if b then (get_elem? g.rbuf g.rpos, g) else (none, g))
      go true e = record {
        gives = first-pending g fills.well (fills.some_byte e) ∙ ap first_byte fills.same;
        leaves = fills.same;
        well = fills.well;
        content = fills.content;
      }
      go false e = record {
        gives = ap first_byte (sym (fills.no_byte e));
        leaves = fills.same;
        well = fills.well;
        content = fills.content;
      }
