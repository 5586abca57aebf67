-- ===== src/File/Reads.antt =====
-- The reads of src/FileIO.cpp against the plain sequence of the bytes of the file.
use roll.Prelude.{
  ℕ, ◌+◌, ◌-◌, ◌≤◌, ◌<◌, ◌≡◌, refl, sym, ap, ap₂, subst, ◌∙◌, min, Bool, true, false, ◌++◌, ltb,
  if◌then◌else◌, length, take, drop, take-append-le, drop-append-le, take-append-ge, drop-append-ge,
  take-take, drop-take, drop-drop, length-take, length-drop, arith,
}
use roll.Io.{Bytes}
use roll.File.{Stream, File, stream_error, unreadable, read_step}

-- A stream on a file that nothing else changes and whose device does not fail: the content, what is left of it, and what
-- reads and seeks do to them.
pub record IsBacked (S : Stream) : Type 0 where
  pub content : S.State → Bytes
  pub rest : S.State → Bytes
  pub read-gives : (n : ℕ) (s : S.State) → (S.read n s).0 ≡ take n (rest s)
  pub read-rest : (n : ℕ) (s : S.State) → rest (S.read n s).1 ≡ drop n (rest s)
  pub read-content : (n : ℕ) (s : S.State) → content (S.read n s).1 ≡ content s
  pub read-is_open : (n : ℕ) (s : S.State) → S.is_open (S.read n s).1 ≡ S.is_open s
  pub read-error :
      (n : ℕ) (s : S.State) → stream_error S s ≡ false → stream_error S (S.read n s).1 ≡ false
  pub seekg-rest : (p : ℕ) (s : S.State) → rest (S.seekg p (S.clear s)) ≡ drop p (content s)
  pub seekg-content : (p : ℕ) (s : S.State) → content (S.seekg p (S.clear s)) ≡ content s
  pub seekg-is_open : (p : ℕ) (s : S.State) → S.is_open (S.seekg p (S.clear s)) ≡ S.is_open s
  pub seekg-fail :
      (p : ℕ) (s : S.State) → S.is_open s ≡ true → S.fail (S.seekg p (S.clear s)) ≡ false
  pub seekg-error :
      (p : ℕ) (s : S.State) → S.is_open s ≡ true → stream_error S (S.seekg p (S.clear s)) ≡ false

module _ (S : Stream) (laws : IsBacked S) where
  -- A file that is read without an error so far, with a buffer in its bounds.
  pub record IsWell (f : File S.State) : Type 0 where
    pub is_open : S.is_open f.stream ≡ true
    pub healthy : stream_error S f.stream ≡ false
    pub readable : f.readable ≡ true
    pub no_error : f.io_error ≡ false
    pub ordered : f.rpos ≤ f.rlen
    pub bounded : f.rlen ≤ length f.rbuf

  -- What is in the buffer, and what the caller has still to read.
  abbrev pub ahead : File S.State → Bytes
  ahead f = take (f.rlen - f.rpos) (drop f.rpos f.rbuf)

  abbrev pub pending : File S.State → Bytes
  pending f = ahead f ++ laws.rest f.stream

  -- A read gives `bytes` and leaves `more`, and the content stays.
  pub record Reads {A : Type 0} (f : File S.State) (value : A) (more : Bytes)
      (result : A × File S.State) : Type 0 where
    pub gives : result.0 ≡ value
    pub leaves : pending result.1 ≡ more
    pub well : IsWell result.1
    pub content : laws.content result.1.stream ≡ laws.content f.stream

  pub unreadable-IsWell : (f : File S.State) → IsWell f → unreadable S f ≡ false
  unreadable-IsWell f w = ground (arith, w.is_open, w.readable, w.no_error)

  pub length-ahead : (f : File S.State) → IsWell f → length (ahead f) ≡ f.rlen - f.rpos
  length-ahead f w = omega (
    arith,
    w.ordered,
    w.bounded,
    length-take (f.rlen - f.rpos) (drop f.rpos f.rbuf),
    length-drop f.rpos f.rbuf,
  )

  -- The bytes of the buffer suffice.
  pub buffered-Reads :
      (step : ℕ) (f : File S.State)
      → IsWell f
      → step ≤ f.rlen - f.rpos
      → Reads f
          (take step (pending f))
          (drop step (pending f))
          (take step (drop f.rpos f.rbuf), record f { rpos = f.rpos + step })
  buffered-Reads step f w h = record {
    gives = sym (
        take-append-le step (ahead f) (laws.rest f.stream) enough
        ∙ take-take step (f.rlen - f.rpos) (drop f.rpos f.rbuf) h);
    leaves =
        ap (λ xs. xs ++ laws.rest f.stream) moved
        ∙ sym (drop-append-le step (ahead f) (laws.rest f.stream) enough);
    well = record {
      is_open = w.is_open;
      healthy = w.healthy;
      readable = w.readable;
      no_error = w.no_error;
      ordered = omega (arith, h, w.ordered);
      bounded = w.bounded;
    };
    content = refl;
  }
    where
      enough : step ≤ length (ahead f)
      enough = omega (arith, h, length-ahead f w)

      left : ℕ
      left = f.rlen - (f.rpos + step)

      moved : take left (drop (f.rpos + step) f.rbuf) ≡ drop step (ahead f)
      moved =
          ap (take left) (sym (drop-drop f.rpos step f.rbuf))
          ∙ sym (drop-take step left (f.rlen - f.rpos) (drop f.rpos f.rbuf) (omega (arith, h)))

  -- The bytes of the buffer do not suffice.
  drained-Reads :
      (step k : ℕ) (f : File S.State)
      → IsWell f
      → k ≡ f.rlen - f.rpos
      → k < step
      → Reads f (take step (pending f)) (drop step (pending f)) (
        take k (drop f.rpos f.rbuf) ++ (S.read (step - k) f.stream).0,
        record f {
          rpos = f.rpos + k;
          stream = (S.read (step - k) f.stream).1;
          io_error = stream_error S (S.read (step - k) f.stream).1;
        },
      )
  drained-Reads step k f w e h = record {
    gives =
        ap₂ (λ xs ys. xs ++ ys) (ap (λ (j : ℕ). take j (drop f.rpos f.rbuf)) e)
          (laws.read-gives (step - k) f.stream)
        ∙ sym (take-append-ge step (step - k) (ahead f) (laws.rest f.stream) measured);
    leaves =
        ap
          (λ (j : ℕ). take j (drop (f.rpos + k) f.rbuf) ++ laws.rest (S.read (step - k) f.stream).1)
          empty
        ∙ laws.read-rest (step - k) f.stream
        ∙ sym (drop-append-ge step (step - k) (ahead f) (laws.rest f.stream) measured);
    well = record {
      is_open = laws.read-is_open (step - k) f.stream ∙ w.is_open;
      healthy = laws.read-error (step - k) f.stream w.healthy;
      readable = w.readable;
      no_error = laws.read-error (step - k) f.stream w.healthy;
      ordered = omega (arith, e, w.ordered);
      bounded = w.bounded;
    };
    content = laws.read-content (step - k) f.stream;
  }
    where
      measured : step ≡ length (ahead f) + (step - k)
      measured = omega (arith, e, h, length-ahead f w)

      empty : f.rlen - (f.rpos + k) ≡ 0
      empty = omega (arith, e, w.ordered)

  pub read_step-Reads :
      (step : ℕ) (f : File S.State)
      → IsWell f
      → Reads f (take step (pending f)) (drop step (pending f)) (read_step S step f)
  unfolding read_step
  read_step-Reads step f w = go (ltb (min step (f.rlen - f.rpos)) step) refl
    where
      k : ℕ
      k = min step (f.rlen - f.rpos)

      inner : Bytes × File S.State
      inner = (take k (drop f.rpos f.rbuf), record f { rpos = f.rpos + k })

      outer : Bytes × File S.State
      outer = (
        take k (drop f.rpos f.rbuf) ++ (S.read (step - k) f.stream).0,
        record f {
          rpos = f.rpos + k;
          stream = (S.read (step - k) f.stream).1;
          io_error = stream_error S (S.read (step - k) f.stream).1;
        },
      )

      go :
          (b : Bool)
          → ltb k step ≡ b
          → Reads f (take step (pending f)) (drop step (pending f)) (if b then outer else inner)
      go true e = drained-Reads step k f w (ground arith) (ground arith)
      go false e =
          let same : step ≡ k = ground arith in
          subst
            (λ (j : ℕ).
              Reads f (take step (pending f)) (drop step (pending f))
                (take j (drop f.rpos f.rbuf), record f { rpos = f.rpos + j }))
            same (buffered-Reads step f w (omega (arith, same)))
