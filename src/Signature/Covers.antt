-- ===== src/Signature/Covers.antt =====
-- `generate_signatures` of src/Signature.hpp signs the whole file, in order.
use roll.Prelude.{
  ℕ, suc, ◌<◌, ◌≡◌, refl, sym, ap, subst, ◌∙◌, min, Bool, true, false, not, Option, none, some,
  List, [], ◌++◌, ◌==◌, ltb, leb, if◌then◌else◌, length, take, drop, take-append-drop, length-take,
  length-drop, append-nil, arith,
}
use roll.Io.{Bytes}
use roll.Io.Action.{ok}
use roll.Io.Memory.{memory_seek, memory_file}
use roll.Hash.{StrongHash, IsStrongHash, SignedChunk}
use roll.Rolling.{RkFinger, initialize, init_state, window_def_size}
use roll.Generate.Checks.{covers_exactly, verify_old_file, check_trailer}
use roll.Generate.Checks.Covers.{checks-covers_exactly}
use roll.Signature.{
  cut, chunk_loop, cut_residual, finish_signature, generate_signatures, finish_option,
  residual_option, default_fingerprint,
}
use roll.Signature.Tiles.{Tiles, done, covers_loop-Tiles, AllSigned-Tiles}
use roll.Signature.Rounds.{State, IsAt, cut-Cuts, hash_of, initialize-window_size, initialize-full}
use roll.Signature.Loop.{chunk_loop-Ends, nil_of_length}

default-window_size :
    (U : StrongHash) → (default_fingerprint U memory_seek).window_size ≡ window_def_size
unfolding init_state
default-window_size U = refl

module _ (U : StrongHash) (laws : IsStrongHash U) (file : Bytes) (compute : Bool) where
  -- A success, with chunks that are the signatures of the pieces of the file, in order and without a gap, and with the
  -- digest of the whole file in the mode that wants it.
  pub record Signs (r : Option (Option (List SignedChunk × Bytes))) : Type 0 where
    pub chunks : List SignedChunk
    pub digest : Bytes
    pub runs : r ≡ some (some (chunks, digest))
    pub tiles : Tiles U 0 file chunks
    pub whole : digest ≡ (if compute then U.hash file else [])

  abbrev St : Type 0
  St = State U laws file compute

  abbrev At : Bytes → St → Type 0
  At = IsAt U laws file compute

  abbrev digest_of : Option U.State → Bytes
  digest_of w = elim w [ none ↦ [] | some h ↦ U.finalize h ]

  digest_of-hash_of :
      digest_of (hash_of U laws file compute file) ≡ (if compute then U.hash file else [])
  digest_of-hash_of = go compute
    where
      go :
          (b : Bool)
          → digest_of (if b then some (U.update file U.init) else none)
            ≡ (if b then U.hash file else [])
      go true = sym (laws.hash_lem file)
      go false = refl

  -- The end, where everything was cut.
  finish_signature-Signs :
      (past : Bytes) (c : St)
      → At past c
      → past ≡ file
      → length c.chunk ≡ 0
      → Signs (some (finish_signature U memory_seek c))
  unfolding finish_signature
  finish_signature-Signs past c a all empty = record {
    chunks = c.signed.chunks;
    digest = digest_of c.signed.whole;
    runs = ground (arith, counted);
    tiles = subst (λ z. Tiles U 0 z c.signed.chunks) all a.tiles;
    whole = ap digest_of (a.whole ∙ ap (hash_of U laws file compute) all) ∙ digest_of-hash_of;
  }
    where
      counted : (c.bytes_read == length c.file.0) ≡ true
      counted = ground (arith, a.counted, empty, ap length all, ap length a.content)

  -- What is left in the chunk is cut.
  whole_file : (past : Bytes) (c : St) → At past c → c.file.1 ≡ [] → past ++ c.chunk ≡ file
  whole_file past c a used =
      ap (λ z. past ++ z) (sym (append-nil c.chunk) ∙ ap (λ z. c.chunk ++ z) (sym used))
      ∙ a.together

  cut-Signs :
      (past : Bytes) (c : St)
      → At past c
      → c.file.1 ≡ []
      → 0 < length c.chunk
      → Signs (finish_option U memory_seek (cut U memory_seek c))
  cut-Signs past c a used h =
      let cuts = cut-Cuts U laws file compute past c a h in
      subst (λ z. Signs (finish_option U memory_seek z)) (sym cuts.runs)
        (finish_signature-Signs (past ++ c.chunk) cuts.result cuts.at (whole_file past c a used)
          (ap length cuts.empty))

  cut_residual-Signs :
      (past : Bytes) (c : St)
      → At past c
      → c.file.1 ≡ []
      → Signs (finish_option U memory_seek (cut_residual U memory_seek c))
  unfolding cut_residual
  cut_residual-Signs past c a used = go (ltb 0 (length c.chunk)) refl
    where
      go :
          (b : Bool)
          → ltb 0 (length c.chunk) ≡ b
          → Signs (finish_option U memory_seek (if b then cut U memory_seek c else some c))
      go true e = cut-Signs past c a used (ground arith)
      go false e =
          let empty : length c.chunk ≡ 0 = ground arith in
          finish_signature-Signs past c a
            (sym (append-nil past)
              ∙ ap (λ z. past ++ z) (sym (nil_of_length c.chunk empty))
              ∙ whole_file past c a used)
            empty

  -- For a hash with the stated laws and a file of any length, in both modes and wherever the file was read before:
  -- `generate_signatures` succeeds, within the rounds that the model gives it; its chunks are the signatures of the pieces of
  -- the file, in order and without a gap, each of 1 to 16384 bytes; and the digest is the hash of the file in the mode
  -- `Compute`, and empty in the other.
  pub generate_signatures-Signs :
      (left : Bytes) → Signs (generate_signatures U memory_seek compute (file, left))
  unfolding generate_signatures
  generate_signatures-Signs left = go (length initial == 0) refl
    where
      initial : Bytes
      initial = take window_def_size (drop 0 file)

      begun : Bool × RkFinger
      begun = initialize initial (default_fingerprint U memory_seek)

      empty : St
      empty = record {
        file = (file, drop window_def_size (drop 0 file));
        fingerprint = default_fingerprint U memory_seek;
        bytes_read = 0;
        chunk = [];
        signed = record { chunks = []; whole = if compute then some U.init else none };
      }

      first : St
      first = record empty { fingerprint = begun.1; bytes_read = length initial; chunk = initial }

      started : (if compute then some U.init else none) ≡ hash_of U laws file compute []
      started = go compute
        where
          go :
              (b : Bool)
              → (if b then some U.init else none) ≡ (if b then some (U.update [] U.init) else none)
          go true = ap some (sym (laws.update-nil U.init))
          go false = refl

      measured : length initial ≡ min window_def_size (length file)
      measured = length-take window_def_size file

      at : At [] first
      at = record {
        tiles = done;
        whole = started;
        content = refl;
        together = take-append-drop window_def_size file;
        counted = omega arith;
        window =
            initialize-window_size initial (default_fingerprint U memory_seek)
            ∙ default-window_size U;
        small = omega (arith, measured);
      }

      short : begun.0 ≡ false → first.file.1 ≡ []
      short h =
          nil_of_length (drop window_def_size file)
            (omega (arith, below h, measured, length-drop window_def_size file))
        where
          below : begun.0 ≡ false → length initial < window_def_size
          below h = ground (
            arith,
            sym (
                  initialize-full initial (default_fingerprint U memory_seek)
                  ∙ ap (λ (w : ℕ). leb w (length initial)) (default-window_size U))
                ∙ h,
          )

      finished : Option (Option (List SignedChunk × Bytes))
      finished = finish_option U memory_seek (
          residual_option U memory_seek
            (chunk_loop U memory_seek (suc (length first.file.1)) false first))

      looped : Signs finished
      looped =
          let ends =
            chunk_loop-Ends U laws file compute (suc (length first.file.1)) false [] first at
              (λ h. absurd cc) (λ h. omega (arith, measured)) (omega arith) in
          subst (λ z. Signs (finish_option U memory_seek (residual_option U memory_seek z)))
            (sym ends.runs) (cut_residual-Signs ends.past ends.result ends.at ends.used)

      windowed :
          0 < length initial
          → (b : Bool) → begun.0 ≡ b
          → Signs
              (if not b then finish_option U memory_seek (cut U memory_seek first) else finished)
      windowed h true e = looped
      windowed h false e = cut-Signs [] first at (short e) h

      nothing : length initial ≡ 0 → At [] empty
      nothing h = record {
        tiles = done;
        whole = started;
        content = refl;
        together =
            ap (λ z. z ++ drop window_def_size file) (sym (nil_of_length initial h))
            ∙ take-append-drop window_def_size file;
        counted = refl;
        window = default-window_size U;
        small = omega arith;
      }

      go :
          (b : Bool)
          → (length initial == 0) ≡ b
          → Signs (
              if b
              then some (finish_signature U memory_seek empty)
              else if not begun.0
              then finish_option U memory_seek (cut U memory_seek first)
              else finished)
      go true e =
          let none_read : length initial ≡ 0 = ground arith in
          finish_signature-Signs [] empty (nothing none_read)
            (sym (nil_of_length file (omega (arith, none_read, measured)))) refl
      go false e = windowed (ground arith) begun.0 refl

  -- The generator accepts such a signature: for a hash with the stated laws, `coversExactly` and `verifyOldFile` accept the
  -- chunks that `generate_signatures` gives for the file, and the trailer that is computed from them is the hash of the file.
  pub checks-generate_signatures :
      (left : Bytes)
      → (chunks : List SignedChunk) × (digest : Bytes) × (generate_signatures U memory_seek compute
            (file, left)
          ≡ some (some (chunks, digest)))
        × (covers_exactly chunks (length file) ≡ true)
        × (verify_old_file U memory_file chunks file ≡ (ok tt, file))
        × (check_trailer U memory_file chunks [] file ≡ (ok (U.hash file), file))
  unfolding covers_exactly
  checks-generate_signatures left =
      let s = generate_signatures-Signs left in
      let covered = covers s.tiles in
      let c =
        checks-covers_exactly U laws file s.chunks covered
          (AllSigned-Tiles U file [] s.tiles refl refl) in
      (s.chunks, s.digest, s.runs, covered, c.0, c.1)
    where
      covers :
          {chunks : List SignedChunk}
          → Tiles U 0 file chunks
          → covers_exactly chunks (length file) ≡ true
      covers t = covers_loop-Tiles U (length file) t (omega arith)
