-- ===== src/Output/Staged.antt =====
-- What `open` of src/OutputTransaction.cpp leaves in the members and in the file system.
use roll.Prelude.{
  ℕ, zero, suc, ◌≡◌, ◌≢◌, ◌⊎◌, inl, inr, refl, sym, ap, subst, ◌∙◌, Bool, true, false, Option, some,
  none, [], ◌∷◌, ◌++◌, All, if◌then◌else◌, arith,
}
use roll.Io.{Bytes}
use roll.Io.Action.{Result, ok, err, ◌>>=◌, bind-cases}
use roll.Os.{FileSystem, IsFileSystem, IsPlain, IsDigitChar}
use roll.Error.{DeltaError, io_error, cannot_create_temporary}
use roll.Output.Keeps.{Keeps, files, files-IsQuiet, copy_permissions-Keeps}
use roll.Output.{
  OutputTransaction, Process, Step, call, fail, track, copy_permissions, stage, open_candidate,
  staged_prefix, candidate_suffix, next_candidate, create_temporary,
}

append-IsPlain : (xs ys : Bytes) → All IsPlain xs → All IsPlain ys → All IsPlain (xs ++ ys)
append-IsPlain [] ys h k = k
append-IsPlain (x ∷ xs) ys h k = (h.0, append-IsPlain xs ys h.1 k)

digits-IsPlain : (xs : Bytes) → All IsDigitChar xs → All IsPlain xs
digits-IsPlain [] h = tt
digits-IsPlain (x ∷ xs) h = ((λ e. omega (arith, h.0, e)), digits-IsPlain xs h.1)

prefix-IsPlain : All IsPlain staged_prefix
prefix-IsPlain = omega arith

dash-IsPlain : IsPlain b'-'
dash-IsPlain = omega arith

module _ (F : FileSystem) where
  open F use {Location}

  -- No file is changed, and what is noted as staged is what was.
  pub record Untouched (t : Option Location) (before : Location → Option Bytes)
      (m : OutputTransaction Location) (now : Location → Option Bytes) : Type 0 where
    pub temporary : m.temporary ≡ t
    pub unchanged : (q : Location) → now q ≡ before q

  module _ (d : Location) where
    -- An output is staged beside the destination: a new file that is empty, and no other file is changed.
    pub record Opened (before : Location → Option Bytes) (m : OutputTransaction Location)
        (now : Location → Option Bytes) : Type 0 where
      pub staged : Location
      pub destination : m.destination ≡ some d
      pub temporary : m.temporary ≡ some staged
      pub file : m.file ≡ some staged
      pub absent_before : before staged ≡ none
      pub empty_now : now staged ≡ some []
      pub others : (q : Location) → q ≢ staged → now q ≡ before q
      pub suffix : Bytes
      pub beside : staged ≡ F.join (F.parent_path d) (staged_prefix ++ suffix)
      pub filename : F.filename staged ≡ staged_prefix ++ suffix

    -- So it is after a success; after a failure, that or nothing.
    abbrev pub Opens :
        Option Location
        → (Location → Option Bytes)
        → Result DeltaError (Unit {0})
        → Process F
        → Type 0
    Opens t before (ok a) w = Opened before w.transaction (files F w)
    Opens t before (err e) w =
        Opened before w.transaction (files F w) ⊎ Untouched t before w.transaction (files F w)

    module _ (laws : IsFileSystem F) (t : Option Location) (before : Location → Option Bytes) where
      always :
          (r : Result DeltaError (Unit {0})) (w : Process F)
          → Opened before w.transaction (files F w)
          → Opens t before r w
      always (ok a) w o = o
      always (err e) w o = inl o

      track_members :
          (path : Location) (w : Process F)
          → ((track F path w).1.system ≡ w.system)
            × ((track F path w).1.transaction.destination ≡ w.transaction.destination)
            × ((track F path w).1.transaction.temporary ≡ w.transaction.temporary)
            × ((track F path w).1.transaction.file ≡ w.transaction.file)
      unfolding track
      track_members path w = ground arith

      track-Keeps :
          (path : Location) → Keeps F (λ w. Opened before w.transaction (files F w)) (track F path)
      track-Keeps path w o =
          let e = track_members path w in
          record {
            staged = o.staged;
            destination = e.1 ∙ o.destination;
            temporary = e.2 ∙ o.temporary;
            file = e.3 ∙ o.file;
            absent_before = o.absent_before;
            empty_now = ap (F.lookup o.staged) e.0 ∙ o.empty_now;
            others = λ q ne. ap (F.lookup q) e.0 ∙ o.others q ne;
            suffix = o.suffix;
            beside = o.beside;
            filename = o.filename;
          }

      stage-Opens :
          (candidate : Location) (w : Process F)
          → Opened before (record w.transaction { temporary = some candidate }) (files F w)
          → Opens t before (stage F d candidate w).0 (stage F d candidate w).1
      unfolding stage
      stage-Opens candidate w o =
          bind-cases (Opens t before) (track F candidate) (λ u. copy_permissions F d candidate)
            noted (λ e w' eq. inl (tracked eq))
            (λ u w' eq.
              always (copy_permissions F d candidate w').0 (copy_permissions F d candidate w').1 (
                copy_permissions-Keeps F (λ w. Opened before w.transaction (files F w))
                  (files-IsQuiet F laws (Opened before)) d candidate w' (tracked eq)))
        where
          noted : Process F
          noted = record w { transaction = record w.transaction { temporary = some candidate } }

          tracked :
              {r : Result DeltaError (Unit {0})} {w' : Process F}
              → track F candidate noted ≡ (r, w')
              → Opened before w'.transaction (files F w')
          tracked eq =
              subst (λ z. Opened before z.transaction (files F z)) (ap (λ p. p.1) eq)
                (track-Keeps candidate noted o)

      -- Before a file is created.
      pub record Begun (m : OutputTransaction Location) (now : Location → Option Bytes)
          : Type 0 where
        pub destination : m.destination ≡ some d
        pub untouched : Untouched t before m now

      pub create_temporary-Opens :
          (attempts : ℕ) (w : Process F)
          → Begun w.transaction (files F w)
          → Opens t before (create_temporary F attempts d w).0 (create_temporary F attempts d w).1
      unfolding create_temporary next_candidate open_candidate
      create_temporary-Opens zero w h = inr h.untouched
      create_temporary-Opens (suc attempts) w h =
          go (create_temporary-Opens attempts) (F.open_exclusive candidate named).0 refl
        where
          second : F.State
          second = (F.random w.system).1

          named : F.State
          named = (F.random second).1

          suffix : Bytes
          suffix = candidate_suffix F (F.random w.system).0 (F.random second).0 w.counter

          candidate : Location
          candidate = F.join (F.parent_path d) (staged_prefix ++ suffix)

          tried : Bool → Process F
          tried b = record (next_candidate F d w).1 {
            system = (F.open_exclusive candidate named).1;
            transaction = record w.transaction { file = if b then some candidate else none };
          }

          retry : Step F (Unit {0})
          retry = call F (F.exists candidate) >>= λ taken.
              if taken
              then create_temporary F attempts d
              else fail F io_error cannot_create_temporary

          still : (q : Location) → F.lookup q named ≡ before q
          still q =
              laws.random-lookup q second ∙ laws.random-lookup q w.system ∙ h.untouched.unchanged q

          plain : All IsPlain (staged_prefix ++ suffix)
          plain = append-IsPlain staged_prefix suffix prefix-IsPlain (
              append-IsPlain (F.decimal (F.random w.system).0) _
                (digits-IsPlain _ (laws.decimal-digits _))
                (
                  dash-IsPlain,
                  append-IsPlain (F.decimal (F.random second).0) _
                      (digits-IsPlain _ (laws.decimal-digits _))
                      (dash-IsPlain, digits-IsPlain _ (laws.decimal-digits _)),
                ))

          after_exists :
              ((w : Process F)
                → Begun w.transaction (files F w)
                → Opens t before
                    (create_temporary F attempts d w).0
                    (create_temporary F attempts d w).1)
              → (taken : Bool) (w : Process F) → Begun w.transaction (files F w)
              → Opens t before
                  ((if taken
                      then create_temporary F attempts d
                      else fail F io_error cannot_create_temporary)
                    w).0
                  ((if taken
                      then create_temporary F attempts d
                      else fail F io_error cannot_create_temporary)
                    w).1
          after_exists again true w b = again w b
          after_exists again false w b = inr b.untouched

          go :
              ((w : Process F)
                → Begun w.transaction (files F w)
                → Opens t before
                    (create_temporary F attempts d w).0
                    (create_temporary F attempts d w).1)
              → (b : Bool) → (F.open_exclusive candidate named).0 ≡ b
              → Opens t before
                  ((if b then stage F d candidate else retry) (tried b)).0
                  ((if b then stage F d candidate else retry) (tried b)).1
          go again true e = stage-Opens candidate (tried true) (record {
            staged = candidate;
            destination = h.destination;
            temporary = refl;
            file = refl;
            absent_before = sym (still candidate) ∙ laws.open_exclusive-absent candidate named e;
            empty_now = laws.open_exclusive-creates candidate named e;
            others = λ q ne. laws.open_exclusive-others q candidate named ne ∙ still q;
            suffix = suffix;
            beside = refl;
            filename = laws.join-filename (F.parent_path d) (staged_prefix ++ suffix) plain;
          })
          go again false e =
              after_exists again (F.exists candidate (tried false).system).0
                (record (tried false) { system = (F.exists candidate (tried false).system).1 })
                (record {
                  destination = h.destination;
                  untouched = record {
                    temporary = h.untouched.temporary;
                    unchanged = λ q.
                        laws.exists-lookup q candidate (tried false).system
                        ∙ laws.open_exclusive-fails q candidate named e
                        ∙ still q;
                  };
                })
