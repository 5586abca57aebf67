-- ===== src/Output/Commits.antt =====
-- `commit` of src/OutputTransaction.cpp replaces the destination as a whole or not at all.
use roll.Prelude.{
  ℕ, ◌≡◌, ◌≢◌, ◌⊎◌, inl, inr, refl, sym, ap, subst, ◌∙◌, Bool, true, false, not, ◌||◌, Option, none,
  some, List, if◌then◌else◌,
}
use roll.Io.{Bytes}
use roll.Io.Action.{Result, ok, err, ◌>>=◌, pure, bind-cases}
use roll.Os.{FileSystem, IsFileSystem}
use roll.Error.{DeltaError, io_error, cannot_flush, cannot_replace}
use roll.Output.Keeps.{
  if-Keeps, IsQuiet, after, files, files-IsQuiet, sync_file-Keeps, sync_directory-Keeps,
  validate_destination-Keeps,
}
use roll.Output.{
  OutputTransaction, Process, Step, fail, update, clear_slot, close_of, close_output,
  flush_descriptor, sync_file, sync_directory, untrack, validate_destination, flush_output, publish,
  commit_staged, commit_of, commit,
}

ok-ne-err : {A : Type 0} {a : A} {e : DeltaError} → ◌≢◌ {A = Result DeltaError A} (ok a) (err e)
ok-ne-err h = cc

module _ (F : FileSystem) where
  pub untrack_lem :
      (w : Process F)
      → ((untrack F w).0 ≡ ok tt)
        × ((untrack F w).1.system ≡ w.system)
        × ((untrack F w).1.transaction ≡ record w.transaction { slot = none })
  unfolding untrack
  untrack_lem w = go w.transaction.slot refl
    where
      after_slot : Option ℕ → Result DeltaError (Unit {0}) × Process F
      after_slot slot = elim slot [
        | none ↦ (ok tt, w)
        | some i ↦ (
          ok tt,
          record w {
            slots = clear_slot i w.slots;
            transaction = record w.transaction { slot = none };
          },
        )
      ]

      go :
          (slot : Option ℕ)
          → w.transaction.slot ≡ slot
          → ((after_slot slot).0 ≡ ok tt)
            × ((after_slot slot).1.system ≡ w.system)
            × ((after_slot slot).1.transaction ≡ record w.transaction { slot = none })
      go none e = (refl, refl, λ i. record w.transaction { slot = e i })
      go (some i) e = (refl, refl, refl)

  flush_descriptor-ok :
      (fd : Option ℕ) (w : Process F) → (b : Bool) × ((flush_descriptor F fd w).0 ≡ ok b)
  unfolding flush_descriptor
  flush_descriptor-ok none w = (false, refl)
  flush_descriptor-ok (some fd) w = (_, refl)

  sync_directory-ok : (path : F.Location) (w : Process F) → (sync_directory F path w).0 ≡ ok tt
  unfolding sync_directory
  sync_directory-ok path w =
      let (b, e) =
        flush_descriptor-ok (F.open_directory path w.system).0
          (after F (F.open_directory path) w) in
      rw e

-- What holds after the file is closed holds after it is flushed.
flush_output-Keeps :
    (F : FileSystem) (t : F.Location) (P : Process F → Type 0)
    → IsQuiet F P
    → (w : Process F) → P (close_output F w).1
    → P (flush_output F t w).1
unfolding flush_output close_output
flush_output-Keeps F t P quiet w h = go w.transaction.file h
  where
    checked : Bool → Step F Bool
    checked closed w =
        (if not closed || F.has_error t w.system then pure false else sync_file F t) w

    checked-Keeps : (closed : Bool) (w : Process F) → P w → P (checked closed w).1
    checked-Keeps closed w =
        if-Keeps F P (not closed || F.has_error t w.system) (pure false) (sync_file F t) (λ w h. h)
          (sync_file-Keeps F P quiet t) w

    go :
        (file : Option F.Location) → P (close_of F file w).1 → P ((close_of F file >>= checked) w).1
    go none h = checked-Keeps true w h
    go (some p) h = checked-Keeps (F.close p w.system).0 (close_of F (some p) w).1 h

module _ (F : FileSystem) (laws : IsFileSystem F) (t d : F.Location) (apart : d ≢ t) where
  -- The file is open on the staged path, or not at all.
  abbrev pub IsOn : Option F.Location → Type 0
  IsOn file = (file ≡ none) ⊎ (file ≡ some t)

  -- Closing the file leaves the destination, and of the members all but the file.
  pub close_output-lem :
      (w : Process F)
      → IsOn w.transaction.file
      → (F.lookup d (close_output F w).1.system ≡ F.lookup d w.system)
        × ((close_output F w).1.transaction ≡ record w.transaction { file = none })
  unfolding close_output
  close_output-lem w (inl e) =
      subst
        (λ z.
          (F.lookup d (close_of F z w).1.system ≡ F.lookup d w.system)
          × ((close_of F z w).1.transaction ≡ record w.transaction { file = none }))
        (sym e) (refl, λ i. record w.transaction { file = e i })
  close_output-lem w (inr e) =
      subst
        (λ z.
          (F.lookup d (close_of F z w).1.system ≡ F.lookup d w.system)
          × ((close_of F z w).1.transaction ≡ record w.transaction { file = none }))
        (sym e) (laws.close-lookup d t w.system apart, refl)

  module _ (v u : Option Bytes) (x : OutputTransaction F.Location) where
    -- Up to the rename: `v` stands at the destination, `u` at the staged path, and the members are `x`.
    Ready : OutputTransaction F.Location → (F.Location → Option Bytes) → Type 0
    Ready m now = (now d ≡ v) × (now t ≡ u) × (m ≡ x)

    -- The two ends of a commit.
    abbrev pub Outcome : Result DeltaError (Unit {0}) → Process F → Type 0
    Outcome (ok a) w =
        (F.lookup d w.system ≡ u)
        × (F.lookup t w.system ≡ none)
        × (w.transaction ≡ record x { temporary = none; slot = none })
    Outcome (err e) w = (F.lookup d w.system ≡ v) × (w.transaction ≡ x)

    Done : OutputTransaction F.Location → (F.Location → Option Bytes) → Type 0
    Done m now = (now d ≡ u) × (now t ≡ none) × (m ≡ record x { temporary = none; slot = none })

    published :
        (w : Process F)
        → Done w.transaction (files F w)
        → Outcome (sync_directory F d w).0 (sync_directory F d w).1
    unfolding Done
    published w h = rw (sync_directory-ok F d w) (
        sync_directory-Keeps F (λ w. Done w.transaction (files F w)) (files-IsQuiet F laws Done) d w
          h)

    -- The two ends of `publish`.
    publish-Outcome :
        (w : Process F)
        → Ready w.transaction (files F w)
        → Outcome (publish F t d w).0 (publish F t d w).1
    unfolding publish Ready Done
    publish-Outcome w ready = go (F.rename t d w.system).0 refl
      where
        renamed : Process F
        renamed = after F (F.rename t d) w

        finish : Step F (Unit {0})
        finish = untrack F >>= λ a.
            (update F (λ t. record t { temporary = none }) >>= λ b. sync_directory F d)

        cleared : Process F → Process F
        cleared w = record w { transaction = record w.transaction { temporary = none } }

        finished :
            Done
              (cleared (untrack F renamed).1).transaction
              (files F (cleared (untrack F renamed).1))
            → Outcome (finish renamed).0 (finish renamed).1
        finished h =
            bind-cases Outcome (untrack F)
              (λ a. update F (λ t. record t { temporary = none }) >>= λ b. sync_directory F d)
              renamed
              (λ e w' eq. absurd (ok-ne-err (sym (untrack_lem F renamed).0 ∙ ap (λ p. p.0) eq)))
              (λ a w' eq. published (cleared w') (
                subst (λ z. Done (cleared z).transaction (files F (cleared z))) (ap (λ p. p.1) eq)
                  h))

        go :
            (b : Bool)
            → (F.rename t d w.system).0 ≡ b
            → Outcome
                ((if b then finish else fail F io_error cannot_replace) renamed).0
                ((if b then finish else fail F io_error cannot_replace) renamed).1
        go true e = finished (
          ap (F.lookup d) (untrack_lem F renamed).1 ∙ laws.rename-target t d w.system e ∙ ready.1,
          ap (F.lookup t) (untrack_lem F renamed).1 ∙ laws.rename-source t d w.system e apart,
          ap (λ (m : OutputTransaction F.Location). record m { temporary = none })
                (untrack_lem F renamed).2
              ∙ ap
                  (λ (m : OutputTransaction F.Location). record m { temporary = none; slot = none })
                  ready.2,
        )
        go false e = (laws.rename-fails d t d w.system e ∙ ready.0, ready.2)

    -- After the file is closed.
    commit_staged-Outcome :
        (inputs : List F.Location) (w : Process F)
        → Ready (flush_output F t w).1.transaction (files F (flush_output F t w).1)
        → Outcome (commit_staged F t d inputs w).0 (commit_staged F t d inputs w).1
    unfolding commit_staged Ready
    commit_staged-Outcome inputs w ready =
        bind-cases Outcome (flush_output F t)
          (λ b. if b then replace else fail F io_error cannot_flush) w
          (λ e w' eq. let r = ready_at eq in (r.0, r.2)) (λ b w' eq. go b w' (ready_at eq))
      where
        replace : Step F (Unit {0})
        replace = validate_destination F d inputs >>= λ a. publish F t d

        IsReady : Process F → Type 0
        IsReady w = Ready w.transaction (files F w)

        ready_at :
            {r : Result DeltaError Bool} {w' : Process F}
            → flush_output F t w ≡ (r, w')
            → IsReady w'
        ready_at eq = subst IsReady (ap (λ p. p.1) eq) ready

        validated :
            (w' : Process F)
            → IsReady w'
            → {r : Result DeltaError (Unit {0})} {w'' : Process F}
            → validate_destination F d inputs w' ≡ (r, w'')
            → IsReady w''
        validated w' r eq =
            subst IsReady (ap (λ p. p.1) eq)
              (validate_destination-Keeps F IsReady (files-IsQuiet F laws Ready) d inputs w' r)

        go :
            (b : Bool) (w' : Process F)
            → IsReady w'
            → Outcome
                ((if b then replace else fail F io_error cannot_flush) w').0
                ((if b then replace else fail F io_error cannot_flush) w').1
        go false w' r = (r.0, r.2)
        go true w' r =
            bind-cases Outcome (validate_destination F d inputs) (λ a. publish F t d) w'
              (λ e w'' eq. let s = validated w' r eq in (s.0, s.2))
              (λ a w'' eq. publish-Outcome w'' (validated w' r eq))

  pub commit-Outcome :
      (w : Process F)
      → w.transaction.temporary ≡ some t
      → w.transaction.destination ≡ some d
      → IsOn w.transaction.file
      → Outcome
          (F.lookup d w.system)
          (F.lookup t (close_output F w).1.system)
          (record w.transaction { file = none })
          (commit F w).0
          (commit F w).1
  unfolding commit Ready
  commit-Outcome w ht hd hf =
      subst (λ z. ends z w.transaction.destination) (sym ht)
        (subst (ends (some t)) (sym hd)
          (commit_staged-Outcome v u x w.transaction.inputs w flushed))
    where
      v : Option Bytes
      v = F.lookup d w.system

      u : Option Bytes
      u = F.lookup t (close_output F w).1.system

      x : OutputTransaction F.Location
      x = record w.transaction { file = none }

      ends : Option F.Location → Option F.Location → Type 0
      ends a b =
          Outcome v u x (commit_of F a b w.transaction.inputs w).0
            (commit_of F a b w.transaction.inputs w).1

      flushed : Ready v u x (flush_output F t w).1.transaction (files F (flush_output F t w).1)
      flushed =
          flush_output-Keeps F t (λ w. Ready v u x w.transaction (files F w))
            (files-IsQuiet F laws (Ready v u x)) w
            ((close_output-lem w hf).0, refl, (close_output-lem w hf).1)
