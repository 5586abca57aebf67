-- ===== src/Output/Lifecycle.antt =====
-- The life of a transaction of src/OutputTransaction.cpp as a state machine, with a crash possible between any two steps.
use roll.Prelude.{◌≡◌, ◌≢◌, ◌⊎◌, inl, inr, refl, sym, ap, subst, ◌∙◌, Option, none, some, List}
use roll.Io.{Bytes}
use roll.Io.Action.{Result, ok, err, ◌>>◌}
use roll.Os.{FileSystem, IsFileSystem}
use roll.Error.{DeltaError}
use roll.Output.Keeps.{files}
use roll.Output.Staged.{Opened, Opens}
use roll.Output.Opens.{IsDistinct, Opened-apart, open_output-Opens}
use roll.Output.Commits.{Outcome, IsOn, close_output-lem, untrack_lem, commit-Outcome}
use roll.Output.{
  OutputTransaction, Process, Step, untrack, open_output, write_to, write_output, close_of,
  close_output, remove_of, commit_of, commit, destroy,
}

module _ (F : FileSystem) where
  -- One step of the transaction's owner, whatever its result.
  pub data Turn (w w' : Process F) : Type 0 where
    writes : (bytes : Bytes) → w' ≡ (write_output F bytes w).1 → Turn w w'
    commits : w' ≡ (commit F w).1 → Turn w w'
    destroys : w' ≡ (destroy F w).1 → Turn w w'

  pub data Reach (w : Process F) : Process F → Type 0 where
    here : Reach w w
    next : {w' w'' : Process F} → Reach w w' → Turn w' w'' → Reach w w''

  -- A commit on the way succeeded while `t` was staged, and what it closed stands at the destination.
  pub record Published (d t : F.Location) (start w : Process F) : Type 0 where
    pub before : Process F
    pub reached : Reach start before
    pub staged : before.transaction.temporary ≡ some t
    pub succeeded : (commit F before).0 ≡ ok tt
    pub stands : F.lookup d w.system ≡ F.lookup t (close_output F before).1.system

  -- The destructor closes, removes and untracks, whatever comes of each.
  destroy_lem :
      (w : Process F)
      → (destroy F w).1
        ≡ (untrack F
            (remove_of F (close_output F w).1.transaction.temporary (close_output F w).1).1).1
  unfolding destroy close_output
  destroy_lem w =
      after_close w.transaction.file
      ∙ after_remove (close_of F w.transaction.file w).1
          (close_of F w.transaction.file w).1.transaction.temporary
    where
      rest : Step F (Unit {0})
      rest = (λ w. remove_of F w.transaction.temporary w) >> untrack F

      after_close :
          (z : Option F.Location) → ((close_of F z >> rest) w).1 ≡ (rest (close_of F z w).1).1
      after_close none = refl
      after_close (some p) = refl

      after_remove :
          (c : Process F) (z : Option F.Location)
          → ((remove_of F z >> untrack F) c).1 ≡ (untrack F (remove_of F z c).1).1
      after_remove c none = refl
      after_remove c (some p) = refl

  module _ (laws : IsFileSystem F) (d t : F.Location) (apart : d ≢ t) (start : Process F) where
    -- The two ways that the destination can stand: as before, with the output staged, or replaced.
    Standing : Process F → Type 0
    Standing w =
        ((w.transaction.temporary ≡ some t) × (F.lookup d w.system ≡ F.lookup d start.system))
        ⊎ ((w.transaction.temporary ≡ none) × Published d t start w)

    -- What the steps keep.
    Inv : Process F → Type 0
    Inv w =
        (w.transaction.destination ≡ some d) × IsOn F laws t d apart w.transaction.file × Standing w

    -- What leaves the destination and these members alone keeps how it stands.
    stands_still :
        (w w' : Process F)
        → F.lookup d w'.system ≡ F.lookup d w.system
        → w'.transaction.temporary ≡ w.transaction.temporary
        → Standing w
        → Standing w'
    unfolding Standing
    stands_still w w' e m (inl (ht, old)) = inl (m ∙ ht, e ∙ old)
    stands_still w w' e m (inr (ht, p)) = inr (
      m ∙ ht,
      record {
        before = p.before;
        reached = p.reached;
        staged = p.staged;
        succeeded = p.succeeded;
        stands = e ∙ p.stands;
      },
    )

    writes-Inv : (bytes : Bytes) (w : Process F) → Inv w → Inv (write_output F bytes w).1
    unfolding write_output Inv
    writes-Inv bytes w (hd, inl hf, h) =
        subst (λ z. Inv (write_to F bytes z w).1) (sym hf) (hd, inl hf, h)
    writes-Inv bytes w (hd, inr hf, h) =
        subst (λ z. Inv (write_to F bytes z w).1) (sym hf)
          (
            hd,
            inr hf,
            stands_still w (write_to F bytes (some t) w).1
                (laws.write-lookup d t bytes w.system apart) refl h,
          )

    commits-Inv : (w : Process F) → Reach start w → Inv w → Inv (commit F w).1
    unfolding commit Inv Standing
    commits-Inv w reached (hd, hf, inl (ht, old)) =
        go (commit F w).0 refl (commit-Outcome F laws t d apart w ht hd hf)
      where
        closed : OutputTransaction F.Location
        closed = record w.transaction { file = none }

        go :
            (r : Result DeltaError (Unit {0}))
            → (commit F w).0 ≡ r
            → Outcome F laws t d apart
                (F.lookup d w.system)
                (F.lookup t (close_output F w).1.system)
                closed
                r
                (commit F w).1
            → Inv (commit F w).1
        go (ok u) e (stands, gone, members) = (
          ap (λ m. m.destination) members ∙ hd,
          inl (ap (λ m. m.file) members),
          inr (
            ap (λ m. m.temporary) members,
            record { before = w; reached = reached; staged = ht; succeeded = e; stands = stands },
          ),
        )
        go (err x) e (stands, members) = (
          ap (λ m. m.destination) members ∙ hd,
          inl (ap (λ m. m.file) members),
          inl (ap (λ m. m.temporary) members ∙ ht, stands ∙ old),
        )
    commits-Inv w reached (hd, hf, inr (ht, p)) =
        subst (λ z. Inv (commit_of F z w.transaction.destination w.transaction.inputs w).1) (sym ht)
          (hd, hf, inr (ht, p))

    -- Behind `close_output`, the destructor removes the staged file.
    removed-lookup :
        (w : Process F) (z : Option F.Location)
        → (z ≡ none) ⊎ (z ≡ some t)
        → F.lookup d (remove_of F z w).1.system ≡ F.lookup d w.system
    removed-lookup w z (inl e) =
        subst (λ z. F.lookup d (remove_of F z w).1.system ≡ F.lookup d w.system) (sym e) refl
    removed-lookup w z (inr e) =
        subst (λ z. F.lookup d (remove_of F z w).1.system ≡ F.lookup d w.system) (sym e)
          (laws.remove-others d t w.system apart)

    removed-members :
        (w : Process F) (z : Option F.Location) → (remove_of F z w).1.transaction ≡ w.transaction
    removed-members w none = refl
    removed-members w (some p) = refl

    temporary_of :
        (w : Process F)
        → Standing w
        → (w.transaction.temporary ≡ none) ⊎ (w.transaction.temporary ≡ some t)
    unfolding Standing
    temporary_of w (inl (ht, old)) = inr ht
    temporary_of w (inr (ht, p)) = inl ht

    destroys-Inv : (w : Process F) → Inv w → Inv (destroy F w).1
    unfolding Inv
    destroys-Inv w (hd, hf, h) = subst Inv (sym (destroy_lem w)) (
      ap (λ m. m.destination) members ∙ hd,
      inl (ap (λ m. m.file) members),
      stands_still w (untrack F removed).1
          (ap (F.lookup d) (untrack_lem F removed).1
            ∙ removed-lookup closed closed.transaction.temporary temporary
            ∙ shut.0)
          (ap (λ m. m.temporary) members) h,
    )
      where
        closed : Process F
        closed = (close_output F w).1

        shut :
            (F.lookup d closed.system ≡ F.lookup d w.system)
            × (closed.transaction ≡ record w.transaction { file = none })
        shut = close_output-lem F laws t d apart w hf

        removed : Process F
        removed = (remove_of F closed.transaction.temporary closed).1

        temporary : (closed.transaction.temporary ≡ none) ⊎ (closed.transaction.temporary ≡ some t)
        temporary =
            subst (λ z. (z ≡ none) ⊎ (z ≡ some t)) (sym (ap (λ m. m.temporary) shut.1))
              (temporary_of w h)

        members :
            (untrack F removed).1.transaction ≡ record w.transaction { file = none; slot = none }
        members =
            (untrack_lem F removed).2
            ∙ ap (λ (m : OutputTransaction F.Location). record m { slot = none })
                (removed-members closed closed.transaction.temporary ∙ shut.1)

    reach-Inv : (w : Process F) → Inv start → Reach start w → Inv w
    reach-Inv w h here = h
    reach-Inv w h (next {w' = w'} r (writes bytes e)) =
        subst Inv (sym e) (writes-Inv bytes w' (reach-Inv w' h r))
    reach-Inv w h (next {w' = w'} r (commits e)) =
        subst Inv (sym e) (commits-Inv w' r (reach-Inv w' h r))
    reach-Inv w h (next {w' = w'} r (destroys e)) =
        subst Inv (sym e) (destroys-Inv w' (reach-Inv w' h r))

  -- For a file system that keeps the stated laws, and a destination where something stands or whose name does not begin
  -- as a staged file's: after an `open` that succeeded, in every state that writes, commits and the destructor reach, in
  -- any order and with any results, the destination holds what it held before `open`, or what the file that `open` noted
  -- as staged held when a commit that succeeded had closed it.
  pub open-Whole :
      (laws : IsFileSystem F) (d : F.Location) (inputs : List F.Location) (w w' : Process F)
      → IsDistinct F d w
      → (open_output F d inputs w).0 ≡ ok tt
      → Reach (open_output F d inputs w).1 w'
      → (t : F.Location) × ((open_output F d inputs w).1.transaction.temporary ≡ some t)
        × ((F.lookup d w'.system ≡ F.lookup d w.system)
            ⊎ Published d t (open_output F d inputs w).1 w')
  unfolding Inv Standing
  open-Whole laws d inputs w w' distinct opened r = (o.staged, o.temporary, ends)
    where
      start : Process F
      start = (open_output F d inputs w).1

      o : Opened F d (files F w) start.transaction (files F start)
      o =
          subst (λ z. Opens F d w.transaction.temporary (files F w) z start) opened
            (open_output-Opens F d laws inputs w)

      apart : d ≢ o.staged
      apart = Opened-apart F d w start distinct o

      ends :
          (F.lookup d w'.system ≡ F.lookup d w.system)
          ⊎ Published d o.staged (open_output F d inputs w).1 w'
      ends =
          elim (reach-Inv laws d o.staged apart start w'
            (o.destination, inr o.file, inl (o.temporary, refl)) r).2 [
              | inl (ht, old) ↦ inl (old ∙ o.others d apart)
              | inr (ht, p) ↦ inr p
            ]
