-- ===== src/Output/Opens.antt =====
-- `open` of src/OutputTransaction.cpp creates its staged file and changes no other.
use roll.Prelude.{
  ◌≡◌, ◌≢◌, ◌⊎◌, inl, inr, refl, ap, subst, ◌∙◌, Bool, true, false, ◌||◌, none, some, List, ◌++◌,
  if◌then◌else◌,
}
use roll.Io.{Bytes}
use roll.Io.Action.{Result, ◌>>◌, bind-cases}
use roll.Os.{FileSystem, IsFileSystem}
use roll.Error.{DeltaError, invalid_argument, empty_filename, already_opened}
use roll.Output.Keeps.{files, files-IsQuiet, validate_destination-Keeps}
use roll.Output.Staged.{Opened, Opens, Begun, create_temporary-Opens}
use roll.Output.{
  Process, Step, fail, staged_prefix, create_temporary, validate_destination, is_unset, is_nil,
  start_output, open_output,
}

module _ (F : FileSystem) (d : F.Location) where
  -- The destination cannot be taken for a staged file: something stands there, or its name begins otherwise.
  abbrev pub IsDistinct : Process F → Type 0
  IsDistinct w =
      (F.lookup d w.system ≢ none) ⊎ ((suffix : Bytes) → F.filename d ≢ staged_prefix ++ suffix)

  -- Then the staged output is somewhere else.
  pub Opened-apart :
      (w w' : Process F)
      → IsDistinct w
      → (o : Opened F d (files F w) w'.transaction (files F w')) → d ≢ o.staged
  Opened-apart w w' (inl there) o e = there (ap (files F w) e ∙ o.absent_before)
  Opened-apart w w' (inr other) o e = other o.suffix (ap F.filename e ∙ o.filename)

  module _ (laws : IsFileSystem F) (inputs : List F.Location) (w : Process F) where
    Ends : Step F (Unit {0}) → Process F → Type 0
    Ends m w' = Opens F d w.transaction.temporary (files F w) (m w').0 (m w').1

    abbrev bound : Process F
    bound = record w {
      transaction = record w.transaction { destination = some d; inputs = inputs };
    }

    created : Ends (validate_destination F d inputs >> create_temporary F 32 d) bound
    unfolding Ends
    created =
        bind-cases (Opens F d w.transaction.temporary (files F w)) (validate_destination F d inputs)
          (λ u. create_temporary F 32 d) bound (λ e w' eq. inr (checked eq).untouched)
          (λ u w' eq.
            create_temporary-Opens F d laws w.transaction.temporary (files F w) 32 w' (checked eq))
      where
        checked :
            {r : Result DeltaError (Unit {0})} {w' : Process F}
            → validate_destination F d inputs bound ≡ (r, w')
            → Begun F d laws w.transaction.temporary (files F w) w'.transaction (files F w')
        checked eq =
            subst
              (λ z. Begun F d laws w.transaction.temporary (files F w) z.transaction (files F z))
              (ap (λ p. p.1) eq)
              (validate_destination-Keeps F
                (λ z. Begun F d laws w.transaction.temporary (files F w) z.transaction (files F z))
                (files-IsQuiet F laws (Begun F d laws w.transaction.temporary (files F w))) d inputs
                bound
                (record {
                  destination = refl;
                  untouched = record { temporary = refl; unchanged = λ q. refl };
                }))

    started : Ends (start_output F d inputs) w
    unfolding Ends start_output
    started = go (F.is_empty d || is_nil (F.filename d))
      where
        go :
            (b : Bool)
            → Ends
                (if b
                  then fail F invalid_argument empty_filename
                  else (validate_destination F d inputs >> create_temporary F 32 d))
                bound
        go true = inr (record { temporary = refl; unchanged = λ q. refl })
        go false = created

    -- For a file system that keeps the stated laws: an `open` that succeeds sets the destination and has staged an
    -- output: a file under a new name in the destination's directory, where nothing stood before and which is empty,
    -- open for writing, with every other path as it was. An `open` that fails has done the same in the file system and
    -- the members, or has changed no file and noted none as staged.
    pub open_output-Opens :
        Opens F d w.transaction.temporary
          (files F w)
          (open_output F d inputs w).0
          (open_output F d inputs w).1
    unfolding Ends open_output
    open_output-Opens = go (is_unset F w.transaction.destination)
      where
        go :
            (b : Bool)
            → Ends (if b then start_output F d inputs else fail F invalid_argument already_opened) w
        go true = started
        go false = inr (record { temporary = refl; unchanged = λ q. refl })
