-- ===== src/Output/Keeps.antt =====
-- What stands at a path, across the steps of src/OutputTransaction.cpp.
use roll.Prelude.{
  ℕ, ◌≡◌, sym, subst, fun_ext, Bool, true, false, Option, none, some, List, [], ◌∷◌, if◌then◌else◌,
}
use roll.Io.{Bytes}
use roll.Io.Action.{Result, ok, err, continue, ◌>>=◌, pure}
use roll.Os.{
  FileSystem, IsFileSystem, FileStatus, absent, regular, irregular, failed, Comparison, same,
  distinct, incomparable, Permission, granted, missing, refused,
}
use roll.Error.{DeltaError}
use roll.Output.{
  OutputTransaction, Process, Step, call, open_either, flush_descriptor, sync_file, sync_directory,
  compare_inputs, validate_destination, copy_permissions, or_writing, compared, checked_status,
  permission_result, copy_to,
}

-- The process after a call of the system.
abbrev pub after : (F : FileSystem) {A : Type 0} → (F.State → A × F.State) → Process F → Process F
after F m w = record w { system = (m w.system).1 }

-- A property that the calls which change no file leave alone.
pub record IsQuiet (F : FileSystem) (P : Process F → Type 0) : Type 0 where
  pub status : (p : F.Location) (w : Process F) → P w → P (after F (F.status p) w)
  pub exists : (p : F.Location) (w : Process F) → P w → P (after F (F.exists p) w)
  pub equivalent : (p r : F.Location) (w : Process F) → P w → P (after F (F.equivalent p r) w)
  pub permissions : (p r : F.Location) (w : Process F) → P w → P (after F (F.permissions p r) w)
  pub open_descriptor :
      (b : Bool) (p : F.Location) (w : Process F) → P w → P (after F (F.open_descriptor b p) w)
  pub open_directory : (p : F.Location) (w : Process F) → P w → P (after F (F.open_directory p) w)
  pub fsync : (fd : ℕ) (w : Process F) → P w → P (after F (F.fsync fd) w)
  pub close_descriptor : (fd : ℕ) (w : Process F) → P w → P (after F (F.close_descriptor fd) w)

module _ (F : FileSystem) (P : Process F → Type 0) where
  -- The step keeps the property.
  abbrev pub Keeps : {A : Type 0} → Step F A → Type 0
  Keeps m = (w : Process F) → P w → P (m w).1

  continue-Keeps :
      {A B : Type 0} (r : Result DeltaError A) (f : A → Step F B)
      → ((a : A) → Keeps (f a))
      → Keeps (continue r f)
  continue-Keeps (ok a) f k w h = k a w h
  continue-Keeps (err e) f k w h = h

  pub bind-Keeps :
      {A B : Type 0} (m : Step F A) (f : A → Step F B)
      → Keeps m
      → ((a : A) → Keeps (f a))
      → Keeps (m >>= f)
  bind-Keeps m f k l w h = continue-Keeps (m w).0 f l (m w).1 (k w h)

  pub if-Keeps :
      {A : Type 0} (b : Bool) (m n : Step F A) → Keeps m → Keeps n → Keeps (if b then m else n)
  if-Keeps true m n k l = k
  if-Keeps false m n k l = l

  module _ (quiet : IsQuiet F P) where
    quiet_end : Keeps (pure tt)
    quiet_end w h = h

    flush_descriptor-Keeps : (fd : Option ℕ) → Keeps (flush_descriptor F fd)
    unfolding flush_descriptor
    flush_descriptor-Keeps none w h = h
    flush_descriptor-Keeps (some fd) w h =
        quiet.close_descriptor fd (after F (F.fsync fd) w) (quiet.fsync fd w h)

    or_writing-Keeps : (path : F.Location) (fd : Option ℕ) → Keeps (or_writing F path fd)
    or_writing-Keeps path (some fd) w h = h
    or_writing-Keeps path none w h = quiet.open_descriptor true path w h

    open_either-Keeps : (path : F.Location) → Keeps (open_either F path)
    unfolding open_either
    open_either-Keeps path =
        bind-Keeps (call F (F.open_descriptor false path)) (or_writing F path)
          (quiet.open_descriptor false path) (or_writing-Keeps path)

    pub sync_file-Keeps : (path : F.Location) → Keeps (sync_file F path)
    unfolding sync_file
    sync_file-Keeps path =
        bind-Keeps (open_either F path) (flush_descriptor F) (open_either-Keeps path)
          flush_descriptor-Keeps

    pub sync_directory-Keeps : (path : F.Location) → Keeps (sync_directory F path)
    unfolding sync_directory
    sync_directory-Keeps path =
        bind-Keeps (call F (F.open_directory path))
          (λ fd. flush_descriptor F fd >>= λ flushed. pure tt) (quiet.open_directory path)
          (λ fd.
            bind-Keeps (flush_descriptor F fd) (λ flushed. pure tt) (flush_descriptor-Keeps fd)
              (λ b w h. h))

    compare_inputs-Keeps :
        (d : F.Location) (inputs : List F.Location) → Keeps (compare_inputs F d inputs)
    unfolding compare_inputs
    compare_inputs-Keeps d [] = quiet_end
    compare_inputs-Keeps d (input ∷ inputs) =
        bind-Keeps (call F (F.equivalent d input))
          (λ aliases. compared F aliases (compare_inputs F d inputs)) (quiet.equivalent d input)
          (go (compare_inputs-Keeps d inputs))
      where
        go :
            Keeps (compare_inputs F d inputs)
            → (c : Comparison) → Keeps (compared F c (compare_inputs F d inputs))
        go k incomparable w h = h
        go k same w h = h
        go k distinct w h = k w h

    pub validate_destination-Keeps :
        (d : F.Location) (inputs : List F.Location) → Keeps (validate_destination F d inputs)
    unfolding validate_destination
    validate_destination-Keeps d inputs =
        bind-Keeps (call F (F.status d))
          (λ status. checked_status F status (compare_inputs F d inputs)) (quiet.status d) go
      where
        go : (s : FileStatus) → Keeps (checked_status F s (compare_inputs F d inputs))
        go failed w h = h
        go absent w h = h
        go irregular w h = h
        go regular w h = compare_inputs-Keeps d inputs w h

    permission_result-Keeps : (p : Permission) → Keeps (permission_result F p)
    permission_result-Keeps refused w h = h
    permission_result-Keeps granted w h = h
    permission_result-Keeps missing w h = h

    pub copy_permissions-Keeps : (d t : F.Location) → Keeps (copy_permissions F d t)
    unfolding copy_permissions
    copy_permissions-Keeps d t =
        bind-Keeps (call F (F.status d)) (copy_to F d t) (quiet.status d) go
      where
        copied : Keeps (call F (F.permissions t d) >>= permission_result F)
        copied =
            bind-Keeps (call F (F.permissions t d)) (permission_result F) (quiet.permissions t d)
              permission_result-Keeps

        go : (s : FileStatus) → Keeps (copy_to F d t s)
        go failed w h = h
        go absent w h = h
        go irregular w h = copied w h
        go regular w h = copied w h

-- What stands at each path.
abbrev pub files : (F : FileSystem) → Process F → F.Location → Option Bytes
files F w q = F.lookup q w.system

-- A property of the members and of what stands at each path is such a property.
pub files-IsQuiet :
    (F : FileSystem) (laws : IsFileSystem F)
    (R : OutputTransaction F.Location → (F.Location → Option Bytes) → Type 0)
    → IsQuiet F (λ w. R w.transaction (files F w))
files-IsQuiet F laws R = record {
  status = λ p w h. moved w (λ q. laws.status-lookup q p w.system) h;
  exists = λ p w h. moved w (λ q. laws.exists-lookup q p w.system) h;
  equivalent = λ p r w h. moved w (λ q. laws.equivalent-lookup q p r w.system) h;
  permissions = λ p r w h. moved w (λ q. laws.permissions-lookup q p r w.system) h;
  open_descriptor = λ b p w h. moved w (λ q. laws.open_descriptor-lookup q p b w.system) h;
  open_directory = λ p w h. moved w (λ q. laws.open_directory-lookup q p w.system) h;
  fsync = λ fd w h. moved w (λ q. laws.fsync-lookup q fd w.system) h;
  close_descriptor = λ fd w h. moved w (λ q. laws.close_descriptor-lookup q fd w.system) h;
}
  where
    moved :
        (w : Process F) {now : F.Location → Option Bytes}
        → ((q : F.Location) → now q ≡ files F w q)
        → R w.transaction (files F w)
        → R w.transaction now
    moved w e h = subst (R w.transaction) (sym (fun_ext e)) h
