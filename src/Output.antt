-- ===== src/Output.antt =====
-- `OutputTransaction` of src/OutputTransaction.cpp, on POSIX: an output is staged beside its destination and replaces it
-- by a rename.
pub mod Keeps
pub mod Commits
pub mod Staged
pub mod Opens
pub mod Lifecycle
use roll.Prelude.{
  ℕ, zero, suc, ◌+◌, ◌%◌, Bool, true, false, not, ◌||◌, Option, none, some, List, [], ◌∷◌, ◌++◌,
  if◌then◌else◌,
}
use roll.Format.{u64_mod}
use roll.Io.{Bytes}
use roll.Io.Action.{Result, ok, err, Action, continue, ◌>>=◌, ◌>>◌, pure, raise}
use roll.Os.{
  FileSystem, FileStatus, absent, regular, irregular, failed, Comparison, same, distinct,
  incomparable, Permission, granted, missing, refused,
}
use roll.Error.{
  DeltaErrc, DeltaError, Message, io_error, invalid_argument, cannot_inspect_output, not_regular,
  cannot_compare, aliases_input, already_opened, empty_filename, cannot_create_temporary,
  cannot_copy_permissions, no_staged_output, cannot_flush, cannot_replace,
}

-- `staged_paths`, 16 slots of the process, and the first free one.
unfoldable pub claim_slot : {L : Type 0} → L → ℕ → List (Option L) → Option ℕ × List (Option L)
claim_slot path i [] = (none, [])
claim_slot path i (none ∷ slots) = (some i, some path ∷ slots)
claim_slot path i (some p ∷ slots) =
    let (slot, rest) = claim_slot path (i + 1) slots in (slot, some p ∷ rest)

unfoldable pub clear_slot : {L : Type 0} → ℕ → List (Option L) → List (Option L)
clear_slot i [] = []
clear_slot zero (p ∷ slots) = none ∷ slots
clear_slot (suc i) (p ∷ slots) = p ∷ clear_slot i slots

abbrev pub staged_prefix : Bytes
staged_prefix =
    b'.' ∷ b'r' ∷ b'o' ∷ b'l' ∷ b'l' ∷ b'i' ∷ b'n' ∷ b'g' ∷ b'_' ∷ b'h' ∷ b'a' ∷ b's' ∷ b'h' ∷ b'-'
    ∷ []

abbrev is_nil : Bytes → Bool
is_nil [] = true
is_nil (c ∷ name) = false

-- The members. An empty path is `none`. Of the member `file_` there is here the path that it is open on, or `none`; what
-- else it holds is a part of the system.
pub record OutputTransaction (L : Type 0) : Type 0 where
  pub destination : Option L
  pub temporary : Option L
  pub inputs : List L
  pub file : Option L
  pub slot : Option ℕ

-- A transaction, the slots of the process, the static `counter` of `open`, and the system.
pub record World (L S : Type 0) : Type 0 where
  pub system : S
  pub slots : List (Option L)
  pub counter : ℕ
  pub transaction : OutputTransaction L

module _ (F : FileSystem) where
  open F use {Location, State}

  abbrev pub Process : Type 0
  Process = World Location State

  abbrev pub Step : Type 0 → Type 0
  Step A = Action DeltaError Process A

  -- A call of the system.
  abbrev pub call : {A : Type 0} → (State → A × State) → Step A
  call m w = (ok (m w.system).0, record w { system = (m w.system).1 })

  abbrev pub fail : {A : Type 0} → DeltaErrc → Message → Step A
  fail c m = raise (record { code = c; message = m })

  abbrev pub update : (OutputTransaction Location → OutputTransaction Location) → Step (Unit {0})
  update f w = (ok tt, record w { transaction = f w.transaction })

  -- A second attempt, for writing.
  abbrev pub or_writing : Location → Option ℕ → Step (Option ℕ)
  or_writing path (some fd) = pure (some fd)
  or_writing path none = call (F.open_descriptor true path)

  -- Through either kind of descriptor.
  unfoldable pub open_either : Location → Step (Option ℕ)
  open_either path = do reading ← call (F.open_descriptor false path); or_writing path reading

  unfoldable pub flush_descriptor : Option ℕ → Step Bool
  flush_descriptor none = pure false
  flush_descriptor (some fd) = do
    flushed ← call (F.fsync fd)
    closed ← call (F.close_descriptor fd)
    pure (if closed then flushed else false)

  unfoldable pub sync_file : Location → Step Bool
  sync_file path = do fd ← open_either path; flush_descriptor fd

  unfoldable pub sync_directory : Location → Step (Unit {0})
  sync_directory path = do fd ← call (F.open_directory path); flushed ← flush_descriptor fd; pure tt

  unfoldable pub track : Location → Step (Unit {0})
  track path w =
      let (slot, slots) = claim_slot path 0 w.slots in
      elim slot [
        | none ↦ (ok tt, record w { slots = slots })
        | some i ↦ (
          ok tt,
          record w { slots = slots; transaction = record w.transaction { slot = some i } },
        )
      ]

  unfoldable pub untrack : Step (Unit {0})
  untrack w = elim w.transaction.slot [
    | none ↦ (ok tt, w)
    | some i ↦ (
      ok tt,
      record w { slots = clear_slot i w.slots; transaction = record w.transaction { slot = none } },
    )
  ]

  -- The signal handler's `unlink` of what is staged.
  unfoldable pub discard_all_staged : List (Option Location) → State → State
  discard_all_staged [] s = s
  discard_all_staged (none ∷ slots) s = discard_all_staged slots s
  discard_all_staged (some path ∷ slots) s = discard_all_staged slots (F.remove path s)

  abbrev pub compared : Comparison → Step (Unit {0}) → Step (Unit {0})
  compared incomparable rest = fail io_error cannot_compare
  compared same rest = fail invalid_argument aliases_input
  compared distinct rest = rest

  unfoldable pub compare_inputs : Location → List Location → Step (Unit {0})
  compare_inputs destination [] = pure tt
  compare_inputs destination (input ∷ inputs) = do
    aliases ← call (F.equivalent destination input)
    compared aliases (compare_inputs destination inputs)

  abbrev pub checked_status : FileStatus → Step (Unit {0}) → Step (Unit {0})
  checked_status failed rest = fail io_error cannot_inspect_output
  checked_status absent rest = pure tt
  checked_status irregular rest = fail invalid_argument not_regular
  checked_status regular rest = rest

  unfoldable pub validate_destination : Location → List Location → Step (Unit {0})
  validate_destination destination inputs = do
    status ← call (F.status destination)
    checked_status status (compare_inputs destination inputs)

  abbrev pub permission_result : Permission → Step (Unit {0})
  permission_result refused = fail io_error cannot_copy_permissions
  permission_result granted = pure tt
  permission_result missing = pure tt

  abbrev pub copy_to : Location → Location → FileStatus → Step (Unit {0})
  copy_to destination temporary failed = fail io_error cannot_copy_permissions
  copy_to destination temporary absent = pure tt
  copy_to destination temporary status = do
    permission ← call (F.permissions temporary destination)
    permission_result permission

  unfoldable pub copy_permissions : Location → Location → Step (Unit {0})
  copy_permissions destination temporary = do
    status ← call (F.status destination)
    copy_to destination temporary status

  -- `file_.open(candidate, FileMode::EXCLUSIVE_OUT)`
  unfoldable pub open_candidate : Location → Step Bool
  open_candidate candidate = do
    opened ← call (F.open_exclusive candidate)
    update (λ t. record t { file = if opened then some candidate else none })
    pure opened

  -- `file_.close()`: nothing that is not open can fail to close.
  abbrev pub close_of : Option Location → Step Bool
  close_of none = pure true
  close_of (some path) = do
    closed ← call (F.close path)
    update (λ t. record t { file = none })
    pure closed

  unfoldable pub close_output : Step Bool
  close_output w = close_of w.transaction.file w

  -- What follows the creation of the staged file.
  unfoldable pub stage : Location → Location → Step (Unit {0})
  stage destination candidate = do
    update (λ t. record t { temporary = some candidate })
    track candidate
    copy_permissions destination candidate

  -- What stands behind `.rolling_hash-`: two random numbers and the counter.
  abbrev pub candidate_suffix : ℕ → ℕ → ℕ → Bytes
  candidate_suffix first second number =
      F.decimal first ++ (b'-' ∷ (F.decimal second ++ (b'-' ∷ F.decimal number)))

  unfoldable pub next_candidate : Location → Step Location
  next_candidate destination = do
    first ← call F.random
    second ← call F.random
    λ w. (
      ok (
          F.join (F.parent_path destination)
            (staged_prefix ++ candidate_suffix first second w.counter)),
      record w { counter = (w.counter + 1) % u64_mod },
    )

  -- The attempts that are left.
  unfoldable pub create_temporary : ℕ → Location → Step (Unit {0})
  create_temporary zero destination = fail io_error cannot_create_temporary
  create_temporary (suc attempts) destination = do
    candidate ← next_candidate destination
    opened ← open_candidate candidate
    let again = create_temporary attempts destination
    let retry = do
      taken ← call (F.exists candidate)
      if taken then again else fail io_error cannot_create_temporary
    if opened then stage destination candidate else retry

  -- `destination_.empty()`
  abbrev pub is_unset : Option Location → Bool
  is_unset none = true
  is_unset (some path) = F.is_empty path

  -- `open` of an unused transaction.
  unfoldable pub start_output : Location → List Location → Step (Unit {0})
  start_output destination inputs = do
    update (λ t. record t { destination = some destination; inputs = inputs })
    let create = do validate_destination destination inputs; create_temporary 32 destination
    if F.is_empty destination || is_nil (F.filename destination)
        then fail invalid_argument empty_filename
        else create

  unfoldable pub open_output : Location → List Location → Step (Unit {0})
  open_output destination inputs = do
    unused ← λ w. (ok (is_unset w.transaction.destination), w)
    if unused then start_output destination inputs else fail invalid_argument already_opened

  -- A file that is not open refuses the write.
  abbrev pub write_to : Bytes → Option Location → Step Bool
  write_to bytes none = pure false
  write_to bytes (some path) = call (F.write path bytes)

  -- A write of the client through `file()`.
  unfoldable pub write_output : Bytes → Step Bool
  write_output bytes w = write_to bytes w.transaction.file w

  -- `file_.close() && !file_.has_error() && sync_file(temporary_)`
  unfoldable pub flush_output : Location → Step Bool
  flush_output temporary = do
    closed ← close_output
    broken ← λ w. (ok (F.has_error temporary w.system), w)
    let synced = sync_file temporary
    if not closed || broken then pure false else synced

  -- From the rename on.
  unfoldable pub publish : Location → Location → Step (Unit {0})
  publish temporary destination = do
    renamed ← call (F.rename temporary destination)
    let finish = do untrack; update (λ t. record t { temporary = none }); sync_directory destination
    if renamed then finish else fail io_error cannot_replace

  -- `commit` of a staged output.
  unfoldable pub commit_staged : Location → Location → List Location → Step (Unit {0})
  commit_staged temporary destination inputs = do
    flushed ← flush_output temporary
    let replace = do validate_destination destination inputs; publish temporary destination
    if flushed then replace else fail io_error cannot_flush

  abbrev pub commit_of : Option Location → Option Location → List Location → Step (Unit {0})
  commit_of (some temporary) (some destination) inputs = commit_staged temporary destination inputs
  commit_of _ _ inputs = fail invalid_argument no_staged_output

  unfoldable pub commit : Step (Unit {0})
  commit w = commit_of w.transaction.temporary w.transaction.destination w.transaction.inputs w

  abbrev pub remove_of : Option Location → Step (Unit {0})
  remove_of none = pure tt
  remove_of (some temporary) = call (λ s. (tt, F.remove temporary s))

  -- The destructor.
  unfoldable pub destroy : Step (Unit {0})
  destroy = do close_output; λ w. remove_of w.transaction.temporary w; untrack
