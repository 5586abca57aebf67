-- ===== src/Tests/Output.antt =====
-- The transaction of src/OutputTransaction.cpp in a file system in memory: `open`, a write and `commit`.
use roll.Prelude.{◌≡◌, ◌≢◌, ◌⊎◌, inl, refl, none, some, [], ◌∷◌, ◌++◌}
use roll.Io.{Bytes}
use roll.Io.Action.{ok}
use roll.Os.Memory.{Files, set, digits_before, memory_system, memory_laws}
use roll.Output.{
  Process, open_output, start_output, validate_destination, compare_inputs, create_temporary,
  next_candidate, open_candidate, stage, track, claim_slot, copy_permissions, write_output, commit,
  staged_prefix,
}
use roll.Output.Keeps.{files}
use roll.Output.Staged.{Opens}
use roll.Output.Opens.{open_output-Opens}
use roll.Output.Lifecycle.{next, here, writes, commits, Published, open-Whole}

abbrev destination : Bytes
destination = b'd' ∷ []

abbrev input : Bytes
input = b'i' ∷ []

-- The destination and the input.
abbrev stored : Files
stored p = set destination (some (b'o' ∷ [])) (set input (some (b'i' ∷ [])) (λ q. none)) p

abbrev begun : Process memory_system
begun = record {
  system = stored;
  slots = none ∷ none ∷ [];
  counter = 0;
  transaction = record {
    destination = none;
    temporary = none;
    inputs = [];
    file = none;
    slot = none;
  };
}

abbrev opened : Process memory_system
opened = (open_output memory_system destination (input ∷ []) begun).1

abbrev written : Process memory_system
written = (write_output memory_system (b'n' ∷ []) opened).1

abbrev committed : Process memory_system
committed = (commit memory_system written).1

-- `.rolling_hash-7-7-0`
abbrev staged : Bytes
staged = staged_prefix ++ (b'7' ∷ b'-' ∷ b'7' ∷ b'-' ∷ b'0' ∷ [])

opened_ok : (open_output memory_system destination (input ∷ []) begun).0 ≡ ok tt
unfolding open_output start_output validate_destination compare_inputs create_temporary
    next_candidate open_candidate stage track claim_slot copy_permissions set digits_before
opened_ok = refl

there : begun.system destination ≢ none
unfolding set
there e = cc

open_output-Opens_example :
    Opens memory_system destination none
      (files memory_system begun)
      (open_output memory_system destination (input ∷ []) begun).0
      opened
open_output-Opens_example =
    open_output-Opens memory_system destination memory_laws (input ∷ []) begun

open-Whole_example :
    (t : Bytes) × (opened.transaction.temporary ≡ some t)
    × ((committed.system destination ≡ begun.system destination)
        ⊎ Published memory_system destination t opened committed)
open-Whole_example =
    open-Whole memory_system memory_laws destination (input ∷ []) begun committed (inl there)
      opened_ok (next (next here (writes (b'n' ∷ []) refl)) (commits refl))
