-- ===== src/Tests/Signatures.antt =====
-- The signature of src/Signature.hpp of a small file.
use roll.Prelude.{◌≡◌, true, List, [], length}
use roll.Io.{Bytes}
use roll.Io.Action.{ok}
use roll.Io.Memory.{memory_seek, memory_file}
use roll.Hash.{SignedChunk}
use roll.Generate.Checks.{covers_exactly, verify_old_file, check_trailer}
use roll.Signature.{generate_signatures}
use roll.Signature.Covers.{Signs, generate_signatures-Signs, checks-generate_signatures}
use roll.Tests.{sum_hash, sum_hash-IsStrongHash, old_bytes}
use roll.Prelude.{some}

generate_signatures-Signs_example :
    Signs sum_hash sum_hash-IsStrongHash old_bytes true
      (generate_signatures sum_hash memory_seek true (old_bytes, []))
generate_signatures-Signs_example =
    generate_signatures-Signs sum_hash sum_hash-IsStrongHash old_bytes true []

checks-generate_signatures_example :
    (chunks : List SignedChunk) × (digest : Bytes) × (generate_signatures sum_hash memory_seek true
        (old_bytes, [])
      ≡ some (some (chunks, digest)))
    × (covers_exactly chunks (length old_bytes) ≡ true)
    × (verify_old_file sum_hash memory_file chunks old_bytes ≡ (ok tt, old_bytes))
    × (check_trailer sum_hash memory_file chunks [] old_bytes
        ≡ (ok (sum_hash.hash old_bytes), old_bytes))
checks-generate_signatures_example =
    checks-generate_signatures sum_hash sum_hash-IsStrongHash old_bytes true []
