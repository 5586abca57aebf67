-- ===== src/Tests/Viewer.antt =====
-- The viewer of src/DeltaViewer.cpp on the delta of the tests of the applier.
use roll.Prelude.{
  ◌+◌, ◌%◌, ◌&&◌, refl, [], ◌∷◌, ◌++◌, leb, replicate, length-replicate, append-nil, append_assoc,
  arith,
}
use roll.Format.{delta_trailer_tag}
use roll.Io.{Bytes}
use roll.Io.Memory.{memory_input, memory_file, memory_output}
use roll.Hash.{StrongHash, IsStrongHash, chunk_digest}
use roll.Codec.Layout.{original_record, added_record}
use roll.Apply.Entries.Stream.{Records, done, more, header_bytes, apply_stream-Records}
use roll.Apply.Entries.Complete.{original, added, run, MemoryRun}
use roll.View.{Console, text, view_stream}
use roll.View.Agrees.{Agrees, view_delta-apply_stream}
use roll.Apply.Patch.Ends.{Fine}
use roll.View.Ends.{view_stream-Fine}
use roll.Tests.Applier.{memory_input-IsForward}
use roll.Tests.{total, old_bytes, old_chunk, one_chunk-IsChunkOf}

-- The last digit of a number.
abbrev console : Console
console = record {
  decimal = λ n. (b'0' + n % 10) ∷ [];
  isprint = λ byte. leb 32 byte && leb byte 126;
}

-- A toy hash with digests of the size of the shipped one.
abbrev wide_hash : StrongHash
wide_hash = record {
  State = Bytes;
  hash_size = 64;
  init = [];
  update = λ bytes s. s ++ bytes;
  finalize = λ s. replicate 64 (total s % 256);
  hash = λ bytes. replicate 64 (total bytes % 256);
}

wide_hash-IsStrongHash : IsStrongHash wide_hash
wide_hash-IsStrongHash = record {
  update-update = λ a b s. append_assoc s a b;
  update-nil = λ s. append-nil s;
  hash_lem = λ a. refl;
  length-finalize = λ s. length-replicate 64 (total s % 256);
  enough = omega arith;
}

-- The old chunk, and new bytes.
abbrev records : Bytes
records =
    original_record 0 (replicate 16 10)
    ++ (added_record (chunk_digest wide_hash (7 ∷ [])) (7 ∷ []) ++ [])

records-Records :
    Records wide_hash old_bytes (old_chunk ∷ []) 2 records (old_bytes ++ ((7 ∷ []) ++ []))
records-Records =
    more (original 0 old_chunk (omega arith) refl refl one_chunk-IsChunkOf refl)
      (more {bytes = 7 ∷ []} (added (omega arith) refl) done)

abbrev delta : Bytes
delta = header_bytes ++ (records ++ (delta_trailer_tag ∷ replicate 64 17))

abbrev unread : MemoryRun wide_hash
unread = run wide_hash delta old_bytes [] [] 0 0

abbrev applied : MemoryRun wide_hash
applied = run wide_hash [] old_bytes (1 ∷ 2 ∷ 3 ∷ 4 ∷ 7 ∷ []) (1 ∷ 2 ∷ 3 ∷ 4 ∷ 7 ∷ []) 2 5

view_delta-apply_stream_example :
    Agrees console wide_hash memory_input memory_file memory_output (text "d") unread applied
view_delta-apply_stream_example =
    view_delta-apply_stream console wide_hash memory_input memory_file memory_output (text "d") 8
      (old_chunk ∷ []) unread applied refl
      (apply_stream-Records wide_hash wide_hash-IsStrongHash 8 records-Records (omega arith))

view_stream-Fine_example :
    Fine (view_stream console memory_input (record { delta = 7 ∷ 7 ∷ delta; printed = [] })).0
view_stream-Fine_example =
    view_stream-Fine console memory_input memory_input-IsForward
      (record { delta = 7 ∷ 7 ∷ delta; printed = [] })
