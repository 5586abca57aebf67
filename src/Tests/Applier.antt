-- ===== src/Tests/Applier.antt =====
-- The applier of src/Apply.hpp on bytes that are no delta.
use roll.Prelude.{
  ℕ, zero, suc, ◌-◌, ◌≤◌, ◌<◌, ◌≡◌, refl, ap, some, [], ◌∷◌, ◌++◌, leb, length, take, length-append,
  length-drop, arith,
}
use roll.Io.{Bytes, ByteOutput}
use roll.Io.Action.{Result}
use roll.Codec.Varint.{groups}
use roll.Codec.Layout.{added_record}
use roll.Codec.Reader.{
  next_item, read_header, read_entry_header, read_varint, read_payload, read_exact,
}
use roll.Error.{DeltaError}
use roll.Hash.{chunk_digest}
use roll.Apply.Entries.Stream.{header_bytes}
use roll.Io.Memory.{memory_input, memory_file, memory_output, next_byte}
use roll.Codec.Reader.Progress.{IsForward}
use roll.Apply.Patch.Ends.{Fine}
use roll.Apply.Entries.{
  Run, apply_stream, apply_entries, apply_entry, source_of, produce, verify_digest, append_chunk,
}
use roll.Apply.Entries.Complete.{run, MemoryRun}
use roll.Apply.Entries.Limit.{Appends, Ends, apply_stream-Ends}
use roll.Apply.Entries.Ends.{apply_stream-Fine}
use roll.Tests.{sum_hash, old_bytes, old_chunk}

next_byte-shorter : (s : Bytes) → length (next_byte s).1 ≤ length s
next_byte-shorter [] = omega arith
next_byte-shorter (b ∷ s) = omega arith

next_byte-takes : (b : ℕ) (s : Bytes) → (next_byte s).0 ≡ some b → length (next_byte s).1 < length s
next_byte-takes b [] h = absurd cc
next_byte-takes b (c ∷ s) h = omega arith

pub memory_input-IsForward : IsForward memory_input
memory_input-IsForward = record {
  read_byte-left = next_byte-shorter;
  read_byte-takes = next_byte-takes;
  peek_byte-left = λ s. omega arith;
  read_chunk-left = λ n s. omega (arith, length-drop n s);
}

-- A header and the beginning of an ADDED record.
abbrev broken : MemoryRun sum_hash
broken = run sum_hash (b'R' ∷ b'H' ∷ b'D' ∷ 0 ∷ 0 ∷ 0 ∷ 0 ∷ 5 ∷ 1 ∷ 7 ∷ []) old_bytes [] [] 0 0

apply_stream-Fine_example :
    Fine (apply_stream sum_hash memory_input memory_file memory_output 8 (old_chunk ∷ []) broken).0
apply_stream-Fine_example =
    apply_stream-Fine sum_hash memory_input memory_input-IsForward memory_file memory_output 8
      (old_chunk ∷ []) broken

-- An output on a disk that is full behind three bytes.
abbrev small_disk : ByteOutput
small_disk = record {
  State = Bytes;
  write_chunk = λ bytes s. (leb (length (s ++ bytes)) 3, s ++ take (3 - length s) bytes);
}

take-all : (n : ℕ) (bytes : Bytes) → length bytes ≤ n → take n bytes ≡ bytes
take-all zero [] h = refl
take-all zero (b ∷ bytes) h = absurd (omega arith)
take-all (suc n) [] h = refl
take-all (suc n) (b ∷ bytes) h = ap (λ z. b ∷ z) (take-all n bytes (omega arith))

small_disk-Appends : Appends small_disk
small_disk-Appends = record {
  content = λ s. s;
  write-succeeds = λ bytes s h.
      ap (λ z. s ++ z) (take-all (3 - length s) bytes (ground (arith, h, length-append s bytes)));
  write-fails = λ bytes s h. (3 - length s, refl);
}

-- A header and an ADDED record of four bytes.
abbrev too_long : Run Bytes Bytes Bytes Bytes
too_long = record {
  delta = header_bytes ++ (added_record (chunk_digest sum_hash old_bytes) old_bytes ++ []);
  old_file = old_bytes;
  output = [];
  whole_file_hash = [];
  stats = record { entries_processed = 0; bytes_written = 0 };
}

abbrev failed : Result DeltaError (Unit {0}) × Run Bytes Bytes Bytes Bytes
failed = apply_stream sum_hash memory_input memory_file small_disk 8 (old_chunk ∷ []) too_long

apply_stream-Ends_example :
    Ends small_disk small_disk-Appends 8 failed.0 failed.1.output failed.1.stats
unfolding small_disk-Appends
apply_stream-Ends_example =
    apply_stream-Ends small_disk small_disk-Appends 8 sum_hash memory_input memory_file
      (old_chunk ∷ []) too_long (record { counted = refl; limited = omega arith })

-- That write fails, and leaves three bytes.
failed_output : failed.1.output ≡ 1 ∷ 2 ∷ 3 ∷ []
unfolding apply_stream read_header apply_entries apply_entry read_entry_header read_varint source_of
    produce read_payload read_exact verify_digest append_chunk next_item groups
failed_output = refl
