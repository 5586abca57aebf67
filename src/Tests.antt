-- ===== src/Tests.antt =====
-- Runs of the codec, the diff and the applier on small concrete inputs.
mod Output
mod Files
mod Viewer
mod Signatures
mod Applier
mod Indexes
use roll.Main.{parse_size}
use roll.Main.Size.{parse_size-polynomial, kilo, parse_size-IsUnit, in_u64, digit_chars}
use roll.Prelude.{
  ◌↔◌, ◌*◌, ◌<◌, true, some, ◌-◌, ◌^◌, ℕ, ◌+◌, ◌%◌, ◌≤◌, ◌≡◌, ◌≢◌, refl, sym, List, [], ◌∷◌, ◌++◌,
  length, replicate, All, length-replicate, append-nil, append_assoc, inl, inr, arith,
}
use roll.Format.{u64_mod, delta_trailer_tag, original_chunk, added_chunk, modified_chunk}
use roll.Io.{Bytes}
use roll.Io.Action.{ok}
use roll.Io.Memory.{memory_input, memory_file, memory_output}
use roll.Codec.Ints.{
  little, big, push_u32_be, push_u32_be_on, load_u32_be_on, push_u32_be_on_lem, load-push_u32_be,
  IsByte,
}
use roll.Codec.Varint.{push_varint, varint_size, varint_max_bytes, length-push_varint}
use roll.Codec.Reader.{
  chunk_size, read_varint, read_header, read_entry_header, read_trailer, DiffOpcode,
}
use roll.Codec.Writer.{
  Writer, write_header, write_original, write_added, write_modified, write_trailer, added_size,
  modified_size,
}
use roll.Codec.Layout.{original_record, added_record, modified_record}
use roll.Codec.RoundTrip.Varint.{read_varint-push_varint}
use roll.Codec.RoundTrip.Records.{header_of, read_header-write_header}
use roll.Codec.RoundTrip.Written.{
  fresh_writer, read-write_original, read-write_added, read-write_modified,
  read_trailer-write_trailer,
}
use roll.Rolling.{largest_modulus, init_state, make, initialize, reduce, configure_fast_reduction}
use roll.Rolling.Reduce.{IsBounded, reduce-configure}
use roll.Rolling.Roll.{polynomial}
use roll.Rolling.Stream.{slide, slide-polynomial, make-fits}
use roll.Generate.Checks.{covers_exactly, covers_loop, verify_old_file, check_trailer}
use roll.Generate.Checks.Covers.{
  join_chunks, join-covers_exactly, checks-covers_exactly, one_more, no_chunks,
}
use roll.Hash.{StrongHash, IsStrongHash, SignedChunk, chunk_digest}
use roll.Diff.Emit.{
  Edit, equal, delete, insert, emit_opcodes_from_ses, emit_loop, collect_block, emit_block,
  emit_inline_bytes, emit_inline_loop, emit_delete, emit_insert,
}
use roll.Diff.Emit.Script.{Script, stop, same, gone, fresh}
use roll.Diff.Greedy.{
  create_greedy_diff, emit_rest_insert, greedy_loop, take_unequal, skip_equal, emit_rest_delete,
  emit_replace,
}
use roll.Diff.Rebuild.{Rebuild, tail, replace, replace_op}
use roll.Diff.Wire.{EncodesAll, end, inline, inline_bytes}
use roll.Apply.Patch.{apply_diff, Patch, apply_opcode}
use roll.Apply.Patch.Loop.{apply_diff-Rebuild}
use roll.Apply.Patch.Diffs.{apply_diff-create_greedy_diff, apply_diff-emit_opcodes_from_ses}
use roll.Apply.Patch.Fits.{apply_opcode-Fits}
use roll.Apply.Entries.{apply_stream}
use roll.Apply.Entries.Complete.{original, modified, added, run, IsChunkOf}
use roll.Apply.Entries.Stream.{Records, done, more, header_bytes, apply_stream-Records}

-- A toy hash: sixteen times the sum of the bytes.
abbrev total : Bytes → ℕ
total [] = 0
total (b ∷ bytes) = b + total bytes

abbrev sum_hash : StrongHash
sum_hash = record {
  State = Bytes;
  hash_size = 16;
  init = [];
  update = λ bytes s. s ++ bytes;
  finalize = λ s. replicate 16 (total s % 256);
  hash = λ bytes. replicate 16 (total bytes % 256);
}

sum_hash-IsStrongHash : IsStrongHash sum_hash
sum_hash-IsStrongHash = record {
  update-update = λ a b s. append_assoc s a b;
  update-nil = λ s. append-nil s;
  hash_lem = λ a. refl;
  length-finalize = λ s. length-replicate 16 (total s % 256);
  enough = omega arith;
}

abbrev old_bytes : Bytes
old_bytes = 1 ∷ 2 ∷ 3 ∷ 4 ∷ []

abbrev new_bytes : Bytes
new_bytes = 1 ∷ 9 ∷ 3 ∷ []

abbrev old_chunk : SignedChunk
old_chunk = record { signature = 0; hash = replicate 16 10; start_offset = 0; chunk_size = 4 }

abbrev greedy_bytes : Bytes
greedy_bytes = b'D' ∷ 0 ∷ 0 ∷ 0 ∷ 1 ∷ 1 ∷ 9 ∷ b'X' ∷ 0 ∷ 0 ∷ 0 ∷ 3 ∷ 0 ∷ 0 ∷ 0 ∷ 1 ∷ []

greedy_bytes_lem : create_greedy_diff old_bytes new_bytes ≡ greedy_bytes
unfolding create_greedy_diff emit_rest_insert greedy_loop take_unequal skip_equal emit_rest_delete
    emit_replace
greedy_bytes_lem = refl

greedy_some : create_greedy_diff old_bytes new_bytes ≢ []
greedy_some = rw greedy_bytes_lem (ground arith)

apply_diff-create_greedy_diff_example :
    apply_diff memory_input old_bytes 3
      (create_greedy_diff old_bytes new_bytes ++ (delta_trailer_tag ∷ []))
    ≡ (ok new_bytes, delta_trailer_tag ∷ [])
apply_diff-create_greedy_diff_example =
    apply_diff-create_greedy_diff old_bytes new_bytes (delta_trailer_tag ∷ []) (omega arith)
      (omega arith) greedy_some refl

abbrev script : List Edit
script = equal ∷ delete ∷ insert ∷ equal ∷ delete ∷ []

script-Script : Script script old_bytes new_bytes
script-Script = same 1 (gone 2 (fresh 9 (same 3 (gone 4 stop))))

script_bytes_lem : emit_opcodes_from_ses new_bytes script ≡ greedy_bytes
unfolding emit_opcodes_from_ses emit_loop collect_block emit_block emit_inline_bytes
    emit_inline_loop emit_delete emit_insert push_u32_be
script_bytes_lem = refl

script_some : emit_opcodes_from_ses new_bytes script ≢ []
script_some = rw script_bytes_lem (ground arith)

apply_diff-emit_opcodes_from_ses_example :
    apply_diff memory_input old_bytes 3 (emit_opcodes_from_ses new_bytes script ++ [])
    ≡ (ok new_bytes, [])
apply_diff-emit_opcodes_from_ses_example =
    apply_diff-emit_opcodes_from_ses script old_bytes new_bytes [] script-Script (omega arith)
      (omega arith) script_some refl

abbrev opcodes : List DiffOpcode
opcodes = replace_op 1 (9 ∷ []) ∷ []

opcodes-Rebuild : Rebuild opcodes old_bytes 0 (1 ∷ 9 ∷ 3 ∷ [])
opcodes-Rebuild =
    replace {olds' = 3 ∷ 4 ∷ []} {news' = 3 ∷ []} {k = 2} (1 ∷ []) (2 ∷ []) (9 ∷ []) refl refl refl
      refl refl (tail (4 ∷ []) refl)

opcodes-EncodesAll : EncodesAll opcodes (inline_bytes b'D' 1 (9 ∷ []))
opcodes-EncodesAll =
    EncodesAll.more (inline_bytes b'D' 1 (9 ∷ []))
      (inline b'D' 1 (9 ∷ []) (inl refl) (omega arith) (omega arith) refl refl)
      (sym (append-nil (inline_bytes b'D' 1 (9 ∷ [])))) end

apply_diff-Rebuild_example :
    apply_diff memory_input old_bytes 3 (inline_bytes b'D' 1 (9 ∷ []) ++ [])
    ≡ (ok (1 ∷ 9 ∷ 3 ∷ []), [])
apply_diff-Rebuild_example =
    apply_diff-Rebuild [] opcodes-Rebuild opcodes-EncodesAll (omega arith) refl

one_chunk-IsChunkOf : IsChunkOf old_bytes old_chunk old_bytes
one_chunk-IsChunkOf = (refl, refl)

-- The old chunk, a patched copy of it, and new bytes.
abbrev records : Bytes
records =
    original_record 0 (replicate 16 10)
    ++ (modified_record 0 3 (chunk_digest sum_hash new_bytes)
          (create_greedy_diff old_bytes new_bytes)
        ++ (added_record (chunk_digest sum_hash (7 ∷ [])) (7 ∷ []) ++ []))

records-Records :
    Records sum_hash old_bytes
      (old_chunk ∷ [])
      3
      records
      (old_bytes ++ (new_bytes ++ ((7 ∷ []) ++ [])))
records-Records = more (original 0 old_chunk (omega arith) refl refl one_chunk-IsChunkOf refl) (
    more
      (modified 0 old_chunk old_bytes (create_greedy_diff old_bytes new_bytes) (omega arith) refl
        one_chunk-IsChunkOf (omega arith)
        (λ rest h.
          apply_diff-create_greedy_diff old_bytes new_bytes rest (omega arith) (omega arith)
            greedy_some h)
        refl)
      (more {bytes = 7 ∷ []} (added (omega arith) refl) done))

apply_stream-Records_example :
    apply_stream sum_hash memory_input memory_file memory_output 8 (old_chunk ∷ []) (
      run sum_hash
        (header_bytes ++ (records ++ (delta_trailer_tag ∷ replicate 16 30)))
        old_bytes
        []
        []
        0
        0)
    ≡ (
      ok tt,
      run sum_hash [] old_bytes
          (1 ∷ 2 ∷ 3 ∷ 4 ∷ 1 ∷ 9 ∷ 3 ∷ 7 ∷ [])
          (1 ∷ 2 ∷ 3 ∷ 4 ∷ 1 ∷ 9 ∷ 3 ∷ 7 ∷ [])
          3
          8,
    )
apply_stream-Records_example =
    apply_stream-Records sum_hash sum_hash-IsStrongHash 8 records-Records (omega arith)

read_varint-push_varint_example :
    read_varint memory_input chunk_size (push_varint [] 300 ++ (5 ∷ [])) ≡ (ok 300, 5 ∷ [])
read_varint-push_varint_example = read_varint-push_varint chunk_size 300 (5 ∷ []) (omega arith)

length-push_varint_example :
    (length (push_varint [] 300) ≡ 0 + varint_size 300)
    × (1 ≤ varint_size 300)
    × (varint_size 300 ≤ varint_max_bytes)
    × All IsByte (push_varint [] 300)
length-push_varint_example = length-push_varint [] 300 (omega arith) tt

push_u32_be_on_example : push_u32_be_on big (7 ∷ []) 258 ≡ 7 ∷ 0 ∷ 0 ∷ 1 ∷ 2 ∷ []
push_u32_be_on_example = push_u32_be_on_lem big (7 ∷ []) 258 (omega arith)

load-push_u32_be_example : load_u32_be_on little (push_u32_be_on big [] 258 ++ (7 ∷ [])) ≡ 258
load-push_u32_be_example = load-push_u32_be little big 258 (7 ∷ []) (omega arith)

read_header-write_header_example :
    (w : Writer memory_output) × (write_header memory_output fresh_writer ≡ (ok tt, w))
    × (w.bytes_written ≡ 8)
    × ((read_header memory_input (header_bytes ++ (0 ∷ [])) ≡ (ok tt, 0 ∷ []))
        ↔ (header_bytes ++ (0 ∷ []) ≡ w.out ++ (0 ∷ [])))
read_header-write_header_example =
    read_header-write_header (header_bytes ++ (0 ∷ [])) (0 ∷ []) (omega arith)

read-write_original_example :
    (w : Writer memory_output) × (write_original memory_output 300 (replicate 16 10) fresh_writer
      ≡ (ok tt, w))
    × (read_entry_header memory_input (w.out ++ (0 ∷ []))
        ≡ (ok (header_of original_chunk 300 0 (replicate 16 10)), 0 ∷ []))
read-write_original_example = read-write_original 300 (replicate 16 10) (0 ∷ []) (omega arith) refl

read-write_added_example :
    (w : Writer memory_output) × (write_added memory_output (replicate 16 10) old_bytes fresh_writer
      ≡ (ok tt, w))
    × (read_entry_header memory_input (w.out ++ (0 ∷ []))
        ≡ (ok (header_of added_chunk 0 4 (replicate 16 10)), old_bytes ++ (0 ∷ [])))
    × (w.bytes_written ≡ added_size 4)
read-write_added_example = read-write_added (replicate 16 10) old_bytes (0 ∷ []) (omega arith) refl

read-write_modified_example :
    (w : Writer memory_output) × (write_modified memory_output 300 3
        (replicate 16 10)
        greedy_bytes
        fresh_writer
      ≡ (ok tt, w))
    × (read_entry_header memory_input (w.out ++ (0 ∷ []))
        ≡ (ok (header_of modified_chunk 300 3 (replicate 16 10)), greedy_bytes ++ (0 ∷ [])))
    × (w.bytes_written ≡ modified_size 300 3 16)
read-write_modified_example =
    read-write_modified 300 3 (replicate 16 10) greedy_bytes (0 ∷ []) (omega arith) (omega arith)
      refl

read_trailer-write_trailer_example :
    (w : Writer memory_output) × (write_trailer memory_output old_bytes fresh_writer ≡ (ok tt, w))
    × (read_trailer memory_input 4 w.out ≡ (ok old_bytes, []))
read_trailer-write_trailer_example = read_trailer-write_trailer old_bytes

abbrev start : Patch
start = record { olds = old_bytes; new_pos = 0; output = [] }

abbrev patched : Patch
patched = record { olds = 3 ∷ 4 ∷ []; new_pos = 2; output = 1 ∷ 9 ∷ [] }

start-patched : apply_opcode 3 start (replace_op 1 (9 ∷ [])) ≡ ok patched
unfolding apply_opcode
start-patched = refl

apply_opcode-Fits_example : length patched.output ≤ 3
apply_opcode-Fits_example =
    apply_opcode-Fits 3 start (replace_op 1 (9 ∷ [])) start-patched (omega arith)

default-IsBounded : IsBounded 256 (2 ^ 31 - 1)
unfolding largest_modulus
default-IsBounded = record {
  some_base = omega arith;
  some_modulus = omega arith;
  small = omega arith;
}

slide-polynomial_example :
    (slide (4 ∷ 5 ∷ []) (initialize (1 ∷ 2 ∷ 3 ∷ []) (init_state 256 2 (2 ^ 31 - 1))).1).fingerprint
    ≡ polynomial 256 0 (4 ∷ 5 ∷ []) % (2 ^ 31 - 1)
slide-polynomial_example =
    slide-polynomial 256 2 (2 ^ 31 - 1) (1 ∷ 2 ∷ 3 ∷ []) (4 ∷ 5 ∷ []) default-IsBounded
      (omega arith) (omega arith) (omega arith) (omega arith)

reduce-configure_example :
    reduce (2 ^ 31 - 1) (configure_fast_reduction 256 (2 ^ 31 - 1)) (2 ^ 39) ≡ 2 ^ 39 % (2 ^ 31 - 1)
reduce-configure_example =
    reduce-configure 256 (2 ^ 31 - 1) (2 ^ 39) default-IsBounded (omega arith)

make-fits_example : (make 256 48 (2 ^ 31 - 1) ≡ some (init_state 256 48 (2 ^ 31 - 1))) ↔ (
    (0 < 48)
    × (0 < 256)
    × (0 < 2 ^ 31 - 1)
    × (2 * (256 * (2 ^ 31 - 1)) + 255 < u64_mod)
    × (2 * (255 * (2 ^ 31 - 1)) + 255 < u64_mod))
make-fits_example = make-fits 256 48 (2 ^ 31 - 1)

old_chunk-covers : covers_exactly (old_chunk ∷ []) 4 ≡ true
unfolding covers_exactly covers_loop
old_chunk-covers = refl

join-covers_exactly_example : join_chunks old_bytes (old_chunk ∷ []) ≡ old_bytes
join-covers_exactly_example = join-covers_exactly old_bytes (old_chunk ∷ []) old_chunk-covers

checks-covers_exactly_example :
    (verify_old_file sum_hash memory_file (old_chunk ∷ []) old_bytes ≡ (ok tt, old_bytes))
    × (check_trailer sum_hash memory_file (old_chunk ∷ []) [] old_bytes
        ≡ (ok (replicate 16 10), old_bytes))
checks-covers_exactly_example =
    checks-covers_exactly sum_hash sum_hash-IsStrongHash old_bytes (old_chunk ∷ []) old_chunk-covers
      (one_more {c = old_chunk} refl no_chunks)

parse_size-polynomial_example :
    parse_size (b'4' ∷ b'0' ∷ []) ≡ in_u64 (polynomial 10 0 (4 ∷ 0 ∷ []))
unfolding digit_chars
parse_size-polynomial_example = parse_size-polynomial 4 (0 ∷ []) (omega arith)

parse_size-IsUnit_example :
    parse_size (b'6' ∷ b'4' ∷ b'k' ∷ []) ≡ in_u64 (polynomial 10 0 (6 ∷ 4 ∷ []) * 1024)
unfolding digit_chars
parse_size-IsUnit_example =
    parse_size-IsUnit 6 (4 ∷ []) b'k' 1024 (omega arith) (kilo (inr refl) refl)
