-- ===== src/Codec/RoundTrip/Written.antt =====
-- What `DeltaWriter` writes, as `DeltaReader` reads it, and its predicted sizes (src/DeltaCodec.hpp).
use roll.Prelude.{ℕ, ◌+◌, ◌≤◌, ◌≡◌, refl, [], ◌++◌, length, length-append, arith}
use roll.Format.{
  delta_digest_bytes, delta_max_chunk_size, original_chunk, added_chunk, modified_chunk,
}
use roll.Io.{Bytes}
use roll.Io.Memory.{memory_input, memory_output}
use roll.Io.Action.{ok}
use roll.Codec.Varint.{varint_size, varint_size-groups}
use roll.Codec.Reader.{read_entry_header, read_trailer}
use roll.Codec.Writer.{
  Writer, write_original, write_added, write_modified, write_trailer, added_size, modified_size,
}
use roll.Codec.Layout.{
  IsU64, added_record, modified_record, varint, write_original_lem, write_added_lem,
  write_modified_lem,
}
use roll.Codec.RoundTrip.Records.{
  header_of, read-original_record, read-added_record, read-modified_record, read_trailer_lem,
}

-- A writer that has written nothing.
abbrev pub fresh_writer : Writer memory_output
fresh_writer = record { out = []; bytes_written = 0 }

-- For a 64-bit index and a digest of 16 bytes: `write_original` succeeds and `read_entry_header`
-- reads the same index and digest back and leaves what follows.
pub read-write_original :
    (i : ℕ) (digest rest : Bytes)
    → IsU64 i
    → length digest ≡ delta_digest_bytes
    → (w : Writer memory_output) × (write_original memory_output i digest fresh_writer ≡ (ok tt, w))
      × (read_entry_header memory_input (w.out ++ rest)
          ≡ (ok (header_of original_chunk i 0 digest), rest))
read-write_original i digest rest hi sized = (
  _,
  write_original_lem digest fresh_writer sized i hi,
  read-original_record digest rest sized i hi,
)

-- For a payload of at most 16384 bytes and a digest of 16 bytes: `write_added` succeeds, counts as
-- many bytes as `added_size` predicts, and `read_entry_header` reads the payload's size and the
-- digest back and stops at the payload.
pub read-write_added :
    (digest payload rest : Bytes)
    → length payload ≤ delta_max_chunk_size
    → length digest ≡ delta_digest_bytes
    → (w : Writer memory_output) × (write_added memory_output digest payload fresh_writer
        ≡ (ok tt, w))
      × (read_entry_header memory_input (w.out ++ rest)
          ≡ (ok (header_of added_chunk 0 (length payload) digest), payload ++ rest))
      × (w.bytes_written ≡ added_size (length payload))
unfolding added_size
read-write_added digest payload rest small sized = (
  _,
  write_added_lem digest fresh_writer sized payload (omega arith),
  read-added_record digest rest sized payload small,
  counted,
)
  where
    counted :
        0 + length (added_record digest payload)
        ≡ 1 + varint_size (length payload) + delta_digest_bytes + length payload
    counted = omega (
      arith,
      length-append (varint (length payload)) (digest ++ payload),
      length-append digest payload,
      varint_size-groups (length payload) (omega arith),
      sized,
    )

-- For a 64-bit index, a declared size of at most 16384 and a digest of 16 bytes: `write_modified`
-- succeeds, counts as many bytes as `modified_size` predicts, and `read_entry_header` reads the
-- index, the size and the digest back and stops at the opcodes.
pub read-write_modified :
    (i n : ℕ) (digest opcodes rest : Bytes)
    → IsU64 i
    → n ≤ delta_max_chunk_size
    → length digest ≡ delta_digest_bytes
    → (w : Writer memory_output) × (write_modified memory_output i n digest opcodes fresh_writer
        ≡ (ok tt, w))
      × (read_entry_header memory_input (w.out ++ rest)
          ≡ (ok (header_of modified_chunk i n digest), opcodes ++ rest))
      × (w.bytes_written ≡ modified_size i n (length opcodes))
unfolding modified_size
read-write_modified i n digest opcodes rest hi small sized = (
  _,
  write_modified_lem digest fresh_writer sized i n opcodes hi (omega arith),
  read-modified_record digest rest sized i n opcodes hi small,
  counted,
)
  where
    counted :
        0 + length (modified_record i n digest opcodes)
        ≡ 1 + varint_size i + varint_size n + delta_digest_bytes + length opcodes
    counted = omega (
      arith,
      length-append (varint i) (varint n ++ (digest ++ opcodes)),
      length-append (varint n) (digest ++ opcodes),
      length-append digest opcodes,
      varint_size-groups i hi,
      varint_size-groups n (omega arith),
      sized,
    )

-- `write_trailer` succeeds, and `read_trailer` for a digest of that length reads the digest back
-- and accepts the end of the delta.
pub read_trailer-write_trailer :
    (digest : Bytes)
    → (w : Writer memory_output) × (write_trailer memory_output digest fresh_writer ≡ (ok tt, w))
      × (read_trailer memory_input (length digest) w.out ≡ (ok digest, []))
unfolding write_trailer
read_trailer-write_trailer digest = (_, refl, read_trailer_lem digest (length digest) refl)
