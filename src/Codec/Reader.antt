-- ===== src/Codec/Reader.antt =====
-- `DeltaReader` of src/DeltaCodec.hpp. A method is an action on the input; its error is what the
-- source writes to `error_` before it returns false.
pub mod Progress
pub mod Forward
use roll.Prelude.{
  ℕ, zero, suc, ◌+◌, ◌-◌, ◌*◌, ◌%◌, ◌^◌, bit_and, bit_or, Bool, true, false, not, ◌&&◌, ◌||◌,
  Option, none, some, [], ◌==◌, ltb, leb, if◌then◌else◌, length, drop, take, same_bytes,
}
use roll.Format.{
  delta_magic, delta_format_version, delta_header_size, delta_trailer_tag, delta_digest_bytes,
  delta_max_chunk_size, delta_entry_type_limit, EntryType, original_chunk, added_chunk,
  modified_chunk, u64_mod,
}
use roll.Io.{Bytes, ByteInput}
use roll.Io.Action.{Result, ok, err, Action, pure, raise, ◌>>=◌}
use roll.Codec.Ints.{load_u32_be}
use roll.Codec.Varint.{varint_max_bytes}

-- What a varint was read for.
pub data Field : Type 0 where
  old_chunk_index chunk_size : Field

pub data ReadError : Type 0 where
  missing_header bad_magic missing_entry_type missing_entry_digest short_payload : ReadError
  missing_opcode missing_pos missing_x_length missing_count_byte missing_inline_bytes : ReadError
  missing_trailer_tag short_trailer bytes_after_trailer failed_trailer : ReadError
  failed_delta missing_trailer no_diff_opcodes : ReadError
  unsupported_version unknown_entry_type out_of_range_chunk_size : ℕ → ReadError
  missing_field malformed_varint : Field → ReadError

pub data Item : Type 0 where
  entry trailer end_of_stream : Item

pub record DeltaEntryHeader : Type 0 where
  pub type : EntryType
  pub old_index : ℕ
  pub out_size : ℕ
  pub digest : Bytes

abbrev pub references_old : EntryType → Bool
references_old original_chunk = true
references_old added_chunk = false
references_old modified_chunk = true

-- `op` is one of the characters 'D', 'I' and 'X'.
pub record DiffOpcode : Type 0 where
  pub op : ℕ
  pub pos : ℕ
  pub delete_length : ℕ
  pub bytes : Bytes

-- The argument is an `int`: a byte, or EOF.
abbrev pub is_diff_opcode : Option ℕ → Bool
is_diff_opcode none = false
is_diff_opcode (some byte) = byte == b'D' || byte == b'I' || byte == b'X'

-- `static_cast<EntryType>(tag)` of a tag below the limit; the last case is not reached.
abbrev entry_type : ℕ → EntryType
entry_type zero = original_chunk
entry_type (suc zero) = added_chunk
entry_type (suc (suc n)) = modified_chunk

abbrev item_at : Option ℕ → Item
item_at none = end_of_stream
item_at (some byte) = if byte == delta_trailer_tag then trailer else entry

module _ (I : ByteInput) where
  open I use {State}

  -- `read_byte`, where EOF is an error.
  abbrev byte_or : ReadError → Action ReadError State ℕ
  byte_or e s = elim ((I.read_byte s).0) [
    | none ↦ (err e, (I.read_byte s).1)
    | some b ↦ (ok b, (I.read_byte s).1)
  ]

  abbrev peek : Action ReadError State (Option ℕ)
  peek s = (ok (I.peek_byte s).0, (I.peek_byte s).1)

  -- `read_exact`, with the message of its caller.
  unfoldable pub read_exact : ℕ → ReadError → Action ReadError State Bytes
  read_exact count e s =
      let (out, s') = I.read_chunk count s in
      if length out == count then (ok out, s') else (err e, s')

  -- `rounds` counts down while the source's `i` counts up to `VARINT_MAX_BYTES`.
  unfoldable pub read_varint_loop : Field → ℕ → ℕ → ℕ → Action ReadError State ℕ
  read_varint_loop what zero i value = raise (malformed_varint what)
  read_varint_loop what (suc rounds) i value = do
    byte ← byte_or (missing_field what)
    let bits = bit_and byte 0x7f
    let value' = bit_or value (bits * 2 ^ (7 * i) % u64_mod)
    let rest = read_varint_loop what rounds (i + 1) value'
    if i == varint_max_bytes - 1 && ltb 1 bits
        then raise (malformed_varint what)
        else if bit_and byte 0x80 == 0
        then pure value'
        else rest

  unfoldable pub read_varint : Field → Action ReadError State ℕ
  unfolding read_varint_loop
  read_varint what = read_varint_loop what varint_max_bytes 0 0

  unfoldable pub read_header : Action ReadError State (Unit {0})
  unfolding load_u32_be
  read_header s =
      let (buf, s') = I.read_chunk delta_header_size s in
      if not (length buf == delta_header_size)
      then (err missing_header, s')
      else if not (same_bytes delta_magic (take 4 buf))
      then (err bad_magic, s')
      else let version = load_u32_be (drop 4 buf) in
        if version == delta_format_version
        then (ok tt, s')
        else (err (unsupported_version version), s')

  unfoldable pub next_item : State → Item × State
  next_item s = let (peek, s') = I.peek_byte s in (item_at peek, s')

  -- The old index of the entry types that have one.
  read_index : EntryType → Action ReadError State ℕ
  read_index type = if references_old type then read_varint old_chunk_index else pure 0

  -- The output size of the entry types that have one, bounded by the largest chunk.
  read_size : EntryType → Action ReadError State ℕ
  read_size original_chunk = pure 0
  read_size _ = do
    size ← read_varint chunk_size
    if ltb delta_max_chunk_size size then raise (out_of_range_chunk_size size) else pure size

  unfoldable pub read_entry_header : Action ReadError State DeltaEntryHeader
  unfolding read_index read_size
  read_entry_header = do
    tag ← byte_or missing_entry_type
    if leb delta_entry_type_limit tag then raise (unknown_entry_type tag) else do
      let type = entry_type tag
      old_index ← read_index type
      out_size ← read_size type
      digest ← read_exact delta_digest_bytes missing_entry_digest
      pure (record { type = type; old_index = old_index; out_size = out_size; digest = digest })

  unfoldable pub read_payload : ℕ → Action ReadError State Bytes
  unfolding read_exact
  read_payload count = read_exact count short_payload

  unfoldable pub at_diff_opcode : State → Bool × State
  at_diff_opcode s = let (peek, s') = I.peek_byte s in (is_diff_opcode peek, s')

  -- What follows the position: the length of an 'X', the counted bytes of a 'D' or an 'I'.
  read_operand : ℕ → ℕ → Action ReadError State DiffOpcode
  read_operand op pos =
      if op == b'X'
      then (do
        buf ← read_exact 4 missing_x_length
        pure (record { op = op; pos = pos; delete_length = load_u32_be buf; bytes = [] }))
      else (do
        count ← byte_or missing_count_byte
        bytes ← read_exact count missing_inline_bytes
        pure (record { op = op; pos = pos; delete_length = 0; bytes = bytes }))

  unfoldable pub read_diff_opcode : Action ReadError State DiffOpcode
  unfolding read_operand
  read_diff_opcode = do
    op ← byte_or missing_opcode
    if not (is_diff_opcode (some op))
        then raise missing_opcode
        else do buf ← read_exact 4 missing_pos; read_operand op (load_u32_be buf)

  -- The last two checks of `read_trailer`.
  at_end : Bytes → Option ℕ → Action ReadError State Bytes
  at_end digest (some byte) s = (err bytes_after_trailer, s)
  at_end digest none s = if I.has_error s then (err failed_trailer, s) else (ok digest, s)

  -- The tag, the digest, and then nothing.
  unfoldable pub read_trailer : ℕ → Action ReadError State Bytes
  unfolding read_exact at_end
  read_trailer trailer_digest_size = do
    tag ← byte_or missing_trailer_tag
    if not (tag == delta_trailer_tag) then raise missing_trailer_tag else do
      digest ← read_exact trailer_digest_size short_trailer
      after ← peek
      at_end digest after

  unfoldable pub finish : Bool → Action ReadError State (Unit {0})
  finish saw_trailer s =
      if I.has_error s
      then (err failed_delta, s)
      else if not saw_trailer
      then (err missing_trailer, s)
      else (ok tt, s)

abbrev pub finish_diff : ℕ → Result ReadError (Unit {0})
finish_diff opcodes = if not (opcodes == 0) then ok tt else err no_diff_opcodes
