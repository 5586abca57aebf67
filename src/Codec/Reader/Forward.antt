-- ===== src/Codec/Reader/Forward.antt =====
-- The methods of `DeltaReader` of src/DeltaCodec.hpp that an entry and an opcode are read by only go forward.
use roll.Prelude.{
  ℕ, zero, suc, ◌+◌, ◌-◌, ◌*◌, ◌%◌, ◌^◌, ◌≤◌, bit_and, bit_or, Bool, not, ◌&&◌, Option, none, some,
  [], ◌==◌, ltb, leb, if◌then◌else◌, arith,
}
use roll.Format.{
  EntryType, original_chunk, added_chunk, modified_chunk, u64_mod, delta_digest_bytes,
  delta_max_chunk_size, delta_entry_type_limit, delta_trailer_tag, delta_header_size,
}
use roll.Io.{Bytes, ByteInput}
use roll.Io.Action.{Action, pure, raise, ◌>>=◌}
use roll.Codec.Ints.{load_u32_be}
use roll.Codec.Varint.{varint_max_bytes}
use roll.Codec.Reader.{
  ReadError, Field, old_chunk_index, chunk_size, DeltaEntryHeader, DiffOpcode, references_old,
  entry_type, byte_or, peek, read_exact, read_varint_loop, read_varint, read_header, next_item,
  read_index, read_size, read_entry_header, read_payload, at_diff_opcode, read_operand,
  read_diff_opcode, at_end, read_trailer, finish, is_diff_opcode, missing_opcode, missing_pos,
  missing_x_length, missing_count_byte, missing_inline_bytes, missing_entry_type,
  missing_entry_digest, unknown_entry_type, out_of_range_chunk_size, missing_field,
  malformed_varint, short_payload, short_trailer, missing_trailer_tag,
}
use roll.Codec.Reader.Progress.{
  IsForward, Shrinks, Progress, bind-Shrinks, bind-Progress, if-Shrinks, pure-Shrinks,
  raise-Shrinks, byte_or-Progress, read_exact-Shrinks,
}

module _ (I : ByteInput) (laws : IsForward I) where
  read_varint_loop-Shrinks :
      (what : Field) (rounds i value : ℕ) → Shrinks I laws (read_varint_loop I what rounds i value)
  unfolding read_varint_loop
  read_varint_loop-Shrinks what zero i value = raise-Shrinks I laws ℕ (malformed_varint what)
  read_varint_loop-Shrinks what (suc rounds) i value =
      bind-Shrinks I laws (byte_or I (missing_field what)) next
        ((byte_or-Progress I laws (missing_field what)).shrinks)
        (λ byte. chosen_next byte (
          read_varint_loop-Shrinks what rounds (i + 1)
            (bit_or value (bit_and byte 0x7f * 2 ^ (7 * i) % u64_mod))))
    where
      rest : ℕ → Action ReadError I.State ℕ
      rest byte =
          read_varint_loop I what rounds (i + 1)
            (bit_or value (bit_and byte 0x7f * 2 ^ (7 * i) % u64_mod))

      ended : ℕ → Action ReadError I.State ℕ
      ended byte =
          if bit_and byte 0x80 == 0
          then pure (bit_or value (bit_and byte 0x7f * 2 ^ (7 * i) % u64_mod))
          else rest byte

      next : ℕ → Action ReadError I.State ℕ
      next byte =
          if i == varint_max_bytes - 1 && ltb 1 (bit_and byte 0x7f)
          then raise (malformed_varint what)
          else ended byte

      chosen_next : (byte : ℕ) → Shrinks I laws (rest byte) → Shrinks I laws (next byte)
      chosen_next byte h =
          if-Shrinks I laws (i == varint_max_bytes - 1 && ltb 1 (bit_and byte 0x7f))
            (raise (malformed_varint what)) (ended byte)
            (raise-Shrinks I laws ℕ (malformed_varint what))
            (if-Shrinks I laws (bit_and byte 0x80 == 0)
              (pure (bit_or value (bit_and byte 0x7f * 2 ^ (7 * i) % u64_mod))) (rest byte)
              (pure-Shrinks I laws ℕ (bit_or value (bit_and byte 0x7f * 2 ^ (7 * i) % u64_mod))) h)

  read_varint-Shrinks : (what : Field) → Shrinks I laws (read_varint I what)
  unfolding read_varint
  read_varint-Shrinks what = read_varint_loop-Shrinks what varint_max_bytes 0 0

  read_index-Shrinks : (type : EntryType) → Shrinks I laws (read_index I type)
  unfolding read_index
  read_index-Shrinks type =
      if-Shrinks I laws (references_old type) (read_varint I old_chunk_index) (pure 0)
        (read_varint-Shrinks old_chunk_index) (pure-Shrinks I laws ℕ 0)

  sized-Shrinks : Shrinks I laws (
      read_varint I chunk_size >>= λ size.
      if ltb delta_max_chunk_size size then raise (out_of_range_chunk_size size) else pure size)
  sized-Shrinks =
      bind-Shrinks I laws (read_varint I chunk_size)
        (λ size.
          if ltb delta_max_chunk_size size then raise (out_of_range_chunk_size size) else pure size)
        (read_varint-Shrinks chunk_size)
        (λ size.
          if-Shrinks I laws (ltb delta_max_chunk_size size) (raise (out_of_range_chunk_size size))
            (pure size) (raise-Shrinks I laws ℕ (out_of_range_chunk_size size))
            (pure-Shrinks I laws ℕ size))

  read_size-Shrinks : (type : EntryType) → Shrinks I laws (read_size I type)
  unfolding read_size
  read_size-Shrinks original_chunk = pure-Shrinks I laws ℕ 0
  read_size-Shrinks added_chunk = sized-Shrinks
  read_size-Shrinks modified_chunk = sized-Shrinks

  -- The header of an entry takes its tag at least.
  pub read_entry_header-Progress : Progress I laws (read_entry_header I)
  unfolding read_entry_header
  read_entry_header-Progress =
      bind-Progress I laws (byte_or I missing_entry_type) tagged
        (byte_or-Progress I laws missing_entry_type)
        (λ tag.
          if-Shrinks I laws (leb delta_entry_type_limit tag) (raise (unknown_entry_type tag))
            (fields (entry_type tag))
            (raise-Shrinks I laws DeltaEntryHeader (unknown_entry_type tag))
            (bind-Shrinks I laws (read_index I (entry_type tag)) (λ i. sizes (entry_type tag) i)
              (read_index-Shrinks (entry_type tag))
              (λ i.
                bind-Shrinks I laws (read_size I (entry_type tag))
                  (λ n. digests (entry_type tag) i n) (read_size-Shrinks (entry_type tag))
                  (λ n.
                    bind-Shrinks I laws (read_exact I delta_digest_bytes missing_entry_digest)
                      (λ digest. pure (header (entry_type tag) i n digest))
                      (read_exact-Shrinks I laws delta_digest_bytes missing_entry_digest)
                      (λ digest.
                        pure-Shrinks I laws DeltaEntryHeader
                          (header (entry_type tag) i n digest))))))
    where
      header : EntryType → ℕ → ℕ → Bytes → DeltaEntryHeader
      header type i n digest = record { type = type; old_index = i; out_size = n; digest = digest }

      digests : EntryType → ℕ → ℕ → Action ReadError I.State DeltaEntryHeader
      digests type i n = read_exact I delta_digest_bytes missing_entry_digest >>= λ digest.
          pure (header type i n digest)

      sizes : EntryType → ℕ → Action ReadError I.State DeltaEntryHeader
      sizes type i = read_size I type >>= digests type i

      fields : EntryType → Action ReadError I.State DeltaEntryHeader
      fields type = read_index I type >>= sizes type

      tagged : ℕ → Action ReadError I.State DeltaEntryHeader
      tagged tag =
          if leb delta_entry_type_limit tag
          then raise (unknown_entry_type tag)
          else fields (entry_type tag)

  pub read_payload-Shrinks : (n : ℕ) → Shrinks I laws (read_payload I n)
  unfolding read_payload
  read_payload-Shrinks n = read_exact-Shrinks I laws n short_payload

  pub at_diff_opcode-left : (s : I.State) → I.left (at_diff_opcode I s).1 ≤ I.left s
  unfolding at_diff_opcode
  at_diff_opcode-left s = laws.peek_byte-left s

  pub next_item-left : (s : I.State) → I.left (next_item I s).1 ≤ I.left s
  unfolding next_item
  next_item-left s = laws.peek_byte-left s

  read_operand-Shrinks : (op pos : ℕ) → Shrinks I laws (read_operand I op pos)
  unfolding read_operand
  read_operand-Shrinks op pos =
      if-Shrinks I laws (op == b'X') lengthened counted
        (bind-Shrinks I laws (read_exact I 4 missing_x_length) (λ buf. pure (deletion buf))
          (read_exact-Shrinks I laws 4 missing_x_length)
          (λ buf. pure-Shrinks I laws DiffOpcode (deletion buf)))
        (bind-Shrinks I laws (byte_or I missing_count_byte) inlined
          ((byte_or-Progress I laws missing_count_byte).shrinks)
          (λ count.
            bind-Shrinks I laws (read_exact I count missing_inline_bytes)
              (λ bytes. pure (insertion bytes))
              (read_exact-Shrinks I laws count missing_inline_bytes)
              (λ bytes. pure-Shrinks I laws DiffOpcode (insertion bytes))))
    where
      deletion : Bytes → DiffOpcode
      deletion buf = record { op = op; pos = pos; delete_length = load_u32_be buf; bytes = [] }

      insertion : Bytes → DiffOpcode
      insertion bytes = record { op = op; pos = pos; delete_length = 0; bytes = bytes }

      lengthened : Action ReadError I.State DiffOpcode
      lengthened = read_exact I 4 missing_x_length >>= λ buf. pure (deletion buf)

      inlined : ℕ → Action ReadError I.State DiffOpcode
      inlined count = read_exact I count missing_inline_bytes >>= λ bytes. pure (insertion bytes)

      counted : Action ReadError I.State DiffOpcode
      counted = byte_or I missing_count_byte >>= inlined

  -- An opcode takes its first byte at least.
  pub read_diff_opcode-Progress : Progress I laws (read_diff_opcode I)
  unfolding read_diff_opcode
  read_diff_opcode-Progress =
      bind-Progress I laws (byte_or I missing_opcode) positioned
        (byte_or-Progress I laws missing_opcode)
        (λ op.
          if-Shrinks I laws (not (is_diff_opcode (some op))) (raise missing_opcode) (operands op)
            (raise-Shrinks I laws DiffOpcode missing_opcode)
            (bind-Shrinks I laws (read_exact I 4 missing_pos)
              (λ buf. read_operand I op (load_u32_be buf)) (read_exact-Shrinks I laws 4 missing_pos)
              (λ buf. read_operand-Shrinks op (load_u32_be buf))))
    where
      operands : ℕ → Action ReadError I.State DiffOpcode
      operands op = read_exact I 4 missing_pos >>= λ buf. read_operand I op (load_u32_be buf)

      positioned : ℕ → Action ReadError I.State DiffOpcode
      positioned op = if not (is_diff_opcode (some op)) then raise missing_opcode else operands op

  pub read_header-Shrinks : Shrinks I laws (read_header I)
  unfolding read_header
  read_header-Shrinks s = ground (arith, laws.read_chunk-left delta_header_size s)

  pub finish-Shrinks : (saw_trailer : Bool) → Shrinks I laws (finish I saw_trailer)
  unfolding finish
  finish-Shrinks saw_trailer s = ground arith

  at_end-Shrinks : (digest : Bytes) (after : Option ℕ) → Shrinks I laws (at_end I digest after)
  unfolding at_end
  at_end-Shrinks digest none s = ground arith
  at_end-Shrinks digest (some byte) s = omega arith

  pub read_trailer-Shrinks : (n : ℕ) → Shrinks I laws (read_trailer I n)
  unfolding read_trailer
  read_trailer-Shrinks n =
      bind-Shrinks I laws (byte_or I missing_trailer_tag) tagged
        ((byte_or-Progress I laws missing_trailer_tag).shrinks)
        (λ tag.
          if-Shrinks I laws (not (tag == delta_trailer_tag)) (raise missing_trailer_tag) digested
            (raise-Shrinks I laws Bytes missing_trailer_tag)
            (bind-Shrinks I laws (read_exact I n short_trailer)
              (λ digest. peek I >>= at_end I digest) (read_exact-Shrinks I laws n short_trailer)
              (λ digest.
                bind-Shrinks I laws (peek I) (at_end I digest) laws.peek_byte-left
                  (at_end-Shrinks digest))))
    where
      digested : Action ReadError I.State Bytes
      digested = read_exact I n short_trailer >>= λ digest. (peek I >>= at_end I digest)

      tagged : ℕ → Action ReadError I.State Bytes
      tagged tag = if not (tag == delta_trailer_tag) then raise missing_trailer_tag else digested
