-- ===== src/Codec/Writer.antt =====
-- `DeltaWriter` of src/DeltaCodec.hpp.
use roll.Prelude.{ℕ, ◌+◌, not, ◌||◌, List, [], ◌∷◌, ◌++◌, ◌==◌, ltb, if◌then◌else◌, length}
use roll.Format.{
  delta_magic, delta_format_version, delta_trailer_tag, delta_digest_bytes, EntryType,
  original_chunk, added_chunk, modified_chunk, tag_of,
}
use roll.Io.{Bytes, ByteOutput}
use roll.Io.Action.{ok, err, Action, ◌>>◌}
use roll.Codec.Ints.{push_u32_be}
use roll.Codec.Varint.{push_varint, varint_size}

pub data What : Type 0 where
  delta_header original_entry added_entry modified_entry delta_trailer : What

-- "Invalid …" and "Failed to write …".
pub data WriteError : Type 0 where
  invalid failed_write : What → WriteError

unfoldable pub added_size : ℕ → ℕ
unfolding varint_size
added_size payload_size = 1 + varint_size payload_size + delta_digest_bytes + payload_size

unfoldable pub modified_size : ℕ → ℕ → ℕ → ℕ
unfolding varint_size
modified_size old_index out_size diff_size =
    1 + varint_size old_index + varint_size out_size + delta_digest_bytes + diff_size

pub record DeltaWriter (S : Type 0) : Type 0 where
  pub out : S
  pub bytes_written : ℕ

unfoldable pub push_fields : Bytes → List ℕ → Bytes
push_fields head [] = head
push_fields head (value ∷ fields) = push_fields (push_varint head value) fields

module _ (O : ByteOutput) where
  abbrev pub Writer : Type 0
  Writer = DeltaWriter O.State

  unfoldable pub emit : Bytes → What → Action WriteError Writer (Unit {0})
  emit bytes what w =
      let (done, out') = O.write_chunk bytes w.out in
      if done
      then (ok tt, record { out = out'; bytes_written = w.bytes_written + length bytes })
      else (err (failed_write what), record w { out = out' })

  -- The body goes out from the caller's buffer, and an empty one not at all.
  unfoldable pub emit_body : Bytes → What → Action WriteError Writer (Unit {0})
  unfolding emit
  emit_body [] what w = (ok tt, w)
  emit_body (b ∷ body) what w = emit (b ∷ body) what w

  unfoldable pub emit_record :
      EntryType → List ℕ → Bytes → Bytes → What → Action WriteError Writer (Unit {0})
  unfolding emit emit_body push_fields push_varint
  emit_record type fields digest body what w =
      if ltb 2 (length fields) || not (length digest == delta_digest_bytes)
      then (err (invalid what), w)
      else (emit (push_fields (tag_of type ∷ []) fields ++ digest) what >> emit_body body what) w

  unfoldable pub write_header : Action WriteError Writer (Unit {0})
  unfolding emit push_u32_be
  write_header = emit (push_u32_be delta_magic delta_format_version) delta_header

  unfoldable pub write_original : ℕ → Bytes → Action WriteError Writer (Unit {0})
  unfolding emit_record
  write_original old_index digest =
      emit_record original_chunk (old_index ∷ []) digest [] original_entry

  unfoldable pub write_added : Bytes → Bytes → Action WriteError Writer (Unit {0})
  unfolding emit_record
  write_added digest payload =
      emit_record added_chunk (length payload ∷ []) digest payload added_entry

  unfoldable pub write_modified : ℕ → ℕ → Bytes → Bytes → Action WriteError Writer (Unit {0})
  unfolding emit_record
  write_modified old_index out_size digest opcodes =
      emit_record modified_chunk (old_index ∷ out_size ∷ []) digest opcodes modified_entry

  unfoldable pub write_trailer : Bytes → Action WriteError Writer (Unit {0})
  unfolding emit
  write_trailer digest = emit (delta_trailer_tag ∷ []) delta_trailer >> emit digest delta_trailer
