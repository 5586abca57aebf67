-- ===== src/Codec/Layout.antt =====
-- The wire format as byte lists: what each method of the writer appends.
use roll.Prelude.{
  ℕ, ◌+◌, ◌≤◌, ◌<◌, ◌≡◌, refl, sym, ◌∙◌, ap, false, ltb, not, ◌||◌, ◌==◌, All, length-append, List,
  [], ◌∷◌, ◌++◌, length, append_assoc, append-nil, arith,
}
use roll.Format.{
  delta_digest_bytes, u64_mod, EntryType, tag_of, original_chunk, added_chunk, modified_chunk,
}
use roll.Io.{Bytes}
use roll.Io.Memory.{memory_output}
use roll.Io.Action.{Result, ok}
use roll.Codec.Varint.{groups, push_varint, push_varint-groups}
use roll.Codec.Writer.{
  WriteError, What, original_entry, added_entry, modified_entry, Writer, push_fields, emit_record,
  write_original, write_added, write_modified, emit, emit_body,
}

abbrev pub varint : ℕ → Bytes
varint v = groups 9 v

abbrev pub original_record : ℕ → Bytes → Bytes
original_record old_index digest = 0 ∷ (varint old_index ++ digest)

abbrev pub added_record : Bytes → Bytes → Bytes
added_record digest payload = 1 ∷ (varint (length payload) ++ (digest ++ payload))

abbrev pub modified_record : ℕ → ℕ → Bytes → Bytes → Bytes
modified_record old_index out_size digest opcodes =
    2 ∷ (varint old_index ++ (varint out_size ++ (digest ++ opcodes)))

-- The writer `w` after `bytes` went out.
abbrev pub wrote : Writer memory_output → Bytes → Writer memory_output
wrote w bytes = record { out = w.out ++ bytes; bytes_written = w.bytes_written + length bytes }

abbrev varints : List ℕ → Bytes
varints [] = []
varints (v ∷ vs) = varint v ++ varints vs

abbrev pub IsU64 : ℕ → Type 0
IsU64 v = v < u64_mod

push_fields-varints :
    (head : Bytes) (fields : List ℕ)
    → All IsU64 fields
    → push_fields head fields ≡ head ++ varints fields
unfolding push_fields
push_fields-varints head [] h = sym (append-nil head)
push_fields-varints head (v ∷ vs) h =
    push_fields-varints (push_varint head v) vs h.1
    ∙ rw (push_varint-groups head v h.0) (append_assoc head (varint v) (varints vs))

emit_lem :
    (bytes : Bytes) (what : What) (w : Writer memory_output)
    → emit memory_output bytes what w ≡ (ok tt, wrote w bytes)
unfolding emit
emit_lem bytes what w = refl

wrote-wrote : (w : Writer memory_output) (a b : Bytes) → wrote (wrote w a) b ≡ wrote w (a ++ b)
wrote-wrote w a b =
    rw (append_assoc, length-append)
      (λ i. record { out = w.out ++ (a ++ b); bytes_written = sums i })
  where
    sums : w.bytes_written + length a + length b ≡ w.bytes_written + (length a + length b)
    sums = omega arith

emit_body_lem :
    (body : Bytes) (what : What) (w : Writer memory_output)
    → emit_body memory_output body what w ≡ (ok tt, wrote w body)
unfolding emit_body
emit_body_lem [] what w = ground (arith, append-nil w.out)
emit_body_lem (b ∷ body) what w = emit_lem (b ∷ body) what w

-- A record with at most two 64-bit fields and a digest of 16 bytes is its tag, the fields as
-- varints, the digest and the body.
pub emit_record_lem :
    (type : EntryType) (fields : List ℕ) (digest body : Bytes) (what : What)
    (w : Writer memory_output)
    → length fields ≤ 2
    → All IsU64 fields
    → length digest ≡ delta_digest_bytes
    → emit_record memory_output type fields digest body what w
      ≡ (ok tt, wrote w (tag_of type ∷ (varints fields ++ (digest ++ body))))
unfolding emit_record
emit_record_lem type fields digest body what w h2 hf hd =
    rw (fits, push_fields-varints (tag_of type ∷ []) fields hf)
      (emit_body_lem body what (wrote w (head ++ digest))
        ∙ ap done (wrote-wrote w (head ++ digest) body)
        ∙ ap (λ (x : Bytes). done (wrote w x)) (append_assoc head digest body))
  where
    done : Writer memory_output → Result WriteError (Unit {0}) × Writer memory_output
    done x = (ok tt, x)

    fits : ltb 2 (length fields) || not (length digest == delta_digest_bytes) ≡ false
    fits = ground arith

    head : Bytes
    head = tag_of type ∷ varints fields

module _ (digest : Bytes) (w : Writer memory_output)
    (sized : length digest ≡ delta_digest_bytes) where
  pub write_original_lem :
      (i : ℕ)
      → IsU64 i
      → write_original memory_output i digest w ≡ (ok tt, wrote w (original_record i digest))
  unfolding write_original
  write_original_lem i hi =
      emit_record_lem original_chunk (i ∷ []) digest [] original_entry w (omega arith) (hi, tt)
        sized
      ∙ simp append-nil

  pub write_added_lem :
      (payload : Bytes)
      → IsU64 (length payload)
      → write_added memory_output digest payload w ≡ (ok tt, wrote w (added_record digest payload))
  unfolding write_added
  write_added_lem payload hp =
      emit_record_lem added_chunk (length payload ∷ []) digest payload added_entry w (omega arith)
        (hp, tt) sized
      ∙ simp append-nil

  pub write_modified_lem :
      (i n : ℕ) (opcodes : Bytes)
      → IsU64 i
      → IsU64 n
      → write_modified memory_output i n digest opcodes w
        ≡ (ok tt, wrote w (modified_record i n digest opcodes))
  unfolding write_modified
  write_modified_lem i n opcodes hi hn =
      emit_record_lem modified_chunk (i ∷ n ∷ []) digest opcodes modified_entry w (omega arith)
        (hi, (hn, tt)) sized
      ∙ simp (append-nil, append_assoc)
