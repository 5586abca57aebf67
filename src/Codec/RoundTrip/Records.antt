-- ===== src/Codec/RoundTrip/Records.antt =====
-- The reader on the records, the header and the trailer of the writer.
use roll.Prelude.{
  ℕ, ◌≤◌, ◌≡◌, refl, sym, ap, ◌∙◌, false, [], ◌∷◌, ◌++◌, length, take-append, drop-append, ==_self,
  ltb, append_assoc, append-nil, All, ◌↔◌, arith,
}
use roll.Format.{
  delta_magic, delta_format_version, delta_trailer_tag, delta_header_size, delta_digest_bytes,
  delta_max_chunk_size, original_chunk, added_chunk, modified_chunk, EntryType,
}
use roll.Io.{Bytes}
use roll.Io.Memory.{memory_input, memory_output}
use roll.Io.Action.{ok}
use roll.Codec.Reader.{
  ReadError, missing_entry_digest, short_trailer, old_chunk_index, chunk_size, DeltaEntryHeader,
  read_exact, read_entry_header, read_header, read_trailer,
}
use roll.Codec.Ints.{IsByte, load_u32_be}
use roll.Codec.Writer.{Writer, write_header}
use roll.Codec.Layout.{varint, original_record, added_record, modified_record, IsU64}
use roll.Codec.RoundTrip.Varint.{read_varint-groups}

pub read_exact_lem :
    (n : ℕ) (e : ReadError) (bytes rest : Bytes)
    → length bytes ≡ n
    → read_exact memory_input n e (bytes ++ rest) ≡ (ok bytes, rest)
unfolding read_exact
read_exact_lem n e bytes rest h =
    rw (← h, take-append bytes rest, drop-append bytes rest, ==_self (length bytes))

-- The header that a record of each type is read as.
abbrev pub header_of : EntryType → ℕ → ℕ → Bytes → DeltaEntryHeader
header_of type old_index out_size digest = record {
  type = type;
  old_index = old_index;
  out_size = out_size;
  digest = digest;
}

fits : (n : ℕ) → n ≤ delta_max_chunk_size → ltb delta_max_chunk_size n ≡ false
fits n h = ground arith

module _ (digest rest : Bytes) (sized : length digest ≡ delta_digest_bytes) where
  pub read-original_record :
      (i : ℕ)
      → IsU64 i
      → read_entry_header memory_input (original_record i digest ++ rest)
        ≡ (ok (header_of original_chunk i 0 digest), rest)
  unfolding read_entry_header
  read-original_record i hi = rw (
    append_assoc (varint i) digest rest,
    read_varint-groups old_chunk_index i (digest ++ rest) hi,
    read_exact_lem delta_digest_bytes missing_entry_digest digest rest sized,
  )

  pub read-added_record :
      (payload : Bytes)
      → length payload ≤ delta_max_chunk_size
      → read_entry_header memory_input (added_record digest payload ++ rest)
        ≡ (ok (header_of added_chunk 0 (length payload) digest), payload ++ rest)
  unfolding read_entry_header
  read-added_record payload h = rw (
    append_assoc (varint (length payload)) (digest ++ payload) rest,
    read_varint-groups chunk_size (length payload) ((digest ++ payload) ++ rest) (omega arith),
    fits (length payload) h,
    append_assoc digest payload rest,
    read_exact_lem delta_digest_bytes missing_entry_digest digest (payload ++ rest) sized,
  )

  pub read-modified_record :
      (i n : ℕ) (opcodes : Bytes)
      → IsU64 i
      → n ≤ delta_max_chunk_size
      → read_entry_header memory_input (modified_record i n digest opcodes ++ rest)
        ≡ (ok (header_of modified_chunk i n digest), opcodes ++ rest)
  unfolding read_entry_header
  read-modified_record i n opcodes hi h = rw (
    append_assoc (varint i) (varint n ++ (digest ++ opcodes)) rest,
    read_varint-groups old_chunk_index i ((varint n ++ (digest ++ opcodes)) ++ rest) hi,
    append_assoc (varint n) (digest ++ opcodes) rest,
    read_varint-groups chunk_size n ((digest ++ opcodes) ++ rest) (omega arith),
    fits n h,
    append_assoc digest opcodes rest,
    read_exact_lem delta_digest_bytes missing_entry_digest digest (opcodes ++ rest) sized,
  )

-- The bytes that the header is written as.
header : Bytes
header = delta_magic ++ (0 ∷ 0 ∷ 0 ∷ delta_format_version ∷ [])

version-bytes :
    (a b c d : ℕ)
    → All IsByte (a ∷ b ∷ c ∷ d ∷ [])
    → load_u32_be (a ∷ b ∷ c ∷ d ∷ []) ≡ delta_format_version
    → (a ≡ 0) × (b ≡ 0) × (c ≡ 0) × (d ≡ delta_format_version)
unfolding load_u32_be
version-bytes a b c d hb h = omega arith

-- What the three tests of `read_header` leave.
accepts :
    (a b c d e f g h : ℕ) (more rest : Bytes)
    → read_header memory_input (a ∷ b ∷ c ∷ d ∷ e ∷ f ∷ g ∷ h ∷ more) ≡ (ok tt, rest)
    → (a ∷ b ∷ c ∷ d ∷ [] ≡ delta_magic)
      × (more ≡ rest)
      × (load_u32_be (e ∷ f ∷ g ∷ h ∷ []) ≡ delta_format_version)
unfolding read_header
accepts a b c d e f g h more rest accepted = ground (arith, accepted)

-- A header that is accepted, byte by byte.
read_header-bytes :
    (a b c d e f g h : ℕ) (more rest : Bytes)
    → All IsByte (e ∷ f ∷ g ∷ h ∷ [])
    → read_header memory_input (a ∷ b ∷ c ∷ d ∷ e ∷ f ∷ g ∷ h ∷ more) ≡ (ok tt, rest)
    → a ∷ b ∷ c ∷ d ∷ e ∷ f ∷ g ∷ h ∷ more ≡ header ++ rest
unfolding header
read_header-bytes a b c d e f g h more rest hb accepted =
    cc (facts.0, facts.1, version.0, version.1, version.2, version.3)
  where
    facts :
        (a ∷ b ∷ c ∷ d ∷ [] ≡ delta_magic)
        × (more ≡ rest)
        × (load_u32_be (e ∷ f ∷ g ∷ h ∷ []) ≡ delta_format_version)
    facts = accepts a b c d e f g h more rest accepted

    version : (e ≡ 0) × (f ≡ 0) × (g ≡ 0) × (h ≡ delta_format_version)
    version = version-bytes e f g h hb facts.2

read_header-header : (rest : Bytes) → read_header memory_input (header ++ rest) ≡ (ok tt, rest)
unfolding header read_header
read_header-header rest = refl

read_header-starts :
    (bytes rest : Bytes)
    → All IsByte bytes
    → read_header memory_input bytes ≡ (ok tt, rest)
    → bytes ≡ header ++ rest
unfolding read_header
read_header-starts [] rest hb accepted = absurd cc
read_header-starts (a ∷ []) rest hb accepted = absurd cc
read_header-starts (a ∷ b ∷ []) rest hb accepted = absurd cc
read_header-starts (a ∷ b ∷ c ∷ []) rest hb accepted = absurd cc
read_header-starts (a ∷ b ∷ c ∷ d ∷ []) rest hb accepted = absurd cc
read_header-starts (a ∷ b ∷ c ∷ d ∷ e ∷ []) rest hb accepted = absurd cc
read_header-starts (a ∷ b ∷ c ∷ d ∷ e ∷ f ∷ []) rest hb accepted = absurd cc
read_header-starts (a ∷ b ∷ c ∷ d ∷ e ∷ f ∷ g ∷ []) rest hb accepted = absurd cc
read_header-starts (a ∷ b ∷ c ∷ d ∷ e ∷ f ∷ g ∷ h ∷ more) rest hb accepted =
    read_header-bytes a b c d e f g h more rest (omega (arith, hb)) accepted

-- `write_header` onto nothing succeeds and counts 8 bytes; and `read_header` accepts a delta of any bytes, and leaves
-- `rest` of it, exactly where the delta is what was written and then `rest`.
pub read_header-write_header :
    (bytes rest : Bytes)
    → All IsByte bytes
    → (w : Writer memory_output) × (write_header memory_output
          (record { out = []; bytes_written = 0 })
        ≡ (ok tt, w))
      × (w.bytes_written ≡ delta_header_size)
      × ((read_header memory_input bytes ≡ (ok tt, rest)) ↔ (bytes ≡ w.out ++ rest))
unfolding write_header header
read_header-write_header bytes rest hb =
    (_, refl, refl, (read_header-starts bytes rest hb, λ e. rw e (read_header-header rest)))

pub read_trailer_lem :
    (digest : Bytes) (n : ℕ)
    → length digest ≡ n
    → read_trailer memory_input n (delta_trailer_tag ∷ digest) ≡ (ok digest, [])
unfolding read_trailer
read_trailer_lem digest n h = rw (whole) refl
  where
    whole : read_exact memory_input n short_trailer digest ≡ (ok digest, [])
    whole =
        ap (read_exact memory_input n short_trailer) (sym (append-nil digest))
        ∙ read_exact_lem n short_trailer digest [] h
