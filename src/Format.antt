-- ===== src/Format.antt =====
-- src/DeltaFormat.hpp: the constants of the wire format and of the chunker.
use roll.Prelude.{ℕ, ◌^◌, List, [], ◌∷◌}

abbrev pub delta_magic : List ℕ
delta_magic = b'R' ∷ b'H' ∷ b'D' ∷ 0 ∷ []

abbrev pub delta_format_version : ℕ
delta_format_version = 5

abbrev pub delta_header_size : ℕ
delta_header_size = 8

abbrev pub delta_trailer_tag : ℕ
delta_trailer_tag = 0xff

abbrev pub delta_digest_bytes : ℕ
delta_digest_bytes = 16

abbrev pub delta_min_chunk_size : ℕ
delta_min_chunk_size = 512

abbrev pub delta_target_chunk_size : ℕ
delta_target_chunk_size = 8192

abbrev pub delta_max_chunk_size : ℕ
delta_max_chunk_size = 16384

abbrev pub delta_boundary_target : ℕ
delta_boundary_target = 0x2aab

-- The enumerators are the tag bytes 0, 1 and 2.
pub data EntryType : Type 0 where
  original_chunk added_chunk modified_chunk : EntryType

abbrev pub tag_of : EntryType → ℕ
tag_of original_chunk = 0
tag_of added_chunk = 1
tag_of modified_chunk = 2

abbrev pub delta_entry_type_limit : ℕ
delta_entry_type_limit = 3

abbrev pub u64_mod : ℕ
u64_mod = 2 ^ 64

abbrev pub u32_mod : ℕ
u32_mod = 2 ^ 32
