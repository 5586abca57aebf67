-- ===== src/Generate/Index.antt =====
-- `ChunkIndex` of src/ChunkIndex.hpp: the positions of each content, and how many are consumed.
pub mod Finds
use roll.Prelude.{
  ℕ, zero, suc, ◌+◌, Bool, false, Option, none, List, [], ◌∷◌, ◌++◌, if◌then◌else◌, drop, get_elem?,
}
use roll.Hash.{SignedChunk, same_chunk}

-- A bucket, with the chunk that is its key in the table.
pub record Bucket : Type 0 where
  pub key : SignedChunk
  pub positions : List ℕ
  pub cursor : ℕ

-- `buckets_[chunk].positions.push_back(i)`
unfoldable pub add_position : SignedChunk → ℕ → List Bucket → List Bucket
add_position chunk i [] = record { key = chunk; positions = i ∷ []; cursor = 0 } ∷ []
add_position chunk i (b ∷ buckets) =
    let rest = add_position chunk i buckets in
    if same_chunk b.key chunk
    then record b { positions = b.positions ++ (i ∷ []) } ∷ buckets
    else b ∷ rest

unfoldable pub index_loop : ℕ → List SignedChunk → List Bucket → List Bucket
index_loop i [] buckets = buckets
index_loop i (c ∷ chunks) buckets = index_loop (i + 1) chunks (add_position c i buckets)

-- The constructor.
unfoldable pub chunk_index : List SignedChunk → List Bucket
chunk_index chunks = index_loop 0 chunks []

-- `used[i]`, for an index inside.
abbrev pub flag_of : List Bool → ℕ → Bool
flag_of [] i = false
flag_of (b ∷ flags) zero = b
flag_of (b ∷ flags) (suc i) = flag_of flags i

-- The cursor passes the positions that are used; the list is what is behind it.
unfoldable pub skip_used : List Bool → List ℕ → ℕ → ℕ
skip_used used [] cursor = cursor
skip_used used (p ∷ positions) cursor =
    let rest = skip_used used positions (cursor + 1) in if flag_of used p then rest else cursor

-- The position, if there is one, and the buckets with the cursor moved on.
unfoldable pub find_unused : List Bool → SignedChunk → List Bucket → Option ℕ × List Bucket
find_unused used probe [] = (none, [])
find_unused used probe (b ∷ buckets) =
    let cursor = skip_used used (drop b.cursor b.positions) b.cursor in
    let (found, rest) = find_unused used probe buckets in
    if same_chunk b.key probe
    then (get_elem? b.positions cursor, record b { cursor = cursor } ∷ buckets)
    else (found, b ∷ rest)
