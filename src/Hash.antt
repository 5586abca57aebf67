-- ===== src/Hash.antt =====
-- The strong hash of src/HashConcepts.hpp, a parameter of the model: the tool uses BLAKE2b of
-- OpenSSL behind src/blake2b.cpp.
use roll.Prelude.{
  ℕ, ◌≤◌, ◌≡◌, Bool, [], ◌++◌, length, take, ltb, ◌==◌, ◌&&◌, if◌then◌else◌, same_bytes,
}
use roll.Format.{delta_digest_bytes}
use roll.Io.{Bytes}

-- `StrongHashAlgorithm`: the streaming form and the one-shot form.
pub record StrongHash : Type 1 where
  pub State : Type 0
  pub hash_size : ℕ
  pub init : State
  pub update : Bytes → State → State
  pub finalize : State → Bytes
  pub hash : Bytes → Bytes

-- `hash_oneshot`, for a destination of `room` bytes: nothing is written to one that is too small.
unfoldable pub hash_oneshot : StrongHash → ℕ → Bytes → Bytes
hash_oneshot U room input = if ltb room U.hash_size then [] else U.finalize (U.update input U.init)

-- What the callers rely on: hashing in pieces is hashing the whole, both forms agree, and a digest
-- has the size that the algorithm states, 16 bytes at least.
pub record IsStrongHash (U : StrongHash) : Type 0 where
  pub update-update : (a b : Bytes) (s : U.State) → U.update b (U.update a s) ≡ U.update (a ++ b) s
  pub update-nil : (s : U.State) → U.update [] s ≡ s
  pub hash_lem : (a : Bytes) → U.hash a ≡ U.finalize (U.update a U.init)
  pub length-finalize : (s : U.State) → length (U.finalize s) ≡ U.hash_size
  pub enough : delta_digest_bytes ≤ U.hash_size

-- The identity of a chunk: the first 16 bytes of its hash.
abbrev pub chunk_digest : StrongHash → Bytes → Bytes
chunk_digest U bytes = take delta_digest_bytes (U.hash bytes)

-- `SignedChunk` of src/Signature.hpp.
pub record SignedChunk : Type 0 where
  pub signature : ℕ
  pub hash : Bytes
  pub start_offset : ℕ
  pub chunk_size : ℕ

-- Its `operator==`: the digest and the length.
unfoldable pub same_chunk : SignedChunk → SignedChunk → Bool
same_chunk a b = same_bytes a.hash b.hash && a.chunk_size == b.chunk_size
