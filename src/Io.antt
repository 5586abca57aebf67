-- ===== src/Io.antt =====
-- How the components reach files (src/FileIO.hpp), as interfaces: a reader that goes forward, a
-- reader by position, one that does both, and a writer. The components take them as parameters. `Io.Memory` fills them
-- with files in memory that never fail, and `Io.Action` is the monad of a method that may fail.
pub mod Action
pub mod Memory
use roll.Prelude.{ℕ, Bool, Option, List}

-- A byte is a number; where it matters that it is below 256, that is a hypothesis.
abbrev pub Bytes : Type 0
Bytes = List ℕ

-- A `FileIO` read from front to back. `none` is EOF. `left` bounds the bytes that are still to come:
-- no code reads it, the loops of the readers take their fuel from it.
pub record ByteInput : Type 1 where
  pub State : Type 0
  pub read_byte : State → Option ℕ × State
  pub peek_byte : State → Option ℕ × State
  pub read_chunk : ℕ → State → Bytes × State
  pub has_error : State → Bool
  pub left : State → ℕ

-- A `FileIO` read by `read_chunk(chunk_size, position)`; `size` is the snapshot taken by `open`.
pub record FileInput : Type 1 where
  pub State : Type 0
  pub read_chunk_at : ℕ → ℕ → State → Bytes × State
  pub has_error : State → Bool
  pub size : State → ℕ

-- A `FileIO` that is only written to.
pub record ByteOutput : Type 1 where
  pub State : Type 0
  pub write_chunk : Bytes → State → Bool × State

-- A `FileIO` read by position and then forward from there; `size` is the snapshot taken by `open`, and `left` bounds
-- the bytes that are still to come.
pub record SeekInput : Type 1 where
  pub State : Type 0
  pub read_chunk_at : ℕ → ℕ → State → Bytes × State
  pub read_chunk : ℕ → State → Bytes × State
  pub read_byte : State → Option ℕ × State
  pub has_error : State → Bool
  pub size : State → ℕ
  pub left : State → ℕ
