-- ===== src/Io/Memory.antt =====
-- Files in memory, which never fail.
use roll.Prelude.{ℕ, false, true, Option, none, some, [], ◌∷◌, ◌++◌, length, take, drop}
use roll.Io.{Bytes, ByteInput, FileInput, ByteOutput, SeekInput}

abbrev pub next_byte : Bytes → Option ℕ × Bytes
next_byte [] = (none, [])
next_byte (b ∷ rest) = (some b, rest)

abbrev pub first_byte : Bytes → Option ℕ
first_byte [] = none
first_byte (b ∷ rest) = some b

-- The state is what has not been read.
abbrev pub memory_input : ByteInput
memory_input = record {
  State = Bytes;
  read_byte = next_byte;
  peek_byte = λ s. (first_byte s, s);
  read_chunk = λ n s. (take n s, drop n s);
  has_error = λ s. false;
  left = length;
}

-- The state is the content.
abbrev pub memory_file : FileInput
memory_file = record {
  State = Bytes;
  read_chunk_at = λ n p s. (take n (drop p s), s);
  has_error = λ s. false;
  size = length;
}

-- The state is what has been written.
abbrev pub memory_output : ByteOutput
memory_output = record { State = Bytes; write_chunk = λ bytes s. (true, s ++ bytes) }

-- The state is the content, and what of it has not been read.
abbrev pub memory_seek : SeekInput
memory_seek = record {
  State = Bytes × Bytes;
  read_chunk_at = λ n p s. (take n (drop p s.0), (s.0, drop n (drop p s.0)));
  read_chunk = λ n s. (take n s.1, (s.0, drop n s.1));
  read_byte = λ s. (first_byte s.1, (s.0, drop 1 s.1));
  has_error = λ s. false;
  size = λ s. length s.0;
  left = λ s. length s.1;
}
