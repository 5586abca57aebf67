-- ===== src/Tests/Files.antt =====
-- The reads of src/FileIO.cpp on a stream in memory.
use roll.Prelude.{
  ℕ, ◌-◌, ◌≡◌, refl, Bool, true, false, not, ◌&&◌, ◌||◌, some, [], ◌∷◌, ◌++◌, ltb, length, take,
  drop, arith,
}
use roll.Io.{Bytes}
use roll.File.{Stream, File, read_chunk, read_chunk_at, read_byte, peek_byte}
use roll.File.Reads.{IsBacked, IsWell, Reads}
use roll.File.Chunks.{read_chunk-Reads}
use roll.File.Position.{read_chunk_at-Reads}
use roll.File.OneByte.{read_byte-Reads, peek_byte-Reads}

-- A content, what is left of it, and whether a read met its end.
record Tape : Type 0 where
  content : Bytes
  rest : Bytes
  running : Bool
  ended : Bool

abbrev tape_read : ℕ → Tape → Bytes × Tape
tape_read n s = (take n s.rest, record s { rest = drop n s.rest; ended = ltb (length s.rest) n })

abbrev tape_position : Tape → ℕ
tape_position s = length s.content - length s.rest

abbrev tape_write : Bytes → Tape → Tape
tape_write bytes s = record s {
  content = take (tape_position s) s.content ++ (bytes ++ drop (length bytes) s.rest);
  rest = drop (length bytes) s.rest;
}

abbrev tape : Stream
tape = record {
  State = Tape;
  Location = Unit {0};
  is_open = λ s. s.running;
  bad = λ s. false;
  fail = λ s. s.ended;
  eof = λ s. s.ended;
  clear = λ s. record s { ended = false };
  read = tape_read;
  seekg = λ p s. record s { rest = drop p s.content };
  seekg_back = λ n s. record s { rest = drop (tape_position s - n) s.content };
  tellp = λ s. some (tape_position s);
  write = tape_write;
  open_stream = λ mode path s. record s { running = true; rest = s.content };
  close_stream = λ s. record s { running = false };
  is_regular_file = λ path s. true;
  file_size = λ path s. some (length s.content);
}

never : (b : Bool) → (false || b && not b) ≡ false
never b = ground arith

abbrev tape_laws : IsBacked tape
tape_laws = record {
  content = λ s. s.content;
  rest = λ s. s.rest;
  read-gives = λ n s. refl;
  read-rest = λ n s. refl;
  read-content = λ n s. refl;
  read-is_open = λ n s. refl;
  read-error = λ n s h. never (ltb (length s.rest) n);
  seekg-rest = λ p s. refl;
  seekg-content = λ p s. refl;
  seekg-is_open = λ p s. refl;
  seekg-fail = λ p s h. refl;
  seekg-error = λ p s h. refl;
}

-- Two bytes are in the buffer, behind one that was read; two more are on the tape.
abbrev file : File Tape
file = record {
  stream = record {
    content = 1 ∷ 2 ∷ 3 ∷ 4 ∷ 5 ∷ [];
    rest = 4 ∷ 5 ∷ [];
    running = true;
    ended = false;
  };
  size = 5;
  io_error = false;
  readable = true;
  rbuf = 1 ∷ 2 ∷ 3 ∷ 9 ∷ [];
  rpos = 1;
  rlen = 3;
}

file-IsWell : IsWell tape tape_laws file
file-IsWell = record {
  is_open = refl;
  healthy = refl;
  readable = refl;
  no_error = refl;
  ordered = omega arith;
  bounded = omega arith;
}

read_chunk-Reads_example :
    Reads tape tape_laws file (2 ∷ 3 ∷ 4 ∷ []) (5 ∷ []) (read_chunk tape 3 file)
read_chunk-Reads_example = read_chunk-Reads tape tape_laws 3 file file-IsWell

read_chunk_at-Reads_example :
    Reads tape tape_laws file (1 ∷ 2 ∷ []) (3 ∷ 4 ∷ 5 ∷ []) (read_chunk_at tape 2 0 file)
read_chunk_at-Reads_example = read_chunk_at-Reads tape tape_laws 2 0 file file-IsWell (omega arith)

read_byte-Reads_example : Reads tape tape_laws file (some 2) (3 ∷ 4 ∷ 5 ∷ []) (read_byte tape file)
read_byte-Reads_example = read_byte-Reads tape tape_laws file file-IsWell

peek_byte-Reads_example :
    Reads tape tape_laws file (some 2) (2 ∷ 3 ∷ 4 ∷ 5 ∷ []) (peek_byte tape file)
peek_byte-Reads_example = peek_byte-Reads tape tape_laws file file-IsWell
