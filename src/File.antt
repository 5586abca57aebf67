-- ===== src/File.antt =====
-- src/FileIO.cpp and src/FileIO.hpp: the file with its read-ahead buffer, over a `std::fstream`.
pub mod Reads
pub mod Chunks
pub mod Position
pub mod OneByte
use roll.Prelude.{
  ℕ, zero, suc, ◌+◌, ◌-◌, ◌^◌, min, max, Bool, true, false, not, ◌&&◌, ◌||◌, Option, none, some, [],
  ◌∷◌, ◌++◌, ◌==◌, ltb, if◌then◌else◌, length, get_elem?, take, drop,
}
use roll.Io.{Bytes, ByteInput}

pub data FileMode : Type 0 where
  input output input_output exclusive_output : FileMode

-- A `std::fstream`, and the calls of `std::filesystem` on its path. `read` gives the bytes that `gcount` counts; `seekg` goes
-- to a position and `seekg_back` goes back from where the stream is; `tellp` is `none` where the source sees -1. An
-- exclusive open creates the file, as `std::ios::noreplace` has it.
pub record Stream : Type 1 where
  pub State : Type 0
  pub Location : Type 0
  pub is_open : State → Bool
  pub bad : State → Bool
  pub fail : State → Bool
  pub eof : State → Bool
  pub clear : State → State
  pub read : ℕ → State → Bytes × State
  pub seekg : ℕ → State → State
  pub seekg_back : ℕ → State → State
  pub tellp : State → Option ℕ
  pub write : Bytes → State → State
  pub open_stream : FileMode → Location → State → State
  pub close_stream : State → State
  pub is_regular_file : Location → State → Bool
  pub file_size : Location → State → Option ℕ

abbrev pub read_buffer_size : ℕ
read_buffer_size = 65536

-- The largest `std::streamoff`, and the largest `std::streamsize`.
abbrev pub streamoff_max : ℕ
streamoff_max = 9223372036854775807

-- The members.
pub record File (S : Type 0) : Type 0 where
  pub stream : S
  pub size : ℕ
  pub io_error : Bool
  pub readable : Bool
  pub rbuf : Bytes
  pub rpos : ℕ
  pub rlen : ℕ

abbrev is_readable : FileMode → Bool
is_readable input = true
is_readable output = false
is_readable input_output = true
is_readable exclusive_output = false

abbrev pub discard_read_buffer : {S : Type 0} → File S → File S
discard_read_buffer f = record f { rpos = 0; rlen = 0 }

module _ (S : Stream) where
  open S use {State, Location}

  -- `bad() || (fail() && !eof())`
  abbrev pub stream_error : State → Bool
  stream_error s = S.bad s || S.fail s && not (S.eof s)

  abbrev good : State → Bool
  good s = not (S.bad s || S.fail s || S.eof s)

  abbrev pub unreadable : File State → Bool
  unreadable f = not (S.is_open f.stream) || not f.readable || f.io_error

  -- The size that `open` notes; `none` is an error code.
  with_size : Option ℕ → File State → Bool × File State
  with_size (some bytes) f = (true, record f { size = bytes })
  with_size none f =
      if f.readable
      then (false, record f { stream = S.close_stream f.stream; io_error = true })
      else (true, record f { size = 0 })

  -- `open`
  unfoldable pub open_file : Location → FileMode → File State → Bool × File State
  unfolding with_size
  open_file path mode f =
      let closed = if S.is_open f.stream then S.close_stream f.stream else f.stream in
      let fresh = record (discard_read_buffer f) {
        stream = closed;
        size = 0;
        io_error = false;
        readable = is_readable mode;
      } in
      let opened = S.open_stream mode path (S.clear closed) in
      if is_readable mode && not (S.is_regular_file path closed)
      then (false, record fresh { io_error = true })
      else if not (good opened)
      then (false, record fresh { stream = opened; io_error = true })
      else with_size (S.file_size path opened) (record fresh { stream = opened })

  -- `close`
  unfoldable pub close_file : File State → Bool × File State
  close_file f =
      let closed = S.close_stream (S.clear f.stream) in
      let error = f.io_error || S.fail closed || S.bad f.stream in
      if not (S.is_open f.stream) then (true, discard_read_buffer f) else (
        not error,
        record (discard_read_buffer f) { stream = closed; io_error = error; size = 0 },
      )

  unfoldable pub refill : File State → Bool × File State
  refill f =
      let (got, s) = S.read read_buffer_size f.stream in
      if unreadable f
      then (false, record (discard_read_buffer f) { io_error = true })
      else if length got == 0
      then (false, record (discard_read_buffer f) { stream = s; io_error = stream_error s })
      else (
        true,
        record f {
          stream = s;
          io_error = stream_error s;
          rbuf = got ++ drop (length got) f.rbuf;
          rpos = 0;
          rlen = length got;
        },
      )

  -- The buffer with a byte in it, if there is one to come.
  unfoldable pub filled : File State → Bool × File State
  filled f = if f.rpos == f.rlen then refill f else (true, f)

  unfoldable pub read_byte : File State → Option ℕ × File State
  read_byte f =
      let (there, g) = filled f in
      if there then (get_elem? g.rbuf g.rpos, record g { rpos = g.rpos + 1 }) else (none, g)

  unfoldable pub peek_byte : File State → Option ℕ × File State
  peek_byte f =
      let (there, g) = filled f in if there then (get_elem? g.rbuf g.rpos, g) else (none, g)

  -- Up to `step` bytes: those in the buffer, then those of the stream.
  unfoldable pub read_step : ℕ → File State → Bytes × File State
  read_step step f =
      let buffered = min step (f.rlen - f.rpos) in
      let head = take buffered (drop f.rpos f.rbuf) in
      let taken = record f { rpos = f.rpos + buffered } in
      let (got, s) = S.read (step - buffered) f.stream in
      if ltb buffered step
      then (head ++ got, record taken { stream = s; io_error = stream_error s })
      else (head, taken)

  -- The loop of `read_chunk`; each round that does not end it adds a byte to `vec`.
  unfoldable pub chunk_loop : ℕ → ℕ → Bytes → File State → Bytes × File State
  chunk_loop zero chunk_size vec f = (vec, f)
  chunk_loop (suc fuel) chunk_size vec f =
      let step = min (chunk_size - length vec) read_buffer_size in
      let (got, g) = read_step step f in
      let rest = chunk_loop fuel chunk_size (vec ++ got) g in
      if not (ltb (length vec) chunk_size)
      then (vec, f)
      else if ltb (length got) step || g.io_error
      then (vec ++ got, g)
      else rest

  unfoldable pub read_chunk : ℕ → File State → Bytes × File State
  unfolding chunk_loop
  read_chunk chunk_size f =
      if chunk_size == 0
      then ([], f)
      else if unreadable f
      then ([], record f { io_error = true })
      else chunk_loop (suc chunk_size) chunk_size [] f

  unfoldable pub read_chunk_at : ℕ → ℕ → File State → Bytes × File State
  unfolding read_chunk
  read_chunk_at chunk_size position f =
      let s = S.seekg position (S.clear f.stream) in
      let g = discard_read_buffer f in
      if unreadable f || ltb streamoff_max position
      then ([], record g { io_error = true })
      else if S.fail s
      then ([], record g { stream = s; io_error = true })
      else read_chunk chunk_size (record g { stream = s })

  unfoldable pub unread_buffer : File State → File State
  unread_buffer f =
      let buffered = f.rlen - f.rpos in
      let s = S.seekg_back buffered (S.clear f.stream) in
      if ltb 0 buffered
      then record (discard_read_buffer f) { stream = s; io_error = f.io_error || S.fail s }
      else discard_read_buffer f

  -- The size after `count` bytes were written.
  resized : ℕ → Option ℕ → File State → Bool × File State
  resized count position f =
      if not f.readable then (true, record f { size = f.size + count }) else elim position [
        | none ↦ (false, record f { io_error = true })
        | some pos ↦ (true, record f { size = max f.size pos })
      ]

  unfoldable pub write_chunk : Bytes → File State → Bool × File State
  unfolding unread_buffer resized
  write_chunk chunk f =
      let g = unread_buffer f in
      let s = S.write chunk g.stream in
      if f.io_error
      then (false, f)
      else if g.io_error || ltb streamoff_max (length chunk)
      then (false, record g { io_error = true })
      else if not (good s)
      then (false, record g { stream = s; io_error = true })
      else resized (length chunk) (S.tellp s) (record g { stream = s; io_error = false })

  unfoldable pub write_byte : ℕ → File State → Bool × File State
  write_byte byte = write_chunk (byte ∷ [])
