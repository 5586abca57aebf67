-- ===== src/Lib.antt =====
-- A model of roll, a tool that makes and applies binary deltas with rolling hashes.
--
-- The program. A signature cuts a file into chunks where a rolling fingerprint meets a boundary
-- condition, and gives each chunk a digest of a strong hash. The generator compares the chunks of
-- the new file to those of the old one and writes a delta: a header, one record for each chunk of
-- the new file, and a trailer with the hash of the whole new file. A record names an old chunk
-- (ORIGINAL), carries the bytes (ADDED), or names an old chunk and carries the opcodes of a diff
-- (MODIFIED). The applier reads the delta against the old file and its signature, and writes the
-- new file.
--
-- The files of the model, and what they model (paths from the repository's root):
--   Format         src/DeltaFormat.hpp: the constants and the entry types.
--   Error          src/DeltaError.hpp: the codes, the errors, the statistics.
--   Io             src/FileIO.hpp as the other parts use it: interfaces for a file that is read
--                  forward, by position, or written. `Io.Memory` fills them with byte lists.
--   Codec          src/DeltaCodec.hpp: Ints (`push_u32_be`, `load_u32_be`), Varint
--                  (`push_varint`, `varint_size`), Writer (`DeltaWriter`), Reader (`DeltaReader`).
--                  Layout gives the bytes of each record; RoundTrip reads them back.
--   Hash           src/HashConcepts.hpp and `SignedChunk` of src/Signature.hpp. The strong hash
--                  is a parameter (`StrongHash`), with the laws that the callers rely on
--                  (`IsStrongHash`); the tool's own is BLAKE2b of OpenSSL.
--   Diff           src/Delta.hpp: Emit (`emitOpcodesFromSES`, `emitBlock`, `emitInlineBytes`) and
--                  Greedy (`createGreedyDiff`). Rebuild says what opcodes mean, Wire how they are
--                  written, and Segment how parts of a diff compose.
--   Rolling        src/RK_finger.hpp: the fingerprint. Reduce is about its remainders, Roll and
--                  Window about one step, Stream about a whole run.
--   Signature      src/Signature.hpp: `generate_signatures` on an open file. Tiles says
--                  when chunks make up a file, Rounds and Loop are about the rounds, and Covers about
--                  the whole.
--   Generate       src/Delta.hpp and src/ChunkIndex.hpp: Index (`ChunkIndex`) and Checks
--                  (`coversExactly`, `readSignedChunk`, `verifyOldFile`, the digest of
--                  `writeTrailer`). Index.Finds is about `find_unused`, Checks.Covers about the others.
--   Apply          src/Apply.hpp: Patch (`applyDiff`) and Entries (`apply_delta_impl`,
--                  `verifyDigest`). Complete and Stream follow a good delta, Limit and Ends any bytes;
--                  Untouched is about the steps that append nothing.
--   Main           src/main.cpp: `parse_size` (Size) and `exit_status_for`.
--   File           src/FileIO.hpp and src/FileIO.cpp: `FileIO` with its read-ahead buffer, over a
--                  `std::fstream` (`Stream`). Reads, Chunks and Position are about
--                  `read_chunk`, OneByte about `read_byte` and `peek_byte`.
--   Os             the calls of the operating system and of `std::filesystem` that the transaction
--                  makes, a parameter (`FileSystem`) with the laws that it relies on
--                  (`IsFileSystem`). `Os.Memory` fills them with files in memory.
--   Output         src/OutputTransaction.cpp: `OutputTransaction`. Keeps says what the calls that
--                  change no file leave alone, Staged and Opens are about `open`, Commits about
--                  `commit`, and Lifecycle treats the whole life as a state machine.
--   View           src/DeltaViewer.cpp: `view_delta` and what it prints. Follows, Entries,
--                  Counts and Agrees compare it with Apply step by step; Ends is about its loops.
--   Tests          runs on concrete inputs.
--
-- How the code corresponds. A method that may fail is an `Action`: it takes a state and returns a
-- result or an error, and the next state. A position in a buffer is the list of what is behind it.
-- Bytes and machine integers are natural numbers, with the wrap-around of the source written out
-- as `% u32_mod` or `% u64_mod`; in the records of the reader and in the diff the bounds are
-- hypotheses. Errors keep their code, and a value in place of their text.
--
-- The transaction is a step on a `World`: the system, the 16 slots and the counter of the process,
-- and the members. `staged_paths` is a list whose free slots are `none`; an empty path is `none`. Of
-- the member `file_` the model has the path that it is open on; its stream and its error flag are a
-- part of the system. A path is a name in a directory: the laws of the system take two paths that
-- are not equal for two files. The name of the staged file is built as `open` builds it, so a
-- destination of such a name where nothing stands is left out of the results by a hypothesis. It is
-- the POSIX variant, with an exclusive open that creates the file or changes nothing, and a write
-- through `FileIO` is one call. The viewer's reader and the applier's are the same code, so both
-- models call Codec.Reader; the viewer sets it to the 64 bytes of the shipped hash.
--
-- Fuel. `push_varint` and `varint_size` divide their value by 128 in each round, so as many rounds
-- as the value are enough. The loops of the applier, of the viewer and of Signature take a byte or
-- more in each round, so one round more than the bytes that are left is enough;
-- `Codec.Reader.Forward`, `Apply.Patch.Ends`, `Apply.Entries.Ends`, `View.Ends` and
-- `Signature.Loop` are about this. The loops of the diffs take as many rounds as the bytes or the
-- script entries are. The loop of `read_chunk` adds a byte in each round that does not end it, so it
-- takes one round more than the bytes that are asked for (`File.Chunks`). `bit_width` takes 64
-- rounds, one for each bit. `open` makes 32 attempts, as in the source.
--
-- Not modelled: the Myers search for an edit script (the opcodes are shown right for every script),
-- moves of a FileIO, the Windows variants, exceptions, BLAKE2b itself, the text of messages, signal
-- handlers but for what they remove, and the dispatch on the command line. The interfaces of Io are
-- filled by memory and not yet by File.
pub mod Prelude
pub mod Io
pub mod Format
pub mod Codec
pub mod Error
pub mod Diff
pub mod Hash
pub mod Apply
pub mod Rolling
pub mod Generate
pub mod Signature
pub mod Main
pub mod File
pub mod Os
pub mod Output
pub mod View
pub mod Tests
