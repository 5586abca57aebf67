-- ===== src/File/Position.antt =====
-- `read_chunk` by position of src/FileIO.cpp.
use roll.Prelude.{
  ℕ, ◌≤◌, ◌≡◌, sym, ap, subst, ◌∙◌, true, false, ◌||◌, [], ltb, if◌then◌else◌, take, drop, arith,
}
use roll.Io.{Bytes}
use roll.File.Reads.{IsBacked, IsWell, pending, Reads, unreadable-IsWell}
use roll.File.{
  Stream, File, streamoff_max, discard_read_buffer, unreadable, read_chunk, read_chunk_at,
}
use roll.File.Chunks.{read_chunk-Reads}

module _ (S : Stream) (laws : IsBacked S) where
  -- On a readable file without an error, with a buffer in its bounds, over a stream that keeps the
  -- laws, and for a position that a stream offset can hold: `read_chunk` by position gives the
  -- bytes of the content from there on, as many as it is asked for or all, and leaves those behind
  -- them, whatever was read before; the file stays so.
  pub read_chunk_at-Reads :
      (chunk_size position : ℕ) (f : File S.State)
      → IsWell S laws f
      → position ≤ streamoff_max
      → Reads S laws f
          (take chunk_size (drop position (laws.content f.stream)))
          (drop chunk_size (drop position (laws.content f.stream)))
          (read_chunk_at S chunk_size position f)
  unfolding read_chunk_at
  read_chunk_at-Reads chunk_size position f w h =
      subst
        (λ b.
          Placed (if b then ([], record (discard_read_buffer f) { io_error = true }) else sought))
        (sym passes)
        (subst
          (λ b. Placed (
            if b
            then ([], record (discard_read_buffer f) { stream = s; io_error = true })
            else read_chunk S chunk_size g))
          (sym (laws.seekg-fail position f.stream w.is_open))
          (record {
            gives = r.gives ∙ ap (take chunk_size) (laws.seekg-rest position f.stream);
            leaves = r.leaves ∙ ap (drop chunk_size) (laws.seekg-rest position f.stream);
            well = r.well;
            content = r.content ∙ laws.seekg-content position f.stream;
          }))
    where
      s : S.State
      s = S.seekg position (S.clear f.stream)

      g : File S.State
      g = record (discard_read_buffer f) { stream = s }

      Placed : Bytes × File S.State → Type 0
      Placed =
          Reads S laws f (take chunk_size (drop position (laws.content f.stream)))
            (drop chunk_size (drop position (laws.content f.stream)))

      sought : Bytes × File S.State
      sought =
          if S.fail s
          then ([], record (discard_read_buffer f) { stream = s; io_error = true })
          else read_chunk S chunk_size g

      passes : (unreadable S f || ltb streamoff_max position) ≡ false
      passes = ground (arith, unreadable-IsWell S laws f w, h)

      well : IsWell S laws g
      well = record {
        is_open = laws.seekg-is_open position f.stream ∙ w.is_open;
        healthy = laws.seekg-error position f.stream w.is_open;
        readable = w.readable;
        no_error = w.no_error;
        ordered = omega arith;
        bounded = omega arith;
      }

      r :
          Reads S laws g
            (take chunk_size (pending S laws g))
            (drop chunk_size (pending S laws g))
            (read_chunk S chunk_size g)
      r = read_chunk-Reads S laws chunk_size g well
