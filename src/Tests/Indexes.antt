-- ===== src/Tests/Indexes.antt =====
-- The index of src/ChunkIndex.hpp over two equal chunks, of which the first is used.
use roll.Prelude.{true, false, List, [], ◌∷◌}
use roll.Hash.{SignedChunk}
use roll.Generate.Index.{chunk_index, find_unused}
use roll.Generate.Index.Finds.{IsIndex, Answers, chunk_index-IsIndex, find_unused-IsIndex}
use roll.Tests.{old_chunk}

abbrev two : List SignedChunk
two = old_chunk ∷ old_chunk ∷ []

find_unused-IsIndex_example :
    Answers two
      (true ∷ false ∷ [])
      old_chunk
      (find_unused (true ∷ false ∷ []) old_chunk (chunk_index two)).0
    × IsIndex two (find_unused (true ∷ false ∷ []) old_chunk (chunk_index two)).1
find_unused-IsIndex_example =
    find_unused-IsIndex two (true ∷ false ∷ []) old_chunk (chunk_index two)
      (chunk_index-IsIndex two)
