-- ===== src/Generate.antt =====
-- Parts of the generator of src/Delta.hpp and src/ChunkIndex.hpp.
pub mod Index
pub mod Checks
