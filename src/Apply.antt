-- ===== src/Apply.antt =====
-- src/Apply.hpp: applying a delta to an old file.
pub mod Patch
pub mod Entries
