-- ===== src/Diff.antt =====
-- The diff of src/Delta.hpp: opcodes from an edit script or from the greedy comparison, and what
-- makes an opcode run rebuild the new chunk.
pub mod Emit
pub mod Greedy
pub mod Rebuild
pub mod Wire
pub mod Segment
