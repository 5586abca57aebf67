-- ===== src/Codec/RoundTrip.antt =====
-- The reader reads back what the writer wrote.
pub mod Varint
pub mod Records
pub mod Written
