-- ===== src/Codec.antt =====
-- src/DeltaCodec.hpp: the wire format.
pub mod Ints
pub mod Varint
pub mod Reader
pub mod Writer
pub mod Layout
pub mod RoundTrip
