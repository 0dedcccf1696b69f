-- ===== src/Pack.antt =====
-- src/pack.c: the byte codec. `Word` has the fixed-width integers, `Format` the format characters and
-- the crypto interface, `Encode` is `trip_pack` and `trip_pack_len`, `Decode` is `trip_unpack`. `Varint`, `Swap`,
-- `Fields` and `Taken` are on single fields, `RoundTrip` and `Length` on whole packets of plain fields.
pub mod Word
pub mod Format
pub mod Encode
pub mod Decode
pub mod Varint
pub mod Swap
pub mod Fields
pub mod Taken
pub mod RoundTrip
pub mod Length
pub mod Tests
