-- ===== src/Wire.antt =====
-- udp_common/udp_wire.h: the codec of the datagrams.
pub mod ByteOrder
pub mod Bytes
pub mod Datagram
pub mod Format
pub mod Message
pub mod RoundTrip
pub mod Sentinel
pub mod Transfer
pub mod Lengths
pub mod Decoding
pub mod Short
