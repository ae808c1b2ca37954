-- ===== src/Wire.antt =====
-- shared/packet_helper.c: byte order, sending and receiving of whole packets.
pub mod Order
pub mod Swap
pub mod Abi
pub mod Codec
pub mod Fields
pub mod Host
pub mod Send
pub mod Receive
pub mod Stream
pub mod Tests
