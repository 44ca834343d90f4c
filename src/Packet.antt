-- ===== src/Packet.antt =====
-- modules/transport/Packet.h and Packet.cpp: the wire protocol.
pub mod Types
pub mod Codec
pub mod Nack
pub mod NackBounds
pub mod HeaderRound
pub mod Seq
mod Tests
mod NackTests
