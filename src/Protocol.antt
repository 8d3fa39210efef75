-- ===== src/Protocol.antt =====
-- skeleton/protocol.h: the messages of both channels as bytes, and the packet checksum.
pub mod Checksum
pub mod Udp
pub mod Tcp
mod Tests
