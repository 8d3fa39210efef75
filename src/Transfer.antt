-- ===== src/Transfer.antt =====
-- skeleton/selective_repeat.c: the selective repeat transfer, from packets to whole sessions.
pub mod Packet
pub mod Window
pub mod Sender
pub mod Receiver
pub mod Session
mod Tests
