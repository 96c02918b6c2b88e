-- ===== src/Gdb.antt =====
-- comms/gdb.py: gdb's remote serial protocol.
pub mod Hex
pub mod Packet
pub mod Reader
pub mod Request
pub mod Session
pub mod Reply
mod Tests
