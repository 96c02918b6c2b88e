-- ===== src/Custom.antt =====
-- comms/custom.py: the emulator's own debugger protocol.
pub mod Message
pub mod Factory
pub mod Symbols
pub mod Framing
mod Tests
