-- ===== src/Tapes.antt =====
-- create.py and tapes.py: the blocks of a tape, from the file that a build writes to the bytes that
-- the drive is given.
pub mod Format
pub mod Blocks
pub mod Player
pub mod Samples
pub mod Recorder
mod Tests
mod PlayTests
