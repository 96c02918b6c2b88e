-- ===== src/Linker.antt =====
-- create.py: linking a program for the machine and writing it as a block of a tape.
pub mod Relocation
pub mod Names
pub mod Image
mod Tests
