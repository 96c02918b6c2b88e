-- ===== src/Disassembler.antt =====
-- disassemble.py: the words of the processor as lines of assembler text.
pub mod Fields
pub mod Operands
pub mod Instructions
pub mod Transfers
pub mod Branches
pub mod Factory
pub mod Memory
pub mod Rotation
pub mod Registers
pub mod Calls
pub mod Classes
mod Tests
