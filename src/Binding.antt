-- ===== src/Binding.antt =====
-- armv2.pyx: the processor as Python sees it. The core's functions and the devices' callbacks are
-- arguments.
pub mod Words
pub mod Bytes
pub mod Maps
pub mod Registers
pub mod Ram
pub mod ReadBack
pub mod Slices
pub mod Libraries
pub mod Mapped
mod Tests
