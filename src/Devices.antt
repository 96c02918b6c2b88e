-- ===== src/Devices.antt =====
-- hardware.py: the devices that the emulated processor reads and writes.
pub mod Display
pub mod TapeDrive
pub mod Keyboard
mod Tests
mod DriveTests
mod FrameTests
mod KeyTests
