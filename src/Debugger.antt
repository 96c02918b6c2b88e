-- ===== src/Debugger.antt =====
-- debugger.py: the debugger behind the gdb protocol.
pub mod Files
pub mod Handlers
pub mod Symbols
pub mod Breakpoints
mod HandlerTests
mod Tests
