-- ===== src/Machine.antt =====
-- hardware.py, class Machine: the thread that steps the processor, and the calls of other threads.
pub mod Thread
mod Tests
