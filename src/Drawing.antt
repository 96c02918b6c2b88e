-- ===== src/Drawing.antt =====
-- drawing/quads.py and drawing/opengl.py: the buffers that hand out shapes and screens.
pub mod Shapes
pub mod Quads
pub mod Screens
mod QuadTests
mod Tests
