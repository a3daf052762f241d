-- ===== src/Visualization.antt =====
-- The parts of src/visualization that do not touch OpenGL.
pub mod BufferSpanFits
pub mod ShaderPixelLayout
