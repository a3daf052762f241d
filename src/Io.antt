-- ===== src/Io.antt =====
-- The exporters: src/io.
pub mod NpyExport
