-- ===== src/Host.antt =====
-- The viewer's host: src/host.
pub mod BufferModel
pub mod IpcBufferModel
pub mod IpcClient
pub mod LogPreview
pub mod SessionBuffers
pub mod FileOpenQueue
pub mod SymbolFilter
pub mod Agent
pub mod UiState
pub mod NpyDecode
pub mod CliOptions
pub mod StageManager
pub mod ThumbnailCache
