-- ===== src/Ipc.antt =====
-- The wire protocol between the debugger bridge and the viewer: src/ipc.
pub mod RawDataDecode
pub mod BufferAssembler
pub mod Execution
pub mod Transport
pub mod Words
pub mod MessageExchange
