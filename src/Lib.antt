-- ===== src/Lib.antt =====
-- Verification of OpenImageDebugger: how a buffer travels from the debugger to the viewer's list and
-- becomes something that the renderer may read, what an agent may ask of the viewer, and the files, icons
-- and options around them.
--
-- The parts and how they interact. The bridge (src/oidbridge/oid_bridge.cpp, loaded into the debugger)
-- composes messages with MessageComposer and reads the viewer's answers. The viewer (IpcClient,
-- src/host/ipc/ipc_client.cpp) drains its transport once a frame: MessageDecoder reads a header and the
-- fields, a handler checks them with src/ipc/raw_data_decode.cpp, assembles buffers that come in strips
-- (BufferAssembler, src/ipc/buffer_assembler.cpp), and stores the record in IpcBufferModel
-- (src/host/ui/ipc_buffer_model.cpp). The renderer checks the record again before it draws
-- (src/visualization/buffer_span_fits.h).
--
-- AgentCore answers the requests of an agent over a view model; StageManager and ThumbnailCache follow the
-- model with what is drawn for each buffer; NpyExport writes a record to a file that NpyDecode reads.
--
-- The files and the code:
--   Ipc/RawDataDecode       src/ipc/raw_data_decode.{h,cpp}: one function each, under its own name
--   Ipc/BufferAssembler     src/ipc/buffer_assembler.{h,cpp}: begin, chunk, end, abort, has_in_progress
--                           over a dictionary; Strips and Delivery are about a whole transfer
--   Ipc/Transport, Words    src/ipc/transport.h, and the object representation of the primitives
--   Ipc/Execution           handlers as functions from a state to an outcome and a state
--   Ipc/MessageExchange     src/ipc/message_exchange.h: push and read, one function for each overload
--   Visualization           src/visualization/buffer_span_fits.h and shader_pixel_layout.h
--   Host/BufferModel        src/host/ui/buffer_model.h, src/host/ipc/buffer_decode.{h,cpp}
--   Host/IpcBufferModel     src/host/ui/ipc_buffer_model.{h,cpp}
--   Host/IpcClient          src/host/ipc/ipc_client.{h,cpp}: state and outbound messages; Handlers and
--                           Poll hold the handlers, the dispatch and the drain loop; Diagnostics what
--                           is written to std::cerr, without its wording
--   Host/Agent/AgentCore    src/host/agent/agent_core.{h,cpp}: SetView checks and applies a view, Handlers has
--                           the requests and their dispatch; Values and ViewModel are what they take
--   Host/NpyDecode          src/host/io/npy_decode.{h,cpp}; Text reads the dictionary of the header
--   Io/NpyExport            src/io/buffer_export_core.cpp: the export to a NumPy file
--   Host/Agent/WireFrame    src/host/agent/wire_frame.{h,cpp}: the frames of the agent's socket
--   Host/Agent/NaturalPixelLayout  src/host/agent/natural_pixel_layout.h: what "all channels" restores
--   Host/UiState            src/host/ui/ui_state.{h,cpp}: the selection, the query and the switches
--   Host/LogPreview         src/host/util/log_preview.h: untrusted text in one line of a log
--   Host/SessionBuffers     src/host/settings/session_buffers.cpp: what to remember for the next session
--   Host/FileOpenQueue      src/host/io/file_open_queue.{h,cpp}: the files that wait to be opened
--   Host/StageManager       src/host/ui/stage_manager.{h,cpp}: the stages of the buffers in the model
--   Host/ThumbnailCache     src/host/ui/thumbnail_cache.{h,cpp}: the icons of the buffers and their textures
--   Host/CliOptions         src/host/cli_options.{h,cpp}: the command line
--   Host/SymbolFilter       src/host/ui/symbol_filter.{h,cpp}: the completions of what was typed
--   Bridge                  src/oidbridge/oid_bridge.cpp: what it composes, and its reading loop
--   Examples                the theorems at a small buffer
--   Prelude                 lists, integers, words and dictionaries over the native numbers
--
-- Bounds and fuel. An int is an integer, within 32 bits where a value was decoded (IsI32); std::size_t
-- has 64 bits and its arithmetic is written modulo 2 ^ 64. The loops on fuel are the decoder's read
-- (fuel: the bytes wanted, since every round but the last reads one) and the two drain loops (fuel: the
-- bytes that have arrived, since every message has a header); the parser of the dimensions of a NumPy
-- header (fuel: one more than the bytes, since every round but the last reads one); and the loop over the
-- files to open (fuel: the paths that wait, since every round takes one).
-- A send to a peer that is gone has no effect but the report that the code makes.
--
-- Parameters. The allocator (Memory), the clock, the JSON library (Json, JsonLibrary), the doubles, the
-- implementation of the agent's view model, the loader of files, the stages, OpenGL,
-- std::ranges::stable_sort, the hardware's conversion of a double to a float,
-- and the bytes on the wire with their segmentation.
--
-- Allocations that can fail are the decoder's resize and the entry of a transfer; any other succeeds.
--
-- Not modelled: sockets, the window and its toolkit, the shaders, the Python interface, the agent's
-- server, the settings store, image formats and the wording of diagnostics. On a 32-bit std::size_t some
-- guards of the decoder differ; the model is of the 64-bit build.
pub mod Bridge
pub mod Examples
pub mod Host
pub mod Io
pub mod Ipc
pub mod Prelude
pub mod Visualization
