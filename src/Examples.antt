-- ===== src/Examples.antt =====
-- A small process and a small buffer, and the theorems of the library at them.
pub mod Viewing
pub mod Agent
pub mod Files
pub mod Assembler
pub mod Sizes
pub mod Messages
pub mod Model
pub mod Client
pub mod Thumbnails
pub mod CommandLine
pub mod Sorting
pub mod Viewer
pub mod Restoring
use open_image_debugger.Prelude.{
  ℕ, zero, suc, ◌≤◌, ◌<◌, ◌≡◌, refl, Bool, true, false, none, some, List, [], ◌∷◌, ℤ, pos, IsI32,
  length, leb, ltb, codes, Str, arith, pos_part, mul64,
}
use open_image_debugger.Ipc.RawDataDecode.{
  BufferType, unsigned_byte, Narrowing, buffer_type, is_known_buffer_type, exceeds_max_buffer_bytes,
  within_display_limits, padded_payload_size, not_renderable, multiply_checked, type_size,
  geometry_fits_payload,
}
use open_image_debugger.Ipc.BufferAssembler.{BeginParams, BufferAssembler, accepts}
use open_image_debugger.Ipc.BufferAssembler.Delivery.{covered}
use open_image_debugger.Ipc.MessageExchange.{Memory}
use open_image_debugger.Host.BufferModel.{BufferRecordParams}
use open_image_debugger.Host.IpcBufferModel.{IpcBufferModel, init}
use open_image_debugger.Host.IpcClient.{IpcClient, Environment, PreviousBuffer}

abbrev pub memory : Memory
memory = record { allocates = λ n. ltb n 1000; max_size = 1000 }

abbrev pub narrowing : Narrowing
narrowing = record { to_float = λ b. 0 ∷ 0 ∷ 128 ∷ 63 ∷ []; length-to_float = λ b. refl }

abbrev pub environment : Environment
environment = record { memory = memory; narrowing = narrowing; now = pos 100 }

-- Two rows of two pixels, each row padded to three.
abbrev pub image : BeginParams
image = record {
  variable_name = codes "img";
  display_name = codes "img";
  pixel_layout = codes "rgba";
  transpose = false;
  width = pos 2;
  height = pos 2;
  channels = pos 1;
  stride = pos 3;
  type = pos 0;
  total_byte_size = 6;
}

abbrev pub payload : List ℕ
payload = 1 ∷ 2 ∷ 0 ∷ 3 ∷ 4 ∷ 0 ∷ []

-- The last row first.
abbrev pub strips : List (ℕ × ℕ)
strips = (1, 1) ∷ (0, 1) ∷ []

pub image_accepted : accepts image ≡ true
unfolding accepts is_known_buffer_type buffer_type exceeds_max_buffer_bytes within_display_limits
    padded_payload_size not_renderable multiply_checked type_size mul64
image_accepted = refl

pub image_stride : IsI32 image.stride
image_stride = omega arith

pub every_row : (i : ℕ) → i < pos_part image.height → covered strips i ≡ true
unfolding covered
every_row i h = ground arith

-- The same buffer in one message.
abbrev pub contents : BufferRecordParams
contents = record {
  variable_name = codes "img";
  display_name = codes "img";
  pixel_layout = codes "rgba";
  transpose = false;
  width = pos 2;
  height = pos 2;
  channels = pos 1;
  stride = pos 3;
  type = unsigned_byte;
  bytes = payload;
}

abbrev pub client : IpcClient
client = record {
  wire = [];
  sent = [];
  connected = true;
  model = init;
  assembler = [];
  available_symbols = [];
  restore_buffers = record { variable_name = codes "img"; expiry_epoch_s = pos 200 } ∷ [];
  restore_requested = [];
  session_states = some [];
  exports_requested = none;
  log = [];
}
