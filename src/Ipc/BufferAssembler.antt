-- ===== src/Ipc/BufferAssembler.antt =====
-- src/ipc/buffer_assembler.h and buffer_assembler.cpp: reassembly of a buffer from row strips.
-- `allocates n` says whether the allocation of `n` bytes succeeds; where it does not, `begin`
-- throws `std::bad_alloc` from the point of the allocation.
pub mod Invariant
pub mod Strips
pub mod Delivery
use open_image_debugger.Prelude.{
  ℕ, ◌/◌, ◌≡◌, Bool, true, false, not, ◌&&◌, ◌||◌, Option, none, some, List, ltb, ◌==◌,
  if◌then◌else◌, ℤ, to_u64, length, replicate, write_at, all_true, Str, Dict, find, erase, assign,
  add64, sub64, mul64,
}
use open_image_debugger.Ipc.RawDataDecode.{
  buffer_type, is_known_buffer_type, exceeds_max_buffer_bytes, within_display_limits,
  padded_payload_size,
}

pub record BeginParams : Type 0 where
  pub variable_name : Str
  pub display_name : Str
  pub pixel_layout : Str
  pub transpose : Bool
  pub width : ℤ
  pub height : ℤ
  pub channels : ℤ
  pub stride : ℤ
  pub type : ℤ
  pub total_byte_size : ℕ

pub record AssembledBuffer : Type 0 where
  pub variable_name : Str
  pub display_name : Str
  pub pixel_layout : Str
  pub transpose : Bool
  pub width : ℤ
  pub height : ℤ
  pub channels : ℤ
  pub stride : ℤ
  pub type : ℤ
  pub bytes : List ℕ

pub record InProgress : Type 0 where
  pub params : BeginParams
  pub bytes : List ℕ
  pub rows_received : List Bool

abbrev pub BufferAssembler : Type 0
BufferAssembler = Dict InProgress

pub data BeginResult : Type 0 where
  started refused out_of_memory : BeginResult

-- The declared total is exactly the padded size.
abbrev pub is_size : Option ℕ → ℕ → Bool
is_size none total = false
is_size (some required) total = required == total

-- The guards of `begin`, in its order.
unfoldable pub accepts : BeginParams → Bool
accepts p =
    is_known_buffer_type (buffer_type p.type)
    && not (exceeds_max_buffer_bytes p.total_byte_size)
    && within_display_limits p.width p.height p.channels
    && is_size (padded_payload_size p.width p.height p.channels p.stride (buffer_type p.type))
        p.total_byte_size

unfoldable pub fresh_entry : BeginParams → InProgress
fresh_entry p = record {
  params = p;
  bytes = replicate p.total_byte_size 0;
  rows_received = replicate (to_u64 p.height) false;
}

unfoldable pub begin :
    (allocates : ℕ → Bool) → BufferAssembler → BeginParams → BufferAssembler × BeginResult
begin allocates a p =
    if not (accepts p)
    then (erase p.variable_name a, refused)
    else if allocates p.total_byte_size
    then (assign p.variable_name (fresh_entry p) a, started)
    else (a, out_of_memory)

-- The part of `chunk` after the lookup; `none` is `return false`.
unfoldable pub write_strip : InProgress → (row_offset row_count : ℕ) → List ℕ → Option InProgress
write_strip e row_offset row_count bytes =
    let height = to_u64 e.params.height in
    let bytes_per_row = length e.bytes / height in
    let offset = mul64 row_offset bytes_per_row in
    if ltb height row_offset || ltb (sub64 height row_offset) row_count
    then none
    else if not (length bytes == mul64 row_count bytes_per_row)
        || ltb (length e.bytes) (add64 offset (length bytes))
    then none
    else some (record e {
      bytes = write_at offset bytes e.bytes;
      rows_received = write_at row_offset (replicate row_count true) e.rows_received;
    })

abbrev pub store_strip : BufferAssembler → Str → Option InProgress → BufferAssembler × Bool
store_strip a name none = (a, false)
store_strip a name (some e) = (assign name e a, true)

unfoldable pub chunk :
    BufferAssembler → (name : Str) → (row_offset row_count : ℕ) → List ℕ → BufferAssembler × Bool
chunk a name row_offset row_count bytes = elim (find name a) [
  | none ↦ (a, false)
  | some e ↦ store_strip a name (write_strip e row_offset row_count bytes)
]

unfoldable pub assembled : InProgress → AssembledBuffer
assembled e = record {
  variable_name = e.params.variable_name;
  display_name = e.params.display_name;
  pixel_layout = e.params.pixel_layout;
  transpose = e.params.transpose;
  width = e.params.width;
  height = e.params.height;
  channels = e.params.channels;
  stride = e.params.stride;
  type = e.params.type;
  bytes = e.bytes;
}

unfoldable pub end : BufferAssembler → (name : Str) → BufferAssembler × Option AssembledBuffer
end a name = elim (find name a) [
  | none ↦ (a, none)
  | some e ↦
      if not (all_true e.rows_received)
      then (erase name a, none)
      else (erase name a, some (assembled e))
]

unfoldable pub has_in_progress : BufferAssembler → (name : Str) → Bool
has_in_progress a name = elim (find name a) [ none ↦ false | some e ↦ true ]

unfoldable pub abort : BufferAssembler → (name : Str) → BufferAssembler × Bool
unfolding has_in_progress
abort a name = (erase name a, has_in_progress a name)
