-- ===== src/Host/IpcClient/Handlers.antt =====
-- src/host/ipc/ipc_client.cpp: the handlers of the inbound plot and session messages.
use open_image_debugger.Prelude.{
  ℕ, ◌+◌, Bool, true, false, not, ◌&&◌, Option, none, some, List, [], ◌∷◌, ◌++◌, if◌then◌else◌, ℤ,
  pos, eqb_ℤ, length, get_elem?, Str,
}
use open_image_debugger.Ipc.RawDataDecode.{
  buffer_type, is_known_buffer_type, within_display_limits, geometry_fits_payload,
}
use open_image_debugger.Ipc.BufferAssembler
use open_image_debugger.Ipc.BufferAssembler.{
  BufferAssembler, BeginParams, BeginResult, AssembledBuffer, started, refused, out_of_memory,
}
use open_image_debugger.Ipc.Execution.{bad_alloc, Outcome, ok, err, return, ◌>>=◌}
use open_image_debugger.Ipc.MessageExchange.{
  Memory, Decode, read_buffer_type, read_bool, read_int, read_size, read_string, read_bytes,
}
use open_image_debugger.Host.BufferModel.{
  BufferRecord, BufferRecordParams, is_valid_pixel_layout, default_pixel_layout, make_buffer_record,
}
use open_image_debugger.Host.IpcBufferModel.{index_of, upsert}
use open_image_debugger.Host.IpcClient.Diagnostics.{
  Diagnostic, contents_rejected, begin_rejected, chunk_rejected, end_rejected, kept_layout,
  defaulted_layout, unknown_type, not_displayable, payload_too_small, begin_reason,
}
use open_image_debugger.Host.IpcClient.{IpcClient, Environment, Handler, decode, modify, report}

unfoldable pub existing_record : List BufferRecord → Str → Option BufferRecord
existing_record storage name = elim (index_of name storage) [
  | none ↦ none
  | some i ↦ get_elem? storage i
]

-- The layout to fall back on, with the diagnostic that says so.
unfoldable pub fallback_layout :
    (name : Str) → (channels : ℤ) → Option BufferRecord → Str × Diagnostic
fallback_layout name channels none = (default_pixel_layout, defaulted_layout name)
fallback_layout name channels (some r) =
    if eqb_ℤ r.channels channels && is_valid_pixel_layout r.pixel_layout
    then (r.pixel_layout, kept_layout name)
    else (default_pixel_layout, defaulted_layout name)

unfoldable pub resolve_pixel_layout :
    IpcClient → (name declared : Str) → (channels : ℤ) → Str × IpcClient
resolve_pixel_layout c name declared channels =
    if eqb_ℤ channels (pos 1)
    then (declared, c)
    else if is_valid_pixel_layout declared
    then (declared, c)
    else (let (layout, d) = fallback_layout name channels (existing_record c.model.storage name) in
        (layout, report d c))

-- The tail that both plot paths share: the layout is resolved, the record built and stored.
unfoldable pub store_buffer : Environment → BufferRecordParams → IpcClient → IpcClient
store_buffer env p c =
    let (layout, c') = resolve_pixel_layout c p.variable_name p.pixel_layout p.channels in
    record c' {
      model =
          upsert c'.model (make_buffer_record env.narrowing (record p { pixel_layout = layout }));
    }

unfoldable pub read_contents : Memory → Decode BufferRecordParams
read_contents m = do
  variable_name ← read_string m
  display_name ← read_string m
  pixel_layout ← read_string m
  transpose ← read_bool
  width ← read_int
  height ← read_int
  channels ← read_int
  stride ← read_int
  type ← read_buffer_type
  bytes ← read_bytes m
  return (record {
    variable_name = variable_name;
    display_name = display_name;
    pixel_layout = pixel_layout;
    transpose = transpose;
    width = width;
    height = height;
    channels = channels;
    stride = stride;
    type = type;
    bytes = bytes;
  })

-- `handle_plot_buffer_contents` behind its reads.
unfoldable pub plot_contents : Environment → BufferRecordParams → IpcClient → IpcClient
plot_contents env p c =
    if not (is_known_buffer_type p.type)
    then report (contents_rejected p.variable_name unknown_type) c
    else if not (within_display_limits p.width p.height p.channels)
    then report (contents_rejected p.variable_name not_displayable) c
    else if not (geometry_fits_payload p.width p.height p.channels p.stride p.type (length p.bytes))
    then report (contents_rejected p.variable_name payload_too_small) c
    else store_buffer env p c

unfoldable pub handle_plot_buffer_contents : Environment → Handler (Unit {0})
handle_plot_buffer_contents env = do
  p ← decode (read_contents env.memory)
  modify (plot_contents env p)

unfoldable pub read_begin : Memory → Decode BeginParams
read_begin m = do
  variable_name ← read_string m
  display_name ← read_string m
  pixel_layout ← read_string m
  transpose ← read_bool
  width ← read_int
  height ← read_int
  channels ← read_int
  stride ← read_int
  type ← read_int
  total_byte_size ← read_size
  return (record {
    variable_name = variable_name;
    display_name = display_name;
    pixel_layout = pixel_layout;
    transpose = transpose;
    width = width;
    height = height;
    channels = channels;
    stride = stride;
    type = type;
    total_byte_size = total_byte_size;
  })

abbrev pub begin_outcome :
    BeginParams → BufferAssembler × BeginResult → IpcClient → Outcome (Unit {0}) × IpcClient
begin_outcome p (a, started) c = (ok tt, record c { assembler = a })
begin_outcome p (a, refused) c =
    (ok tt, report (begin_rejected p.variable_name (begin_reason p)) (record c { assembler = a }))
begin_outcome p (a, out_of_memory) c = (err bad_alloc, record c { assembler = a })

-- `handle_plot_buffer_begin` behind its reads.
unfoldable pub begin_transfer : Environment → BeginParams → Handler (Unit {0})
begin_transfer env p c =
    begin_outcome p (BufferAssembler.begin env.memory.allocates c.assembler p) c

unfoldable pub handle_plot_buffer_begin : Environment → Handler (Unit {0})
handle_plot_buffer_begin env = do p ← decode (read_begin env.memory); begin_transfer env p

pub record Chunk : Type 0 where
  pub name : Str
  pub row_offset : ℕ
  pub row_count : ℕ
  pub bytes : List ℕ

unfoldable pub read_chunk : Memory → Decode Chunk
read_chunk m = do
  name ← read_string m
  row_offset ← read_size
  row_count ← read_size
  bytes ← read_bytes m
  return (record { name = name; row_offset = row_offset; row_count = row_count; bytes = bytes })

-- The first bad chunk drops the transfer and says so; later ones find nothing and stay silent.
abbrev pub drop_transfer : Chunk → BufferAssembler × Bool → IpcClient → IpcClient
drop_transfer k (a, false) c = record c { assembler = a }
drop_transfer k (a, true) c =
    report (chunk_rejected k.name k.row_offset k.row_count (length k.bytes))
      (record c { assembler = a })

abbrev pub chunk_outcome : Chunk → BufferAssembler × Bool → IpcClient → IpcClient
chunk_outcome k (a, true) c = record c { assembler = a }
chunk_outcome k (a, false) c = drop_transfer k (BufferAssembler.abort a k.name) c

-- `handle_plot_buffer_chunk` behind its reads.
unfoldable pub take_chunk : Chunk → IpcClient → IpcClient
take_chunk k c =
    chunk_outcome k (BufferAssembler.chunk c.assembler k.name k.row_offset k.row_count k.bytes) c

unfoldable pub handle_plot_buffer_chunk : Environment → Handler (Unit {0})
handle_plot_buffer_chunk env = do k ← decode (read_chunk env.memory); modify (take_chunk k)

unfoldable pub params_of : AssembledBuffer → BufferRecordParams
params_of b = record {
  variable_name = b.variable_name;
  display_name = b.display_name;
  pixel_layout = b.pixel_layout;
  transpose = b.transpose;
  width = b.width;
  height = b.height;
  channels = b.channels;
  stride = b.stride;
  type = buffer_type b.type;
  bytes = b.bytes;
}

abbrev pub end_outcome :
    Environment
    → Str
    → (was_in_progress : Bool) → BufferAssembler × Option AssembledBuffer
    → IpcClient
    → IpcClient
end_outcome env name was (a, some b) c = store_buffer env (params_of b) (record c { assembler = a })
end_outcome env name true (a, none) c = report (end_rejected name) (record c { assembler = a })
end_outcome env name false (a, none) c = record c { assembler = a }

-- `handle_plot_buffer_end` behind its reads.
unfoldable pub end_transfer : Environment → Str → IpcClient → IpcClient
end_transfer env name c =
    end_outcome env name (BufferAssembler.has_in_progress c.assembler name)
      (BufferAssembler.end c.assembler name) c

unfoldable pub handle_plot_buffer_end : Environment → Handler (Unit {0})
handle_plot_buffer_end env = do
  name ← decode (read_string env.memory)
  modify (end_transfer env name)

abbrev pub call_with : Option (List Str) → Str → Option (List Str)
call_with none json = none
call_with (some calls) json = some (calls ++ json ∷ [])

unfoldable pub handle_apply_session_state : Environment → Handler (Unit {0})
handle_apply_session_state env = do
  json ← decode (read_string env.memory)
  modify (λ c. record c { session_states = call_with c.session_states json })

abbrev pub call : Option ℕ → Option ℕ
call none = none
call (some calls) = some (calls + 1)

unfoldable pub handle_export_selected_buffer : Handler (Unit {0})
handle_export_selected_buffer =
    modify (λ c. record c { exports_requested = call c.exports_requested })
