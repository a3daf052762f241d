-- ===== src/Host/IpcClient.antt =====
-- src/host/ipc/ipc_client.{h,cpp}: the viewer's end of the wire protocol.
-- The state holds the connection too: what has arrived, the frames that went out, and whether the peer
-- is still there (where it is not, a send throws and `send_guarded` swallows it). A callback is the
-- list of its calls. `std::cerr` is the list of diagnostics, without their wording.
pub mod Diagnostics
pub mod Handlers
pub mod Termination
pub mod Drawable
pub mod Safety
pub mod HandlerSafety
pub mod PollSafety
pub mod Streaming
pub mod Restore
pub mod Poll
use open_image_debugger.Prelude.{
  ℕ, zero, suc, ◌+◌, ◌≡◌, Bool, true, false, not, ◌&&◌, ◌||◌, Option, none, some, List, [], ◌∷◌,
  ◌++◌, ltb, ◌==◌, if◌then◌else◌, ℤ, pos, leb_ℤ, ltb_ℤ, eqb_ℤ, length, Str, str_eq,
}
use open_image_debugger.Ipc.RawDataDecode.{
  BufferType, buffer_type, Narrowing, is_known_buffer_type, exceeds_max_buffer_bytes,
  within_display_limits, geometry_fits_payload, padded_payload_size,
}
use open_image_debugger.Ipc.BufferAssembler
use open_image_debugger.Ipc.BufferAssembler.{
  BufferAssembler, BeginParams, BeginResult, AssembledBuffer, started, refused, out_of_memory,
}
use open_image_debugger.Ipc.Execution.{Outcome, ok, err, bad_alloc, Exec, return, ◌>>=◌, ◌>>◌}
use open_image_debugger.Ipc.Transport.{Wire}
use open_image_debugger.Ipc.MessageExchange.{
  MessageType, get_observed_symbols, get_observed_symbols_response, set_available_symbols,
  plot_buffer_contents, plot_buffer_request, export_buffer_request, apply_session_state,
  session_state_changed, export_selected_buffer, buffer_removed, plot_buffer_begin,
  plot_buffer_chunk, plot_buffer_end, MessageComposer, Memory, Decode, push_message_type, push_size,
  push_int, push_float, push_bytes, frame, read_message_type, read_buffer_type, read_bool, read_int,
  read_size, read_string, read_strings, read_bytes,
}
use open_image_debugger.Host.BufferModel.{
  BufferKind, debugger_symbol, local_file, BufferRecord, BufferRecordParams, is_valid_pixel_layout,
  default_pixel_layout, make_buffer_record,
}
use open_image_debugger.Host.IpcBufferModel
use open_image_debugger.Host.IpcBufferModel.{IpcBufferModel, index_of, upsert}
use open_image_debugger.Host.IpcClient.Diagnostics.{
  Diagnostic, contents_rejected, begin_rejected, chunk_rejected, end_rejected, kept_layout,
  defaulted_layout, begin_reason, Reason, unknown_type, not_displayable, payload_too_small,
  no_memory,
}

-- `PreviousBuffer` of src/host/settings/app_settings.h.
pub record PreviousBuffer : Type 0 where
  pub variable_name : Str
  pub expiry_epoch_s : ℤ

pub record IpcClient : Type 0 where
  pub wire : Wire
  pub sent : List (List ℕ)
  pub connected : Bool
  pub model : IpcBufferModel
  pub assembler : BufferAssembler
  pub available_symbols : List Str
  pub restore_buffers : List PreviousBuffer
  pub restore_requested : List Str
  pub session_states : Option (List Str)
  pub exports_requested : Option ℕ
  pub log : List Diagnostic

-- What the handlers take from the process: the allocator, the hardware's conversion and the clock.
pub record Environment : Type 0 where
  pub memory : Memory
  pub narrowing : Narrowing
  pub now : ℤ

abbrev pub Handler : Type 0 → Type 0
Handler = Exec IpcClient

unfoldable pub decode : {A : Type 0} → Decode A → Handler A
decode m c = let (r, w) = m c.wire in (r, record c { wire = w })

unfoldable pub modify : (IpcClient → IpcClient) → Handler (Unit {0})
modify f c = (ok tt, f c)

unfoldable pub send_guarded : MessageComposer → IpcClient → IpcClient
send_guarded composer c =
    if c.connected && not (length (frame composer) == 0)
    then record c { sent = c.sent ++ frame composer ∷ [] }
    else c

unfoldable pub request_plot : Str → IpcClient → IpcClient
request_plot name c = send_guarded (push_bytes name (push_message_type plot_buffer_request [])) c

unfoldable pub notify_removed : Str → IpcClient → IpcClient
notify_removed name c = send_guarded (push_bytes name (push_message_type buffer_removed [])) c

unfoldable pub send_session_state_changed : Str → IpcClient → IpcClient
send_session_state_changed json c =
    send_guarded (push_bytes json (push_message_type session_state_changed [])) c

-- Eight floats, missing ones as 0.0F, those beyond the eighth left out.
unfoldable pub push_contrast : (left : ℕ) → List (List ℕ) → MessageComposer → MessageComposer
push_contrast zero contrast c = c
push_contrast (suc left) [] c = push_contrast left [] (push_float (0 ∷ 0 ∷ 0 ∷ 0 ∷ []) c)
push_contrast (suc left) (value ∷ rest) c = push_contrast left rest (push_float value c)

unfoldable pub send_export_buffer_request : Str → ℤ → List (List ℕ) → IpcClient → IpcClient
send_export_buffer_request name format contrast c =
    send_guarded
      (push_contrast 8 contrast
        (push_int format (push_bytes name (push_message_type export_buffer_request []))))
      c

unfoldable pub set_restore_buffers : List PreviousBuffer → IpcClient → IpcClient
set_restore_buffers buffers c = record c { restore_buffers = buffers }

-- A callback that has been set has had no call yet.
unfoldable pub set_session_state_callback : IpcClient → IpcClient
set_session_state_callback c = record c { session_states = some [] }

unfoldable pub set_export_selected_callback : IpcClient → IpcClient
set_export_selected_callback c = record c { exports_requested = some 0 }

unfoldable pub report : Diagnostic → IpcClient → IpcClient
report d c = record c { log = c.log ++ d ∷ [] }

unfoldable pub contains : List Str → Str → Bool
contains [] name = false
contains (s ∷ rest) name = str_eq s name || contains rest name

unfoldable pub model_has : IpcClient → Str → Bool
model_has c name = elim (index_of name c.model.storage) [ none ↦ false | some i ↦ true ]

-- `std::set::insert`; the list is in the order of insertion.
unfoldable pub insert_name : Str → List Str → List Str
insert_name name names = if contains names name then names else name ∷ names

-- One round of the loop over the buffers to restore.
unfoldable pub restore_one : (now : ℤ) → PreviousBuffer → IpcClient → IpcClient
restore_one now b c =
    if leb_ℤ b.expiry_epoch_s now
    then c
    else if not (contains c.available_symbols b.variable_name)
    then c
    else if contains c.restore_requested b.variable_name
    then c
    else if model_has c b.variable_name
    then c
    else (let asked = request_plot b.variable_name c in
        record asked { restore_requested = insert_name b.variable_name asked.restore_requested })

unfoldable pub restore_all : (now : ℤ) → List PreviousBuffer → IpcClient → IpcClient
restore_all now [] c = c
restore_all now (b ∷ rest) c = restore_all now rest (restore_one now b c)

unfoldable pub handle_set_available_symbols : Environment → Handler (Unit {0})
handle_set_available_symbols env = do
  symbols ← decode (read_strings env.memory)
  modify (λ c. restore_all env.now c.restore_buffers (record c { available_symbols = symbols }))

unfoldable pub is_debugger_symbol : BufferKind → Bool
is_debugger_symbol debugger_symbol = true
is_debugger_symbol local_file = false

unfoldable pub observed_names : List BufferRecord → List Str
unfolding is_debugger_symbol
observed_names [] = []
observed_names (r ∷ rs) =
    let rest = observed_names rs in
    if is_debugger_symbol r.kind then r.variable_name ∷ rest else rest

unfoldable pub push_names : List Str → MessageComposer → MessageComposer
push_names [] c = c
push_names (s ∷ rest) c = push_names rest (push_bytes s c)

unfoldable pub compose_observed : List BufferRecord → MessageComposer
compose_observed storage =
    let observed = observed_names storage in
    push_names observed
      (push_size (length observed) (push_message_type get_observed_symbols_response []))

unfoldable pub handle_get_observed_symbols : Handler (Unit {0})
handle_get_observed_symbols = modify (λ c. send_guarded (compose_observed c.model.storage) c)
