-- ===== src/Bridge/Delivery.antt =====
-- A buffer that src/oidbridge/oid_bridge.cpp sends, in the model of src/host/ui/ipc_buffer_model.cpp.
use open_image_debugger.Prelude.{
  ◌≡◌, refl, ◌∙◌, ap, ◌⊎◌, true, some, List, ◌++◌, ℤ, pos, eqb_ℤ_iff, length, Str, str_eq,
  if◌then◌else◌, arith, ℕ, zero, suc, ◌+◌, ◌*◌, ◌/◌, take, drop, drop-drop, sym, [],
}
use open_image_debugger.Ipc.RawDataDecode.{
  BufferType, unsigned_byte, unsigned_short, short, int32, float32, float64, unknown, Narrowing,
  narrow_elements, make_float_buffer_from_double, is_known_buffer_type, within_display_limits,
  geometry_fits_payload,
}
use open_image_debugger.Ipc.Transport.{flat}
use open_image_debugger.Ipc.MessageExchange.{frame}
use open_image_debugger.Host.BufferModel.{
  BufferRecord, debugger_symbol, record_bytes, BufferRecordParams, is_valid_pixel_layout,
  make_buffer_record,
}
use open_image_debugger.Host.IpcBufferModel.Laws.{lookup, lookup-upsert}
use open_image_debugger.Host.IpcClient.{IpcClient, Environment}
use open_image_debugger.Host.IpcClient.Handlers.{resolve_pixel_layout, store_buffer, plot_contents}
use open_image_debugger.Host.IpcClient.Poll.{handle_message}
use open_image_debugger.Bridge.{compose_plot_buffer}
use open_image_debugger.Bridge.Messages.{IsSendable, handle_message-plot_buffer}

-- A buffer that the viewer has nothing to say against.
pub record IsAccepted (p : BufferRecordParams) : Type 0 where
  pub known : is_known_buffer_type p.type ≡ true
  pub limits : within_display_limits p.width p.height p.channels ≡ true
  pub fits :
      geometry_fits_payload p.width p.height p.channels p.stride p.type (length p.bytes) ≡ true
  pub layout : (p.channels ≡ pos 1) ⊎ (is_valid_pixel_layout p.pixel_layout ≡ true)

resolve_pixel_layout_declared :
    (c : IpcClient) (name declared : Str) (channels : ℤ)
    → (channels ≡ pos 1) ⊎ (is_valid_pixel_layout declared ≡ true)
    → resolve_pixel_layout c name declared channels ≡ (declared, c)
unfolding resolve_pixel_layout
resolve_pixel_layout_declared c name declared channels h =
    ground (arith, h, eqb_ℤ_iff channels (pos 1))

-- The one record that such a buffer becomes.
plot_contents-lookup :
    (env : Environment) (p : BufferRecordParams) (c : IpcClient) (j : Str)
    → IsAccepted p
    → lookup (plot_contents env p c).model j ≡ (
        if str_eq p.variable_name j
        then some (make_buffer_record env.narrowing p)
        else lookup c.model j)
unfolding plot_contents store_buffer
plot_contents-lookup env p c j a =
    rw
      (
        a.known,
        a.limits,
        a.fits,
        resolve_pixel_layout_declared c p.variable_name p.pixel_layout p.channels a.layout,
      )
      (lookup-upsert c.model (make_buffer_record env.narrowing p) j
        ∙ unfold make_buffer_record in refl)

-- The floats of the doubles from index i on, `left` of them.
unfoldable pub floats : Narrowing → (bytes : List ℕ) → (i left : ℕ) → List ℕ
floats n bytes i zero = []
floats n bytes i (suc left) =
    n.to_float (take 8 (drop (i * 8) bytes)) ++ floats n bytes (suc i) left

-- Doubles are stored as floats, anything else as it came.
unfoldable pub stored_bytes : Narrowing → BufferType → List ℕ → List ℕ
stored_bytes n float64 bytes = floats n bytes 0 (length bytes / 8)
stored_bytes n _ bytes = bytes

-- The record of a buffer from the debugger.
abbrev pub stored_record : Narrowing → BufferRecordParams → BufferRecord
stored_record n p = record {
  variable_name = p.variable_name;
  display_name = p.display_name;
  pixel_layout = p.pixel_layout;
  transpose = p.transpose;
  width = p.width;
  height = p.height;
  channels = p.channels;
  step = p.stride;
  type = p.type;
  bytes = stored_bytes n p.type p.bytes;
  kind = debugger_symbol;
}

floats-narrow_elements :
    (n : Narrowing) (bytes : List ℕ) (i left : ℕ)
    → narrow_elements n left (drop (i * 8) bytes) ≡ floats n bytes i left
unfolding narrow_elements floats
floats-narrow_elements n bytes i zero = refl
floats-narrow_elements n bytes i (suc left) =
    let next : suc i * 8 ≡ i * 8 + 8 = omega arith in
    ap (λ s. n.to_float (take 8 (drop (i * 8) bytes)) ++ narrow_elements n left s)
      (sym (ap (λ k. drop k bytes) next ∙ drop-drop (i * 8) 8 bytes))
    ∙ ap (λ s. n.to_float (take 8 (drop (i * 8) bytes)) ++ s)
        (floats-narrow_elements n bytes (suc i) left)

record_bytes_lem :
    (n : Narrowing) (type : BufferType) (bytes : List ℕ)
    → record_bytes n type bytes ≡ stored_bytes n type bytes
unfolding record_bytes stored_bytes make_float_buffer_from_double
record_bytes_lem n float64 bytes = floats-narrow_elements n bytes 0 (length bytes / 8)
record_bytes_lem n unsigned_byte bytes = refl
record_bytes_lem n unsigned_short bytes = refl
record_bytes_lem n short bytes = refl
record_bytes_lem n int32 bytes = refl
record_bytes_lem n float32 bytes = refl
record_bytes_lem n (unknown k) bytes = refl

make_buffer_record_lem :
    (n : Narrowing) (p : BufferRecordParams) → make_buffer_record n p ≡ stored_record n p
unfolding make_buffer_record
make_buffer_record_lem n p = rw (record_bytes_lem n p.type p.bytes) refl

-- If the frame of a buffer that the bridge composes stands next on the wire of the viewer, its
-- sizes can be sent and read, and it passes the checks of the viewer with a valid layout or one
-- channel, then after one message the model binds its name to a record of the debugger with the
-- fields that were sent and its bytes, doubles as floats, and every other name is bound as before.
pub plot_buffer-lookup :
    (env : Environment) (p : BufferRecordParams) (c : IpcClient) (rest : List ℕ) (j : Str)
    → IsSendable env.memory p
    → IsAccepted p
    → flat c.wire ≡ frame (compose_plot_buffer p) ++ rest
    → lookup (handle_message env c).1.model j ≡ (
        if str_eq p.variable_name j then some (stored_record env.narrowing p) else lookup c.model j)
plot_buffer-lookup env p c rest j s a e =
    let (w, run, left) = handle_message-plot_buffer env p c rest s e in
    ap (λ r. lookup r.1.model j) run
    ∙ plot_contents-lookup env p (record c { wire = w }) j a
    ∙ ap (λ r. if str_eq p.variable_name j then some r else lookup c.model j)
        (make_buffer_record_lem env.narrowing p)
