-- ===== src/Host/IpcClient/Streaming.antt =====
-- The two ways of src/host/ipc/ipc_client.cpp to receive a buffer, in one message or in strips.
use open_image_debugger.Prelude.{
  ℕ, ◌<◌, ◌≡◌, refl, ◌∙◌, ap, sym, Bool, true, Option, some, List, ℤ, IsI32, pos_part, length, Str,
  erase, arith,
}
use open_image_debugger.Ipc.RawDataDecode.{buffer_type, geometry_fits_payload}
use open_image_debugger.Ipc.RawDataDecode.Payload.{geometry_fits_payload-padded_payload_size}
use open_image_debugger.Ipc.BufferAssembler.{
  BeginParams, BufferAssembler, AssembledBuffer, accepts, end,
}
use open_image_debugger.Ipc.BufferAssembler.Invariant.{
  accepts_parts, accepts-HasGeometry, is_size_eq,
}
use open_image_debugger.Ipc.BufferAssembler.Delivery.{
  AllInside, covered, delivered, transferred, end-transferred,
}
use open_image_debugger.Host.BufferModel.{BufferRecordParams}
use open_image_debugger.Host.IpcClient.{IpcClient, Environment, report}
use open_image_debugger.Host.IpcClient.Handlers.{
  params_of, store_buffer, resolve_pixel_layout, plot_contents, end_transfer, end_outcome,
}

-- The fields of a transfer with its payload, as one message would carry them.
abbrev pub whole_message : BeginParams → List ℕ → BufferRecordParams
whole_message p payload = record {
  variable_name = p.variable_name;
  display_name = p.display_name;
  pixel_layout = p.pixel_layout;
  transpose = p.transpose;
  width = p.width;
  height = p.height;
  channels = p.channels;
  stride = p.stride;
  type = buffer_type p.type;
  bytes = payload;
}

-- The layout that is resolved does not depend on the transfers.
resolve_pixel_layout_same :
    (c : IpcClient) (a : BufferAssembler) (name declared : Str) (channels : ℤ)
    → ((resolve_pixel_layout (record c { assembler = a }) name declared channels).0
        ≡ (resolve_pixel_layout c name declared channels).0)
      × ((resolve_pixel_layout (record c { assembler = a }) name declared channels).1.model
          ≡ (resolve_pixel_layout c name declared channels).1.model)
unfolding resolve_pixel_layout report
resolve_pixel_layout_same c a name declared channels = ground arith

store_buffer-model :
    (env : Environment) (q : BufferRecordParams) (c : IpcClient) (a : BufferAssembler)
    → (store_buffer env q (record c { assembler = a })).model ≡ (store_buffer env q c).model
unfolding store_buffer
store_buffer-model env q c a =
    let (layout, model) = resolve_pixel_layout_same c a q.variable_name q.pixel_layout q.channels in
    rw (layout, model)

end_outcome-some :
    (env : Environment) (name : Str) (was : Bool) (r : BufferAssembler × Option AssembledBuffer)
    (b : AssembledBuffer) (a : BufferAssembler) (c : IpcClient)
    → r ≡ (a, some b)
    → (end_outcome env name was r c).model ≡ (store_buffer env (params_of b) c).model
end_outcome-some env name was r b a c e = rw e (store_buffer-model env (params_of b) c a)

params_of-delivered :
    (p : BeginParams) (payload : List ℕ) → params_of (delivered p payload) ≡ whole_message p payload
unfolding params_of
params_of-delivered p payload = refl

plot_contents-accepted :
    (env : Environment) (p : BeginParams) (payload : List ℕ) (c : IpcClient)
    → IsI32 p.stride
    → accepts p ≡ true
    → length payload ≡ p.total_byte_size
    → plot_contents env (whole_message p payload) c ≡ store_buffer env (whole_message p payload) c
unfolding plot_contents
plot_contents-accepted env p payload c si e whole =
    let (known, bounded, limits, size) = accepts_parts p e in
    let g = accepts-HasGeometry p si e in
    let fits : geometry_fits_payload p.width p.height p.channels p.stride (buffer_type p.type)
          (length payload)
        ≡ true =
      geometry_fits_payload-padded_payload_size p.width p.height p.channels p.stride
        (buffer_type p.type) g.width_range g.height_range g.channels_range si (length payload)
        (is_size_eq _ _ size ∙ ap some (sym whole)) in
    rw (known, limits, fits)

-- For an accepted declaration, memory that is given, and strips inside the buffer that hold every
-- row of the payload, finishing the transfer leaves the same model as one message with the
-- declared fields and the whole payload.
pub end_transfer-plot_contents :
    (env : Environment) (c : IpcClient) (p : BeginParams) (payload : List ℕ) (strips : List (ℕ × ℕ))
    → IsI32 p.stride
    → accepts p ≡ true
    → env.memory.allocates p.total_byte_size ≡ true
    → length payload ≡ p.total_byte_size
    → AllInside (pos_part p.height) strips
    → ((i : ℕ) → i < pos_part p.height → covered strips i ≡ true)
    → (end_transfer env p.variable_name (record c {
      assembler = transferred env.memory.allocates c.assembler p payload strips;
    })).model
      ≡ (plot_contents env (whole_message p payload) c).model
unfolding end_transfer
end_transfer-plot_contents env c p payload strips si accepted memory whole inside full =
    let a = transferred env.memory.allocates c.assembler p payload strips in
    end_outcome-some env p.variable_name _ (end a p.variable_name) _ (erase p.variable_name a)
      (record c { assembler = a })
      (end-transferred env.memory.allocates c.assembler p payload strips si accepted memory whole
        inside full)
    ∙ store_buffer-model env (params_of (delivered p payload)) c a
    ∙ ap (λ q. (store_buffer env q c).model) (params_of-delivered p payload)
    ∙ ap (λ d. d.model) (sym (plot_contents-accepted env p payload c si accepted whole))
