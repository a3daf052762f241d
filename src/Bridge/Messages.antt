-- ===== src/Bridge/Messages.antt =====
-- A message composed by src/oidbridge/oid_bridge.cpp and decoded by src/host/ipc/ipc_client.cpp.
use open_image_debugger.Prelude.{
  ℕ, ◌≤◌, ◌≡◌, refl, List, [], ◌++◌, ℤ, IsI32, length, append_assoc, append-nil, ◌∙◌, ap, arith,
}
use open_image_debugger.Ipc.RawDataDecode.{max_buffer_bytes, type_value, buffer_type}
use open_image_debugger.Ipc.Execution.{ok, ◌>>=◌}
use open_image_debugger.Ipc.Transport.{Wire, flat}
use open_image_debugger.Ipc.Words.{to_bytes, to_word32}
use open_image_debugger.Ipc.MessageExchange.{
  Memory, Decode, max_string_bytes, message_value, message_type, frame, read_message_type,
  plot_buffer_contents,
}
use open_image_debugger.Ipc.MessageExchange.Reading.{Decodes, Decodes-return, Decodes-bind}
use open_image_debugger.Ipc.MessageExchange.RoundTrip.{
  Affords, sized_bytes, bool_bytes, frame-push_int, frame-push_bool, frame-push_bytes,
  frame-push_buffer_type, frame-push_message_type, read_int-Decodes, read_bool-Decodes,
  read_bytes-Decodes, read_buffer_type-Decodes, read_string-Decodes, read_message_type-Decodes,
}
use open_image_debugger.Bridge.{compose_plot_buffer}
use open_image_debugger.Host.BufferModel.{BufferRecordParams}
use open_image_debugger.Host.IpcClient.{IpcClient, Environment, Handler, decode, modify}
use open_image_debugger.Host.IpcClient.Handlers.{
  read_contents, plot_contents, handle_plot_buffer_contents,
}
use open_image_debugger.Host.IpcClient.Poll.{dispatch, handle_message}

-- What the sizes of a buffer must be for the viewer to read it.
pub record IsSendable (m : Memory) (p : BufferRecordParams) : Type 0 where
  pub name_short : length p.variable_name ≤ max_string_bytes
  pub name_held : Affords m (length p.variable_name)
  pub display_short : length p.display_name ≤ max_string_bytes
  pub display_held : Affords m (length p.display_name)
  pub layout_short : length p.pixel_layout ≤ max_string_bytes
  pub layout_held : Affords m (length p.pixel_layout)
  pub width_range : IsI32 p.width
  pub height_range : IsI32 p.height
  pub channels_range : IsI32 p.channels
  pub stride_range : IsI32 p.stride
  pub type_range : IsI32 (type_value p.type)
  pub type_named : buffer_type (type_value p.type) ≡ p.type
  pub bytes_short : length p.bytes ≤ max_buffer_bytes
  pub bytes_held : Affords m (length p.bytes)

abbrev int_bytes : ℤ → List ℕ
int_bytes n = to_bytes 4 (to_word32 n)

-- The fields behind the header.
abbrev contents_bytes : BufferRecordParams → List ℕ
contents_bytes p =
    sized_bytes p.variable_name
    ++ (sized_bytes p.display_name
        ++ (sized_bytes p.pixel_layout
            ++ (bool_bytes p.transpose
                ++ (int_bytes p.width
                    ++ (int_bytes p.height
                        ++ (int_bytes p.channels
                            ++ (int_bytes p.stride
                                ++ (int_bytes (type_value p.type)
                                    ++ (sized_bytes p.bytes ++ [])))))))))

frame-compose_plot_buffer :
    (p : BufferRecordParams)
    → frame (compose_plot_buffer p)
      ≡ int_bytes (message_value plot_buffer_contents) ++ contents_bytes p
unfolding compose_plot_buffer frame
frame-compose_plot_buffer p = simp (
  frame-push_bytes, frame-push_buffer_type, frame-push_int, frame-push_bool,
  frame-push_message_type, append_assoc, append-nil,
)

read_contents-Decodes :
    (m : Memory) (p : BufferRecordParams)
    → IsSendable m p
    → Decodes (read_contents m) (contents_bytes p) p
unfolding read_contents
read_contents-Decodes m p s =
    Decodes-bind _ _ _ _ _ p (read_string-Decodes m p.variable_name s.name_short s.name_held) (
      Decodes-bind _ _ _ _ _ p (read_string-Decodes m p.display_name s.display_short s.display_held)
        (Decodes-bind _ _ _ _ _ p
          (read_string-Decodes m p.pixel_layout s.layout_short s.layout_held)
          (Decodes-bind _ _ _ _ _ p (read_bool-Decodes p.transpose) (
            Decodes-bind _ _ _ _ _ p (read_int-Decodes p.width s.width_range) (
              Decodes-bind _ _ _ _ _ p (read_int-Decodes p.height s.height_range) (
                Decodes-bind _ _ _ _ _ p (read_int-Decodes p.channels s.channels_range) (
                  Decodes-bind _ _ _ _ _ p (read_int-Decodes p.stride s.stride_range) (
                    Decodes-bind _ _ _ _ _ p
                      (read_buffer_type-Decodes p.type s.type_range s.type_named)
                      (Decodes-bind _ _ _ _ _ p
                        (read_bytes-Decodes m p.bytes s.bytes_short s.bytes_held)
                        (Decodes-return p))))))))))

-- The connection, read by the decoder that a handler uses.
decode-Decodes :
    {A : Type 0} (m : Decode A) (bs : List ℕ) (v : A)
    → Decodes m bs v
    → (c : IpcClient) (rest : List ℕ) → flat c.wire ≡ bs ++ rest
    → (w : Wire) × (decode m c ≡ (ok v, record c { wire = w })) × (flat w ≡ rest)
unfolding decode
decode-Decodes m bs v d c rest e = let (w, run, left) = d.at c.wire rest e in (w, rw run refl, left)

-- A handler that decodes a value and then goes on.
decode_then :
    {A B : Type 0} (m : Decode A) (f : A → Handler B) (bs : List ℕ) (v : A)
    → Decodes m bs v
    → (c : IpcClient) (rest : List ℕ) → flat c.wire ≡ bs ++ rest
    → (w : Wire) × ((decode m >>= f) c ≡ f v (record c { wire = w })) × (flat w ≡ rest)
unfolding ◌>>=◌
decode_then m f bs v d c rest e =
    let (w, run, left) = decode-Decodes m bs v d c rest e in (w, rw run refl, left)

-- If a frame that the bridge composes for a buffer with sizes that can be sent and read stands
-- next on the wire of the viewer, one message reads exactly that frame and does what plot_contents
-- does with the very fields that were composed.
pub handle_message-plot_buffer :
    (env : Environment) (p : BufferRecordParams) (c : IpcClient) (rest : List ℕ)
    → IsSendable env.memory p
    → flat c.wire ≡ frame (compose_plot_buffer p) ++ rest
    → (w : Wire) × (handle_message env c ≡ (ok tt, plot_contents env p (record c { wire = w })))
      × (flat w ≡ rest)
unfolding handle_message dispatch handle_plot_buffer_contents modify
handle_message-plot_buffer env p c rest s e =
    let header =
      decode_then read_message_type (dispatch env) (int_bytes (message_value plot_buffer_contents))
        plot_buffer_contents
        (read_message_type-Decodes plot_buffer_contents (unfold message_value in omega arith)
          (unfold message_value message_type in refl))
        c (contents_bytes p ++ rest)
        (e
          ∙ ap (λ b. b ++ rest) (frame-compose_plot_buffer p)
          ∙ append_assoc (int_bytes (message_value plot_buffer_contents)) (contents_bytes p)
              rest) in
    let (w, run, left) = header in
    let (w', run', left') =
      decode_then (read_contents env.memory) (λ q. modify (plot_contents env q)) (contents_bytes p)
        p (read_contents-Decodes env.memory p s) (record c { wire = w }) rest left in
    (w', run ∙ run', left')
