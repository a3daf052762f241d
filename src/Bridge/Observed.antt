-- ===== src/Bridge/Observed.antt =====
-- The answer of src/host/ipc/ipc_client.cpp to GET_OBSERVED_SYMBOLS, and its decoding in
-- src/oidbridge/oid_bridge.cpp.
use open_image_debugger.Prelude.{
  ℕ, some, ◌^◌, ◌<◌, ◌≡◌, refl, sym, ◌∙◌, ap, List, [], ◌∷◌, ◌++◌, length, append-nil, append_assoc,
  Str, arith, subst, if◌then◌else◌,
}
use open_image_debugger.Ipc.Words.{to_bytes, to_word32}
use open_image_debugger.Ipc.Execution.{Exec, ok, ◌>>=◌}
use open_image_debugger.Ipc.Transport.{Wire, flat}
use open_image_debugger.Bridge.{OidBridge, decode, modify, read_message, store_message}
use open_image_debugger.Ipc.MessageExchange.{
  Memory, Decode, MessageComposer, message_type, message_value, get_observed_symbols_response,
  frame, read_message_type, read_strings,
}
use open_image_debugger.Ipc.MessageExchange.Reading.{Decodes}
use open_image_debugger.Ipc.MessageExchange.RoundTrip.{
  AreReadable, each_bytes, frame-push_bytes, frame-push_size, frame-push_message_type,
  read_message_type-Decodes, read_strings-Decodes,
}
use open_image_debugger.Host.BufferModel.{BufferRecord, BufferKind, debugger_symbol, local_file}
use open_image_debugger.Host.IpcClient.{
  is_debugger_symbol, observed_names, push_names, compose_observed,
}

-- A record that came from the debugger has its name listed, in the order of the records.
abbrev listed : BufferKind → Str → List Str → List Str
listed debugger_symbol name names = name ∷ names
listed local_file name names = names

unfoldable pub debugger_names : List BufferRecord → List Str
debugger_names [] = []
debugger_names (r ∷ storage) = listed r.kind r.variable_name (debugger_names storage)

listed_lem :
    (kind : BufferKind) (name : Str) (names : List Str)
    → (if is_debugger_symbol kind then name ∷ names else names) ≡ listed kind name names
unfolding is_debugger_symbol
listed_lem debugger_symbol name names = refl
listed_lem local_file name names = refl

observed_names_lem : (storage : List BufferRecord) → observed_names storage ≡ debugger_names storage
unfolding observed_names debugger_names
observed_names_lem [] = refl
observed_names_lem (r ∷ storage) =
    rw (observed_names_lem storage) (listed_lem r.kind r.variable_name (debugger_names storage))

frame-push_names :
    (ss : List Str) (c : MessageComposer) → frame (push_names ss c) ≡ frame c ++ each_bytes ss
unfolding push_names
frame-push_names [] c = sym (append-nil (frame c))
frame-push_names (s ∷ rest) c = rw (frame-push_names rest, frame-push_bytes, append_assoc)

abbrev header_bytes : List ℕ
header_bytes = to_bytes 4 (to_word32 (message_value get_observed_symbols_response))

-- The names behind the header.
abbrev names_bytes : List BufferRecord → List ℕ
names_bytes storage =
    to_bytes 8 (length (observed_names storage)) ++ each_bytes (observed_names storage)

frame-compose_observed :
    (storage : List BufferRecord)
    → frame (compose_observed storage) ≡ header_bytes ++ names_bytes storage
unfolding compose_observed frame
frame-compose_observed storage =
    rw (frame-push_names, frame-push_size, frame-push_message_type, append_assoc) refl

-- A step of the bridge that decodes a value and then goes on.
decode_then :
    {A B : Type 0} (m : Decode A) (f : A → Exec OidBridge B) (bs : List ℕ) (v : A)
    → Decodes m bs v
    → (b : OidBridge) (rest : List ℕ) → flat b.wire ≡ bs ++ rest
    → (w : Wire) × ((decode m >>= f) b ≡ f v (record b { wire = w })) × (flat w ≡ rest)
unfolding ◌>>=◌ decode
decode_then m f bs v d b rest e = let (w, run, left) = d.at b.wire rest e in (w, rw run refl, left)

header-Decodes : Decodes read_message_type header_bytes get_observed_symbols_response
header-Decodes =
    read_message_type-Decodes get_observed_symbols_response (unfold message_value in omega arith)
      (unfold message_value message_type in refl)

read_observed :
    (m : Memory) (storage : List BufferRecord) (b : OidBridge) (rest : List ℕ)
    → length (observed_names storage) < 2 ^ 31
    → AreReadable m (observed_names storage)
    → flat b.wire ≡ frame (compose_observed storage) ++ rest
    → (w : Wire) × (read_message m b
        ≡ (ok tt, record b { wire = w; observed_response = some (observed_names storage) }))
      × (flat w ≡ rest)
unfolding read_message store_message modify
read_observed m storage b rest h r e =
    let (w, run, left) =
      decode_then read_message_type (store_message m) header_bytes get_observed_symbols_response
        header-Decodes b (names_bytes storage ++ rest)
        (e
          ∙ ap (λ s. s ++ rest) (frame-compose_observed storage)
          ∙ append_assoc header_bytes (names_bytes storage) rest) in
    let (w', run', left') =
      decode_then (read_strings m)
        (λ symbols. modify (λ b. record b { observed_response = some symbols }))
        (names_bytes storage) (observed_names storage)
        (read_strings-Decodes m (observed_names storage) h r) (record b { wire = w }) rest left in
    (w', run ∙ run', left')

-- If the answer of the viewer to GET_OBSERVED_SYMBOLS stands next on the wire of the bridge, and
-- its names are fewer than 2 ^ 31, short enough and affordable, one message reads exactly that
-- answer and stores the names of the records that came from the debugger, in their order.
pub read_message-compose_observed :
    (m : Memory) (storage : List BufferRecord) (b : OidBridge) (rest : List ℕ)
    → length (debugger_names storage) < 2 ^ 31
    → AreReadable m (debugger_names storage)
    → flat b.wire ≡ frame (compose_observed storage) ++ rest
    → (w : Wire) × (read_message m b
        ≡ (ok tt, record b { wire = w; observed_response = some (debugger_names storage) }))
      × (flat w ≡ rest)
read_message-compose_observed m storage b rest h r e =
    let same = observed_names_lem storage in
    subst
      (λ names.
        (w : Wire) × (read_message m b
          ≡ (ok tt, record b { wire = w; observed_response = some names }))
        × (flat w ≡ rest))
      same (read_observed m storage b rest (rw same h) (rw same r) e)
