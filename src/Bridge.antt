-- ===== src/Bridge.antt =====
-- src/oidbridge/oid_bridge.cpp: the debugger's end of the connection, without the Python objects and
-- the window's process. `client_` is held for the whole of an operation. A message of the peer is
-- stored by its type, so a slot for each type that is stored stands for the map.
pub mod Messages
pub mod Delivery
pub mod Ends
pub mod Observed
use open_image_debugger.Prelude.{
  ℕ, zero, suc, ◌+◌, ◌≡◌, Bool, true, false, not, ◌&&◌, Option, none, some, List, [], ◌∷◌, ◌++◌,
  ◌==◌, if◌then◌else◌, ℤ, length, Str,
}
use open_image_debugger.Ipc.RawDataDecode.{BufferType}
use open_image_debugger.Ipc.Execution.{
  Fault, bad_alloc, out_of_fuel, socket_timeout, decode_error, Outcome, ok, err, Exec, return,
  throw, ◌>>=◌, ◌>>◌,
}
use open_image_debugger.Ipc.Transport.{Wire, has_data, arrived}
use open_image_debugger.Ipc.MessageExchange.{
  MessageType, get_observed_symbols, get_observed_symbols_response, set_available_symbols,
  plot_buffer_contents, plot_buffer_request, buffer_removed, MessageComposer, Memory, Decode,
  push_message_type, push_int, push_bool, push_buffer_type, push_bytes, push_strings, frame,
  read_message_type, read_string, read_strings,
}
use open_image_debugger.Host.BufferModel.{BufferRecordParams}

pub record OidBridge : Type 0 where
  pub wire : Wire
  pub sent : List (List ℕ)
  pub connected : Bool
  pub plot_request : Option Str
  pub observed_response : Option (List Str)
  pub plotted : List Str
  pub failures : ℕ

-- The reports to `std::cerr` are counted.
unfoldable pub report : OidBridge → OidBridge
report b = record b { failures = b.failures + 1 }

-- A failed send is reported, and the message dropped.
unfoldable pub send_to_window : MessageComposer → OidBridge → OidBridge
send_to_window composer b =
    if b.connected then record b { sent = b.sent ++ frame composer ∷ [] } else report b

unfoldable pub compose_plot_buffer : BufferRecordParams → MessageComposer
compose_plot_buffer p =
    let header = push_message_type plot_buffer_contents [] in
    let names =
      push_bytes p.pixel_layout (push_bytes p.display_name (push_bytes p.variable_name header)) in
    let shape =
      push_int p.stride (
        push_int p.channels (push_int p.height (push_int p.width (push_bool p.transpose names)))) in
    push_bytes p.bytes (push_buffer_type p.type shape)

unfoldable pub plot_buffer : BufferRecordParams → OidBridge → OidBridge
plot_buffer p b = send_to_window (compose_plot_buffer p) b

unfoldable pub compose_available_symbols : List Str → MessageComposer
compose_available_symbols available_vars =
    push_strings available_vars (push_message_type set_available_symbols [])

unfoldable pub send_available_symbols : List Str → OidBridge → OidBridge
send_available_symbols available_vars b =
    send_to_window (compose_available_symbols available_vars) b

unfoldable pub decode : {A : Type 0} → Decode A → Exec OidBridge A
decode m b = let (r, w) = m b.wire in (r, record b { wire = w })

unfoldable pub modify : (OidBridge → OidBridge) → Exec OidBridge (Unit {0})
modify f b = (ok tt, f b)

-- The `switch` of `try_read_incoming_messages`.
unfoldable pub store_message : Memory → MessageType → Exec OidBridge (Unit {0})
store_message m plot_buffer_request = do
  name ← decode (read_string m)
  modify (λ b. record b { plot_request = some name })
store_message m get_observed_symbols_response = do
  symbols ← decode (read_strings m)
  modify (λ b. record b { observed_response = some symbols })
store_message m buffer_removed = do removed ← decode (read_string m); return tt
store_message m _ = modify report

-- One round of its loop.
unfoldable pub read_message : Memory → Exec OidBridge (Unit {0})
read_message m = do header ← decode read_message_type; store_message m header

-- `catch (const std::runtime_error&)`: `std::bad_alloc` is none, and leaves the function.
abbrev pub caught : Fault → OidBridge → Outcome (Unit {0}) × OidBridge
caught socket_timeout b = (ok tt, b)
caught decode_error b = (ok tt, b)
caught bad_alloc b = (err bad_alloc, b)
caught out_of_fuel b = (err out_of_fuel, b)

-- `first` lets the first round wait for a message.
unfoldable pub read_incoming : (fuel : ℕ) → Memory → (first : Bool) → Exec OidBridge (Unit {0})
read_incoming zero m first b = (err out_of_fuel, b)
read_incoming (suc fuel) m first b =
    if not first && not (has_data b.wire)
    then (ok tt, b)
    else (let (r, b') = read_message m b in
        elim r [ ok _ ↦ read_incoming fuel m false b' | err fault ↦ caught fault b' ])

unfoldable pub try_read_incoming_messages : Memory → Exec OidBridge (Unit {0})
try_read_incoming_messages m b = read_incoming (suc (arrived b.wire)) m true b

abbrev pub take_response : Option (List Str) → OidBridge → List Str × OidBridge
take_response none b = ([], b)
take_response (some symbols) b = (symbols, record b { observed_response = none })

abbrev pub answer : Outcome (Unit {0}) → OidBridge → Outcome (List Str) × OidBridge
answer (err fault) b = (err fault, b)
answer (ok _) b = let (symbols, b') = take_response b.observed_response b in (ok symbols, b')

-- `fetch_message(GET_OBSERVED_SYMBOLS_RESPONSE)`: a stored response first.
unfoldable pub fetch_observed_response : Memory → Exec OidBridge (List Str)
fetch_observed_response m b = elim b.observed_response [
  | some symbols ↦ (ok symbols, record b { observed_response = none })
  | none ↦ (let (r, b') = try_read_incoming_messages m b in answer r b')
]

unfoldable pub ask_observed_symbols : Memory → Exec OidBridge (List Str)
ask_observed_symbols m b =
    fetch_observed_response m (send_to_window (push_message_type get_observed_symbols []) b)

-- The callback's calls are recorded; where it answers 0, the failure is reported.
unfoldable pub plot_stored : (plot_callback : Option (Str → ℕ)) → OidBridge → OidBridge
plot_stored plot_callback b = elim b.plot_request [
  | none ↦ b
  | some name ↦ (elim plot_callback [
    | none ↦ record b { plot_request = none }
    | some callback ↦
        let called = record b { plot_request = none; plotted = b.plotted ++ name ∷ [] } in
        if callback name == 0 then report called else called
  ])
]

-- The loop of `run_event_loop` finds the one slot full at most once.
unfoldable pub run_event_loop : Memory → Option (Str → ℕ) → Exec OidBridge (Unit {0})
run_event_loop m plot_callback = do try_read_incoming_messages m; modify (plot_stored plot_callback)
