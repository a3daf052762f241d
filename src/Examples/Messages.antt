-- ===== src/Examples/Messages.antt =====
-- The round trips of src/ipc/message_exchange.h and of a whole buffer from src/oidbridge/oid_bridge.cpp.
use open_image_debugger.Prelude.{
  List, ◌≡◌, ◌≢◌, refl, true, some, none, if◌then◌else◌, [], ◌∷◌, ◌++◌, length, codes, str_eq,
  arith, inl, mul64, add64, sub64,
}
use open_image_debugger.Ipc.RawDataDecode.{
  type_value, buffer_type, is_known_buffer_type, within_display_limits, geometry_fits_payload,
  not_renderable, type_size,
}
use open_image_debugger.Ipc.Execution.{ok, err, out_of_fuel}
use open_image_debugger.Ipc.Transport.{Wire, flat}
use open_image_debugger.Ipc.Words.{to_bytes, to_word32}
use open_image_debugger.Ipc.MessageExchange.{
  push_strings, push_bytes, push_size, push_int, push_bool, push_buffer_type, push_message_type,
  message_value, frame, read_strings,
}
use open_image_debugger.Ipc.MessageExchange.Reading.{Decodes}
use open_image_debugger.Ipc.MessageExchange.RoundTrip.{Affords}
use open_image_debugger.Ipc.MessageExchange.Frames.{read_strings-push_strings}
use open_image_debugger.Host.BufferModel.{BufferRecord, local_file, make_buffer_record}
use open_image_debugger.Host.IpcBufferModel.Laws.{lookup}
use open_image_debugger.Host.IpcClient.{IpcClient, observed_names, push_names, compose_observed}
use open_image_debugger.Host.IpcClient.Handlers.{plot_contents}
use open_image_debugger.Host.IpcClient.Poll.{handle_message}
use open_image_debugger.Bridge.{
  OidBridge, compose_plot_buffer, read_message, try_read_incoming_messages,
}
use open_image_debugger.Bridge.Observed.{debugger_names, read_message-compose_observed}
use open_image_debugger.Bridge.Messages.{IsSendable, handle_message-plot_buffer}
use open_image_debugger.Bridge.Delivery.{IsAccepted, stored_record, plot_buffer-lookup}
use open_image_debugger.Bridge.Ends.{try_read_incoming_messages-ends}
use open_image_debugger.Examples.{memory, narrowing, environment, contents, payload, client}

Affords-payload : Affords memory (length payload)
Affords-payload = record { allocated = refl; held = omega arith }

Affords-name : Affords memory (length (codes "img"))
Affords-name = record { allocated = refl; held = omega arith }

Affords-layout : Affords memory (length (codes "rgba"))
Affords-layout = record { allocated = refl; held = omega arith }

read_strings-push_strings_example :
    Decodes (read_strings memory) (frame (push_strings (codes "img" ∷ []) [])) (codes "img" ∷ [])
read_strings-push_strings_example =
    read_strings-push_strings memory (codes "img" ∷ []) (omega arith)
      (omega arith, Affords-name, tt)

contents-IsSendable : IsSendable memory contents
unfolding type_value buffer_type
contents-IsSendable = record {
  name_short = omega arith;
  name_held = Affords-name;
  display_short = omega arith;
  display_held = Affords-name;
  layout_short = omega arith;
  layout_held = Affords-layout;
  width_range = omega arith;
  height_range = omega arith;
  channels_range = omega arith;
  stride_range = omega arith;
  type_range = omega arith;
  type_named = refl;
  bytes_short = omega arith;
  bytes_held = Affords-payload;
}

contents-IsAccepted : IsAccepted contents
unfolding is_known_buffer_type within_display_limits geometry_fits_payload not_renderable type_size
    mul64 add64 sub64
contents-IsAccepted = record { known = refl; limits = refl; fits = refl; layout = inl refl }

-- The frame has arrived in one segment.
abbrev pub receiving : IpcClient
receiving = record client { wire = frame (compose_plot_buffer contents) ∷ [] }

arrived_frame : flat receiving.wire ≡ frame (compose_plot_buffer contents) ++ []
unfolding flat frame compose_plot_buffer push_message_type push_bytes push_size push_bool push_int
    push_buffer_type message_value type_value to_word32 to_bytes
arrived_frame = refl

handle_message-plot_buffer_example :
    (w : Wire) × (handle_message environment receiving
      ≡ (ok tt, plot_contents environment contents (record receiving { wire = w })))
    × (flat w ≡ [])
handle_message-plot_buffer_example =
    handle_message-plot_buffer environment contents receiving [] contents-IsSendable arrived_frame

plot_buffer-lookup_example : lookup (handle_message environment receiving).1.model (codes "img") ≡ (
    if str_eq contents.variable_name (codes "img")
    then some (stored_record narrowing contents)
    else lookup receiving.model (codes "img"))
plot_buffer-lookup_example =
    plot_buffer-lookup environment contents receiving [] (codes "img") contents-IsSendable
      contents-IsAccepted arrived_frame

abbrev bridge : OidBridge
bridge = record {
  wire = (9 ∷ 0 ∷ []) ∷ (0 ∷ 0 ∷ []) ∷ [];
  sent = [];
  connected = true;
  plot_request = none;
  observed_response = none;
  plotted = [];
  failures = 0;
}

try_read_incoming_messages-ends_example :
    (try_read_incoming_messages memory bridge).0 ≢ err out_of_fuel
try_read_incoming_messages-ends_example = try_read_incoming_messages-ends memory bridge

abbrev stored : List BufferRecord
stored =
    make_buffer_record narrowing contents
    ∷ record (make_buffer_record narrowing contents) { kind = local_file }
    ∷ []

observed : debugger_names stored ≡ codes "img" ∷ []
unfolding debugger_names make_buffer_record
observed = refl

abbrev asked : OidBridge
asked = record bridge { wire = frame (compose_observed stored) ∷ [] }

answered : flat asked.wire ≡ frame (compose_observed stored) ++ []
unfolding flat frame compose_observed push_names observed_names make_buffer_record push_message_type
    push_bytes push_size push_int message_value to_word32 to_bytes
answered = refl

read_message-compose_observed_example :
    (w : Wire) × (read_message memory asked
      ≡ (ok tt, record asked { wire = w; observed_response = some (debugger_names stored) }))
    × (flat w ≡ [])
read_message-compose_observed_example =
    read_message-compose_observed memory stored asked [] (rw observed (omega arith))
      (rw observed (omega arith, Affords-name, tt)) answered
