-- ===== src/Host/IpcClient/Poll.antt =====
-- src/host/ipc/ipc_client.cpp: the dispatch on the message type, and the drain loop.
use open_image_debugger.Prelude.{ℕ, zero, suc, if◌then◌else◌}
use open_image_debugger.Ipc.Execution.{
  Fault, bad_alloc, out_of_fuel, socket_timeout, decode_error, Outcome, ok, err, return, ◌>>=◌,
}
use open_image_debugger.Ipc.Transport.{has_data, arrived}
use open_image_debugger.Ipc.MessageExchange.{
  MessageType, get_observed_symbols, set_available_symbols, plot_buffer_contents,
  apply_session_state, export_selected_buffer, plot_buffer_begin, plot_buffer_chunk,
  plot_buffer_end, read_message_type,
}
use open_image_debugger.Host.IpcClient.Diagnostics.{no_memory}
use open_image_debugger.Host.IpcClient.{
  IpcClient, Environment, Handler, decode, report, handle_set_available_symbols,
  handle_get_observed_symbols,
}
use open_image_debugger.Host.IpcClient.Handlers.{
  handle_plot_buffer_contents, handle_plot_buffer_begin, handle_plot_buffer_chunk,
  handle_plot_buffer_end, handle_apply_session_state, handle_export_selected_buffer,
}

-- The types that only the viewer sends, and unknown ones, are ignored.
unfoldable pub dispatch : Environment → MessageType → Handler (Unit {0})
dispatch env set_available_symbols = handle_set_available_symbols env
dispatch env get_observed_symbols = handle_get_observed_symbols
dispatch env plot_buffer_contents = handle_plot_buffer_contents env
dispatch env plot_buffer_begin = handle_plot_buffer_begin env
dispatch env plot_buffer_chunk = handle_plot_buffer_chunk env
dispatch env plot_buffer_end = handle_plot_buffer_end env
dispatch env apply_session_state = handle_apply_session_state env
dispatch env export_selected_buffer = handle_export_selected_buffer
dispatch env _ = return tt

-- The body of the `try`.
unfoldable pub handle_message : Environment → Handler (Unit {0})
handle_message env = do header ← decode read_message_type; dispatch env header

-- The `catch` clauses, each of which returns from `poll`.
abbrev pub caught : Fault → IpcClient → Outcome (Unit {0}) × IpcClient
caught bad_alloc c = (ok tt, report no_memory c)
caught out_of_fuel c = (err out_of_fuel, c)
caught socket_timeout c = (ok tt, c)
caught decode_error c = (ok tt, c)

unfoldable pub poll_loop : (fuel : ℕ) → Environment → Handler (Unit {0})
poll_loop zero env c = if has_data c.wire then (err out_of_fuel, c) else (ok tt, c)
poll_loop (suc fuel) env c =
    if has_data c.wire
    then (let (r, c') = handle_message env c in
        elim r [ ok _ ↦ poll_loop fuel env c' | err fault ↦ caught fault c' ])
    else (ok tt, c)

-- A message has a header of four bytes, so there are fewer rounds than bytes.
unfoldable pub poll : Environment → Handler (Unit {0})
poll env c = poll_loop (arrived c.wire) env c
