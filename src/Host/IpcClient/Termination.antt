-- ===== src/Host/IpcClient/Termination.antt =====
-- The drain loop of src/host/ipc/ipc_client.cpp, and the bytes that each message takes.
use open_image_debugger.Prelude.{
  ℕ, zero, suc, ◌≤◌, ◌<◌, ◌≡◌, ◌≢◌, refl, ◌∙◌, ap, inl, inr, Bool, true, false, Option, none, some,
  List, [], ◌∷◌, ℤ, Str, Bool-cases, arith,
}
use open_image_debugger.Ipc.BufferAssembler
use open_image_debugger.Ipc.BufferAssembler.{
  BeginParams, BeginResult, BufferAssembler, AssembledBuffer, started, refused, out_of_memory,
}
use open_image_debugger.Ipc.Execution.{
  socket_timeout, decode_error, bad_alloc, Outcome, ok, err, out_of_fuel, ◌>>=◌, >>=-ok,
}
use open_image_debugger.Ipc.Execution.Tame.{Tame, Tame-return, Tame-bind}
use open_image_debugger.Ipc.Transport.{Wire, has_data, arrived}
use open_image_debugger.Ipc.MessageExchange.{
  MessageType, Memory, Decode, MessageComposer, get_observed_symbols, set_available_symbols,
  plot_buffer_contents, apply_session_state, export_selected_buffer, plot_buffer_begin,
  plot_buffer_chunk, plot_buffer_end, read_message_type,
}
use open_image_debugger.Ipc.MessageExchange.Ends.{
  read_size-Tame, read_int-Tame, read_bool-Tame, read_buffer_type-Tame, read_message_type-Tame,
  read_bytes-Tame, read_string-Tame, read_strings-Tame, read_message_type-takes,
}
use open_image_debugger.Host.BufferModel.{BufferRecordParams}
use open_image_debugger.Host.IpcClient.{
  IpcClient, Environment, PreviousBuffer, decode, modify, report, send_guarded, request_plot,
  restore_one, restore_all, handle_set_available_symbols, handle_get_observed_symbols,
}
use open_image_debugger.Host.IpcClient.Handlers.{
  Chunk, resolve_pixel_layout, store_buffer, read_contents, plot_contents, read_begin,
  begin_outcome, begin_transfer, read_chunk, drop_transfer, chunk_outcome, take_chunk, end_outcome,
  end_transfer, handle_plot_buffer_contents, handle_plot_buffer_begin, handle_plot_buffer_chunk,
  handle_plot_buffer_end, handle_apply_session_state, handle_export_selected_buffer,
}
use open_image_debugger.Host.IpcClient.Poll.{dispatch, handle_message, caught, poll_loop, poll}

abbrev on_wire : IpcClient → ℕ
on_wire c = arrived c.wire

send_guarded-wire : (m : MessageComposer) (c : IpcClient) → (send_guarded m c).wire ≡ c.wire
unfolding send_guarded
send_guarded-wire m c = ground arith

request_plot-wire : (name : Str) (c : IpcClient) → (request_plot name c).wire ≡ c.wire
unfolding request_plot
request_plot-wire name c = send_guarded-wire _ c

restore_one-wire :
    (now : ℤ) (b : PreviousBuffer) (c : IpcClient) → (restore_one now b c).wire ≡ c.wire
unfolding restore_one
restore_one-wire now b c = ground (arith, request_plot-wire b.variable_name c)

restore_all-wire :
    (now : ℤ) (bs : List PreviousBuffer) (c : IpcClient) → (restore_all now bs c).wire ≡ c.wire
unfolding restore_all
restore_all-wire now [] c = refl
restore_all-wire now (b ∷ rest) c =
    restore_all-wire now rest (restore_one now b c) ∙ restore_one-wire now b c

store_buffer-wire :
    (env : Environment) (p : BufferRecordParams) (c : IpcClient)
    → (store_buffer env p c).wire ≡ c.wire
unfolding store_buffer resolve_pixel_layout report
store_buffer-wire env p c = ground arith

plot_contents-wire :
    (env : Environment) (p : BufferRecordParams) (c : IpcClient)
    → (plot_contents env p c).wire ≡ c.wire
unfolding plot_contents report
plot_contents-wire env p c = ground (arith, store_buffer-wire env p c)

drop_transfer-wire :
    (k : Chunk) (r : BufferAssembler × Bool) (c : IpcClient) → (drop_transfer k r c).wire ≡ c.wire
unfolding report
drop_transfer-wire k (a, true) c = refl
drop_transfer-wire k (a, false) c = refl

chunk_outcome-wire :
    (k : Chunk) (r : BufferAssembler × Bool) (c : IpcClient) → (chunk_outcome k r c).wire ≡ c.wire
chunk_outcome-wire k (a, true) c = refl
chunk_outcome-wire k (a, false) c = drop_transfer-wire k (BufferAssembler.abort a k.name) c

end_outcome-wire :
    (env : Environment) (name : Str) (was : Bool) (r : BufferAssembler × Option AssembledBuffer)
    (c : IpcClient)
    → (end_outcome env name was r c).wire ≡ c.wire
unfolding report
end_outcome-wire env name was (a, some b) c = store_buffer-wire env _ (record c { assembler = a })
end_outcome-wire env name true (a, none) c = refl
end_outcome-wire env name false (a, none) c = refl

decode-Tame : {A : Type 0} (m : Decode A) → Tame arrived m → Tame on_wire (decode m)
unfolding decode
decode-Tame m t = record { shrinks = λ c. t.shrinks c.wire; ends = λ c. t.ends c.wire }

modify-Tame :
    (f : IpcClient → IpcClient) → ((c : IpcClient) → (f c).wire ≡ c.wire) → Tame on_wire (modify f)
unfolding modify
modify-Tame f keeps = record {
  shrinks = λ c. omega (arith, ap arrived (keeps c));
  ends = λ c e. cc;
}

begin_outcome-shrinks :
    (p : BeginParams) (r : BufferAssembler × BeginResult) (c : IpcClient)
    → (arrived (begin_outcome p r c).1.wire ≤ arrived c.wire)
      × ((begin_outcome p r c).0 ≢ err out_of_fuel)
unfolding report
begin_outcome-shrinks p (a, started) c = (omega arith, λ e. cc)
begin_outcome-shrinks p (a, refused) c = (omega arith, λ e. cc)
begin_outcome-shrinks p (a, out_of_memory) c = (omega arith, λ e. cc)

begin_transfer-Tame : (env : Environment) (p : BeginParams) → Tame on_wire (begin_transfer env p)
unfolding begin_transfer
begin_transfer-Tame env p = record {
  shrinks = λ c. (begin_outcome-shrinks p _ c).0;
  ends = λ c. (begin_outcome-shrinks p _ c).1;
}

ruleset wire_reads = (
  Tame-return, Tame-bind, read_size-Tame, read_int-Tame, read_bool-Tame, read_buffer_type-Tame,
  read_bytes-Tame, read_string-Tame,
)

read_chunk-Tame : (m : Memory) → Tame arrived (read_chunk m)
unfolding read_chunk
read_chunk-Tame m = search wire_reads depth 12

read_contents-Tame : (m : Memory) → Tame arrived (read_contents m)
unfolding read_contents
read_contents-Tame m = search wire_reads depth 14

read_begin-Tame : (m : Memory) → Tame arrived (read_begin m)
unfolding read_begin
read_begin-Tame m = search wire_reads depth 14

end_transfer-wire :
    (env : Environment) (name : Str) (c : IpcClient) → (end_transfer env name c).wire ≡ c.wire
unfolding end_transfer
end_transfer-wire env name c = end_outcome-wire env name _ (BufferAssembler.end c.assembler name) c

take_chunk-wire : (k : Chunk) (c : IpcClient) → (take_chunk k c).wire ≡ c.wire
unfolding take_chunk
take_chunk-wire k c = chunk_outcome-wire k _ c

-- A handler that decodes a value and then changes the state.
decode-modify-Tame :
    {A : Type 0} (m : Decode A) (f : A → IpcClient → IpcClient)
    → Tame arrived m
    → ((a : A) (c : IpcClient) → (f a c).wire ≡ c.wire)
    → Tame on_wire (do a ← decode m; modify (f a))
decode-modify-Tame m f t keeps =
    Tame-bind (decode m) (λ a. modify (f a)) (decode-Tame m t) λ a. modify-Tame (f a) (keeps a)

dispatch-Tame : (env : Environment) (t : MessageType) → Tame on_wire (dispatch env t)
unfolding dispatch handle_set_available_symbols handle_get_observed_symbols
    handle_plot_buffer_contents handle_plot_buffer_begin handle_plot_buffer_chunk
    handle_plot_buffer_end handle_apply_session_state handle_export_selected_buffer
dispatch-Tame env set_available_symbols =
    decode-modify-Tame _ _ (read_strings-Tame env.memory) λ symbols c.
      restore_all-wire env.now c.restore_buffers (record c { available_symbols = symbols })
dispatch-Tame env get_observed_symbols = modify-Tame _ λ c. send_guarded-wire _ c
dispatch-Tame env plot_buffer_contents =
    decode-modify-Tame _ _ (read_contents-Tame env.memory) (plot_contents-wire env)
dispatch-Tame env plot_buffer_begin =
    Tame-bind (decode (read_begin env.memory)) (begin_transfer env)
      (decode-Tame _ (read_begin-Tame env.memory)) (begin_transfer-Tame env)
dispatch-Tame env plot_buffer_chunk =
    decode-modify-Tame _ _ (read_chunk-Tame env.memory) take_chunk-wire
dispatch-Tame env plot_buffer_end =
    decode-modify-Tame _ _ (read_string-Tame env.memory) (end_transfer-wire env)
dispatch-Tame env apply_session_state =
    decode-modify-Tame _ _ (read_string-Tame env.memory) λ json c. refl
dispatch-Tame env export_selected_buffer = modify-Tame _ λ c. refl
dispatch-Tame env _ = Tame-return tt

pub handle_message-Tame : (env : Environment) → Tame on_wire (handle_message env)
unfolding handle_message
handle_message-Tame env =
    Tame-bind (decode read_message_type) (dispatch env)
      (decode-Tame read_message_type read_message_type-Tame) (dispatch-Tame env)

-- A message that was handled without a throw has left the wire.
handle_message-takes :
    (env : Environment) (c : IpcClient)
    → (handle_message env c).0 ≡ ok tt
    → arrived (handle_message env c).1.wire < arrived c.wire
unfolding handle_message decode
handle_message-takes env c h =
    let (t, header, run) = >>=-ok (decode read_message_type) (dispatch env) c h in
    rw run (
      omega (
        arith,
        read_message_type-takes t c.wire header,
        (dispatch-Tame env t).shrinks (decode read_message_type c).1,
      ))

arrived-has_data : (w : Wire) → arrived w ≡ 0 → has_data w ≡ false
unfolding arrived has_data
arrived-has_data [] h = refl
arrived-has_data ([] ∷ rest) h = refl
arrived-has_data ((b ∷ bs) ∷ rest) h = absurd (omega arith)

-- The rest of the loop behind one message.
abbrev pub after_message :
    (fuel : ℕ) → Environment → Outcome (Unit {0}) → IpcClient → Outcome (Unit {0}) × IpcClient
after_message fuel env (ok _) c = poll_loop fuel env c
after_message fuel env (err fault) c = caught fault c

pub poll_loop_step :
    (fuel : ℕ) (env : Environment) (c : IpcClient)
    → has_data c.wire ≡ true
    → poll_loop (suc fuel) env c
      ≡ after_message fuel env (handle_message env c).0 (handle_message env c).1
unfolding poll_loop
poll_loop_step fuel env c more = rw more (ground arith)

after_message-ends :
    (fuel : ℕ) (env : Environment) (r : Outcome (Unit {0})) (c : IpcClient)
    → r ≢ err out_of_fuel
    → (r ≡ ok tt → (poll_loop fuel env c).0 ≡ ok tt)
    → (after_message fuel env r c).0 ≡ ok tt
after_message-ends fuel env (ok tt) c h k = k refl
after_message-ends fuel env (err socket_timeout) c h k = refl
after_message-ends fuel env (err decode_error) c h k = refl
after_message-ends fuel env (err bad_alloc) c h k = refl
after_message-ends fuel env (err out_of_fuel) c h k = absurd (h refl)

poll_loop-ends :
    (fuel : ℕ) (env : Environment) (c : IpcClient)
    → arrived c.wire ≤ fuel
    → (poll_loop fuel env c).0 ≡ ok tt
unfolding poll_loop
poll_loop-ends zero env c h = rw (arrived-has_data c.wire (omega arith)) refl
poll_loop-ends (suc fuel) env c h = elim (Bool-cases (has_data c.wire)) [
  | inr empty ↦ rw empty refl
  | inl more ↦ rw (poll_loop_step fuel env c more) (
      after_message-ends fuel env (handle_message env c).0 (handle_message env c).1
        ((handle_message-Tame env).ends c)
        (λ done.
          poll_loop-ends fuel env (handle_message env c).1
            (omega (arith, handle_message-takes env c done))))
]

-- poll returns normally on every state and every input: the bytes that have arrived are fuel
-- enough for its loop, and no exception leaves it.
pub poll-ends : (env : Environment) (c : IpcClient) → (poll env c).0 ≡ ok tt
unfolding poll
poll-ends env c = poll_loop-ends (arrived c.wire) env c (omega arith)
