-- ===== src/Host/IpcClient/PollSafety.antt =====
-- The dispatch and the drain loop of src/host/ipc/ipc_client.cpp, and the safety of the state.
use open_image_debugger.Prelude.{
  ℕ, zero, suc, ◌≡◌, inl, inr, List, [], ◌∷◌, ℤ, IsI32, Bool-cases, arith,
}
use open_image_debugger.Ipc.BufferAssembler.{BeginParams, begin}
use open_image_debugger.Ipc.BufferAssembler.Invariant.{begin-AllSound}
use open_image_debugger.Ipc.Execution.{
  Fault, socket_timeout, decode_error, bad_alloc, out_of_fuel, Outcome, ok, err, ◌>>=◌,
}
use open_image_debugger.Ipc.Execution.Ensures.{
  Ensures, Ensures-any, Keeps, Keeps-return, Keeps-bind,
}
use open_image_debugger.Ipc.Transport.{has_data, arrived}
use open_image_debugger.Ipc.MessageExchange.{
  MessageType, MessageComposer, Decode, get_observed_symbols, set_available_symbols,
  plot_buffer_contents, apply_session_state, export_selected_buffer, plot_buffer_begin,
  plot_buffer_chunk, plot_buffer_end, read_message_type, read_string, read_strings,
  plot_buffer_request, push_bytes, push_message_type,
}
use open_image_debugger.Host.IpcClient.{
  IpcClient, Environment, PreviousBuffer, decode, modify, send_guarded, request_plot, restore_one,
  restore_all, handle_set_available_symbols, handle_get_observed_symbols,
}
use open_image_debugger.Host.IpcClient.Handlers.{
  read_contents, read_begin, read_chunk, plot_contents, begin_transfer, take_chunk, end_transfer,
  handle_plot_buffer_contents, handle_plot_buffer_begin, handle_plot_buffer_chunk,
  handle_plot_buffer_end, handle_apply_session_state, handle_export_selected_buffer,
}
use open_image_debugger.Host.IpcClient.Poll.{dispatch, handle_message, caught, poll_loop, poll}
use open_image_debugger.Host.IpcClient.Termination.{after_message, poll_loop_step}
use open_image_debugger.Host.IpcClient.Safety.{
  IsSafe, IsDecoded, plot_contents-IsSafe, report-IsSafe,
}
use open_image_debugger.Host.IpcClient.HandlerSafety.{
  take_chunk-IsSafe, end_transfer-IsSafe, begin_outcome-IsSafe, read_contents-IsDecoded,
  read_begin-stride,
}

-- Safety is about the model and the assembler.
carried :
    {c d : IpcClient} → (d.model ≡ c.model) × (d.assembler ≡ c.assembler) → IsSafe c → IsSafe d
carried (same, table) v = record { transfers = rw table v.transfers; records = rw same v.records }

-- Sending leaves the model and the assembler alone.
send_guarded_kept :
    (m : MessageComposer) (c : IpcClient)
    → ((send_guarded m c).model ≡ c.model) × ((send_guarded m c).assembler ≡ c.assembler)
unfolding send_guarded
send_guarded_kept m c = ground arith

send_guarded-IsSafe : (m : MessageComposer) (c : IpcClient) → IsSafe c → IsSafe (send_guarded m c)
send_guarded-IsSafe m c v = carried (send_guarded_kept m c) v

restore_one_kept :
    (now : ℤ) (b : PreviousBuffer) (c : IpcClient)
    → ((restore_one now b c).model ≡ c.model) × ((restore_one now b c).assembler ≡ c.assembler)
unfolding restore_one request_plot
restore_one_kept now b c = ground (
  arith,
  send_guarded_kept (push_bytes b.variable_name (push_message_type plot_buffer_request [])) c,
)

restore_one-IsSafe :
    (now : ℤ) (b : PreviousBuffer) (c : IpcClient) → IsSafe c → IsSafe (restore_one now b c)
restore_one-IsSafe now b c v = carried (restore_one_kept now b c) v

restore_all-IsSafe :
    (now : ℤ) (bs : List PreviousBuffer) (c : IpcClient) → IsSafe c → IsSafe (restore_all now bs c)
unfolding restore_all
restore_all-IsSafe now [] c v = v
restore_all-IsSafe now (b ∷ rest) c v =
    restore_all-IsSafe now rest (restore_one now b c) (restore_one-IsSafe now b c v)

decode-IsSafe : {A : Type 0} (m : Decode A) → Keeps IsSafe (decode m)
unfolding decode
decode-IsSafe m = record { at = λ c v. record { transfers = v.transfers; records = v.records } }

decode-Ensures : {A : Type 0} (m : Decode A) (Q : A → Type 0) → Ensures m Q → Ensures (decode m) Q
unfolding decode
decode-Ensures m Q e = record { at = λ c a h. e.at c.wire a h }

modify-IsSafe :
    (f : IpcClient → IpcClient)
    → ((c : IpcClient) → IsSafe c → IsSafe (f c))
    → Keeps IsSafe (modify f)
unfolding modify
modify-IsSafe f k = record { at = k }

-- A handler that decodes a value and then changes the state.
decode-modify-IsSafe :
    {A : Type 0} (m : Decode A) (Q : A → Type 0) (f : A → IpcClient → IpcClient)
    → Ensures m Q
    → ((a : A) (c : IpcClient) → Q a → IsSafe c → IsSafe (f a c))
    → Keeps IsSafe (do a ← decode m; modify (f a))
decode-modify-IsSafe m Q f e k =
    Keeps-bind (decode m) (λ a. modify (f a)) Q (decode-IsSafe m) (decode-Ensures m Q e)
      λ a q. modify-IsSafe (f a) (λ c v. k a c q v)

begin_transfer-IsSafe :
    (env : Environment) (p : BeginParams) → IsI32 p.stride → Keeps IsSafe (begin_transfer env p)
unfolding begin_transfer
begin_transfer-IsSafe env p si = record {
  at = λ c v.
      begin_outcome-IsSafe p (begin env.memory.allocates c.assembler p) c
        (begin-AllSound env.memory.allocates c.assembler p si v.transfers) v;
}

dispatch-IsSafe : (env : Environment) (t : MessageType) → Keeps IsSafe (dispatch env t)
unfolding dispatch handle_set_available_symbols handle_get_observed_symbols
    handle_plot_buffer_contents handle_plot_buffer_begin handle_plot_buffer_chunk
    handle_plot_buffer_end handle_apply_session_state handle_export_selected_buffer
dispatch-IsSafe env set_available_symbols =
    decode-modify-IsSafe (read_strings env.memory) (λ a. Unit) _ (Ensures-any _)
      λ symbols c u v.
        restore_all-IsSafe env.now c.restore_buffers (record c { available_symbols = symbols })
          (record { transfers = v.transfers; records = v.records })
dispatch-IsSafe env get_observed_symbols = modify-IsSafe _ λ c v. send_guarded-IsSafe _ c v
dispatch-IsSafe env plot_buffer_contents =
    decode-modify-IsSafe (read_contents env.memory) IsDecoded (plot_contents env)
      (read_contents-IsDecoded env.memory) λ p c d v. plot_contents-IsSafe env p c d v
dispatch-IsSafe env plot_buffer_begin =
    Keeps-bind (decode (read_begin env.memory)) (begin_transfer env) (λ p. IsI32 p.stride)
      (decode-IsSafe _) (decode-Ensures _ _ (read_begin-stride env.memory))
      λ p si. begin_transfer-IsSafe env p si
dispatch-IsSafe env plot_buffer_chunk =
    decode-modify-IsSafe (read_chunk env.memory) (λ a. Unit) take_chunk (Ensures-any _)
      λ k c u v. take_chunk-IsSafe k c v
dispatch-IsSafe env plot_buffer_end =
    decode-modify-IsSafe (read_string env.memory) (λ a. Unit) (end_transfer env) (Ensures-any _)
      λ name c u v. end_transfer-IsSafe env name c v
dispatch-IsSafe env apply_session_state =
    decode-modify-IsSafe (read_string env.memory) (λ a. Unit) _ (Ensures-any _)
      λ json c u v. record { transfers = v.transfers; records = v.records }
dispatch-IsSafe env export_selected_buffer =
    modify-IsSafe _ λ c v. record { transfers = v.transfers; records = v.records }
dispatch-IsSafe env _ = Keeps-return tt

handle_message-IsSafe : (env : Environment) → Keeps IsSafe (handle_message env)
unfolding handle_message
handle_message-IsSafe env =
    Keeps-bind (decode read_message_type) (dispatch env) (λ t. Unit) (decode-IsSafe _)
      (Ensures-any _) λ t u. dispatch-IsSafe env t

caught-IsSafe : (f : Fault) (c : IpcClient) → IsSafe c → IsSafe (caught f c).1
caught-IsSafe bad_alloc c v = report-IsSafe _ c v
caught-IsSafe out_of_fuel c v = v
caught-IsSafe socket_timeout c v = v
caught-IsSafe decode_error c v = v

after-IsSafe :
    (fuel : ℕ) (env : Environment) (r : Outcome (Unit {0})) (c : IpcClient)
    → IsSafe (poll_loop fuel env c).1
    → IsSafe c
    → IsSafe (after_message fuel env r c).1
after-IsSafe fuel env (ok _) c k v = k
after-IsSafe fuel env (err fault) c k v = caught-IsSafe fault c v

poll_loop-IsSafe :
    (fuel : ℕ) (env : Environment) (c : IpcClient) → IsSafe c → IsSafe (poll_loop fuel env c).1
unfolding poll_loop
poll_loop-IsSafe zero env c v = elim (Bool-cases (has_data c.wire)) [
  | inl more ↦ rw more v
  | inr empty ↦ rw empty v
]
poll_loop-IsSafe (suc fuel) env c v = elim (Bool-cases (has_data c.wire)) [
  | inr empty ↦ rw empty v
  | inl more ↦
      let next : IsSafe (handle_message env c).1 = (handle_message-IsSafe env).at c v in
      rw (poll_loop_step fuel env c more) (
        after-IsSafe fuel env (handle_message env c).0 (handle_message env c).1
          (poll_loop-IsSafe fuel env (handle_message env c).1 next) next)
]

-- If the transfers in flight are sound and every record that is not a local file can be drawn
-- (known type, shape within the display limits, bytes that cover what drawing reads, a valid pixel
-- layout or one channel), both still hold after poll, whatever bytes have arrived, however they
-- are cut, and wherever a decoding or an allocation fails.
pub poll-IsSafe : (env : Environment) (c : IpcClient) → IsSafe c → IsSafe (poll env c).1
unfolding poll
poll-IsSafe env c v = poll_loop-IsSafe (arrived c.wire) env c v
