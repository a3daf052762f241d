-- ===== src/Bridge/Ends.antt =====
-- The reading loop of src/oidbridge/oid_bridge.cpp, and the bytes that each message takes.
use open_image_debugger.Prelude.{
  ℕ, zero, suc, ◌<◌, ◌≡◌, ◌≢◌, refl, ap, inl, inr, Bool, true, false, not, ◌&&◌, Bool-cases, arith,
}
use open_image_debugger.Ipc.Execution.{
  socket_timeout, decode_error, bad_alloc, out_of_fuel, Outcome, ok, err, >>=-ok,
}
use open_image_debugger.Ipc.Execution.Tame.{Tame, Tame-return, Tame-bind}
use open_image_debugger.Ipc.Transport.{has_data, arrived}
use open_image_debugger.Ipc.MessageExchange.{
  MessageType, Memory, Decode, plot_buffer_request, get_observed_symbols_response, buffer_removed,
  read_message_type, read_string, read_strings,
}
use open_image_debugger.Ipc.MessageExchange.Ends.{
  read_message_type-Tame, read_string-Tame, read_strings-Tame, read_message_type-takes,
}
use open_image_debugger.Bridge.{
  OidBridge, decode, modify, report, store_message, read_message, caught, read_incoming,
  try_read_incoming_messages,
}

abbrev on_wire : OidBridge → ℕ
on_wire b = arrived b.wire

decode-Tame : {A : Type 0} (m : Decode A) → Tame arrived m → Tame on_wire (decode m)
unfolding decode
decode-Tame m t = record { shrinks = λ b. t.shrinks b.wire; ends = λ b. t.ends b.wire }

modify-Tame :
    (f : OidBridge → OidBridge) → ((b : OidBridge) → (f b).wire ≡ b.wire) → Tame on_wire (modify f)
unfolding modify
modify-Tame f keeps = record {
  shrinks = λ b. omega (arith, ap arrived (keeps b));
  ends = λ b e. cc;
}

store_message-Tame : (m : Memory) (t : MessageType) → Tame on_wire (store_message m t)
unfolding store_message report
store_message-Tame m plot_buffer_request =
    Tame-bind (decode (read_string m)) _ (decode-Tame _ (read_string-Tame m))
      λ name. modify-Tame _ λ b. refl
store_message-Tame m get_observed_symbols_response =
    Tame-bind (decode (read_strings m)) _ (decode-Tame _ (read_strings-Tame m))
      λ symbols. modify-Tame _ λ b. refl
store_message-Tame m buffer_removed =
    Tame-bind (decode (read_string m)) _ (decode-Tame _ (read_string-Tame m))
      λ removed. Tame-return tt
store_message-Tame m _ = modify-Tame _ λ b. refl

read_message-Tame : (m : Memory) → Tame on_wire (read_message m)
unfolding read_message
read_message-Tame m =
    Tame-bind (decode read_message_type) (store_message m)
      (decode-Tame read_message_type read_message_type-Tame) (store_message-Tame m)

read_message-takes :
    (m : Memory) (b : OidBridge)
    → (read_message m b).0 ≡ ok tt
    → arrived (read_message m b).1.wire < arrived b.wire
unfolding read_message decode
read_message-takes m b h =
    let (t, header, run) = >>=-ok (decode read_message_type) (store_message m) b h in
    rw run (
      omega (
        arith,
        read_message_type-takes t b.wire header,
        (store_message-Tame m t).shrinks (decode read_message_type b).1,
      ))

-- The rest of the loop behind one message.
abbrev after_message :
    (fuel : ℕ) → Memory → Outcome (Unit {0}) → OidBridge → Outcome (Unit {0}) × OidBridge
after_message fuel m (ok _) b = read_incoming fuel m false b
after_message fuel m (err fault) b = caught fault b

read_incoming_step :
    (fuel : ℕ) (m : Memory) (first : Bool) (b : OidBridge)
    → (not first && not (has_data b.wire)) ≡ false
    → read_incoming (suc fuel) m first b
      ≡ after_message fuel m (read_message m b).0 (read_message m b).1
unfolding read_incoming
read_incoming_step fuel m first b more = rw more (ground arith)

after_message-ends :
    (fuel : ℕ) (m : Memory) (r : Outcome (Unit {0})) (b : OidBridge)
    → r ≢ err out_of_fuel
    → (r ≡ ok tt → (read_incoming fuel m false b).0 ≢ err out_of_fuel)
    → (after_message fuel m r b).0 ≢ err out_of_fuel
after_message-ends fuel m (ok tt) b h k = k refl
after_message-ends fuel m (err socket_timeout) b h k = λ e. cc
after_message-ends fuel m (err decode_error) b h k = λ e. cc
after_message-ends fuel m (err bad_alloc) b h k = λ e. cc
after_message-ends fuel m (err out_of_fuel) b h k = h

read_incoming-ends :
    (fuel : ℕ) (m : Memory) (first : Bool) (b : OidBridge)
    → arrived b.wire < fuel
    → (read_incoming fuel m first b).0 ≢ err out_of_fuel
unfolding read_incoming
read_incoming-ends zero m first b h = absurd (omega arith)
read_incoming-ends (suc fuel) m first b h = elim (Bool-cases (not first && not (has_data b.wire))) [
  | inl stop ↦ rw stop (λ e. cc)
  | inr more ↦ rw (read_incoming_step fuel m first b more) (
      after_message-ends fuel m (read_message m b).0 (read_message m b).1
        ((read_message-Tame m).ends b)
        (λ done.
          read_incoming-ends fuel m false (read_message m b).1
            (omega (arith, read_message-takes m b done))))
]

-- The reading loop of the bridge never runs out of fuel, whatever has arrived: it ends by itself.
pub try_read_incoming_messages-ends :
    (m : Memory) (b : OidBridge) → (try_read_incoming_messages m b).0 ≢ err out_of_fuel
unfolding try_read_incoming_messages
try_read_incoming_messages-ends m b =
    read_incoming-ends (suc (arrived b.wire)) m true b (omega arith)
