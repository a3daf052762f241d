-- ===== src/Ipc/MessageExchange.antt =====
-- src/ipc/message_exchange.h: message types, the composer and the decoder.
-- A `Memory` stands for the allocator of the process: which sizes it can give, and the largest size
-- that a container can have.
pub mod Reading
pub mod RoundTrip
pub mod Ends
pub mod Frames
use open_image_debugger.Prelude.{
  ℕ, zero, suc, ◌+◌, ◌-◌, ◌*◌, ◌%◌, ◌^◌, ◌≡◌, Bool, true, false, not, List, [], ◌∷◌, ◌++◌, ltb,
  ◌==◌, if◌then◌else◌, ℤ, pos, pos_part, eqb_ℤ, length, Str,
}
use open_image_debugger.Ipc.RawDataDecode.{
  BufferType, buffer_type, type_value, exceeds_max_buffer_bytes,
}
use open_image_debugger.Ipc.Execution.{
  Fault, socket_timeout, decode_error, bad_alloc, out_of_fuel, Outcome, ok, err, Exec, return,
  throw, ◌>>=◌, ◌>>◌,
}
use open_image_debugger.Ipc.Transport.{Wire, receive}
use open_image_debugger.Ipc.Words.{to_bytes, from_bytes, to_word32, from_word32}

pub data MessageType : Type 0 where
  get_observed_symbols get_observed_symbols_response set_available_symbols : MessageType
  plot_buffer_contents plot_buffer_request export_buffer_request : MessageType
  apply_session_state session_state_changed export_selected_buffer : MessageType
  buffer_removed plot_buffer_begin plot_buffer_chunk plot_buffer_end : MessageType
  unknown : ℤ → MessageType

unfoldable pub message_value : MessageType → ℤ
message_value get_observed_symbols = pos 0
message_value get_observed_symbols_response = pos 1
message_value set_available_symbols = pos 2
message_value plot_buffer_contents = pos 3
message_value plot_buffer_request = pos 4
message_value export_buffer_request = pos 5
message_value apply_session_state = pos 6
message_value session_state_changed = pos 7
message_value export_selected_buffer = pos 8
message_value buffer_removed = pos 9
message_value plot_buffer_begin = pos 10
message_value plot_buffer_chunk = pos 11
message_value plot_buffer_end = pos 12
message_value (unknown n) = n

unfoldable pub message_type : ℤ → MessageType
message_type n =
    if eqb_ℤ n (pos 0)
    then get_observed_symbols
    else if eqb_ℤ n (pos 1)
    then get_observed_symbols_response
    else if eqb_ℤ n (pos 2)
    then set_available_symbols
    else if eqb_ℤ n (pos 3)
    then plot_buffer_contents
    else if eqb_ℤ n (pos 4)
    then plot_buffer_request
    else if eqb_ℤ n (pos 5)
    then export_buffer_request
    else if eqb_ℤ n (pos 6)
    then apply_session_state
    else if eqb_ℤ n (pos 7)
    then session_state_changed
    else if eqb_ℤ n (pos 8)
    then export_selected_buffer
    else if eqb_ℤ n (pos 9)
    then buffer_removed
    else if eqb_ℤ n (pos 10)
    then plot_buffer_begin
    else if eqb_ℤ n (pos 11)
    then plot_buffer_chunk
    else if eqb_ℤ n (pos 12)
    then plot_buffer_end
    else unknown n

abbrev pub max_string_bytes : ℕ
max_string_bytes = 16 * 1024 * 1024

-- The composer is the sequence of its blocks.
abbrev pub MessageComposer : Type 0
MessageComposer = List (List ℕ)

unfoldable pub push_int : ℤ → MessageComposer → MessageComposer
push_int n c = c ++ to_bytes 4 (to_word32 n) ∷ []

unfoldable pub push_size : ℕ → MessageComposer → MessageComposer
push_size n c = c ++ to_bytes 8 n ∷ []

unfoldable pub push_bool : Bool → MessageComposer → MessageComposer
push_bool b c = c ++ (if b then 1 ∷ [] else 0 ∷ []) ∷ []

unfoldable pub push_message_type : MessageType → MessageComposer → MessageComposer
unfolding push_int
push_message_type t c = push_int (message_value t) c

unfoldable pub push_buffer_type : BufferType → MessageComposer → MessageComposer
unfolding push_int
push_buffer_type t c = push_int (type_value t) c

-- A `float` is pushed as its four bytes.
unfoldable pub push_float : List ℕ → MessageComposer → MessageComposer
push_float f c = c ++ f ∷ []

-- `push(const std::string&)` and `push(std::span<const std::byte>)`: the size, then the bytes.
unfoldable pub push_bytes : List ℕ → MessageComposer → MessageComposer
unfolding push_size
push_bytes s c = push_size (length s) c ++ s ∷ []

push_each : List Str → MessageComposer → MessageComposer
push_each [] c = c
push_each (s ∷ rest) c = push_each rest (push_bytes s c)

-- `push(const std::deque<std::string>&)`.
unfoldable pub push_strings : List Str → MessageComposer → MessageComposer
unfolding push_each push_size
push_strings ss c = push_each ss (push_size (length ss) c)

unfoldable pub clear : MessageComposer → MessageComposer
clear c = []

-- The frame that `send` hands to the transport.
unfoldable pub frame : MessageComposer → List ℕ
frame [] = []
frame (block ∷ rest) = block ++ frame rest

pub record Memory : Type 0 where
  pub allocates : ℕ → Bool
  pub max_size : ℕ

abbrev pub Decode : Type 0 → Type 0
Decode = Exec Wire

-- The loop of `read_impl`: `acc` is what has been read, `remaining` what is missing.
unfoldable pub read_loop : (fuel remaining : ℕ) → (acc : List ℕ) → Decode (List ℕ)
read_loop zero remaining acc w = if remaining == 0 then (ok acc, w) else (err out_of_fuel, w)
read_loop (suc fuel) remaining acc w =
    let (got, w') = receive remaining w in
    if remaining == 0 then (ok acc, w) else (elim (length got == 0) [
      | true ↦ (err socket_timeout, w')
      | false ↦ read_loop fuel (remaining - length got) (acc ++ got) w'
    ])

-- Every round but the last reads a byte, so the size is fuel enough.
unfoldable pub read_impl : (size : ℕ) → Decode (List ℕ)
read_impl n w = read_loop n n [] w

unfoldable pub read_size : Decode ℕ
read_size = do bytes ← read_impl 8; return (from_bytes bytes)

unfoldable pub read_int : Decode ℤ
read_int = do bytes ← read_impl 4; return (from_word32 (from_bytes bytes))

unfoldable pub read_bool : Decode Bool
read_bool = do bytes ← read_impl 1; return (not (from_bytes bytes == 0))

unfoldable pub read_message_type : Decode MessageType
read_message_type = do n ← read_int; return (message_type n)

unfoldable pub read_buffer_type : Decode BufferType
read_buffer_type = do n ← read_int; return (buffer_type n)

-- `resize(n)`, which throws `std::bad_alloc` where the memory is not there.
unfoldable pub resize : Memory → ℕ → Decode (Unit {0})
resize m n = if m.allocates n then return tt else throw bad_alloc

unfoldable pub require : Bool → Decode (Unit {0})
require b = if b then return tt else throw decode_error

-- `read(std::vector<std::byte>&)`.
unfoldable pub read_bytes : Memory → Decode (List ℕ)
read_bytes m = do
  size ← read_size
  require (not (exceeds_max_buffer_bytes size))
  require (not (ltb m.max_size size))
  resize m size
  read_impl size

-- `read(std::string&)`.
unfoldable pub read_string : Memory → Decode Str
read_string m = do
  size ← read_size
  require (not (ltb max_string_bytes size))
  require (not (ltb m.max_size size))
  resize m size
  read_impl size

unfoldable pub read_each : Memory → (count : ℕ) → Decode (List Str)
read_each m zero = return []
read_each m (suc count) = do s ← read_string m; rest ← read_each m count; return (s ∷ rest)

-- `read(StringContainer&)`: the loop counts to `static_cast<int>(number_symbols)`.
unfoldable pub read_strings : Memory → Decode (List Str)
read_strings m = do number ← read_size; read_each m (pos_part (from_word32 number))
