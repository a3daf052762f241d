-- ===== src/Ipc/MessageExchange/Ends.antt =====
-- The reads of src/ipc/message_exchange.h, and what they take off the wire.
use open_image_debugger.Prelude.{
  ℕ, zero, suc, ◌-◌, ◌≤◌, ◌<◌, ◌≡◌, List, [], ◌∷◌, ◌++◌, length, arith,
}
use open_image_debugger.Ipc.Execution.{ok, return, >>=-ok}
use open_image_debugger.Ipc.Execution.Tame.{Tame, tame_rules, Tame-return, Tame-bind}
use open_image_debugger.Ipc.Transport.{Wire, receive, arrived, receive-arrived}
use open_image_debugger.Ipc.Words.{from_bytes, from_word32}
use open_image_debugger.Ipc.MessageExchange.{
  message_type, MessageType, Memory, read_loop, read_impl, read_size, read_int, read_bool,
  read_message_type, read_buffer_type, resize, require, read_bytes, read_string, read_each,
  read_strings,
}
use open_image_debugger.Ipc.MessageExchange.Reading.{read_loop-ends}

read_loop-shrinks :
    (fuel remaining : ℕ) (acc : List ℕ) (w : Wire)
    → arrived (read_loop fuel remaining acc w).1 ≤ arrived w
unfolding read_loop
read_loop-shrinks zero remaining acc w = ground arith
read_loop-shrinks (suc fuel) remaining acc w =
    let got = (receive remaining w).0 in
    ground (
      arith,
      receive-arrived remaining w,
      read_loop-shrinks fuel (remaining - length got) (acc ++ got) (receive remaining w).1,
    )

-- A read that succeeds has taken something, if there was something to read.
read_loop-takes :
    (fuel remaining : ℕ) (acc out : List ℕ) (w : Wire)
    → 0 < remaining
    → (read_loop fuel remaining acc w).0 ≡ ok out
    → arrived (read_loop fuel remaining acc w).1 < arrived w
unfolding read_loop
read_loop-takes zero remaining acc out w h e = ground arith
read_loop-takes (suc fuel) remaining acc out w h e =
    let got = (receive remaining w).0 in
    ground (
      arith,
      receive-arrived remaining w,
      read_loop-shrinks fuel (remaining - length got) (acc ++ got) (receive remaining w).1,
    )

pub read_impl-Tame : (n : ℕ) → Tame arrived (read_impl n)
unfolding read_impl
read_impl-Tame n = record {
  shrinks = λ w. read_loop-shrinks n n [] w;
  ends = λ w. read_loop-ends n n [] w (omega arith);
}

ruleset reads = (tame_rules, read_impl-Tame)

pub read_size-Tame : Tame arrived read_size
unfolding read_size
read_size-Tame = search reads

pub read_int-Tame : Tame arrived read_int
unfolding read_int
read_int-Tame = search reads

pub read_bool-Tame : Tame arrived read_bool
unfolding read_bool
read_bool-Tame = search reads

pub read_buffer_type-Tame : Tame arrived read_buffer_type
unfolding read_buffer_type
read_buffer_type-Tame = search (reads, read_int-Tame)

pub read_message_type-Tame : Tame arrived read_message_type
unfolding read_message_type
read_message_type-Tame = search (reads, read_int-Tame)

pub read_bytes-Tame : (m : Memory) → Tame arrived (read_bytes m)
unfolding read_bytes require resize
read_bytes-Tame m = search (reads, read_size-Tame) depth 8

pub read_string-Tame : (m : Memory) → Tame arrived (read_string m)
unfolding read_string require resize
read_string-Tame m = search (reads, read_size-Tame) depth 8

read_each-Tame : (m : Memory) (count : ℕ) → Tame arrived (read_each m count)
unfolding read_each
read_each-Tame m zero = Tame-return []
read_each-Tame m (suc count) =
    Tame-bind (read_string m) _ (read_string-Tame m)
      λ s. Tame-bind (read_each m count) _ (read_each-Tame m count) λ rest. Tame-return (s ∷ rest)

pub read_strings-Tame : (m : Memory) → Tame arrived (read_strings m)
unfolding read_strings
read_strings-Tame m = Tame-bind read_size _ read_size-Tame λ n. read_each-Tame m _

-- A header that was read has left the wire.
pub read_message_type-takes :
    (t : MessageType) (w : Wire)
    → (read_message_type w).0 ≡ ok t
    → arrived (read_message_type w).1 < arrived w
unfolding read_message_type read_int read_impl return
read_message_type-takes t w e =
    let (n, there, run) = >>=-ok read_int (λ n. return (message_type n)) w e in
    let (out, read, run') =
      >>=-ok (read_impl 4) (λ b. return (from_word32 (from_bytes b))) w there in
    rw (run, run') (read_loop-takes 4 4 [] out w (omega arith) read)
