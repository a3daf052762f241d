-- ===== src/Ipc/MessageExchange/Frames.antt =====
-- src/ipc/message_exchange.h: composing whole values on one side and decoding them on the other.
use open_image_debugger.Prelude.{ℕ, ◌^◌, ◌≤◌, ◌<◌, List, [], length, Str}
use open_image_debugger.Ipc.RawDataDecode.{max_buffer_bytes}
use open_image_debugger.Ipc.MessageExchange.{
  Memory, push_bytes, push_strings, frame, read_bytes, read_strings,
}
use open_image_debugger.Ipc.MessageExchange.Reading.{Decodes}
use open_image_debugger.Ipc.MessageExchange.RoundTrip.{
  Affords, AreReadable, frame-push_bytes, frame-push_strings, read_bytes-Decodes,
  read_strings-Decodes,
}

-- A list of fewer than 2 ^ 31 strings, each short enough and affordable for the reader, is read
-- back from the frame it is pushed into, wherever the segments on the wire end, and nothing more
-- is read.
pub read_strings-push_strings :
    (m : Memory) (ss : List Str)
    → length ss < 2 ^ 31
    → AreReadable m ss
    → Decodes (read_strings m) (frame (push_strings ss [])) ss
unfolding frame
read_strings-push_strings m ss h r = rw frame-push_strings (read_strings-Decodes m ss h r)

-- A byte vector within the maximum buffer size and affordable for the reader is read back from the
-- frame it is pushed into, wherever the segments on the wire end, and nothing more is read.
pub read_bytes-push_bytes :
    (m : Memory) (s : List ℕ)
    → length s ≤ max_buffer_bytes
    → Affords m (length s)
    → Decodes (read_bytes m) (frame (push_bytes s [])) s
unfolding frame
read_bytes-push_bytes m s h a = rw frame-push_bytes (read_bytes-Decodes m s h a)
