-- ===== src/Ipc/MessageExchange/RoundTrip.antt =====
-- The pushes of src/ipc/message_exchange.h as bytes, and the reads of those bytes.
use open_image_debugger.Prelude.{
  ℕ, ◌^◌, ◌≤◌, ◌<◌, ◌≡◌, refl, sym, ap, ◌∙◌, subst, Bool, true, false, List, [], ◌∷◌, ◌++◌,
  if◌then◌else◌, ℤ, IsI32, pos_part, length, append-nil, append_assoc, Str, arith,
}
use open_image_debugger.Ipc.RawDataDecode.{
  BufferType, buffer_type, type_value, exceeds_max_buffer_bytes, max_buffer_bytes,
}
use open_image_debugger.Ipc.Execution.{return, ◌>>=◌}
use open_image_debugger.Ipc.Words.{
  to_bytes, from_bytes, to_word32, from_word32, length-to_bytes, from_bytes-to_bytes,
  from_word32-to_word32, to_word32-lt,
}
use open_image_debugger.Ipc.MessageExchange.{
  MessageType, message_value, message_type, MessageComposer, max_string_bytes, push_int, push_size,
  push_bool, push_message_type, push_buffer_type, push_bytes, push_strings, push_each, frame,
  Memory, read_impl, read_size, read_int, read_bool, read_message_type, read_buffer_type, require,
  resize, read_bytes, read_string, read_each, read_strings,
}
use open_image_debugger.Ipc.MessageExchange.Reading.{
  Decodes, Decodes-return, Decodes-bind, read_impl-Decodes,
}

-- A read of a fixed size followed by a pure conversion.
convert-Decodes :
    {A : Type 0} (n : ℕ) (f : List ℕ → A) (bs : List ℕ) (v : A)
    → length bs ≡ n
    → f bs ≡ v
    → Decodes (do bytes ← read_impl n; return (f bytes)) bs v
convert-Decodes n f bs v size value = rw (append-nil bs) at (
    Decodes-bind (read_impl n) (λ b. return (f b)) bs [] bs v
      (subst (λ k. Decodes (read_impl k) bs bs) size (read_impl-Decodes bs))
      (subst (λ u. Decodes (return (f bs)) [] u) value (Decodes-return (f bs))))

pub read_size-Decodes : (n : ℕ) → n < 2 ^ 64 → Decodes read_size (to_bytes 8 n) n
unfolding read_size
read_size-Decodes n h =
    convert-Decodes 8 from_bytes (to_bytes 8 n) n (length-to_bytes 8 n) (from_bytes-to_bytes 8 n h)

pub read_int-Decodes : (n : ℤ) → IsI32 n → Decodes read_int (to_bytes 4 (to_word32 n)) n
unfolding read_int
read_int-Decodes n h =
    convert-Decodes 4 (λ b. from_word32 (from_bytes b)) (to_bytes 4 (to_word32 n)) n
      (length-to_bytes 4 (to_word32 n))
      (ap from_word32 (from_bytes-to_bytes 4 (to_word32 n) (to_word32-lt n))
        ∙ from_word32-to_word32 n h)

-- The byte of a `bool`.
abbrev pub bool_bytes : Bool → List ℕ
bool_bytes b = if b then 1 ∷ [] else 0 ∷ []

pub read_bool-Decodes : (b : Bool) → Decodes read_bool (bool_bytes b) b
unfolding read_bool
read_bool-Decodes true = convert-Decodes 1 _ (1 ∷ []) true refl (unfold from_bytes in refl)
read_bool-Decodes false = convert-Decodes 1 _ (0 ∷ []) false refl (unfold from_bytes in refl)

require-Decodes : (b : Bool) → b ≡ true → Decodes (require b) [] tt
unfolding require
require-Decodes b h = rw h (Decodes-return tt)

resize-Decodes : (m : Memory) (n : ℕ) → m.allocates n ≡ true → Decodes (resize m n) [] tt
unfolding resize
resize-Decodes m n h = rw h (Decodes-return tt)

-- The process can hold a container of this size.
pub record Affords (m : Memory) (n : ℕ) : Type 0 where
  pub allocated : m.allocates n ≡ true
  pub held : n ≤ m.max_size

-- A string or a byte vector on the wire.
abbrev pub sized_bytes : List ℕ → List ℕ
sized_bytes s = to_bytes 8 (length s) ++ s

pub read_bytes-Decodes :
    (m : Memory) (s : List ℕ)
    → length s ≤ max_buffer_bytes
    → Affords m (length s)
    → Decodes (read_bytes m) (sized_bytes s) s
unfolding read_bytes exceeds_max_buffer_bytes
read_bytes-Decodes m s h a =
    Decodes-bind read_size _ (to_bytes 8 (length s)) s (length s) s
      (read_size-Decodes (length s) (omega arith))
      (Decodes-bind _ _ [] s tt s (require-Decodes _ (ground arith)) (
        Decodes-bind _ _ [] s tt s (require-Decodes _ (ground (arith, a.held))) (
          Decodes-bind _ _ [] s tt s (resize-Decodes m (length s) a.allocated)
            (read_impl-Decodes s))))

pub read_string-Decodes :
    (m : Memory) (s : Str)
    → length s ≤ max_string_bytes
    → Affords m (length s)
    → Decodes (read_string m) (sized_bytes s) s
unfolding read_string
read_string-Decodes m s h a =
    Decodes-bind read_size _ (to_bytes 8 (length s)) s (length s) s
      (read_size-Decodes (length s) (omega arith))
      (Decodes-bind _ _ [] s tt s (require-Decodes _ (ground arith)) (
        Decodes-bind _ _ [] s tt s (require-Decodes _ (ground (arith, a.held))) (
          Decodes-bind _ _ [] s tt s (resize-Decodes m (length s) a.allocated)
            (read_impl-Decodes s))))

pub read_message_type-Decodes :
    (t : MessageType)
    → IsI32 (message_value t)
    → message_type (message_value t) ≡ t
    → Decodes read_message_type (to_bytes 4 (to_word32 (message_value t))) t
unfolding read_message_type
read_message_type-Decodes t range same =
    rw (append-nil (to_bytes 4 (to_word32 (message_value t)))) at (
      Decodes-bind read_int (λ n. return (message_type n)) _ [] (message_value t) t
        (read_int-Decodes (message_value t) range)
        (subst (λ u. Decodes (return (message_type (message_value t))) [] u) same
          (Decodes-return (message_type (message_value t)))))

pub read_buffer_type-Decodes :
    (t : BufferType)
    → IsI32 (type_value t)
    → buffer_type (type_value t) ≡ t
    → Decodes read_buffer_type (to_bytes 4 (to_word32 (type_value t))) t
unfolding read_buffer_type
read_buffer_type-Decodes t range same = rw (append-nil (to_bytes 4 (to_word32 (type_value t)))) at (
    Decodes-bind read_int (λ n. return (buffer_type n)) _ [] (type_value t) t
      (read_int-Decodes (type_value t) range)
      (subst (λ u. Decodes (return (buffer_type (type_value t))) [] u) same
        (Decodes-return (buffer_type (type_value t)))))

-- Strings that a peer may send to this process.
abbrev pub AreReadable : Memory → List Str → Type 0
AreReadable m [] = Unit
AreReadable m (s ∷ rest) = (length s ≤ max_string_bytes) × Affords m (length s) × AreReadable m rest

-- The strings of a list, one after the other.
abbrev pub each_bytes : List Str → List ℕ
each_bytes [] = []
each_bytes (s ∷ rest) = sized_bytes s ++ each_bytes rest

read_each-Decodes :
    (m : Memory) (ss : List Str)
    → AreReadable m ss
    → Decodes (read_each m (length ss)) (each_bytes ss) ss
unfolding read_each
read_each-Decodes m [] r = Decodes-return []
read_each-Decodes m (s ∷ rest) (short, afford, r) =
    Decodes-bind (read_string m) _ (sized_bytes s) (each_bytes rest) s (s ∷ rest)
      (read_string-Decodes m s short afford)
      (rw (append-nil (each_bytes rest)) at (
        Decodes-bind (read_each m (length rest)) (λ r. return (s ∷ r)) (each_bytes rest) [] rest
          (s ∷ rest) (read_each-Decodes m rest r) (Decodes-return (s ∷ rest))))

count_of_size : (n : ℕ) → n < 2 ^ 31 → pos_part (from_word32 n) ≡ n
unfolding from_word32
count_of_size n h = ground arith

-- A list of fewer than 2 ^ 31 strings is read back.
pub read_strings-Decodes :
    (m : Memory) (ss : List Str)
    → length ss < 2 ^ 31
    → AreReadable m ss
    → Decodes (read_strings m) (to_bytes 8 (length ss) ++ each_bytes ss) ss
unfolding read_strings
read_strings-Decodes m ss h r =
    Decodes-bind read_size _ (to_bytes 8 (length ss)) (each_bytes ss) (length ss) ss
      (read_size-Decodes (length ss) (omega arith))
      (rw (count_of_size (length ss) h) (read_each-Decodes m ss r))

-- What a push adds to the frame.
frame-append : (c d : MessageComposer) → frame (c ++ d) ≡ frame c ++ frame d
unfolding frame
frame-append [] d = refl
frame-append (b ∷ c) d = rw (frame-append c d, append_assoc)

frame-block : (c : MessageComposer) (b : List ℕ) → frame (c ++ b ∷ []) ≡ frame c ++ b
unfolding frame
frame-block c b = rw (frame-append c (b ∷ []), append-nil)

pub frame-push_int :
    (n : ℤ) (c : MessageComposer) → frame (push_int n c) ≡ frame c ++ to_bytes 4 (to_word32 n)
unfolding push_int
frame-push_int n c = frame-block c _

pub frame-push_size :
    (n : ℕ) (c : MessageComposer) → frame (push_size n c) ≡ frame c ++ to_bytes 8 n
unfolding push_size
frame-push_size n c = frame-block c _

pub frame-push_bool :
    (b : Bool) (c : MessageComposer) → frame (push_bool b c) ≡ frame c ++ bool_bytes b
unfolding push_bool
frame-push_bool b c = frame-block c _

pub frame-push_message_type :
    (t : MessageType) (c : MessageComposer)
    → frame (push_message_type t c) ≡ frame c ++ to_bytes 4 (to_word32 (message_value t))
unfolding push_message_type
frame-push_message_type t c = frame-push_int (message_value t) c

pub frame-push_buffer_type :
    (t : BufferType) (c : MessageComposer)
    → frame (push_buffer_type t c) ≡ frame c ++ to_bytes 4 (to_word32 (type_value t))
unfolding push_buffer_type
frame-push_buffer_type t c = frame-push_int (type_value t) c

pub frame-push_bytes :
    (s : List ℕ) (c : MessageComposer) → frame (push_bytes s c) ≡ frame c ++ sized_bytes s
unfolding push_bytes
frame-push_bytes s c = rw (frame-block (push_size (length s) c) s, frame-push_size, append_assoc)

frame-push_each :
    (ss : List Str) (c : MessageComposer) → frame (push_each ss c) ≡ frame c ++ each_bytes ss
unfolding push_each
frame-push_each [] c = sym (append-nil (frame c))
frame-push_each (s ∷ rest) c = rw (frame-push_each rest, frame-push_bytes, append_assoc)

pub frame-push_strings :
    (ss : List Str) (c : MessageComposer)
    → frame (push_strings ss c) ≡ frame c ++ (to_bytes 8 (length ss) ++ each_bytes ss)
unfolding push_strings
frame-push_strings ss c = rw (frame-push_each, frame-push_size, append_assoc)
