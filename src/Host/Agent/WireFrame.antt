-- ===== src/Host/Agent/WireFrame.antt =====
-- src/host/agent/wire_frame.{h,cpp}: the frames of the agent's socket. The JSON library is a parameter,
-- and the stream is the list of the bytes that the peer sends before it closes.
pub mod RoundTrip
use open_image_debugger.Host.Agent.Values.{IsI64}
use open_image_debugger.Prelude.{
  ℕ, ◌+◌, ◌*◌, ◌/◌, ◌%◌, ◌^◌, ◌≡◌, Bool, true, false, not, Option, none, some, List, [], ◌∷◌, ◌++◌,
  ltb, if◌then◌else◌, ℤ, pos, negsuc, length, take, drop, Str, size_max,
}

abbrev pub max_frame_bytes : ℕ
max_frame_bytes = 2 ^ 20

-- What a JSON object holds under "payload": an integer is what `get<std::int64_t>` gives of it.
pub data PayloadField : Type 0 where
  absent not_integer : PayloadField
  integer : ℤ → PayloadField

-- The JSON library, at what the frames use of it.
pub record Json (V : Type 0) : Type 0 where
  pub dump : V → Str
  pub parse : Str → Option V
  pub is_object : V → Bool
  pub payload_field : V → PayloadField
  pub with_payload : ℕ → V → V
  pub payload_field-IsI64 : (v : V) (n : ℤ) → payload_field v ≡ integer n → IsI64 n

pub data FrameError : Type 0 where
  too_large : ℕ → FrameError
  not_json not_object not_an_integer : FrameError
  negative : ℤ → FrameError
  exceeds_size exceeds_limit : ℕ → FrameError
  closed : FrameError

pub data Encoded : Type 0 where
  encoded : List ℕ → Encoded
  refused : FrameError → Encoded

pub data Decoded (V : Type 0) : Type 0 where
  decoded : V → (payload rest : List ℕ) → Decoded V
  failed : FrameError → Decoded V

-- The four bytes of a length, the highest first.
unfoldable pub be_length : ℕ → List ℕ
be_length n = (n / 2 ^ 24 % 256) ∷ (n / 2 ^ 16 % 256) ∷ (n / 2 ^ 8 % 256) ∷ (n % 256) ∷ []

unfoldable pub read_be_length : List ℕ → ℕ
read_be_length (a ∷ b ∷ c ∷ d ∷ rest) = a * 2 ^ 24 + b * 2 ^ 16 + c * 2 ^ 8 + d
read_be_length _ = 0

-- The whole span, or the peer has closed.
unfoldable pub read_exact : ℕ → List ℕ → Option (List ℕ × List ℕ)
read_exact n stream = if ltb (length stream) n then none else some (take n stream, drop n stream)

abbrev pub exceeds : ℕ → Option ℕ → Bool
exceeds n none = false
exceeds n (some limit) = ltb limit n

module _ {V : Type 0} (j : Json V) where
  -- The object with its length hint where a payload follows.
  unfoldable pub hinted : V → (payload_size : ℕ) → V
  hinted obj payload_size = if ltb 0 payload_size then j.with_payload payload_size obj else obj

  unfoldable pub prefixed : Str → (payload : List ℕ) → Encoded
  prefixed s payload =
      if ltb max_frame_bytes (length s)
      then refused (too_large (length s))
      else encoded (be_length (length s) ++ (s ++ payload))

  unfoldable pub encode_frame_header : V → (payload_size : ℕ) → Encoded
  encode_frame_header obj payload_size = prefixed (j.dump (hinted obj payload_size)) []

  unfoldable pub encode_frame : V → (payload : List ℕ) → Encoded
  encode_frame obj payload = prefixed (j.dump (hinted obj (length payload))) payload

  unfoldable pub decode_payload :
      V → PayloadField → (stream : List ℕ) → (max_payload : Option ℕ) → Decoded V
  decode_payload obj absent stream max_payload = decoded obj [] stream
  decode_payload obj not_integer stream max_payload = failed not_an_integer
  decode_payload obj (integer (negsuc n)) stream max_payload = failed (negative (negsuc n))
  decode_payload obj (integer (pos n)) stream max_payload =
      if ltb size_max n
      then failed (exceeds_size n)
      else if exceeds n max_payload
      then failed (exceeds_limit n)
      else (elim (read_exact n stream) [
        | none ↦ failed closed
        | some (payload, rest) ↦ decoded obj payload rest
      ])

  unfoldable pub decode_object : Option V → (stream : List ℕ) → (max_payload : Option ℕ) → Decoded V
  decode_object none stream max_payload = failed not_json
  decode_object (some obj) stream max_payload =
      if not (j.is_object obj)
      then failed not_object
      else decode_payload obj (j.payload_field obj) stream max_payload

  unfoldable pub decode_body : (size : ℕ) → (stream : List ℕ) → (max_payload : Option ℕ) → Decoded V
  decode_body size stream max_payload =
      if ltb max_frame_bytes size then failed (too_large size) else (elim (read_exact size stream) [
        | none ↦ failed closed
        | some (body, rest) ↦ decode_object (j.parse body) rest max_payload
      ])

  unfoldable pub decode_frame : (stream : List ℕ) → (max_payload : Option ℕ) → Decoded V
  decode_frame stream max_payload = elim (read_exact 4 stream) [
    | none ↦ failed closed
    | some (header, rest) ↦ decode_body (read_be_length header) rest max_payload
  ]
