-- ===== src/Host/Agent/WireFrame/RoundTrip.antt =====
-- Encoding and then decoding with src/host/agent/wire_frame.cpp.
use open_image_debugger.Prelude.{
  ℕ, ◌^◌, ◌<◌, ◌≡◌, refl, sym, inl, inr, true, false, Option, some, List, [], ◌∷◌, ◌++◌, ltb, pos,
  length, length-append, take-length-append, drop-length-append, append_assoc, size_max, Bool-cases,
  arith,
}
use open_image_debugger.Host.Agent.WireFrame.{
  max_frame_bytes, absent, integer, Json, encoded, refused, too_large, decoded, be_length,
  read_be_length, read_exact, exceeds, hinted, prefixed, encode_frame, decode_payload,
  decode_object, decode_body, decode_frame,
}

-- What the frames rely on: an object with a length hint is one, and the hint is read back where it
-- is a number of 63 bits.
pub record JsonLaws {V : Type 0} (j : Json V) : Type 0 where
  pub is_object-with_payload :
      (n : ℕ) (v : V) → j.is_object v ≡ true → j.is_object (j.with_payload n v) ≡ true
  pub payload_field-with_payload :
      (n : ℕ) (v : V)
      → n < 2 ^ 63
      → j.is_object v ≡ true
      → j.payload_field (j.with_payload n v) ≡ integer (pos n)

read_exact-append : (s rest : List ℕ) → read_exact (length s) (s ++ rest) ≡ some (s, rest)
unfolding read_exact
read_exact-append s rest =
    let room : ltb (length (s ++ rest)) (length s) ≡ false = ground (arith, length-append s rest) in
    rw (room, take-length-append s rest, drop-length-append s rest)

read_be_length-be_length : (n : ℕ) → n < 2 ^ 32 → read_be_length (be_length n) ≡ n
unfolding read_be_length be_length
read_be_length-be_length n h = omega arith

read_exact-header :
    (n : ℕ) (rest : List ℕ) → read_exact 4 (be_length n ++ rest) ≡ some (be_length n, rest)
unfolding be_length
read_exact-header n rest = read_exact-append (be_length n) rest

encoded_inj : {x y : List ℕ} → encoded x ≡ encoded y → x ≡ y
encoded_inj h = cc

module _ {V : Type 0} (j : Json V) (laws : JsonLaws j) where
  decode_payload-hinted :
      (obj : V) (payload rest : List ℕ) (max_payload : Option ℕ)
      → j.is_object obj ≡ true
      → j.payload_field obj ≡ absent
      → length payload < 2 ^ 63
      → exceeds (length payload) max_payload ≡ false
      → decode_payload j
          (hinted j obj (length payload))
          (j.payload_field (hinted j obj (length payload)))
          (payload ++ rest)
          max_payload
        ≡ decoded (hinted j obj (length payload)) payload rest
  unfolding hinted decode_payload
  decode_payload-hinted obj [] rest max_payload o a size limit = rw a refl
  decode_payload-hinted obj (b ∷ bs) rest max_payload o a size limit =
      let n : ℕ = length (b ∷ bs) in
      let hint : ltb 0 n ≡ true = ground arith in
      let sized : ltb size_max n ≡ false = ground (arith, size) in
      rw hint (
        rw
          (
            laws.payload_field-with_payload n obj size o,
            sized,
            limit,
            read_exact-append (b ∷ bs) rest,
          )
          refl)

  hinted-is_object :
      (obj : V) (n : ℕ) → j.is_object obj ≡ true → j.is_object (hinted j obj n) ≡ true
  unfolding hinted
  hinted-is_object obj n o = elim (Bool-cases (ltb 0 n)) [
    | inl some_bytes ↦ rw some_bytes (laws.is_object-with_payload n obj o)
    | inr none_left ↦ rw none_left o
  ]

  -- An object without a payload field, whose form with its length hint the JSON library parses
  -- back from what it dumps, that is encoded with a payload of fewer than 2 ^ 63 bytes within the
  -- limit of the reader is decoded, from the front of any stream, to the object with its length
  -- hint and the payload, and nothing more is read.
  pub decode_frame-encode_frame :
      (obj : V) (payload rest bytes : List ℕ) (max_payload : Option ℕ)
      → j.is_object obj ≡ true
      → j.payload_field obj ≡ absent
      → j.parse (j.dump (hinted j obj (length payload))) ≡ some (hinted j obj (length payload))
      → length payload < 2 ^ 63
      → exceeds (length payload) max_payload ≡ false
      → encode_frame j obj payload ≡ encoded bytes
      → decode_frame j (bytes ++ rest) max_payload
        ≡ decoded (hinted j obj (length payload)) payload rest
  unfolding encode_frame prefixed decode_frame decode_body decode_object
  decode_frame-encode_frame obj payload rest bytes max_payload o a parsed size limit e =
      let v = hinted j obj (length payload) in
      let s = j.dump v in
      elim (Bool-cases (ltb max_frame_bytes (length s))) [
        | inl large ↦
            let no_frame : refused (too_large (length s)) ≡ encoded bytes = rw large at e in cc
        | inr small ↦
            let whole : be_length (length s) ++ (s ++ payload) ≡ bytes =
              encoded_inj (rw small at e) in
            let split : bytes ++ rest ≡ be_length (length s) ++ (s ++ (payload ++ rest)) =
              rw (sym whole, append_assoc, append_assoc) refl in
            rw split (
              rw (read_exact-header (length s) (s ++ (payload ++ rest)), decode_frame)
                (rw (read_be_length-be_length (length s) (ground (arith, small)), small)
                  (rw (read_exact-append s (payload ++ rest), decode_body)
                    (rw (parsed, hinted-is_object obj (length payload) o)
                      (decode_payload-hinted obj payload rest max_payload o a size limit)))))
      ]
