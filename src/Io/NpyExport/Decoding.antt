-- ===== src/Io/NpyExport/Decoding.antt =====
-- What src/host/io/npy_decode.cpp decodes from a header of src/io/buffer_export_core.cpp and rows.
use open_image_debugger.Prelude.{
  drop-drop, ℕ, ◌+◌, ◌*◌, ◌≤◌, ◌≡◌, refl, sym, ap, ◌∙◌, subst, inl, inr, true, false, List, ◌++◌,
  from_chars, int_digits, starts_with_digit, is_digit, read_digits, length, drop,
  drop-length-append, take-all, pos, ltb, arith, Bool-cases, ◌||◌, ◌==◌, mul64_exact, mul_mono,
  ==_iff,
}
use open_image_debugger.Ipc.RawDataDecode.{
  BufferType, unsigned_byte, unsigned_short, short, int32, float32, float64, unknown,
  is_known_buffer_type,
}
use open_image_debugger.Visualization.BufferSpanFits.{
  display_element_size, display_element_size_bounds,
}
use open_image_debugger.Host.NpyDecode.Text.{value, ◌>>=◌, DType, map_dtype, dtype_of}
use open_image_debugger.Host.NpyDecode.{
  NpyLayout, checked_layout, layout_from_shape, count_elements, take_payload, decode_npy,
}
use open_image_debugger.Host.NpyDecode.Counting.{count_elements-plane, count_elements-cube}
use open_image_debugger.Io.NpyExport.{npy_descr, npy_header}
use open_image_debugger.Io.NpyExport.Dictionary.{
  npy_text_padded, dims_of, parse_header_span-npy, extract_quoted-npy, extract_fortran-npy,
  extract_shape-npy,
}

-- The type of the elements in memory: a `double` was narrowed to a `float`.
unfoldable pub stored_type : BufferType → BufferType
stored_type float64 = float32
stored_type type = type

map_dtype-npy_descr :
    (type : BufferType)
    → is_known_buffer_type type ≡ true
    → map_dtype (npy_descr type)
      ≡ value (record { type = stored_type type; itemsize = display_element_size type })
unfolding is_known_buffer_type map_dtype npy_descr stored_type display_element_size from_chars
    dtype_of int_digits starts_with_digit is_digit read_digits
map_dtype-npy_descr unsigned_byte h = refl
map_dtype-npy_descr unsigned_short h = refl
map_dtype-npy_descr short h = refl
map_dtype-npy_descr int32 h = refl
map_dtype-npy_descr float32 h = refl
map_dtype-npy_descr float64 h = refl
map_dtype-npy_descr (unknown n) h = cc

pub record Limits (h w c : ℕ) : Type 0 where
  pub height_low : 1 ≤ h
  pub height_high : h ≤ 131072
  pub width_low : 1 ≤ w
  pub width_high : w ≤ 131072
  pub channels_low : 1 ≤ c
  pub channels_high : c ≤ 4

count_elements-dims :
    (h w c : ℕ) → Limits h w c → count_elements 1 (dims_of h w c) ≡ value (h * w * c)
count_elements-dims h w c l = elim (Bool-cases (c == 1)) [
  | inl one ↦
      let flat : h * w ≡ h * w * c = rw ((==_iff c 1).0 one) (omega arith) in
      rw one (count_elements-plane h w l.height_high l.width_high ∙ ap value flat)
  | inr more ↦ rw more (count_elements-cube h w c l.height_high l.width_high l.channels_high)
]

abbrev layout_of : (h w c : ℕ) → NpyLayout
layout_of h w c = record {
  width = pos w;
  height = pos h;
  channels = pos c;
  step = pos w;
  transpose = false;
}

checked_layout-Limits :
    (h w c : ℕ) → Limits h w c → checked_layout (layout_of h w c) ≡ value (layout_of h w c)
unfolding checked_layout
checked_layout-Limits h w c l =
    let inside : (ltb (w + 0) 1 || ltb 131072 (w + 0) || ltb (h + 0) 1 || ltb 131072 (h + 0))
        ≡ false =
      ground arith in
    let depth : (ltb (c + 0) 1 || ltb 4 (c + 0)) ≡ false = ground arith in rw (inside, depth) refl

layout_from_shape-dims :
    (h w c : ℕ) → Limits h w c → layout_from_shape (dims_of h w c) false ≡ value (layout_of h w c)
unfolding layout_from_shape
layout_from_shape-dims h w c l = elim (Bool-cases (c == 1)) [
  | inl one ↦
      let single : c ≡ 1 = (==_iff c 1).0 one in
      rw one (
        subst (λ x. checked_layout (layout_of h w x) ≡ value (layout_of h w c)) single
          (checked_layout-Limits h w c l))
  | inr more ↦ rw more (checked_layout-Limits h w c l)
]

payload_behind :
    (dict payload : List ℕ) → drop (10 + length dict) (npy_header dict ++ payload) ≡ payload
unfolding npy_header
payload_behind dict payload =
    drop-drop 10 (length dict) (npy_header dict ++ payload) ∙ drop-length-append dict payload

take_payload-exact :
    (dtype : DType) (layout : NpyLayout) (expected_bytes : ℕ) (rest : List ℕ) {payload : List ℕ}
    → length payload ≡ expected_bytes
    → rest ≡ payload
    → take_payload dtype layout expected_bytes rest
      ≡ value (record {
        type = dtype.type;
        width = layout.width;
        height = layout.height;
        channels = layout.channels;
        step = layout.step;
        transpose = layout.transpose;
        bytes = payload;
      })
unfolding take_payload
take_payload-exact dtype layout expected_bytes rest {payload} size same =
    let equal : (length payload == expected_bytes) ≡ true = (==_iff _ _).1 size in
    rw (same, equal, take-all expected_bytes payload (omega (arith, size))) refl

-- What is decoded from an exported header and a payload of the right size.
pub decode_npy-header :
    (type : BufferType) (h w c : ℕ) (payload : List ℕ)
    → is_known_buffer_type type ≡ true
    → Limits h w c
    → length payload ≡ h * w * c * display_element_size type
    → decode_npy (npy_header (npy_text_padded type h w c) ++ payload)
      ≡ value (record {
        type = stored_type type;
        width = pos w;
        height = pos h;
        channels = pos c;
        step = pos w;
        transpose = false;
        bytes = payload;
      })
unfolding decode_npy ◌>>=◌ take_payload
decode_npy-header type h w c payload known l size =
    let area : h * w ≤ 131072 * 131072 = mul_mono h 131072 w 131072 l.height_high l.width_high in
    let volume : h * w * c ≤ 131072 * 131072 * 4 =
      mul_mono (h * w) (131072 * 131072) c 4 area l.channels_high in
    let bytes : h * w * c * display_element_size type ≤ 131072 * 131072 * 4 * 4 =
      mul_mono (h * w * c) (131072 * 131072 * 4) (display_element_size type) 4 volume
        (display_element_size_bounds type).1 in
    rw
      (
        parse_header_span-npy type h w c payload,
        extract_quoted-npy type h w c,
        map_dtype-npy_descr type known,
        extract_fortran-npy type h w c,
        extract_shape-npy type h w c (omega (arith, l.height_high)) (omega (arith, l.width_high))
            (omega (arith, l.channels_high)),
        layout_from_shape-dims h w c l,
        count_elements-dims h w c l,
      )
      (take_payload-exact (record { type = stored_type type; itemsize = display_element_size type })
        (layout_of h w c) _ _
        (size ∙ sym (mul64_exact (h * w * c) (display_element_size type) (omega arith)))
        (payload_behind (npy_text_padded type h w c) payload))
