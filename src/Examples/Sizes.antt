-- ===== src/Examples/Sizes.antt =====
-- The theorems on src/ipc/raw_data_decode.cpp and src/visualization/buffer_span_fits.h at a small
-- buffer.
use open_image_debugger.Prelude.{
  ℕ, ◌+◌, ◌*◌, ◌/◌, ◌≤◌, ◌≡◌, ◌↔◌, refl, true, some, List, ◌∷◌, [], pos, IsI32, pos_part, length,
  arith, mul64, add64, sub64,
}
use open_image_debugger.Ipc.RawDataDecode.{
  unsigned_byte, is_known_buffer_type, not_renderable, type_size, geometry_fits_payload,
  padded_payload_size, multiply_checked, make_float_buffer_from_double,
}
use open_image_debugger.Ipc.RawDataDecode.Sizes.{
  IsRenderable, span_pixels, geometry_fits_payload_iff,
}
use open_image_debugger.Ipc.RawDataDecode.Payload.{
  geometry_fits_payload-element, length-make_float_buffer_from_double,
}
use open_image_debugger.Visualization.BufferSpanFits.{
  display_element_size, buffer_span_fits, buffer_span_fits-element,
}
use open_image_debugger.Host.BufferModel.{record_bytes}
use open_image_debugger.Host.IpcClient.Drawable.{buffer_span_fits-geometry_fits_payload}
use open_image_debugger.Examples.{narrowing, payload}

-- The double 1.0.
abbrev double : List ℕ
double = 0 ∷ 0 ∷ 0 ∷ 0 ∷ 0 ∷ 0 ∷ 240 ∷ 63 ∷ []

two : IsI32 (pos 2)
two = omega arith

one : IsI32 (pos 1)
one = omega arith

three : IsI32 (pos 3)
three = omega arith

shape : IsRenderable (pos 2) (pos 2) (pos 1) (pos 3)
shape = record { wide = omega arith; high = omega arith; deep = omega arith; padded = omega arith }

payload_fits : geometry_fits_payload (pos 2) (pos 2) (pos 1) (pos 3) unsigned_byte 6 ≡ true
unfolding geometry_fits_payload is_known_buffer_type not_renderable type_size mul64 add64 sub64
payload_fits = refl

padded : padded_payload_size (pos 2) (pos 2) (pos 1) (pos 3) unsigned_byte ≡ some 6
unfolding padded_payload_size is_known_buffer_type not_renderable type_size multiply_checked mul64
padded = refl

span_fits : buffer_span_fits (pos 2) (pos 2) (pos 1) (pos 3) 1 6 ≡ true
unfolding buffer_span_fits not_renderable mul64 add64 sub64
span_fits = refl

geometry_fits_payload_iff_example :
    (geometry_fits_payload (pos 2) (pos 2) (pos 1) (pos 3) unsigned_byte 6 ≡ true) ↔ (
      (is_known_buffer_type unsigned_byte ≡ true)
      × IsRenderable (pos 2) (pos 2) (pos 1) (pos 3)
      × (span_pixels (pos 2) (pos 2) (pos 3) * (pos_part (pos 1) * type_size unsigned_byte) ≤ 6))
geometry_fits_payload_iff_example =
    geometry_fits_payload_iff (pos 2) (pos 2) (pos 1) (pos 3) unsigned_byte two two one three 6

geometry_fits_payload-element_example :
    ((1 * pos_part (pos 3) + 1) * pos_part (pos 1) + 0 + 1) * type_size unsigned_byte ≤ 6
geometry_fits_payload-element_example =
    geometry_fits_payload-element (pos 2) (pos 2) (pos 1) (pos 3) unsigned_byte two two one three 6
      1 1 0 payload_fits (omega arith) (omega arith) (omega arith)

length-make_float_buffer_from_double_example :
    length (make_float_buffer_from_double narrowing double) ≡ length double / 8 * 4
length-make_float_buffer_from_double_example = length-make_float_buffer_from_double narrowing double

buffer_span_fits-element_example : ((1 * pos_part (pos 3) + 1) * pos_part (pos 1) + 0 + 1) * 1 ≤ 6
buffer_span_fits-element_example =
    buffer_span_fits-element (pos 2) (pos 2) (pos 1) (pos 3) 1 two two one three (omega arith) 6 1 1
      0 span_fits (omega arith) (omega arith) (omega arith)

buffer_span_fits-geometry_fits_payload_example :
    buffer_span_fits
      (pos 2)
      (pos 2)
      (pos 1)
      (pos 3)
      (display_element_size unsigned_byte)
      (length (record_bytes narrowing unsigned_byte payload))
    ≡ true
buffer_span_fits-geometry_fits_payload_example =
    buffer_span_fits-geometry_fits_payload narrowing (pos 2) (pos 2) (pos 1) (pos 3) unsigned_byte
      payload two two one three payload_fits
