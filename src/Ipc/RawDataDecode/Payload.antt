-- ===== src/Ipc/RawDataDecode/Payload.antt =====
-- The readers of a buffer that passed the checks of src/ipc/raw_data_decode.cpp.
use open_image_debugger.Prelude.{
  zero, suc, ◌/◌, List, length, length-append, take, drop, ℕ, ◌+◌, ◌-◌, ◌*◌, ◌^◌, ◌≤◌, ◌<◌, ◌≡◌,
  true, some, ℤ, pos_part, IsI32, size_max, mul_mono, span-le-padded, element_in_span, arith,
  le→leb,
}
use open_image_debugger.Ipc.RawDataDecode.{
  Narrowing, narrow_elements, make_float_buffer_from_double, BufferType, within_display_limits,
  is_known_buffer_type, type_size, geometry_fits_payload, padded_payload_size,
}
use open_image_debugger.Ipc.RawDataDecode.Sizes.{
  IsRenderable, padded_bytes, span_pixels, type_size_bounds, padded_payload_size_lem,
  geometry_fits_payload_iff, not_renderable_iff, pos_part-lt, width-le-stride,
}

pub record WithinLimits (width height channels : ℤ) : Type 0 where
  pub width_low : 1 ≤ pos_part width
  pub width_high : pos_part width ≤ 131072
  pub height_low : 1 ≤ pos_part height
  pub height_high : pos_part height ≤ 131072
  pub channels_low : 1 ≤ pos_part channels
  pub channels_high : pos_part channels ≤ 4

pub within_display_limits-WithinLimits :
    (w h c : ℤ) → within_display_limits w h c ≡ true → WithinLimits w h c
unfolding within_display_limits
within_display_limits-WithinLimits w h c e = ground arith

module _ (w h c s : ℤ) (t : BufferType) (wi : IsI32 w) (hi : IsI32 h) (ci : IsI32 c)
    (si : IsI32 s) where
  -- A 32-bit shape within the display limits that can be drawn, of a known type, always has a
  -- padded size.
  pub padded_payload_size_total :
      within_display_limits w h c ≡ true
      → is_known_buffer_type t ≡ true
      → IsRenderable w h c s
      → padded_payload_size w h c s t ≡ some (padded_bytes h c s t)
  padded_payload_size_total e known r =
      let m = within_display_limits-WithinLimits w h c e in
      let rows : pos_part s * pos_part h ≤ 2 ^ 31 * 131072 =
        mul_mono _ (2 ^ 31) _ 131072 (omega (arith, pos_part-lt s si)) m.height_high in
      let pixels : pos_part s * pos_part h * pos_part c ≤ 2 ^ 31 * 131072 * 4 =
        mul_mono _ (2 ^ 31 * 131072) _ 4 rows m.channels_high in
      let bytes : padded_bytes h c s t ≤ 2 ^ 31 * 131072 * 4 * 8 =
        mul_mono _ (2 ^ 31 * 131072 * 4) _ 8 pixels (type_size_bounds t).1 in
      rw (
        padded_payload_size_lem w h c s t wi hi ci si,
        known,
        (not_renderable_iff w h c s).1 r,
        le→leb (padded_bytes h c s t) size_max (omega arith),
      )

  pub padded_payload_size-some :
      (n : ℕ)
      → padded_payload_size w h c s t ≡ some n
      → (is_known_buffer_type t ≡ true) × IsRenderable w h c s × (n ≡ padded_bytes h c s t)
  padded_payload_size-some n e =
      ground (arith, padded_payload_size_lem w h c s t wi hi ci si, not_renderable_iff w h c s, e)

  -- For 32-bit shapes, a payload of exactly the padded size passes the check of a payload.
  pub geometry_fits_payload-padded_payload_size :
      (n : ℕ) → padded_payload_size w h c s t ≡ some n → geometry_fits_payload w h c s t n ≡ true
  geometry_fits_payload-padded_payload_size n e =
      let (known, r, size) = padded_payload_size-some n e in
      let rows : (pos_part h - 1) * pos_part s + pos_part w ≤ pos_part s * pos_part h =
        span-le-padded (pos_part h) (pos_part s) (pos_part w) r.high (width-le-stride w h c s r) in
      (geometry_fits_payload_iff w h c s t wi hi ci si n).1 (
        known,
        r,
        omega (
          arith,
          mul_mono (span_pixels w h s) (pos_part s * pos_part h) (pos_part c * type_size t)
              (pos_part c * type_size t) rows (omega arith),
        ),
      )

  -- For 32-bit shapes, if a payload passes the check of the wire, every element of every pixel
  -- ends inside the payload.
  pub geometry_fits_payload-element :
      (n y x k : ℕ)
      → geometry_fits_payload w h c s t n ≡ true
      → y < pos_part h
      → x < pos_part w
      → k < pos_part c
      → ((y * pos_part s + x) * pos_part c + k + 1) * type_size t ≤ n
  geometry_fits_payload-element n y x k fits hy hx hk = omega (
    arith,
    (geometry_fits_payload_iff w h c s t wi hi ci si n).0 fits,
    element_in_span y x k (pos_part h) (pos_part s) (pos_part w) (pos_part c) (type_size t) hy hx
        hk,
  )

length-narrow_elements :
    (n : Narrowing) (count : ℕ) (src : List ℕ) → length (narrow_elements n count src) ≡ count * 4
unfolding narrow_elements
length-narrow_elements n zero src = omega arith
length-narrow_elements n (suc count) src = omega (
  arith,
  length-append (n.to_float (take 8 src)) (narrow_elements n count (drop 8 src)),
  n.length-to_float (take 8 src),
  length-narrow_elements n count (drop 8 src),
)

-- A narrowed payload has four bytes for each eight.
pub length-make_float_buffer_from_double :
    (n : Narrowing) (bytes : List ℕ)
    → length (make_float_buffer_from_double n bytes) ≡ length bytes / 8 * 4
unfolding make_float_buffer_from_double
length-make_float_buffer_from_double n bytes = length-narrow_elements n (length bytes / 8) bytes
