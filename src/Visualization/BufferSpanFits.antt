-- ===== src/Visualization/BufferSpanFits.antt =====
-- src/visualization/buffer_span_fits.h: the renderer's own bound on the bytes that drawing reads.
use open_image_debugger.Prelude.{
  ℕ, ◌+◌, ◌*◌, ◌/◌, ◌≤◌, ◌<◌, ◌≡◌, ◌↔◌, inl, inr, Bool, true, false, ◌||◌, leb, ◌==◌, if◌then◌else◌,
  Bool-cases, ℤ, pos_part, to_u64, IsI32, add64, sub64, mul64, mul_mono, element_in_span, arith,
}
use open_image_debugger.Ipc.RawDataDecode.{
  BufferType, unsigned_byte, unsigned_short, short, int32, float32, float64, unknown,
  not_renderable,
}
use open_image_debugger.Ipc.RawDataDecode.Sizes.{
  IsRenderable, span_pixels, span_words, not_renderable_iff,
}
use native.Mathlib.Nat.{le-div_iff_mul-le}

-- The bytes of one element as the renderer reads it: a `double` was narrowed to a `float`.
unfoldable pub display_element_size : BufferType → ℕ
display_element_size short = 2
display_element_size unsigned_short = 2
display_element_size int32 = 4
display_element_size float32 = 4
display_element_size float64 = 4
display_element_size unsigned_byte = 1
display_element_size (unknown n) = 1

pub display_element_size_bounds :
    (t : BufferType) → (1 ≤ display_element_size t) × (display_element_size t ≤ 4)
unfolding display_element_size
display_element_size_bounds unsigned_byte = omega arith
display_element_size_bounds _ = omega arith

unfoldable pub buffer_span_fits :
    (width height channels step : ℤ) → (element_size byte_count : ℕ) → Bool
buffer_span_fits width height channels step element_size byte_count =
    if not_renderable width height channels step || element_size == 0
    then false
    else (let bytes_per_pixel = mul64 (to_u64 channels) element_size in
        let affordable_pixels = byte_count / bytes_per_pixel in
        let addressed_pixels =
          add64 (mul64 (sub64 (to_u64 height) 1) (to_u64 step)) (to_u64 width) in
        leb addressed_pixels affordable_pixels)

module _ (w h c s : ℤ) (size : ℕ) (wi : IsI32 w) (hi : IsI32 h) (ci : IsI32 c) (si : IsI32 s)
    (small : size ≤ 8) where
  -- For 32-bit shapes and elements of at most eight bytes, the check of the renderer passes
  -- exactly if the shape can be drawn, elements have a size, and the last pixel ends inside the
  -- bytes, with no wrap-around.
  pub buffer_span_fits_iff :
      (n : ℕ)
      → (buffer_span_fits w h c s size n ≡ true)
        ↔ (IsRenderable w h c s × (0 < size) × (span_pixels w h s * (pos_part c * size) ≤ n))
  unfolding buffer_span_fits
  buffer_span_fits_iff n = elim (Bool-cases (not_renderable w h c s)) [
    | inl refused ↦ ground (arith, refused, not_renderable_iff w h c s)
    | inr drawn ↦ elim (Bool-cases (size == 0)) [
      | inl empty ↦ rw (drawn, empty) (ground arith)
      | inr sized ↦
          let r = (not_renderable_iff w h c s).0 drawn in
          let some_size : 1 ≤ size = ground arith in
          let (pixels, bytes) = span_words w h c s size wi hi ci si small r in
          rw (drawn, sized, pixels, bytes)
            (ground (
              arith,
              le-div_iff_mul-le {x = span_pixels w h s} {y = n}
                  (mul_mono 1 (pos_part c) 1 size r.deep some_size),
            ))
    ]
  ]

  -- For 32-bit shapes and elements of at most eight bytes, if the check of the renderer passes,
  -- every element of every pixel, at ((y * step + x) * channels + k), ends inside the bytes.
  pub buffer_span_fits-element :
      (n y x k : ℕ)
      → buffer_span_fits w h c s size n ≡ true
      → y < pos_part h
      → x < pos_part w
      → k < pos_part c
      → ((y * pos_part s + x) * pos_part c + k + 1) * size ≤ n
  buffer_span_fits-element n y x k fits hy hx hk = omega (
    arith,
    (buffer_span_fits_iff n).0 fits,
    element_in_span y x k (pos_part h) (pos_part s) (pos_part w) (pos_part c) size hy hx hk,
  )
