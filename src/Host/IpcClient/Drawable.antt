-- ===== src/Host/IpcClient/Drawable.antt =====
-- What the renderer needs of a record, against the checks of the wire.
use open_image_debugger.Prelude.{
  ℕ, zero, suc, ◌*◌, ◌≤◌, ◌≡◌, ◌⊎◌, inr, true, List, [], ◌∷◌, ◌++◌, set, length, ℤ, pos, pos_part,
  IsI32, arith,
}
use open_image_debugger.Ipc.RawDataDecode.{
  BufferType, float64, Narrowing, type_size, is_known_buffer_type, within_display_limits,
  geometry_fits_payload,
}
use open_image_debugger.Ipc.RawDataDecode.Sizes.{span_pixels, geometry_fits_payload_iff}
use open_image_debugger.Ipc.RawDataDecode.Payload.{length-make_float_buffer_from_double}
use open_image_debugger.Visualization.BufferSpanFits.{
  display_element_size, display_element_size_bounds, buffer_span_fits, buffer_span_fits_iff,
}
use open_image_debugger.Host.BufferModel.{
  BufferRecord, local_file, is_valid_pixel_layout, record_bytes,
}

-- The bytes that a record keeps are as many elements, at the renderer's size, as the payload held.
narrowed_span :
    (n : Narrowing) (t : BufferType) (bytes : List ℕ) (span c : ℕ)
    → span * (c * type_size t) ≤ length bytes
    → span * (c * display_element_size t) ≤ length (record_bytes n t bytes)
unfolding type_size display_element_size record_bytes
narrowed_span n float64 bytes span c h =
    let eight : span * c * 8 ≤ length bytes = omega arith in
    rw (length-make_float_buffer_from_double n bytes) (omega arith)
narrowed_span n _ bytes span c h = h

-- For 32-bit shapes, a payload that passes the check of the wire passes the check of the renderer
-- on the bytes that the record keeps, those of a double buffer narrowed to float included.
pub buffer_span_fits-geometry_fits_payload :
    (n : Narrowing) (w h c s : ℤ) (t : BufferType) (bytes : List ℕ)
    → IsI32 w
    → IsI32 h
    → IsI32 c
    → IsI32 s
    → geometry_fits_payload w h c s t (length bytes) ≡ true
    → buffer_span_fits w h c s (display_element_size t) (length (record_bytes n t bytes)) ≡ true
buffer_span_fits-geometry_fits_payload n w h c s t bytes wi hi ci si fits =
    let (known, r, room) =
      (geometry_fits_payload_iff w h c s t wi hi ci si (length bytes)).0 fits in
    let (low, high) = display_element_size_bounds t in
    (buffer_span_fits_iff w h c s (display_element_size t) wi hi ci si (omega arith) _).1
      (r, low, narrowed_span n t bytes (span_pixels w h s) (pos_part c) room)

pub record IsDrawable (r : BufferRecord) : Type 0 where
  pub known : is_known_buffer_type r.type ≡ true
  pub limits : within_display_limits r.width r.height r.channels ≡ true
  pub fits :
      buffer_span_fits r.width r.height r.channels r.step
        (display_element_size r.type)
        (length r.bytes)
      ≡ true
  pub layout : (r.channels ≡ pos 1) ⊎ (is_valid_pixel_layout r.pixel_layout ≡ true)

-- Records opened from a file do not come through the wire.
abbrev pub AllDrawable : List BufferRecord → Type 0
AllDrawable [] = Unit
AllDrawable (r ∷ rs) = ((r.kind ≡ local_file) ⊎ IsDrawable r) × AllDrawable rs

pub AllDrawable-set :
    (rs : List BufferRecord) (i : ℕ) (r : BufferRecord)
    → IsDrawable r
    → AllDrawable rs
    → AllDrawable (set rs i r)
AllDrawable-set [] i r d all = tt
AllDrawable-set (x ∷ rs) zero r d (here, rest) = (inr d, rest)
AllDrawable-set (x ∷ rs) (suc i) r d (here, rest) = (here, AllDrawable-set rs i r d rest)

pub AllDrawable-append :
    (rs : List BufferRecord) (r : BufferRecord)
    → IsDrawable r
    → AllDrawable rs
    → AllDrawable (rs ++ r ∷ [])
AllDrawable-append [] r d all = (inr d, tt)
AllDrawable-append (x ∷ rs) r d (here, rest) = (here, AllDrawable-append rs r d rest)
