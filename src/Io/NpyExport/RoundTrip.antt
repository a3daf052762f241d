-- ===== src/Io/NpyExport/RoundTrip.antt =====
-- A buffer that src/io/buffer_export_core.cpp exports, opened again by src/host/io/npy_decode.cpp.
use open_image_debugger.Prelude.{
  ℕ, ◌+◌, ◌-◌, ◌*◌, ◌%◌, ◌^◌, ◌≤◌, ◌<◌, ◌≡◌, refl, ◌∙◌, true, false, List, ◌++◌, length, ℤ, pos,
  negsuc, pos_part, IsI32, arith, mul64_exact, mul_mono, word_mod,
}
use open_image_debugger.Ipc.RawDataDecode.{
  BufferType, unsigned_byte, unsigned_short, short, int32, float32, float64, unknown,
  is_known_buffer_type,
}
use open_image_debugger.Visualization.BufferSpanFits.{
  display_element_size, display_element_size_bounds, buffer_span_fits_iff,
}
use open_image_debugger.Ipc.RawDataDecode.Sizes.{IsRenderable, stride_pos, pos_part-lt}
use open_image_debugger.Ipc.RawDataDecode.Payload.{WithinLimits, within_display_limits-WithinLimits}
use open_image_debugger.Host.BufferModel.{BufferRecord}
use open_image_debugger.Host.IpcClient.Drawable.{IsDrawable}
use open_image_debugger.Host.NpyDecode.Text.{value}
use open_image_debugger.Host.NpyDecode.{NpyArray, decode_npy}
use open_image_debugger.Io.NpyExport.{
  npy_header, write_npy_header, written, with_header, export_npy_impl, export_npy_raw,
}
use open_image_debugger.Io.NpyExport.Dictionary.{npy_text_padded}
use open_image_debugger.Io.NpyExport.Rows.{
  packed_rows, RowsFit, write_rows-packed_rows, length-packed_rows,
}
use open_image_debugger.Io.NpyExport.Decoding.{stored_type, Limits, decode_npy-header}

export_npy_raw-impl :
    (type : BufferType) (bytes : List ℕ)
    → is_known_buffer_type type ≡ true
    → export_npy_raw bytes type ≡ export_npy_impl (display_element_size type) bytes type
unfolding export_npy_raw is_known_buffer_type display_element_size
export_npy_raw-impl unsigned_byte bytes h = refl
export_npy_raw-impl unsigned_short bytes h = refl
export_npy_raw-impl short bytes h = refl
export_npy_raw-impl int32 bytes h = refl
export_npy_raw-impl float32 bytes h = refl
export_npy_raw-impl float64 bytes h = refl
export_npy_raw-impl (unknown n) bytes h = cc

-- The rows of a buffer whose last pixel ends inside the bytes lie inside them.
rows_fit :
    (h w c s size n : ℕ)
    → size ≤ 4
    → Limits h w c
    → s < 2 ^ 31
    → ((h - 1) * s + w) * (c * size) ≤ n
    → RowsFit n (size * c * w) (size * c * s) h
rows_fit h w c s size n small l narrow room y below =
    let rows : y * s ≤ (h - 1) * s = mul_mono y (h - 1) s s (omega arith) (omega arith) in
    let cells : (y * s + w) * (c * size) ≤ ((h - 1) * s + w) * (c * size) =
      mul_mono (y * s + w) ((h - 1) * s + w) (c * size) (c * size) (omega arith) (omega arith) in
    let pixel : size * c ≤ 4 * 4 = mul_mono size 4 c 4 small l.channels_high in
    let row : size * c * s ≤ 4 * 4 * 2 ^ 31 =
      mul_mono (size * c) (4 * 4) s (2 ^ 31) pixel (omega arith) in
    let offset : y * (size * c * s) ≤ 131072 * (4 * 4 * 2 ^ 31) =
      mul_mono y 131072 (size * c * s) (4 * 4 * 2 ^ 31) (omega (arith, l.height_high)) row in
    (omega arith, omega arith)

export_npy_impl-written :
    (type : BufferType) (bytes : List ℕ) (size h w c s : ℕ)
    → size ≤ 4
    → Limits h w c
    → s < 2 ^ 31
    → ((h - 1) * s + w) * (c * size) ≤ length bytes
    → export_npy_impl size bytes type (pos w) (pos h) (pos c) (pos s)
      ≡ written (
          npy_header (npy_text_padded type h w c)
          ++ packed_rows bytes (size * c * w) (size * c * s) 0 h)
unfolding export_npy_impl with_header write_npy_header
export_npy_impl-written type bytes size h w c s small l narrow room =
    let pixel : size * c ≤ 4 * 4 = mul_mono size 4 c 4 small l.channels_high in
    let row : size * c * w ≤ 4 * 4 * 131072 =
      mul_mono (size * c) (4 * 4) w 131072 pixel l.width_high in
    let stride : size * c * s ≤ 4 * 4 * 2 ^ 31 =
      mul_mono (size * c) (4 * 4) s (2 ^ 31) pixel (omega arith) in
    let word_c : c % word_mod ≡ c = omega (arith, l.channels_high) in
    let word_w : w % word_mod ≡ w = omega (arith, l.width_high) in
    let word_h : h % word_mod ≡ h = omega (arith, l.height_high) in
    let word_s : s % word_mod ≡ s = omega arith in
    rw
      (
        word_c,
        word_w,
        word_h,
        word_s,
        mul64_exact size c (omega arith),
        mul64_exact (size * c) w (omega arith),
        mul64_exact (size * c) s (omega arith),
        write_rows-packed_rows bytes (size * c * w) (size * c * s) 0 h
            (λ y below. rows_fit h w c s size (length bytes) small l narrow room y (omega arith)),
      )
      refl

-- The array that a record comes back as: without padding between its rows, and not transposed.
unfoldable pub reopened : BufferRecord → NpyArray
reopened r =
    let pixel = display_element_size r.type * pos_part r.channels in
    record {
      type = stored_type r.type;
      width = r.width;
      height = r.height;
      channels = r.channels;
      step = r.width;
      transpose = false;
      bytes =
          packed_rows r.bytes (pixel * pos_part r.width) (pixel * pos_part r.step) 0
            (pos_part r.height);
    }

is_pos : (n : ℤ) → 1 ≤ pos_part n → n ≡ pos (pos_part n)
is_pos (pos n) h = refl
is_pos (negsuc n) h = absurd (omega arith)

small-IsI32 : (n : ℤ) → 1 ≤ pos_part n → pos_part n ≤ 131072 → IsI32 n
small-IsI32 (pos n) low high = omega arith
small-IsI32 (negsuc n) low high = absurd (omega arith)

-- The round trip for dimensions without a sign.
exported_and_decoded :
    (type : BufferType) (bytes : List ℕ) (h w c s : ℕ)
    → is_known_buffer_type type ≡ true
    → Limits h w c
    → s < 2 ^ 31
    → ((h - 1) * s + w) * (c * display_element_size type) ≤ length bytes
    → (file : List ℕ) × (export_npy_raw bytes type (pos w) (pos h) (pos c) (pos s) ≡ written file)
      × (decode_npy file
          ≡ value (record {
            type = stored_type type;
            width = pos w;
            height = pos h;
            channels = pos c;
            step = pos w;
            transpose = false;
            bytes =
                packed_rows bytes
                  (display_element_size type * c * w)
                  (display_element_size type * c * s)
                  0
                  h;
          }))
exported_and_decoded type bytes h w c s known l narrow room =
    let size = display_element_size type in
    let small = (display_element_size_bounds type).1 in
    (
      npy_header (npy_text_padded type h w c)
          ++ packed_rows bytes (size * c * w) (size * c * s) 0 h,
      rw (export_npy_raw-impl type bytes known)
          (export_npy_impl-written type bytes size h w c s small l narrow room),
      decode_npy-header type h w c _ known l (
          length-packed_rows bytes (size * c * w) (size * c * s) 0 h
            (λ y below. rows_fit h w c s size (length bytes) small l narrow room y (omega arith))
          ∙ omega arith),
    )

module _ (r : BufferRecord) (v : IsDrawable r) (step_range : IsI32 r.step) where
  drawn_limits : WithinLimits r.width r.height r.channels
  drawn_limits = within_display_limits-WithinLimits r.width r.height r.channels v.limits

  drawn_span :
      IsRenderable r.width r.height r.channels r.step
      × (((pos_part r.height - 1) * pos_part r.step + pos_part r.width)
            * (pos_part r.channels * display_element_size r.type)
          ≤ length r.bytes)
  drawn_span =
      let l = drawn_limits in
      let (low, high) = display_element_size_bounds r.type in
      let (renderable, sized, room) =
        (buffer_span_fits_iff r.width r.height r.channels r.step (display_element_size r.type)
            (small-IsI32 r.width l.width_low l.width_high)
            (small-IsI32 r.height l.height_low l.height_high)
            (small-IsI32 r.channels l.channels_low (omega (arith, l.channels_high))) step_range
            (omega arith) (length r.bytes)).0
          v.fits in
      (renderable, room)

  -- A record that can be drawn and has a 32-bit step is exported to a NumPy file without a read
  -- past the end of its bytes, and decoding that file gives back its type (float for double), its
  -- width, height and channels, and the bytes of its rows without the padding between them, not
  -- transposed.
  pub decode_npy-export_npy_raw :
      (file : List ℕ) × (export_npy_raw r.bytes r.type r.width r.height r.channels r.step
        ≡ written file)
      × (decode_npy file ≡ value (reopened r))
  unfolding reopened
  decode_npy-export_npy_raw =
      let l = drawn_limits in
      let (renderable, room) = drawn_span in
      let step_low = stride_pos r.width r.height r.channels r.step renderable in
      rw
        (
          is_pos r.width l.width_low,
          is_pos r.height l.height_low,
          is_pos r.channels l.channels_low,
          is_pos r.step step_low,
        )
        (exported_and_decoded r.type r.bytes (pos_part r.height) (pos_part r.width)
          (pos_part r.channels) (pos_part r.step) v.known
          (record {
            height_low = l.height_low;
            height_high = l.height_high;
            width_low = l.width_low;
            width_high = l.width_high;
            channels_low = l.channels_low;
            channels_high = l.channels_high;
          })
          (pos_part-lt r.step step_range) room)
