-- ===== src/Examples/Files.antt =====
-- A small buffer that is exported to a file and opened again.
use open_image_debugger.Prelude.{
  ◌≡◌, refl, inl, List, [], ◌∷◌, false, pos, codes, ℕ, arith, add64, sub64, mul64,
}
use open_image_debugger.Ipc.RawDataDecode.{
  unsigned_byte, is_known_buffer_type, within_display_limits, not_renderable,
}
use open_image_debugger.Visualization.BufferSpanFits.{buffer_span_fits, display_element_size}
use open_image_debugger.Host.BufferModel.{BufferRecord, debugger_symbol}
use open_image_debugger.Host.IpcClient.Drawable.{IsDrawable}
use open_image_debugger.Host.NpyDecode.Text.{value}
use open_image_debugger.Host.NpyDecode.{decode_npy}
use open_image_debugger.Host.NpyDecode.Soundness.{IsSound, decode_npy-IsSound}
use open_image_debugger.Io.NpyExport.{written, export_npy_raw}
use open_image_debugger.Io.NpyExport.RoundTrip.{reopened, decode_npy-export_npy_raw}

-- Two rows of two bytes, each followed by one byte of padding.
abbrev padded_image : BufferRecord
padded_image = record {
  variable_name = codes "img";
  display_name = codes "img";
  pixel_layout = codes "rgba";
  transpose = false;
  width = pos 2;
  height = pos 2;
  channels = pos 1;
  step = pos 3;
  type = unsigned_byte;
  bytes = 1 ∷ 2 ∷ 0 ∷ 3 ∷ 4 ∷ [];
  kind = debugger_symbol;
}

padded_image-IsDrawable : IsDrawable padded_image
unfolding is_known_buffer_type within_display_limits buffer_span_fits display_element_size
    not_renderable add64 sub64 mul64
padded_image-IsDrawable = record { known = refl; limits = refl; fits = refl; layout = inl refl }

decode_npy-export_npy_raw_example :
    (file : List ℕ) × (export_npy_raw padded_image.bytes padded_image.type padded_image.width
        padded_image.height padded_image.channels padded_image.step
      ≡ written file)
    × (decode_npy file ≡ value (reopened padded_image))
decode_npy-export_npy_raw_example =
    decode_npy-export_npy_raw padded_image padded_image-IsDrawable (omega arith)

abbrev exported_file : List ℕ
exported_file = (decode_npy-export_npy_raw padded_image padded_image-IsDrawable (omega arith)).0

decode_npy-IsSound_example : IsSound (reopened padded_image)
decode_npy-IsSound_example =
    decode_npy-IsSound exported_file (reopened padded_image)
      (decode_npy-export_npy_raw padded_image padded_image-IsDrawable (omega arith)).2
