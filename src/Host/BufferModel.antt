-- ===== src/Host/BufferModel.antt =====
-- src/host/ui/buffer_model.h: the record of one buffer, and the test of pixel layouts; and
-- src/host/ipc/buffer_decode.{h,cpp}: the record of decoded wire fields.
use open_image_debugger.Prelude.{
  ℕ, Bool, true, ◌&&◌, ◌||◌, List, [], ◌∷◌, ◌==◌, ℤ, length, Str, codes,
}
use open_image_debugger.Ipc.RawDataDecode.{
  BufferType, float64, Narrowing, make_float_buffer_from_double,
}

pub data BufferKind : Type 0 where
  debugger_symbol local_file : BufferKind

pub record BufferRecord : Type 0 where
  pub variable_name : Str
  pub display_name : Str
  pub pixel_layout : Str
  pub transpose : Bool
  pub width : ℤ
  pub height : ℤ
  pub channels : ℤ
  pub step : ℤ
  pub type : BufferType
  pub bytes : List ℕ
  pub kind : BufferKind

is_layout_char : ℕ → Bool
is_layout_char c = c == b'r' || c == b'g' || c == b'b' || c == b'a'

-- `find_first_not_of("rgba") == npos`.
only_layout_chars : Str → Bool
unfolding is_layout_char
only_layout_chars [] = true
only_layout_chars (c ∷ cs) = is_layout_char c && only_layout_chars cs

unfoldable pub is_valid_pixel_layout : Str → Bool
unfolding only_layout_chars
is_valid_pixel_layout layout = length layout == 4 && only_layout_chars layout

abbrev pub default_pixel_layout : Str
default_pixel_layout = codes "rgba"

pub record BufferRecordParams : Type 0 where
  pub variable_name : Str
  pub display_name : Str
  pub pixel_layout : Str
  pub transpose : Bool
  pub width : ℤ
  pub height : ℤ
  pub channels : ℤ
  pub stride : ℤ
  pub type : BufferType
  pub bytes : List ℕ

-- A `double` payload is narrowed; any other is taken over.
unfoldable pub record_bytes : Narrowing → BufferType → List ℕ → List ℕ
record_bytes n float64 bytes = make_float_buffer_from_double n bytes
record_bytes n _ bytes = bytes

unfoldable pub make_buffer_record : Narrowing → BufferRecordParams → BufferRecord
make_buffer_record n params = record {
  variable_name = params.variable_name;
  display_name = params.display_name;
  pixel_layout = params.pixel_layout;
  transpose = params.transpose;
  width = params.width;
  height = params.height;
  channels = params.channels;
  step = params.stride;
  type = params.type;
  bytes = record_bytes n params.type params.bytes;
  kind = debugger_symbol;
}
