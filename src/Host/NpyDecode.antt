-- ===== src/Host/NpyDecode.antt =====
-- src/host/io/npy_decode.{h,cpp}: NumPy arrays in files. The errors are values without their wording.
pub mod Text
pub mod Search
pub mod Counting
pub mod Yields
pub mod Soundness
use open_image_debugger.Prelude.{
  ℕ, zero, suc, ◌+◌, ◌-◌, ◌*◌, ◌%◌, ◌^◌, ◌≡◌, Bool, true, false, not, ◌&&◌, ◌||◌, Option, none,
  some, List, [], ◌∷◌, ◌++◌, ltb, leb, ◌==◌, if◌then◌else◌, ℤ, pos, negsuc, eqb_ℤ, leb_ℤ, ltb_ℤ,
  to_u64, length, take, drop, Str, codes, str_eq, mul64, from_chars,
}
use open_image_debugger.Ipc.RawDataDecode.{
  BufferType, unsigned_byte, unsigned_short, short, int32, float32, float64,
}
use open_image_debugger.Host.NpyDecode.Text.{
  NpyError, Expected, value, unexpected, ◌>>=◌, or_error, DType, map_dtype, extract_quoted,
  extract_fortran, extract_shape, short_descriptor, big_endian, too_small, bad_magic, too_small_v2,
  unsupported_major, header_too_large, header_too_long, fortran_3d, bad_rank, size_range,
  channel_range, negative_dimension, payload_mismatch,
}

pub record NpyHeader : Type 0 where
  pub text : Str
  pub payload_offset : ℕ

-- The checks on the length of the header, which is at the front of the bytes after the prefix.
unfoldable pub header_at : (data_off header_len : ℕ) → (blob : List ℕ) → Expected NpyHeader
header_at data_off header_len blob =
    if ltb 65536 header_len
    then unexpected header_too_large
    else if ltb (length blob) (data_off + header_len)
    then unexpected header_too_long
    else value (record {
      text = take header_len (drop data_off blob);
      payload_offset = data_off + header_len;
    })

header_v2 : (blob : List ℕ) → (l0 l1 : ℕ) → (rest : List ℕ) → Expected NpyHeader
header_v2 blob l0 l1 (l2 ∷ l3 ∷ rest) =
    header_at 12 (l0 + l1 * 2 ^ 8 + l2 * 2 ^ 16 + l3 * 2 ^ 24) blob
header_v2 blob l0 l1 rest = unexpected too_small_v2

-- What follows the check of the magic.
unfoldable pub header_of : (major l0 l1 : ℕ) → (rest blob : List ℕ) → Expected NpyHeader
unfolding header_v2
header_of major l0 l1 rest blob =
    if major == 1
    then header_at 10 (l0 + l1 * 2 ^ 8) blob
    else if leb 2 major
    then header_v2 blob l0 l1 rest
    else unexpected unsupported_major

abbrev pub magic : List ℕ
magic = 147 ∷ 78 ∷ 85 ∷ 77 ∷ 80 ∷ 89 ∷ []

unfoldable pub parse_header_span : (blob : List ℕ) → Expected NpyHeader
parse_header_span (m0 ∷ m1 ∷ m2 ∷ m3 ∷ m4 ∷ m5 ∷ major ∷ minor ∷ l0 ∷ l1 ∷ rest) =
    if str_eq (m0 ∷ m1 ∷ m2 ∷ m3 ∷ m4 ∷ m5 ∷ []) magic
    then header_of major l0 l1 rest (m0 ∷ m1 ∷ m2 ∷ m3 ∷ m4 ∷ m5 ∷ major ∷ minor ∷ l0 ∷ l1 ∷ rest)
    else unexpected bad_magic
parse_header_span _ = unexpected too_small

pub record NpyLayout : Type 0 where
  pub width : ℤ
  pub height : ℤ
  pub channels : ℤ
  pub step : ℤ
  pub transpose : Bool

-- The ranges of the dimensions.
unfoldable pub checked_layout : NpyLayout → Expected NpyLayout
checked_layout l =
    if ltb_ℤ l.width (pos 1)
      || ltb_ℤ (pos 131072) l.width
      || ltb_ℤ l.height (pos 1)
      || ltb_ℤ (pos 131072) l.height
    then unexpected size_range
    else if ltb_ℤ l.channels (pos 1) || ltb_ℤ (pos 4) l.channels
    then unexpected channel_range
    else value l

unfoldable pub layout_from_shape : (dims : List ℤ) → (fortran : Bool) → Expected NpyLayout
layout_from_shape (a ∷ b ∷ []) true =
    checked_layout (record { width = a; height = b; channels = pos 1; step = a; transpose = true })
layout_from_shape (a ∷ b ∷ []) false =
    checked_layout (record { width = b; height = a; channels = pos 1; step = b; transpose = false })
layout_from_shape (a ∷ b ∷ c ∷ []) true = unexpected fortran_3d
layout_from_shape (a ∷ b ∷ c ∷ []) false =
    checked_layout (record { width = b; height = a; channels = c; step = b; transpose = false })
layout_from_shape _ fortran = unexpected bad_rank

pub record NpyArray : Type 0 where
  pub type : BufferType
  pub width : ℤ
  pub height : ℤ
  pub channels : ℤ
  pub step : ℤ
  pub transpose : Bool
  pub bytes : List ℕ

-- The fold of the element count.
unfoldable pub count_elements : (element_count : ℕ) → (dims : List ℤ) → Expected ℕ
count_elements n [] = value n
count_elements n (d ∷ dims) =
    let rest = count_elements (mul64 n (to_u64 d)) dims in
    if ltb_ℤ d (pos 0) then unexpected negative_dimension else rest

-- The comparison of the payload with the size that the shape asks for.
unfoldable pub take_payload :
    DType → NpyLayout → (expected_bytes : ℕ) → (payload : List ℕ) → Expected NpyArray
take_payload dtype layout expected_bytes payload =
    if not (length payload == expected_bytes)
    then unexpected payload_mismatch
    else value (record {
      type = dtype.type;
      width = layout.width;
      height = layout.height;
      channels = layout.channels;
      step = layout.step;
      transpose = layout.transpose;
      bytes = take expected_bytes payload;
    })

unfoldable pub decode_npy : (blob : List ℕ) → Expected NpyArray
decode_npy blob = do
  parsed ← parse_header_span blob
  descr ← extract_quoted parsed.text (codes "'descr'")
  dtype ← map_dtype descr
  fortran ← extract_fortran parsed.text
  dims ← extract_shape parsed.text
  layout ← layout_from_shape dims fortran
  element_count ← count_elements 1 dims
  take_payload dtype layout (mul64 element_count dtype.itemsize) (drop parsed.payload_offset blob)
