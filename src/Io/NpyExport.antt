-- ===== src/Io/NpyExport.antt =====
-- src/io/buffer_export_core.cpp: the NumPy file that a buffer is exported to. The file is the list of
-- its bytes, and the stream accepts every write.
pub mod Header
pub mod Dictionary
pub mod Rows
pub mod Decoding
pub mod RoundTrip
use open_image_debugger.Prelude.{
  ℕ, zero, suc, ◌+◌, ◌-◌, ◌*◌, ◌/◌, ◌%◌, ◌^◌, ◌≡◌, Bool, true, false, List, [], ◌∷◌, ◌++◌, ltb, leb,
  ◌==◌, if◌then◌else◌, ℤ, pos, negsuc, eqb_ℤ, to_u64, length, take, drop, replicate, Str, codes,
  mul64, decimal,
}
use open_image_debugger.Ipc.RawDataDecode.{
  BufferType, unsigned_byte, unsigned_short, short, int32, float32, float64, unknown,
}

-- `std::format("{}", n)`.
unfoldable pub format_int : ℤ → Str
format_int (pos n) = decimal n
format_int (negsuc n) = 45 ∷ decimal (suc n)

unfoldable pub npy_descr : BufferType → Str
npy_descr unsigned_byte = codes "|u1"
npy_descr unsigned_short = codes "<u2"
npy_descr short = codes "<i2"
npy_descr int32 = codes "<i4"
npy_descr float32 = codes "<f4"
npy_descr float64 = codes "<f4"
npy_descr (unknown n) = codes "|u1"

unfoldable pub npy_shape : (height width channels : ℤ) → Str
npy_shape height width channels =
    if eqb_ℤ channels (pos 1)
    then codes "(" ++ (format_int height ++ (codes ", " ++ (format_int width ++ codes ")")))
    else codes "("
      ++ (format_int height
          ++ (codes ", "
              ++ (format_int width ++ (codes ", " ++ (format_int channels ++ codes ")")))))

-- The dictionary before it is padded.
unfoldable pub npy_dict : (descr : Str) → (height width channels : ℤ) → Str
npy_dict descr height width channels =
    codes "{'descr': '"
    ++ (descr
        ++ (codes "', 'fortran_order': False, 'shape': "
            ++ (npy_shape height width channels ++ codes ", }")))

-- Spaces up to the next multiple of 64 for the ten bytes of the prefix, the dictionary and a newline,
-- and the newline.
unfoldable pub padding : (dict : Str) → Str
padding dict =
    let unpadded = 10 + length dict + 1 in
    let padded = (unpadded + 63) / 64 * 64 in replicate (padded - unpadded) 32 ++ (10 ∷ [])

unfoldable pub padded_dict : (dict : Str) → Str
padded_dict dict = dict ++ padding dict

-- The prefix with the low sixteen bits of the length.
unfoldable pub npy_header : (dict : Str) → List ℕ
npy_header dict =
    147 ∷ 78 ∷ 85 ∷ 77 ∷ 80 ∷ 89 ∷ 1 ∷ 0 ∷ (length dict % 256) ∷ (length dict / 2 ^ 8 % 256) ∷ dict

unfoldable pub write_npy_header : (descr : Str) → (height width channels : ℤ) → List ℕ
write_npy_header descr height width channels =
    npy_header (padded_dict (npy_dict descr height width channels))

-- What an export does: it returns false, reads past the end of the data, or writes a file.
pub data Exported : Type 0 where
  refused past_end : Exported
  written : List ℕ → Exported

unfoldable pub append_row : List ℕ → Exported → Exported
append_row row refused = refused
append_row row past_end = past_end
append_row row (written rest) = written (row ++ rest)

-- The rows from `y` on, with `left` rows to go.
unfoldable pub write_rows : (bytes : List ℕ) → (row_bytes row_stride y left : ℕ) → Exported
unfolding append_row
write_rows bytes row_bytes row_stride y zero = written []
write_rows bytes row_bytes row_stride y (suc left) =
    let rest = write_rows bytes row_bytes row_stride (suc y) left in
    let offset = mul64 y row_stride in
    if ltb (length bytes) (offset + row_bytes)
    then past_end
    else append_row (take row_bytes (drop offset bytes)) rest

unfoldable pub with_header : List ℕ → Exported → Exported
with_header header refused = refused
with_header header past_end = past_end
with_header header (written rows) = written (header ++ rows)

-- `export_npy_impl<T>` with the size of `T`.
unfoldable pub export_npy_impl :
    (size : ℕ) → (bytes : List ℕ) → BufferType → (width height channels step : ℤ) → Exported
unfolding with_header
export_npy_impl size bytes type width height channels step =
    let row_bytes = mul64 (mul64 size (to_u64 channels)) (to_u64 width) in
    let row_stride = mul64 (mul64 size (to_u64 channels)) (to_u64 step) in
    with_header (write_npy_header (npy_descr type) height width channels)
      (write_rows bytes row_bytes row_stride 0 (to_u64 height))

unfoldable pub export_npy_raw :
    (bytes : List ℕ) → BufferType → (width height channels step : ℤ) → Exported
export_npy_raw bytes unsigned_byte = export_npy_impl 1 bytes unsigned_byte
export_npy_raw bytes unsigned_short = export_npy_impl 2 bytes unsigned_short
export_npy_raw bytes short = export_npy_impl 2 bytes short
export_npy_raw bytes int32 = export_npy_impl 4 bytes int32
export_npy_raw bytes float32 = export_npy_impl 4 bytes float32
export_npy_raw bytes float64 = export_npy_impl 4 bytes float64
export_npy_raw bytes (unknown n) = λ width height channels step. refused
