-- ===== src/Ipc/RawDataDecode.antt =====
-- src/ipc/raw_data_decode.h and raw_data_decode.cpp: element types, the display limits, and the
-- two size checks that every buffer declared by a peer goes through. `std::size_t` has 64 bits.
pub mod Sizes
pub mod Payload
use open_image_debugger.Prelude.{
  ℕ, zero, suc, ◌*◌, ◌/◌, ◌^◌, ◌≡◌, Bool, true, false, not, ◌&&◌, ◌||◌, Option, none, some, List,
  [], ◌∷◌, ◌++◌, ltb, leb, if◌then◌else◌, ℤ, pos, negsuc, leb_ℤ, ltb_ℤ, eqb_ℤ, to_u64, length, take,
  drop, add64, sub64, mul64, size_max,
}

-- `unknown n` is a value `n` of the enumeration's underlying `int` that no enumerator names.
pub data BufferType : Type 0 where
  unsigned_byte unsigned_short short int32 float32 float64 : BufferType
  unknown : ℤ → BufferType

-- `static_cast<BufferType>(n)`.
unfoldable pub buffer_type : ℤ → BufferType
buffer_type n =
    if eqb_ℤ n (pos 0)
    then unsigned_byte
    else if eqb_ℤ n (pos 2)
    then unsigned_short
    else if eqb_ℤ n (pos 3)
    then short
    else if eqb_ℤ n (pos 4)
    then int32
    else if eqb_ℤ n (pos 5)
    then float32
    else if eqb_ℤ n (pos 6)
    then float64
    else unknown n

-- `static_cast<int>(type)`.
unfoldable pub type_value : BufferType → ℤ
type_value unsigned_byte = pos 0
type_value unsigned_short = pos 2
type_value short = pos 3
type_value int32 = pos 4
type_value float32 = pos 5
type_value float64 = pos 6
type_value (unknown n) = n

abbrev pub max_buffer_bytes : ℕ
max_buffer_bytes = 16 * 1024 * 1024 * 1024

unfoldable pub exceeds_max_buffer_bytes : ℕ → Bool
exceeds_max_buffer_bytes byte_count = ltb max_buffer_bytes byte_count

abbrev pub min_buffer_dimension : ℤ
min_buffer_dimension = pos 1

abbrev pub max_buffer_dimension : ℤ
max_buffer_dimension = pos 131072

abbrev pub min_channel_count : ℤ
min_channel_count = pos 1

abbrev pub max_channel_count : ℤ
max_channel_count = pos 4

unfoldable pub within_display_limits : (width height channels : ℤ) → Bool
within_display_limits width height channels =
    leb_ℤ min_buffer_dimension width
    && leb_ℤ width max_buffer_dimension
    && leb_ℤ min_buffer_dimension height
    && leb_ℤ height max_buffer_dimension
    && leb_ℤ min_channel_count channels
    && leb_ℤ channels max_channel_count

unfoldable pub is_known_buffer_type : BufferType → Bool
is_known_buffer_type (unknown n) = false
is_known_buffer_type _ = true

unfoldable pub type_size : BufferType → ℕ
type_size int32 = 4
type_size short = 2
type_size unsigned_short = 2
type_size float32 = 4
type_size float64 = 8
type_size unsigned_byte = 1
type_size (unknown n) = 1

-- The hardware's conversion of one `double`, eight bytes, to one `float`, four bytes.
pub record Narrowing : Type 0 where
  pub to_float : List ℕ → List ℕ
  pub length-to_float : (b : List ℕ) → length (to_float b) ≡ 4

unfoldable pub narrow_elements : Narrowing → ℕ → List ℕ → List ℕ
narrow_elements n zero src = []
narrow_elements n (suc count) src = n.to_float (take 8 src) ++ narrow_elements n count (drop 8 src)

unfoldable pub make_float_buffer_from_double : Narrowing → List ℕ → List ℕ
unfolding narrow_elements
make_float_buffer_from_double n buff_double = narrow_elements n (length buff_double / 8) buff_double

-- The guard that both size checks share: `width <= 0 || height <= 0 || channels <= 0 || stride < width`.
unfoldable pub not_renderable : (width height channels stride : ℤ) → Bool
not_renderable width height channels stride =
    leb_ℤ width (pos 0) || leb_ℤ height (pos 0) || leb_ℤ channels (pos 0) || ltb_ℤ stride width

unfoldable pub geometry_fits_payload :
    (width height channels stride : ℤ) → BufferType → (byte_count : ℕ) → Bool
geometry_fits_payload width height channels stride type byte_count =
    if not (is_known_buffer_type type)
    then false
    else if not_renderable width height channels stride
    then false
    else (let element_size = mul64 (to_u64 channels) (type_size type) in
        let pixels_needed =
          add64 (mul64 (sub64 (to_u64 height) 1) (to_u64 stride)) (to_u64 width) in
        leb pixels_needed (byte_count / element_size))

-- The loop over the factors: each is checked before it is applied.
unfoldable pub multiply_checked : ℕ → List ℕ → Option ℕ
multiply_checked size [] = some size
multiply_checked size (factor ∷ rest) =
    let product = multiply_checked (mul64 size factor) rest in
    if ltb (size_max / factor) size then none else product

unfoldable pub padded_payload_size : (width height channels stride : ℤ) → BufferType → Option ℕ
padded_payload_size width height channels stride type =
    if not (is_known_buffer_type type)
    then none
    else if not_renderable width height channels stride
    then none
    else multiply_checked (to_u64 stride) (to_u64 height ∷ to_u64 channels ∷ type_size type ∷ [])
