-- ===== src/Host/NpyDecode/Text.antt =====
-- src/host/io/npy_decode.cpp: the errors, and what is read from the text of the header.
use open_image_debugger.Prelude.{
  ℕ, zero, suc, ◌+◌, ◌-◌, Bool, true, false, ◌&&◌, ◌||◌, Option, none, some, List, [], ◌∷◌, ltb,
  ◌==◌, if◌then◌else◌, ℤ, pos, eqb_ℤ, length, take, drop, Str, codes, from_chars,
}
use open_image_debugger.Ipc.RawDataDecode.{
  BufferType, unsigned_byte, unsigned_short, short, int32, float32, float64,
}

-- The errors, one for each message.
pub data NpyError : Type 0 where
  short_descriptor big_endian unparseable_itemsize unsupported_dtype : Str → NpyError
  missing_key malformed_value unterminated_value : Str → NpyError
  missing_fortran_order missing_shape malformed_shape unparseable_dimension : NpyError
  too_small bad_magic too_small_v2 unsupported_major header_too_large header_too_long : NpyError
  fortran_3d bad_rank size_range channel_range negative_dimension payload_mismatch : NpyError

-- `Expected<T>`.
pub data Expected (A : Type 0) : Type 0 where
  value : A → Expected A
  unexpected : NpyError → Expected A

infixl 5 ◌>>=◌
unfoldable pub ◌>>=◌ : {A B : Type 0} → Expected A → (A → Expected B) → Expected B
value a >>= f = f a
unexpected e >>= f = unexpected e

unfoldable pub or_error : {A : Type 0} → NpyError → Option A → Expected A
or_error e none = unexpected e
or_error e (some a) = value a

unfoldable pub has_prefix : (pattern s : Str) → Bool
has_prefix [] s = true
has_prefix (p ∷ ps) [] = false
has_prefix (p ∷ ps) (c ∷ s) = p == c && has_prefix ps s

unfoldable pub shifted : ℕ → Option ℕ → Option ℕ
shifted n none = none
shifted n (some i) = some (n + i)

-- `std::string_view::find`.
unfoldable pub search : (pattern s : Str) → Option ℕ
search pattern [] = if has_prefix pattern [] then some 0 else none
search pattern (c ∷ s) =
    let later = shifted 1 (search pattern s) in if has_prefix pattern (c ∷ s) then some 0 else later

-- `find` from a position on.
unfoldable pub search_from : (pattern : Str) → (position : ℕ) → Str → Option ℕ
search_from pattern position s = shifted position (search pattern (drop position s))

pub record DType : Type 0 where
  pub type : BufferType
  pub itemsize : ℕ

unfoldable pub dtype_of : (descr : Str) → (kind : ℕ) → Option (ℤ × Str) → Expected DType
dtype_of descr kind none = unexpected (unparseable_itemsize descr)
dtype_of descr kind (some (n, c ∷ rest)) = unexpected (unparseable_itemsize descr)
dtype_of descr kind (some (n, [])) =
    if kind == 117 && eqb_ℤ n (pos 1)
    then value (record { type = unsigned_byte; itemsize = 1 })
    else if kind == 117 && eqb_ℤ n (pos 2)
    then value (record { type = unsigned_short; itemsize = 2 })
    else if kind == 105 && eqb_ℤ n (pos 2)
    then value (record { type = short; itemsize = 2 })
    else if kind == 105 && eqb_ℤ n (pos 4)
    then value (record { type = int32; itemsize = 4 })
    else if kind == 102 && eqb_ℤ n (pos 4)
    then value (record { type = float32; itemsize = 4 })
    else if kind == 102 && eqb_ℤ n (pos 8)
    then value (record { type = float64; itemsize = 8 })
    else unexpected (unsupported_dtype descr)

unfoldable pub map_dtype : (descr : Str) → Expected DType
map_dtype (byteorder ∷ kind ∷ c ∷ size_text) =
    if byteorder == 62
    then unexpected (big_endian (byteorder ∷ kind ∷ c ∷ size_text))
    else dtype_of (byteorder ∷ kind ∷ c ∷ size_text) kind (from_chars (c ∷ size_text))
map_dtype descr = unexpected (short_descriptor descr)

unfoldable pub extract_quoted : (header key : Str) → Expected Str
extract_quoted header key = do
  key_pos ← or_error (missing_key key) (search key header)
  quote ← or_error (malformed_value key) (search_from (codes "'") (key_pos + length key) header)
  last ← or_error (unterminated_value key) (search_from (codes "'") (quote + 1) header)
  value (take (last - (quote + 1)) (drop (quote + 1) header))

-- `a < b` for two results of `find`, where `npos` is above every position and `a` is not `npos`.
unfoldable pub found_before : Option ℕ → Option ℕ → Bool
found_before none b = false
found_before (some i) none = true
found_before (some i) (some k) = ltb i k

unfoldable pub extract_fortran : (header : Str) → Expected Bool
extract_fortran header = do
  key_pos ← or_error missing_fortran_order (search (codes "'fortran_order'") header)
  value (
      found_before (search_from (codes "True") key_pos header)
        (search_from (codes ",") key_pos header))

unfoldable pub skip_separators : Str → Str
skip_separators [] = []
skip_separators (c ∷ s) = let rest = skip_separators s in if c == 32 || c == 44 then rest else c ∷ s

-- One round of the loop over the dimensions.
pub data NextDim : Type 0 where
  no_dim bad_dim : NextDim
  next_dim : ℤ → Str → NextDim

unfoldable pub parsed_dim : Option (ℤ × Str) → NextDim
parsed_dim none = bad_dim
parsed_dim (some (d, rest)) = next_dim d rest

unfoldable pub first_dim : Str → NextDim
first_dim [] = no_dim
first_dim (c ∷ s) = parsed_dim (from_chars (c ∷ s))

unfoldable pub read_dim : Str → NextDim
read_dim inner = first_dim (skip_separators inner)

-- `left` bounds the rounds: each but the last reads a byte.
unfoldable pub parse_dims : (left : ℕ) → Str → Expected (List ℤ)
parse_dims zero inner = value []
parse_dims (suc left) inner = elim (read_dim inner) [
  | no_dim ↦ value []
  | bad_dim ↦ unexpected unparseable_dimension
  | next_dim d rest ↦ parse_dims left rest >>= λ dims. value (d ∷ dims)
]

abbrev pub shape_dims : Str → Expected (List ℤ)
shape_dims inner = parse_dims (suc (length inner)) inner

unfoldable pub shape_tuple : (header : Str) → (opening closing : Option ℕ) → Expected (List ℤ)
shape_tuple header (some opening) (some closing) =
    shape_dims (take (closing - (opening + 1)) (drop (opening + 1) header))
shape_tuple header _ _ = unexpected malformed_shape

unfoldable pub closing_of : (header : Str) → (opening : Option ℕ) → Option ℕ
closing_of header none = none
closing_of header (some opening) = search_from (codes ")") opening header

unfoldable pub extract_shape : (header : Str) → Expected (List ℤ)
extract_shape header = do
  key_pos ← or_error missing_shape (search (codes "'shape'") header)
  shape_tuple header (search_from (codes "(") key_pos header)
      (closing_of header (search_from (codes "(") key_pos header))
