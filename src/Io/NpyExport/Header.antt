-- ===== src/Io/NpyExport/Header.antt =====
-- The header that src/io/buffer_export_core.cpp writes, as src/host/io/npy_decode.cpp reads it.
use open_image_debugger.Prelude.{
  ℕ, zero, suc, ◌+◌, ◌-◌, ◌<◌, ◌^◌, ◌≡◌, refl, sym, ap, ◌∙◌, true, false, some, List, [], ◌∷◌, ◌++◌,
  length, take, drop, Str, codes, decimal, AreDigits, decimal-AreDigits, from_chars-decimal,
  from_chars, decimal-not_empty, take-length-append, ℤ, pos, arith, length-append, ◌==◌,
  starts_with_digit, is_digit, append-nil,
}
use open_image_debugger.Ipc.RawDataDecode.{
  BufferType, unsigned_byte, unsigned_short, short, int32, float32, float64, unknown,
}
use open_image_debugger.Host.NpyDecode.Text.{
  value, ◌>>=◌, or_error, search, search_from, has_prefix, shifted, found_before, extract_quoted,
  extract_fortran, extract_shape, shape_tuple, closing_of, shape_dims, parse_dims, read_dim,
  first_dim, parsed_dim, next_dim, skip_separators,
}
use open_image_debugger.Host.NpyDecode.Search.{
  avoids, search-skip, shifted-shifted, AreDigits-avoids, avoids-append, found_before-shifted,
}
use open_image_debugger.Io.NpyExport.{npy_descr}

-- The header from its start to the opening parenthesis, and what follows.
abbrev pub header_text : BufferType → Str → Str
header_text type rest =
    codes "{'descr': '"
    ++ (npy_descr type ++ (codes "', 'fortran_order': False, 'shape': (" ++ rest))

pub extract_quoted-header :
    (type : BufferType) (rest : Str)
    → extract_quoted (header_text type rest) (codes "'descr'") ≡ value (npy_descr type)
unfolding extract_quoted npy_descr search search_from has_prefix shifted or_error ◌>>=◌
extract_quoted-header unsigned_byte rest = refl
extract_quoted-header unsigned_short rest = refl
extract_quoted-header short rest = refl
extract_quoted-header int32 rest = refl
extract_quoted-header float32 rest = refl
extract_quoted-header float64 rest = refl
extract_quoted-header (unknown n) rest = refl

from_fortran :
    (type : BufferType) (rest : Str)
    → drop 17 (header_text type rest) ≡ codes "'fortran_order': False, 'shape': (" ++ rest
unfolding npy_descr
from_fortran unsigned_byte rest = refl
from_fortran unsigned_short rest = refl
from_fortran short rest = refl
from_fortran int32 rest = refl
from_fortran float32 rest = refl
from_fortran float64 rest = refl
from_fortran (unknown n) rest = refl

extract_fortran-steps :
    (type : BufferType) (rest : Str)
    → extract_fortran (header_text type rest)
      ≡ value (found_before (search_from (codes "True") 17 (header_text type rest)) (some 39))
unfolding extract_fortran npy_descr search search_from has_prefix shifted or_error ◌>>=◌
extract_fortran-steps unsigned_byte rest = refl
extract_fortran-steps unsigned_short rest = refl
extract_fortran-steps short rest = refl
extract_fortran-steps int32 rest = refl
extract_fortran-steps float32 rest = refl
extract_fortran-steps float64 rest = refl
extract_fortran-steps (unknown n) rest = refl

-- The word `True` can stand only behind the comma.
pub extract_fortran-header :
    (type : BufferType) (rest : Str) → extract_fortran (header_text type rest) ≡ value false
unfolding search_from
extract_fortran-header type rest =
    let later =
      search-skip 84 (codes "rue") (codes "'fortran_order': False, 'shape': (") rest refl in
    extract_fortran-steps type rest
    ∙ ap value (
        rw (from_fortran type rest, later, shifted-shifted 17 34 (search (codes "True") rest))
          (found_before-shifted 51 39 _ (omega arith)))

extract_shape-steps :
    (type : BufferType) (rest : Str)
    → extract_shape (header_text type rest)
      ≡ shape_tuple
          (header_text type rest)
          (some 50)
          (search_from (codes ")") 50 (header_text type rest))
unfolding extract_shape npy_descr search search_from has_prefix shifted or_error ◌>>=◌ closing_of
extract_shape-steps unsigned_byte rest = refl
extract_shape-steps unsigned_short rest = refl
extract_shape-steps short rest = refl
extract_shape-steps int32 rest = refl
extract_shape-steps float32 rest = refl
extract_shape-steps float64 rest = refl
extract_shape-steps (unknown n) rest = refl

from_shape :
    (type : BufferType) (rest : Str)
    → (drop 50 (header_text type rest) ≡ codes "(" ++ rest)
      × (drop 51 (header_text type rest) ≡ rest)
unfolding npy_descr
from_shape unsigned_byte rest = (refl, refl)
from_shape unsigned_short rest = (refl, refl)
from_shape short rest = (refl, refl)
from_shape int32 rest = (refl, refl)
from_shape float32 rest = (refl, refl)
from_shape float64 rest = (refl, refl)
from_shape (unknown n) rest = (refl, refl)

-- The text of the tuple is what stands before the first closing parenthesis.
pub extract_shape-header :
    (type : BufferType) (rest : Str) (n : ℕ)
    → search (codes ")") rest ≡ some n
    → extract_shape (header_text type rest) ≡ shape_dims (take n rest)
unfolding search_from shape_tuple shifted parse_dims
extract_shape-header type rest n found =
    let (at_parenthesis, behind) = from_shape type rest in
    let passed = search-skip 41 [] (codes "(") rest refl in
    let position : 50 + (1 + n) - 51 ≡ n = omega arith in
    extract_shape-steps type rest ∙ rw (at_parenthesis, passed, found, behind, position) refl

first_dim-append :
    (s t : Str) → 0 < length s → first_dim (s ++ t) ≡ parsed_dim (from_chars (s ++ t))
unfolding first_dim
first_dim-append [] t h = absurd (omega arith)
first_dim-append (c ∷ s) t h = refl

read_dim-decimal :
    (n : ℕ) (s rest : Str)
    → n < 2 ^ 31
    → skip_separators s ≡ decimal n ++ rest
    → starts_with_digit rest ≡ false
    → read_dim s ≡ next_dim (pos n) rest
unfolding read_dim parsed_dim
read_dim-decimal n s rest small skip stop =
    rw
      (
        skip,
        first_dim-append (decimal n) rest (decimal-not_empty n small),
        from_chars-decimal n rest small stop,
      )
      refl

-- Digits are no separators.
skip_separators-digits :
    (s t : Str) → AreDigits s → 0 < length s → skip_separators (s ++ t) ≡ s ++ t
unfolding skip_separators AreDigits is_digit
skip_separators-digits [] t d h = absurd (omega arith)
skip_separators-digits (c ∷ s) t (digit, d) h =
    let space : (c == 32) ≡ false = ground (arith, digit) in
    let comma : (c == 44) ≡ false = ground (arith, digit) in rw (space, comma) refl

skip_decimal : (n : ℕ) (s : Str) → n < 2 ^ 31 → skip_separators (decimal n ++ s) ≡ decimal n ++ s
skip_decimal n s small =
    skip_separators-digits (decimal n) s (decimal-AreDigits n) (decimal-not_empty n small)

-- The rounds of the loop over the dimensions.
parse_dims-dim :
    (left n : ℕ) (s rest : Str) (dims : List ℤ)
    → n < 2 ^ 31
    → skip_separators s ≡ decimal n ++ rest
    → starts_with_digit rest ≡ false
    → parse_dims left rest ≡ value dims
    → parse_dims (suc left) s ≡ value (pos n ∷ dims)
unfolding parse_dims ◌>>=◌
parse_dims-dim left n s rest dims small skip stop later =
    rw (read_dim-decimal n s rest small skip stop, parse_dims, later) refl

-- A tuple of two numbers, as it is printed.
abbrev pub two_dims : (a b : ℕ) → Str
two_dims a b = decimal a ++ (codes ", " ++ decimal b)

abbrev pub three_dims : (a b c : ℕ) → Str
three_dims a b c = decimal a ++ (codes ", " ++ (decimal b ++ (codes ", " ++ decimal c)))

parse_dims-empty : (left : ℕ) → parse_dims left [] ≡ value []
unfolding parse_dims read_dim first_dim skip_separators
parse_dims-empty zero = refl
parse_dims-empty (suc left) = refl

comma_skipped :
    (n : ℕ) (s : Str)
    → n < 2 ^ 31
    → skip_separators (codes ", " ++ (decimal n ++ s)) ≡ decimal n ++ s
unfolding skip_separators
comma_skipped n s small = skip_decimal n s small

two_dims-parsed :
    (a b left : ℕ)
    → a < 2 ^ 31
    → b < 2 ^ 31
    → parse_dims (suc (suc (suc left))) (two_dims a b) ≡ value (pos a ∷ pos b ∷ [])
unfolding starts_with_digit is_digit
two_dims-parsed a b left small_a small_b =
    parse_dims-dim _ a _ (codes ", " ++ decimal b) _ small_a (skip_decimal a _ small_a) refl (
      parse_dims-dim _ b _ [] _ small_b
        (ap (λ x. skip_separators (codes ", " ++ x)) (sym (append-nil (decimal b)))
          ∙ comma_skipped b [] small_b)
        refl (parse_dims-empty (suc left)))

three_dims-parsed :
    (a b c left : ℕ)
    → a < 2 ^ 31
    → b < 2 ^ 31
    → c < 2 ^ 31
    → parse_dims (suc (suc (suc (suc left)))) (three_dims a b c)
      ≡ value (pos a ∷ pos b ∷ pos c ∷ [])
unfolding starts_with_digit is_digit
three_dims-parsed a b c left small_a small_b small_c =
    parse_dims-dim _ a _ (codes ", " ++ (decimal b ++ (codes ", " ++ decimal c))) _ small_a
      (skip_decimal a _ small_a) refl
      (parse_dims-dim _ b _ (codes ", " ++ decimal c) _ small_b (comma_skipped b _ small_b) refl (
        parse_dims-dim _ c _ [] _ small_c
          (ap (λ x. skip_separators (codes ", " ++ x)) (sym (append-nil (decimal c)))
            ∙ comma_skipped c [] small_c)
          refl (parse_dims-empty (suc left))))

-- The fuel is one more than the length, which is enough for either tuple.
pub shape_dims-two :
    (a b : ℕ) → a < 2 ^ 31 → b < 2 ^ 31 → shape_dims (two_dims a b) ≡ value (pos a ∷ pos b ∷ [])
shape_dims-two a b small_a small_b =
    let n = length (decimal a) + length (decimal b) - 0 in
    let fuel : suc (length (two_dims a b)) ≡ suc (suc (suc n)) =
      rw (length-append (decimal a) (codes ", " ++ decimal b)) (omega arith) in
    rw fuel (two_dims-parsed a b n small_a small_b)

pub shape_dims-three :
    (a b c : ℕ)
    → a < 2 ^ 31
    → b < 2 ^ 31
    → c < 2 ^ 31
    → shape_dims (three_dims a b c) ≡ value (pos a ∷ pos b ∷ pos c ∷ [])
shape_dims-three a b c small_a small_b small_c =
    let n = length (decimal a) + length (decimal b) + length (decimal c) + 1 in
    let fuel : suc (length (three_dims a b c)) ≡ suc (suc (suc (suc n))) =
      rw
        (
          length-append (decimal a) (codes ", " ++ (decimal b ++ (codes ", " ++ decimal c))),
          length-append (decimal b) (codes ", " ++ decimal c),
        )
        (omega arith) in
    rw fuel (three_dims-parsed a b c n small_a small_b small_c)

-- Where the closing parenthesis of the tuple is found.
pub search-close :
    (inner rest : Str)
    → avoids 41 inner ≡ true
    → (search (codes ")") (inner ++ (codes ")" ++ rest)) ≡ some (length inner))
      × (take (length inner) (inner ++ (codes ")" ++ rest)) ≡ inner)
unfolding search has_prefix shifted
search-close inner rest h = (
  search-skip 41 [] inner (codes ")" ++ rest) h ∙ ap some (omega arith),
  take-length-append inner (codes ")" ++ rest),
)

decimal-avoids : (n : ℕ) → avoids 41 (decimal n) ≡ true
unfolding is_digit
decimal-avoids n = AreDigits-avoids 41 (decimal n) refl (decimal-AreDigits n)

pub two_dims-avoids : (a b : ℕ) → avoids 41 (two_dims a b) ≡ true
two_dims-avoids a b = avoids-append 41 (decimal a) _ (decimal-avoids a) (decimal-avoids b)

pub three_dims-avoids : (a b c : ℕ) → avoids 41 (three_dims a b c) ≡ true
three_dims-avoids a b c =
    avoids-append 41 (decimal a) _ (decimal-avoids a)
      (avoids-append 41 (decimal b) _ (decimal-avoids b) (decimal-avoids c))
