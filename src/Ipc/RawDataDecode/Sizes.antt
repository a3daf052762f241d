-- ===== src/Ipc/RawDataDecode/Sizes.antt =====
-- The size checks of src/ipc/raw_data_decode.cpp against the sizes that they stand for.
use native.Mathlib.Nat.{le-div_iff_mul-le, div-lt_iff_lt-mul}
use open_image_debugger.Prelude.{
  ℕ, ◌+◌, ◌-◌, ◌*◌, ◌/◌, ◌^◌, ◌≤◌, ◌<◌, ◌≡◌, refl, ◌↔◌, inl, inr, true, false, none, some, List, [],
  ◌∷◌, ltb, leb, ℤ, pos, negsuc, ◌≤ℤ◌, to_u64, pos_part, IsI32, size_max, mul_mono, arith,
  Bool-cases, if◌then◌else◌, add64_exact, sub64_exact, mul64_exact, mul64, add64, sub64, ltb→lt,
  not, ◌&&◌,
}
use open_image_debugger.Ipc.RawDataDecode.{
  BufferType, unsigned_byte, is_known_buffer_type, type_size, not_renderable, geometry_fits_payload,
  multiply_checked, padded_payload_size,
}

-- A shape that can be drawn at all.
pub record IsRenderable (width height channels stride : ℤ) : Type 0 where
  pub wide : 0 < pos_part width
  pub high : 0 < pos_part height
  pub deep : 0 < pos_part channels
  pub padded : width ≤ℤ stride

pub type_size_bounds : (t : BufferType) → (1 ≤ type_size t) × (type_size t ≤ 8)
unfolding type_size
type_size_bounds unsigned_byte = omega arith
type_size_bounds _ = omega arith

pub not_renderable_iff : (w h c s : ℤ) → (not_renderable w h c s ≡ false) ↔ IsRenderable w h c s
unfolding not_renderable
not_renderable_iff w h c s = ground arith

-- The product of a start value and a list of factors, as numbers without a bound.
abbrev pub product : ℕ → List ℕ → ℕ
product n [] = n
product n (f ∷ fs) = product (n * f) fs

abbrev pub ArePositive : List ℕ → Type 0
ArePositive [] = Unit
ArePositive (f ∷ fs) = (0 < f) × ArePositive fs

pub le-product : (n : ℕ) (fs : List ℕ) → ArePositive fs → n ≤ product n fs
le-product n [] h = omega arith
le-product n (f ∷ fs) (hf, h) =
    omega (arith, mul_mono n n 1 f (omega arith) hf, le-product (n * f) fs h)

-- Checking each factor before it is applied gives the exact product, or says that it overflows.
pub multiply_checked_lem :
    (n : ℕ) (fs : List ℕ)
    → n ≤ size_max
    → ArePositive fs
    → multiply_checked n fs ≡ (if leb (product n fs) size_max then some (product n fs) else none)
unfolding multiply_checked
multiply_checked_lem n [] h p = ground arith
multiply_checked_lem n (f ∷ fs) h (hf, p) = elim (Bool-cases (ltb (size_max / f) n)) [
  | inl over ↦ rw over (
      ground (
        arith,
        le-product (n * f) fs p,
        (div-lt_iff_lt-mul {x = size_max} {y = n} hf).0 (ltb→lt _ _ over),
      ))
  | inr fits ↦
      let small : n * f ≤ size_max =
        (le-div_iff_mul-le {x = n} {y = size_max} hf).0 (ground arith) in
      rw (fits, mul64_exact n f (omega arith)) (multiply_checked_lem (n * f) fs small p)
]

-- The bytes of a buffer whose every row carries the whole stride.
abbrev pub padded_bytes : (height channels stride : ℤ) → BufferType → ℕ
padded_bytes h c s t = pos_part s * pos_part h * pos_part c * type_size t

-- The pixels from the first to the last that is drawn: the last row ends with the width.
abbrev pub span_pixels : (width height stride : ℤ) → ℕ
span_pixels w h s = (pos_part h - 1) * pos_part s + pos_part w

pub to_u64-pos_part : (n : ℤ) → IsI32 n → 0 < pos_part n → to_u64 n ≡ pos_part n
to_u64-pos_part (pos n) h k = omega arith
to_u64-pos_part (negsuc n) h k = absurd (omega arith)

pub pos_part-lt : (n : ℤ) → IsI32 n → pos_part n < 2 ^ 31
pos_part-lt (pos n) h = h
pos_part-lt (negsuc n) h = omega arith

pub stride_pos : (w h c s : ℤ) → IsRenderable w h c s → 0 < pos_part s
stride_pos (pos w) h c (pos s) r = ground arith
stride_pos (pos w) h c (negsuc s) r = ground arith
stride_pos (negsuc w) h c s r = ground arith

pub width-le-stride : (w h c s : ℤ) → IsRenderable w h c s → pos_part w ≤ pos_part s
width-le-stride (pos w) h c (pos s) r = ground arith
width-le-stride (pos w) h c (negsuc s) r = ground arith
width-le-stride (negsuc w) h c s r = ground arith

-- The 64-bit arithmetic of the checks is exact on a shape that can be drawn.
pub span_words :
    (w h c s : ℤ) (size : ℕ)
    → IsI32 w
    → IsI32 h
    → IsI32 c
    → IsI32 s
    → size ≤ 8
    → IsRenderable w h c s
    → (add64 (mul64 (sub64 (to_u64 h) 1) (to_u64 s)) (to_u64 w) ≡ span_pixels w h s)
      × (mul64 (to_u64 c) size ≡ pos_part c * size)
span_words w h c s size wi hi ci si small r =
    let rows : (pos_part h - 1) * pos_part s ≤ 2 ^ 31 * 2 ^ 31 =
      mul_mono _ (2 ^ 31) _ (2 ^ 31) (omega (arith, pos_part-lt h hi))
        (omega (arith, pos_part-lt s si)) in
    let element : pos_part c * size ≤ 2 ^ 31 * 8 =
      mul_mono _ (2 ^ 31) _ 8 (omega (arith, pos_part-lt c ci)) small in
    rw
      (
        to_u64-pos_part w wi r.wide,
        to_u64-pos_part s si (stride_pos w h c s r),
        to_u64-pos_part h hi r.high,
        to_u64-pos_part c ci r.deep,
        sub64_exact (pos_part h) 1 r.high (omega (arith, pos_part-lt h hi)),
        mul64_exact (pos_part h - 1) (pos_part s) (omega arith),
        add64_exact ((pos_part h - 1) * pos_part s) (pos_part w) (omega (arith, pos_part-lt w wi)),
        mul64_exact (pos_part c) size (omega arith),
      )
      (refl, refl)

module _ (w h c s : ℤ) (t : BufferType) (wi : IsI32 w) (hi : IsI32 h) (ci : IsI32 c)
    (si : IsI32 s) where
  padded_factors :
      IsRenderable w h c s
      → multiply_checked (to_u64 s) (to_u64 h ∷ to_u64 c ∷ type_size t ∷ [])
        ≡ (if leb (padded_bytes h c s t) size_max then some (padded_bytes h c s t) else none)
  padded_factors r =
      rw
        (
          to_u64-pos_part s si (stride_pos w h c s r),
          to_u64-pos_part h hi r.high,
          to_u64-pos_part c ci r.deep,
        )
        (multiply_checked_lem (pos_part s) (pos_part h ∷ pos_part c ∷ type_size t ∷ [])
          (omega (arith, pos_part-lt s si)) (r.high, (r.deep, ((type_size_bounds t).0, tt))))

  -- For 32-bit shapes, the padded size is the exact product of stride, height, channels and
  -- element size if the type is known, the shape can be drawn and the product fits 64 bits, and
  -- absent otherwise.
  pub padded_payload_size_lem : padded_payload_size w h c s t ≡ (
      if is_known_buffer_type t
        && not (not_renderable w h c s)
        && leb (padded_bytes h c s t) size_max
      then some (padded_bytes h c s t)
      else none)
  unfolding padded_payload_size
  padded_payload_size_lem = elim (Bool-cases (is_known_buffer_type t)) [
    | inr other ↦ rw other
    | inl known ↦ elim (Bool-cases (not_renderable w h c s)) [
      | inl refused ↦ rw (known, refused)
      | inr drawn ↦ rw (known, drawn) (padded_factors ((not_renderable_iff w h c s).0 drawn))
    ]
  ]

  -- For 32-bit shapes, the check of a payload passes exactly if the type is known, the shape can
  -- be drawn, and the last pixel ends inside the payload, with no wrap-around.
  pub geometry_fits_payload_iff :
      (n : ℕ)
      → (geometry_fits_payload w h c s t n ≡ true) ↔ (
          (is_known_buffer_type t ≡ true)
          × IsRenderable w h c s
          × (span_pixels w h s * (pos_part c * type_size t) ≤ n))
  unfolding geometry_fits_payload
  geometry_fits_payload_iff n = elim (Bool-cases (is_known_buffer_type t)) [
    | inr other ↦ ground (arith, other)
    | inl known ↦ elim (Bool-cases (not_renderable w h c s)) [
      | inl refused ↦ ground (arith, known, refused, not_renderable_iff w h c s)
      | inr drawn ↦
          let r = (not_renderable_iff w h c s).0 drawn in
          let (pixels, size) =
            span_words w h c s (type_size t) wi hi ci si (type_size_bounds t).1 r in
          rw (known, drawn, pixels, size)
            (ground (
              arith,
              le-div_iff_mul-le {x = span_pixels w h s} {y = n}
                  (mul_mono 1 (pos_part c) 1 (type_size t) r.deep (type_size_bounds t).0),
            ))
    ]
  ]
