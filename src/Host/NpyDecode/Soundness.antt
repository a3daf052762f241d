-- ===== src/Host/NpyDecode/Soundness.antt =====
-- What an array has that src/host/io/npy_decode.cpp accepts.
use open_image_debugger.Prelude.{
  ℕ, zero, suc, ◌+◌, ◌-◌, ◌*◌, ◌≤◌, ◌≡◌, refl, sym, ap, ◌∙◌, subst, inl, inr, Bool, true, false,
  ◌||◌, List, [], ◌∷◌, length, take-all, ℤ, pos, negsuc, IsI32, pos_part, neg_part, ◌⊎◌, ltb_ℤ,
  arith, Bool-cases, ◌==◌, ==_iff, mul64, mul64_exact, mul_mono,
}
use open_image_debugger.Ipc.RawDataDecode.{
  geometry_fits_payload, BufferType, type_size, is_known_buffer_type, within_display_limits,
}
use open_image_debugger.Ipc.RawDataDecode.Sizes.{geometry_fits_payload_iff, type_size_bounds}
use open_image_debugger.Host.NpyDecode.Text.{
  size_range, channel_range, bad_rank, fortran_3d, payload_mismatch, value, ◌>>=◌, DType,
}
use open_image_debugger.Host.NpyDecode.{
  NpyLayout, NpyArray, checked_layout, layout_from_shape, count_elements, take_payload, decode_npy,
}
use open_image_debugger.Host.NpyDecode.Counting.{count_elements-plane, count_elements-cube}
use open_image_debugger.Host.NpyDecode.Yields.{
  Yields, Yields-value, Yields-none, Yields-bind, Yields-any, Yields-map, IsDType,
  map_dtype-IsDType,
}

record InRange (l : NpyLayout) : Type 0 where
  width_low : 1 ≤ pos_part l.width
  width_high : pos_part l.width ≤ 131072
  height_low : 1 ≤ pos_part l.height
  height_high : pos_part l.height ≤ 131072
  channels_low : 1 ≤ pos_part l.channels
  channels_high : pos_part l.channels ≤ 4

one_sign : (n : ℤ) → (pos_part n ≡ 0) ⊎ (neg_part n ≡ 0)
one_sign (pos n) = inr refl
one_sign (negsuc n) = inl refl

unfoldable IsLayout : NpyLayout → NpyLayout → Type 0
IsLayout l m = (m ≡ l) × InRange l

checked_layout-InRange : (l : NpyLayout) → Yields (IsLayout l) (checked_layout l)
unfolding checked_layout IsLayout
checked_layout-InRange l =
    elim (Bool-cases (
      ltb_ℤ l.width (pos 1)
      || ltb_ℤ (pos 131072) l.width
      || ltb_ℤ l.height (pos 1)
      || ltb_ℤ (pos 131072) l.height)) [
        | inl bad ↦ rw bad (Yields-none (IsLayout l) size_range)
        | inr plane ↦ elim (Bool-cases (ltb_ℤ l.channels (pos 1) || ltb_ℤ (pos 4) l.channels)) [
          | inl bad ↦ rw (plane, bad) (Yields-none (IsLayout l) channel_range)
          | inr depth ↦
              rw (plane, depth)
                (Yields-value (IsLayout l) l (
                  refl,
                  record {
                    width_low = ground (arith, plane);
                    width_high = ground (arith, plane, one_sign l.width);
                    height_low = ground (arith, plane);
                    height_high = ground (arith, plane, one_sign l.height);
                    channels_low = ground (arith, depth);
                    channels_high = ground (arith, depth, one_sign l.channels);
                  },
                ))
        ]
      ]

abbrev volume : NpyLayout → ℕ
volume l = pos_part l.height * pos_part l.width * pos_part l.channels

-- The layout is in range, and the dimensions count its elements.
HasCount : List ℤ → NpyLayout → Type 0
HasCount dims l = InRange l × (l.step ≡ l.width) × (count_elements 1 dims ≡ value (volume l))

unsigned : (n : ℤ) → 1 ≤ pos_part n → n ≡ pos (pos_part n)
unsigned (pos n) h = refl
unsigned (negsuc n) h = absurd (omega arith)

checked_layout-HasCount :
    (dims : List ℤ) (l : NpyLayout)
    → l.step ≡ l.width
    → (InRange l → count_elements 1 dims ≡ value (volume l))
    → Yields (HasCount dims) (checked_layout l)
unfolding IsLayout HasCount
checked_layout-HasCount dims l same counts =
    Yields-map (IsLayout l) (HasCount dims) (checked_layout l)
      (λ m (e, r). subst (HasCount dims) (sym e) (r, same, counts r)) (checked_layout-InRange l)

plane :
    (a b : ℤ)
    → 1 ≤ pos_part a
    → pos_part a ≤ 131072
    → 1 ≤ pos_part b
    → pos_part b ≤ 131072
    → count_elements 1 (a ∷ b ∷ []) ≡ value (pos_part a * pos_part b)
plane a b low_a high_a low_b high_b =
    rw (unsigned a low_a, unsigned b low_b)
      (count_elements-plane (pos_part a) (pos_part b) high_a high_b)

cube :
    (a b c : ℤ)
    → 1 ≤ pos_part a
    → pos_part a ≤ 131072
    → 1 ≤ pos_part b
    → pos_part b ≤ 131072
    → 1 ≤ pos_part c
    → pos_part c ≤ 4
    → count_elements 1 (a ∷ b ∷ c ∷ []) ≡ value (pos_part a * pos_part b * pos_part c)
cube a b c low_a high_a low_b high_b low_c high_c =
    rw (unsigned a low_a, unsigned b low_b, unsigned c low_c)
      (count_elements-cube (pos_part a) (pos_part b) (pos_part c) high_a high_b high_c)

layout_from_shape-HasCount :
    (dims : List ℤ) (fortran : Bool) → Yields (HasCount dims) (layout_from_shape dims fortran)
unfolding layout_from_shape
layout_from_shape-HasCount [] fortran = Yields-none (HasCount []) bad_rank
layout_from_shape-HasCount (a ∷ []) fortran = Yields-none (HasCount (a ∷ [])) bad_rank
layout_from_shape-HasCount (a ∷ b ∷ []) true =
    checked_layout-HasCount (a ∷ b ∷ []) _ refl
      λ r. plane a b r.width_low r.width_high r.height_low r.height_high ∙ ap value (omega arith)
layout_from_shape-HasCount (a ∷ b ∷ []) false =
    checked_layout-HasCount (a ∷ b ∷ []) _ refl
      λ r. plane a b r.height_low r.height_high r.width_low r.width_high ∙ ap value (omega arith)
layout_from_shape-HasCount (a ∷ b ∷ c ∷ []) true =
    Yields-none (HasCount (a ∷ b ∷ c ∷ [])) fortran_3d
layout_from_shape-HasCount (a ∷ b ∷ c ∷ []) false =
    checked_layout-HasCount (a ∷ b ∷ c ∷ []) _ refl λ r.
      cube a b c r.height_low r.height_high r.width_low r.width_high r.channels_low r.channels_high
layout_from_shape-HasCount (a ∷ b ∷ c ∷ d ∷ rest) fortran =
    Yields-none (HasCount (a ∷ b ∷ c ∷ d ∷ rest)) bad_rank

-- An array that the loader can make a buffer of.
pub record IsSound (a : NpyArray) : Type 0 where
  pub known : is_known_buffer_type a.type ≡ true
  pub limits : within_display_limits a.width a.height a.channels ≡ true
  pub size :
      length a.bytes ≡ pos_part a.height * pos_part a.width * pos_part a.channels * type_size a.type
  pub fits : geometry_fits_payload a.width a.height a.channels a.step a.type (length a.bytes) ≡ true

within_display_limits-InRange :
    (l : NpyLayout) → InRange l → within_display_limits l.width l.height l.channels ≡ true
unfolding within_display_limits
within_display_limits-InRange l r = ground (
  arith,
  r.width_low,
  r.width_high,
  r.height_low,
  r.height_high,
  r.channels_low,
  r.channels_high,
  one_sign l.width,
  one_sign l.height,
  one_sign l.channels,
)

small-IsI32 : (n : ℤ) → 1 ≤ pos_part n → pos_part n ≤ 131072 → IsI32 n
small-IsI32 (pos n) low high = omega arith
small-IsI32 (negsuc n) low high = absurd (omega arith)

last_row : (h w : ℕ) → 1 ≤ h → (h - 1) * w + w ≤ h * w
last_row zero w low = absurd (omega arith)
last_row (suc h) w low = let e : suc h - 1 ≡ h = omega arith in rw e (omega arith)

-- A payload of exactly the rows, without padding between them, fits.
full-fits :
    (l : NpyLayout) (type : BufferType) (n : ℕ)
    → InRange l
    → l.step ≡ l.width
    → is_known_buffer_type type ≡ true
    → n ≡ volume l * type_size type
    → geometry_fits_payload l.width l.height l.channels l.step type n ≡ true
full-fits l type n r same known size =
    let wide = small-IsI32 l.width r.width_low r.width_high in
    rw same (
      (geometry_fits_payload_iff l.width l.height l.channels l.width type wide
          (small-IsI32 l.height r.height_low r.height_high)
          (small-IsI32 l.channels r.channels_low (omega (arith, r.channels_high))) wide n).1
        (
          known,
          record {
            wide = r.width_low;
            high = r.height_low;
            deep = r.channels_low;
            padded = omega arith;
          },
          omega (
            arith,
            size,
            mul_mono ((pos_part l.height - 1) * pos_part l.width + pos_part l.width)
                (pos_part l.height * pos_part l.width) (pos_part l.channels * type_size type)
                (pos_part l.channels * type_size type)
                (last_row (pos_part l.height) (pos_part l.width) r.height_low) (omega arith),
          ),
        ))

take_payload-IsSound :
    (dtype : DType) (l : NpyLayout) (payload : List ℕ)
    → IsDType dtype
    → InRange l
    → l.step ≡ l.width
    → Yields IsSound (take_payload dtype l (mul64 (volume l) dtype.itemsize) payload)
unfolding take_payload
take_payload-IsSound dtype l payload (known, itemsize) r same =
    let plane_size : pos_part l.height * pos_part l.width ≤ 131072 * 131072 =
      mul_mono (pos_part l.height) 131072 (pos_part l.width) 131072 r.height_high r.width_high in
    let count : volume l ≤ 131072 * 131072 * 4 =
      mul_mono (pos_part l.height * pos_part l.width) (131072 * 131072) (pos_part l.channels) 4
        plane_size r.channels_high in
    let bytes : volume l * type_size dtype.type ≤ 131072 * 131072 * 4 * 8 =
      mul_mono (volume l) (131072 * 131072 * 4) (type_size dtype.type) 8 count
        (type_size_bounds dtype.type).1 in
    let exact : mul64 (volume l) dtype.itemsize ≡ volume l * type_size dtype.type =
      rw itemsize (mul64_exact (volume l) (type_size dtype.type) (omega arith)) in
    elim (Bool-cases (length payload == mul64 (volume l) dtype.itemsize)) [
      | inr other ↦ rw other (Yields-none IsSound payload_mismatch)
      | inl equal ↦
          let size : length payload ≡ volume l * type_size dtype.type =
            (==_iff _ _).0 equal ∙ exact in
          rw (equal, take-all (mul64 (volume l) dtype.itemsize) payload (ground (arith, equal)))
            (Yields-value IsSound _ (record {
              known = known;
              limits = within_display_limits-InRange l r;
              size = size;
              fits = full-fits l dtype.type (length payload) r same known size;
            }))
    ]

counted :
    (dtype : DType) (l : NpyLayout) (payload : List ℕ)
    → IsDType dtype
    → InRange l
    → l.step ≡ l.width
    → Yields IsSound
        (value (volume l) >>= λ n. take_payload dtype l (mul64 n dtype.itemsize) payload)
unfolding ◌>>=◌
counted dtype l payload known r same = take_payload-IsSound dtype l payload known r same

decode_npy-Yields : (blob : List ℕ) → Yields IsSound (decode_npy blob)
unfolding decode_npy HasCount
decode_npy-Yields blob = Yields-bind _ _ _ _ (Yields-any _) λ parsed e u.
    Yields-bind _ _ _ _ (Yields-any _) λ descr f v.
      Yields-bind _ _ _ _ (map_dtype-IsDType descr) λ dtype g known.
        Yields-bind _ _ _ _ (Yields-any _) λ fortran k w.
          Yields-bind _ _ _ _ (Yields-any _) λ dims m x.
            Yields-bind _ _ _ _ (layout_from_shape-HasCount dims fortran)
              λ l n (r, same, counts). rw counts (counted dtype l _ known r same)

-- Whatever the bytes of a file, an array that is decoded from them has a known element type, a
-- shape within the display limits, exactly the bytes of its elements, and passes the check of the
-- wire on a payload.
pub decode_npy-IsSound : (blob : List ℕ) (a : NpyArray) → decode_npy blob ≡ value a → IsSound a
unfolding Yields
decode_npy-IsSound blob a h = subst (Yields IsSound) h (decode_npy-Yields blob)
