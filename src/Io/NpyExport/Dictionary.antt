-- ===== src/Io/NpyExport/Dictionary.antt =====
-- The dictionary that src/io/buffer_export_core.cpp writes, as src/host/io/npy_decode.cpp parses it.
use open_image_debugger.Prelude.{
  ℕ, ◌+◌, ◌-◌, ◌*◌, ◌/◌, ◌%◌, ◌^◌, ◌≤◌, ◌<◌, ◌≡◌, refl, sym, ap, ◌∙◌, inl, inr, true, false, List,
  [], ◌∷◌, ◌++◌, append_assoc, str_eq, length, take, drop, replicate, length-append,
  length-replicate, take-length-append, Str, codes, decimal, length-decimal, ℤ, pos, ltb, arith,
  Bool-cases, ◌==◌, if◌then◌else◌,
}
use open_image_debugger.Ipc.RawDataDecode.{
  BufferType, unsigned_byte, unsigned_short, short, int32, float32, float64, unknown,
}
use open_image_debugger.Host.NpyDecode.Text.{
  value, extract_quoted, extract_fortran, extract_shape, shape_dims,
}
use open_image_debugger.Host.NpyDecode.{header_at, header_of, parse_header_span}
use open_image_debugger.Host.NpyDecode.Search.{avoids}
use open_image_debugger.Io.NpyExport.{
  format_int, npy_descr, npy_shape, npy_dict, padding, padded_dict, npy_header,
}
use open_image_debugger.Io.NpyExport.Header.{
  header_text, extract_quoted-header, extract_fortran-header, extract_shape-header, two_dims,
  three_dims, shape_dims-two, shape_dims-three, search-close, two_dims-avoids, three_dims-avoids,
}

length-padding : (dict : Str) → length (padding dict) ≤ 64
unfolding padding
length-padding dict =
    rw
      (
        length-append {A = ℕ}
            (replicate ((10 + length dict + 1 + 63) / 64 * 64 - (10 + length dict + 1)) 32)
            (10 ∷ []),
        length-replicate {A = ℕ} ((10 + length dict + 1 + 63) / 64 * 64 - (10 + length dict + 1))
            32,
      )
      (omega arith)

-- The length of a header fits its two bytes.
length-padded_dict : (dict : Str) → length dict ≤ 1000 → length (padded_dict dict) < 2 ^ 16
unfolding padded_dict
length-padded_dict dict h =
    rw (length-append dict (padding dict)) (omega (arith, length-padding dict))

header_at-fits :
    (off len : ℕ) (blob : List ℕ)
    → len ≤ 65536
    → off + len ≤ length blob
    → header_at off len blob
      ≡ value (record { text = take len (drop off blob); payload_offset = off + len })
unfolding header_at
header_at-fits off len blob small inside =
    let small_enough : ltb 65536 len ≡ false = ground arith in
    let long_enough : ltb (length blob) (off + len) ≡ false = ground arith in
    rw (small_enough, long_enough) refl

parse_header_span-header :
    (dict payload : Str)
    → length dict < 2 ^ 16
    → parse_header_span (npy_header dict ++ payload)
      ≡ value (record { text = dict; payload_offset = 10 + length dict })
unfolding parse_header_span npy_header header_of str_eq
parse_header_span-header dict payload h =
    let joined : length dict % 256 + length dict / 2 ^ 8 % 256 * 2 ^ 8 ≡ length dict =
      omega arith in
    rw joined (
      header_at-fits 10 (length dict) (npy_header dict ++ payload) (omega arith)
        (omega (arith, length-append dict payload))
      ∙ rw (take-length-append dict payload) refl)

-- The dictionary up to the opening parenthesis, the tuple, and the rest behind the closing one.
tail_of : (dict : Str) → Str
tail_of dict = codes ", }" ++ padding dict

abbrev npy_text : BufferType → (h w c : ℕ) → Str
npy_text type h w c = npy_dict (npy_descr type) (pos h) (pos w) (pos c)

-- The tuple of the dimensions.
abbrev inner : (h w c : ℕ) → Str
inner h w c = if c == 1 then two_dims h w else three_dims h w c

npy_shape-inner :
    (h w c : ℕ) → npy_shape (pos h) (pos w) (pos c) ≡ codes "(" ++ (inner h w c ++ codes ")")
unfolding npy_shape format_int
npy_shape-inner h w c = elim (Bool-cases (c == 1)) [
  | inl one ↦ rw one (ap (λ x. codes "(" ++ x) (sym (append_assoc (decimal h) _ _)))
  | inr more ↦ rw more (
      ap (λ x. codes "(" ++ x)
        (sym (
          append_assoc (decimal h) _ _
          ∙ ap (λ x. decimal h ++ (codes ", " ++ x)) (append_assoc (decimal w) _ _))))
]

-- The parts of the dictionary, from the left.
assemble :
    (d i r : Str)
    → (codes "{'descr': '"
          ++ (d
              ++ (codes "', 'fortran_order': False, 'shape': "
                  ++ ((codes "(" ++ (i ++ codes ")")) ++ codes ", }"))))
        ++ r
      ≡ codes "{'descr': '"
        ++ (d
            ++ (codes "', 'fortran_order': False, 'shape': ("
                ++ (i ++ (codes ")" ++ (codes ", }" ++ r)))))
assemble d i r =
    ap (λ x. codes "{'descr': '" ++ x)
      (append_assoc d _ r
        ∙ ap (λ x. d ++ (codes "', 'fortran_order': False, 'shape': (" ++ x))
            (append_assoc (i ++ codes ")") (codes ", }") r
              ∙ append_assoc i (codes ")") (codes ", }" ++ r)))

padded_dict-header_text :
    (type : BufferType) (h w c : ℕ)
    → padded_dict (npy_text type h w c)
      ≡ header_text type (inner h w c ++ (codes ")" ++ tail_of (npy_text type h w c)))
unfolding padded_dict npy_dict tail_of
padded_dict-header_text type h w c =
    ap
      (λ x.
        (codes "{'descr': '"
          ++ (npy_descr type
              ++ (codes "', 'fortran_order': False, 'shape': " ++ (x ++ codes ", }"))))
        ++ padding (npy_text type h w c))
      (npy_shape-inner h w c)
    ∙ assemble (npy_descr type) (inner h w c) (padding (npy_text type h w c))

-- The dimensions that are read back.
abbrev pub dims_of : (h w c : ℕ) → List ℤ
dims_of h w c = if c == 1 then pos h ∷ pos w ∷ [] else pos h ∷ pos w ∷ pos c ∷ []

inner-dims :
    (h w c : ℕ)
    → h < 2 ^ 31
    → w < 2 ^ 31
    → c < 2 ^ 31
    → shape_dims (inner h w c) ≡ value (dims_of h w c)
inner-dims h w c small_h small_w small_c = elim (Bool-cases (c == 1)) [
  | inl one ↦ rw one (shape_dims-two h w small_h small_w)
  | inr more ↦ rw more (shape_dims-three h w c small_h small_w small_c)
]

inner-avoids : (h w c : ℕ) → avoids 41 (inner h w c) ≡ true
inner-avoids h w c = elim (Bool-cases (c == 1)) [
  | inl one ↦ rw one (two_dims-avoids h w)
  | inr more ↦ rw more (three_dims-avoids h w c)
]

length-npy_descr : (type : BufferType) → length (npy_descr type) ≡ 3
unfolding npy_descr
length-npy_descr unsigned_byte = refl
length-npy_descr unsigned_short = refl
length-npy_descr short = refl
length-npy_descr int32 = refl
length-npy_descr float32 = refl
length-npy_descr float64 = refl
length-npy_descr (unknown n) = refl

length-inner : (h w c : ℕ) → length (inner h w c) ≤ 64
length-inner h w c = elim (Bool-cases (c == 1)) [
  | inl one ↦
      rw (one, length-append (decimal h) (codes ", " ++ decimal w))
        (omega (arith, length-decimal h, length-decimal w))
  | inr more ↦
      rw
        (
          more,
          length-append (decimal h) (codes ", " ++ (decimal w ++ (codes ", " ++ decimal c))),
          length-append (decimal w) (codes ", " ++ decimal c),
        )
        (omega (arith, length-decimal h, length-decimal w, length-decimal c))
]

length-npy_text : (type : BufferType) (h w c : ℕ) → length (npy_text type h w c) ≤ 1000
unfolding npy_dict
length-npy_text type h w c =
    rw
      (
        npy_shape-inner h w c,
        length-append (npy_descr type) (
            codes "', 'fortran_order': False, 'shape': "
            ++ ((codes "(" ++ (inner h w c ++ codes ")")) ++ codes ", }")),
        length-append (inner h w c ++ codes ")") (codes ", }"),
        length-append (inner h w c) (codes ")"),
        length-npy_descr type,
      )
      (omega (arith, length-inner h w c))

module _ (type : BufferType) (h w c : ℕ) where
  abbrev pub npy_text_padded : Str
  npy_text_padded = padded_dict (npy_text type h w c)

  pub extract_quoted-npy : extract_quoted npy_text_padded (codes "'descr'") ≡ value (npy_descr type)
  extract_quoted-npy = rw (padded_dict-header_text type h w c) (extract_quoted-header type _)

  pub extract_fortran-npy : extract_fortran npy_text_padded ≡ value false
  extract_fortran-npy = rw (padded_dict-header_text type h w c) (extract_fortran-header type _)

  pub extract_shape-npy :
      h < 2 ^ 31 → w < 2 ^ 31 → c < 2 ^ 31 → extract_shape npy_text_padded ≡ value (dims_of h w c)
  extract_shape-npy small_h small_w small_c =
      let (found, before) =
        search-close (inner h w c) (tail_of (npy_text type h w c)) (inner-avoids h w c) in
      rw (padded_dict-header_text type h w c) (
        extract_shape-header type _ (length (inner h w c)) found
        ∙ (ap shape_dims before ∙ inner-dims h w c small_h small_w small_c))

  pub parse_header_span-npy :
      (payload : Str)
      → parse_header_span (npy_header npy_text_padded ++ payload)
        ≡ value (record { text = npy_text_padded; payload_offset = 10 + length npy_text_padded })
  parse_header_span-npy payload =
      parse_header_span-header npy_text_padded payload
        (length-padded_dict (npy_text type h w c) (length-npy_text type h w c))
