-- ===== src/Host/NpyDecode/Yields.antt =====
-- What holds of the values that the steps of src/host/io/npy_decode.cpp yield, and its element types.
use open_image_debugger.Prelude.{
  ℕ, ◌≡◌, refl, Bool, true, false, Option, none, some, [], ◌∷◌, ℤ, pos, eqb_ℤ, ◌&&◌, from_chars,
  Str, ◌==◌, if◌then◌else◌,
}
use open_image_debugger.Ipc.RawDataDecode.{
  unsigned_byte, unsigned_short, short, int32, float32, float64, BufferType, type_size,
  is_known_buffer_type,
}
use open_image_debugger.Host.NpyDecode.Text.{
  unparseable_itemsize, unsupported_dtype, short_descriptor, big_endian, NpyError, Expected, value,
  unexpected, ◌>>=◌, DType, map_dtype, dtype_of,
}

-- `P` holds of the value if there is one.
unfoldable pub Yields : {A : Type 0} → (A → Type 0) → Expected A → Type 0
Yields P (value a) = P a
Yields P (unexpected e) = Unit

pub Yields-value : {A : Type 0} (P : A → Type 0) (a : A) → P a → Yields P (value a)
unfolding Yields
Yields-value P a p = p

pub Yields-none : {A : Type 0} (P : A → Type 0) (e : NpyError) → Yields P (unexpected e)
unfolding Yields
Yields-none P e = tt

pub Yields-if :
    {A : Type 0} (P : A → Type 0) (b : Bool) (x y : Expected A)
    → Yields P x
    → Yields P y
    → Yields P (if b then x else y)
Yields-if P true x y p q = p
Yields-if P false x y p q = q

pub Yields-bind :
    {A B : Type 0} (P : A → Type 0) (Q : B → Type 0) (m : Expected A) (f : A → Expected B)
    → Yields P m
    → ((a : A) → m ≡ value a → P a → Yields Q (f a))
    → Yields Q (m >>= f)
unfolding Yields ◌>>=◌
Yields-bind P Q (value a) f p k = k a refl p
Yields-bind P Q (unexpected e) f p k = tt

pub Yields-any : {A : Type 0} (m : Expected A) → Yields (λ a. Unit) m
unfolding Yields
Yields-any (value a) = tt
Yields-any (unexpected e) = tt

abbrev pub IsDType : DType → Type 0
IsDType t = (is_known_buffer_type t.type ≡ true) × (t.itemsize ≡ type_size t.type)

or_else :
    (b : Bool) (type : BufferType) (size : ℕ)
    → IsDType (record { type = type; itemsize = size })
    → (rest : Expected DType) → Yields IsDType rest
    → Yields IsDType (if b then value (record { type = type; itemsize = size }) else rest)
or_else b type size k rest r =
    Yields-if IsDType b _ rest (Yields-value IsDType (record { type = type; itemsize = size }) k) r

dtype_of-IsDType :
    (descr : Str) (kind : ℕ) (o : Option (ℤ × Str)) → Yields IsDType (dtype_of descr kind o)
unfolding dtype_of is_known_buffer_type type_size
dtype_of-IsDType descr kind none = Yields-none IsDType (unparseable_itemsize descr)
dtype_of-IsDType descr kind (some (n, c ∷ rest)) = Yields-none IsDType (unparseable_itemsize descr)
dtype_of-IsDType descr kind (some (n, [])) =
    or_else (kind == 117 && eqb_ℤ n (pos 1)) unsigned_byte 1 (refl, refl) _
      (or_else (kind == 117 && eqb_ℤ n (pos 2)) unsigned_short 2 (refl, refl) _
        (or_else (kind == 105 && eqb_ℤ n (pos 2)) short 2 (refl, refl) _
          (or_else (kind == 105 && eqb_ℤ n (pos 4)) int32 4 (refl, refl) _
            (or_else (kind == 102 && eqb_ℤ n (pos 4)) float32 4 (refl, refl) _
              (or_else (kind == 102 && eqb_ℤ n (pos 8)) float64 8 (refl, refl) _
                (Yields-none IsDType (unsupported_dtype descr)))))))

pub map_dtype-IsDType : (descr : Str) → Yields IsDType (map_dtype descr)
unfolding map_dtype
map_dtype-IsDType [] = Yields-none IsDType (short_descriptor [])
map_dtype-IsDType (a ∷ []) = Yields-none IsDType (short_descriptor (a ∷ []))
map_dtype-IsDType (a ∷ b ∷ []) = Yields-none IsDType (short_descriptor (a ∷ b ∷ []))
map_dtype-IsDType (a ∷ b ∷ c ∷ rest) =
    Yields-if IsDType (a == 62) _ _ (Yields-none IsDType (big_endian (a ∷ b ∷ c ∷ rest)))
      (dtype_of-IsDType (a ∷ b ∷ c ∷ rest) b (from_chars (c ∷ rest)))

pub Yields-map :
    {A : Type 0} (P Q : A → Type 0) (m : Expected A)
    → ((a : A) → P a → Q a)
    → Yields P m
    → Yields Q m
unfolding Yields
Yields-map P Q (value a) f p = f a p
Yields-map P Q (unexpected e) f p = tt
