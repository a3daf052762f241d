-- ===== src/Ipc/Words.antt =====
-- The object representation of the primitive types on the wire: little-endian, `int` and the enums in
-- four bytes of two's complement, `std::size_t` in eight, `bool` in one.
use open_image_debugger.Prelude.{
  ℕ, zero, suc, ◌+◌, ◌-◌, ◌*◌, ◌/◌, ◌%◌, ◌^◌, ◌<◌, ◌≡◌, refl, ap, List, [], ◌∷◌, ltb, if◌then◌else◌,
  ℤ, pos, negsuc, IsI32, length, arith, Bool-cases, inl, inr, ltb→lt,
}

unfoldable pub to_bytes : (count : ℕ) → ℕ → List ℕ
to_bytes zero n = []
to_bytes (suc count) n = (n % 256) ∷ to_bytes count (n / 256)

unfoldable pub from_bytes : List ℕ → ℕ
from_bytes [] = 0
from_bytes (b ∷ bs) = b + 256 * from_bytes bs

pub length-to_bytes : (count n : ℕ) → length (to_bytes count n) ≡ count
unfolding to_bytes
length-to_bytes zero n = refl
length-to_bytes (suc count) n = ap suc (length-to_bytes count (n / 256))

pub from_bytes-to_bytes : (count n : ℕ) → n < 256 ^ count → from_bytes (to_bytes count n) ≡ n
unfolding to_bytes from_bytes
from_bytes-to_bytes zero n h = omega arith
from_bytes-to_bytes (suc count) n h =
    omega (arith, from_bytes-to_bytes count (n / 256) (omega arith))

-- The bit pattern of an `int`, and the `int` of a bit pattern.
unfoldable pub to_word32 : ℤ → ℕ
to_word32 (pos n) = n % 2 ^ 32
to_word32 (negsuc n) = 2 ^ 32 - 1 - n % 2 ^ 32

-- `static_cast<int>` of an unsigned word: its low 32 bits, read as two's complement.
unfoldable pub from_word32 : ℕ → ℤ
from_word32 w =
    let low = w % 2 ^ 32 in if ltb low (2 ^ 31) then pos low else negsuc (2 ^ 32 - 1 - low)

pub from_word32-to_word32 : (n : ℤ) → IsI32 n → from_word32 (to_word32 n) ≡ n
unfolding from_word32 to_word32
from_word32-to_word32 (pos n) h = ground arith
from_word32-to_word32 (negsuc n) h = ground arith

pub to_word32-lt : (n : ℤ) → to_word32 n < 2 ^ 32
unfolding to_word32
to_word32-lt (pos n) = omega arith
to_word32-lt (negsuc n) = omega arith

pub from_word32-IsI32 : (w : ℕ) → IsI32 (from_word32 w)
unfolding from_word32
from_word32-IsI32 w = elim (Bool-cases (ltb (w % 2 ^ 32) (2 ^ 31))) [
  | inl low ↦ rw low (ltb→lt (w % 2 ^ 32) (2 ^ 31) low)
  | inr high ↦ rw high (ground arith)
]
