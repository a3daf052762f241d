-- ===== src/Prelude/Numerals.antt =====
-- Decimal numerals as <charconv>, <format> and <cstdlib> print and read them.
use Prim.Native.Nat.{ℕ, zero, suc, ◌+◌, ◌-◌, ◌*◌, ◌/◌, ◌%◌, ◌^◌, ◌<◌, ◌≤◌}
use mathlib.Core.Path.{◌≡◌, refl, ap, ◌∙◌}
use mathlib.Core.Logic.{inl, inr}
use mathlib.Core.Bool.{Bool, true, false, ◌&&◌}
use mathlib.Core.List.{[], ◌∷◌, ◌++◌, append_assoc}
use mathlib.Core.Option.{Option, none, some}
use native.Mathlib.Omega.{arith}
use open_image_debugger.Prelude.Tests.{ltb, leb, ◌==◌, if◌then◌else◌, Bool-cases, lt→ltb}
use open_image_debugger.Prelude.Int.{ℤ, pos, negsuc}
use open_image_debugger.Prelude.Strings.{Str}
use open_image_debugger.Prelude.Lists.{length, length-append}

unfoldable pub digits_of : (left : ℕ) → ℕ → Str
digits_of zero n = []
digits_of (suc left) n =
    let higher = digits_of left (n / 10) in
    if ltb n 10 then (48 + n) ∷ [] else higher ++ ((48 + n % 10) ∷ [])

-- The decimal digits of an unsigned 64-bit integer: at most twenty.
unfoldable pub decimal : ℕ → Str
decimal n = digits_of 20 n

unfoldable pub is_digit : ℕ → Bool
is_digit c = leb 48 c && leb c 57

-- The digits at the front, as a number added to what was read, and what follows them.
unfoldable pub read_digits : (value : ℕ) → Str → ℕ × Str
read_digits value [] = (value, [])
read_digits value (c ∷ s) =
    let next = read_digits (value * 10 + (c - 48)) s in if is_digit c then next else (value, c ∷ s)

unfoldable pub starts_with_digit : Str → Bool
starts_with_digit [] = false
starts_with_digit (c ∷ s) = is_digit c

-- The value of the digits with its sign, where it is an `int`.
unfoldable int_value : (negative : Bool) → ℕ × Str → Option (ℤ × Str)
int_value false (n, rest) = if ltb n (2 ^ 31) then some (pos n, rest) else none
int_value true (zero, rest) = some (pos 0, rest)
int_value true (suc n, rest) = if ltb n (2 ^ 31) then some (negsuc n, rest) else none

unfoldable pub int_digits : (negative : Bool) → Str → Option (ℤ × Str)
unfolding int_value
int_digits negative s = if starts_with_digit s then int_value negative (read_digits 0 s) else none

-- `std::from_chars` for an `int`: the value and where it ends, or an error.
unfoldable pub from_chars : Str → Option (ℤ × Str)
from_chars [] = none
from_chars (c ∷ s) = if c == 45 then int_digits true s else int_digits false (c ∷ s)

digit_is_digit : (n : ℕ) → n < 10 → is_digit (48 + n) ≡ true
unfolding is_digit
digit_is_digit n h = ground arith

read_digits-digit :
    (v n : ℕ) (s : Str) → n < 10 → read_digits v ((48 + n) ∷ s) ≡ read_digits (v * 10 + n) s
unfolding read_digits
read_digits-digit v n s h =
    let value : 48 + n - 48 ≡ n = omega arith in rw (digit_is_digit n h, value) refl

-- Reading stops behind what was printed.
read_digits-digits_of :
    (left n : ℕ) (s : Str) → n < 10 ^ left → read_digits 0 (digits_of left n ++ s) ≡ read_digits n s
unfolding digits_of
read_digits-digits_of zero n s h = let none_left : n ≡ 0 = omega arith in rw none_left refl
read_digits-digits_of (suc left) n s h = elim (Bool-cases (ltb n 10)) [
  | inl small ↦
      let start : 0 * 10 + n ≡ n = omega arith in
      rw small (read_digits-digit 0 n s (ground (arith, small)) ∙ ap (λ x. read_digits x s) start)
  | inr large ↦
      let whole : n / 10 * 10 + n % 10 ≡ n = omega arith in
      rw (large, append_assoc (digits_of left (n / 10)) ((48 + n % 10) ∷ []) s)
        (read_digits-digits_of left (n / 10) ((48 + n % 10) ∷ s) (omega arith)
          ∙ (read_digits-digit (n / 10) (n % 10) s (omega arith) ∙ ap (λ x. read_digits x s) whole))
]

-- The digits of a list, for what may follow them.
unfoldable pub AreDigits : Str → Type 0
AreDigits [] = Unit
AreDigits (c ∷ s) = (is_digit c ≡ true) × AreDigits s

AreDigits-append : (s t : Str) → AreDigits s → AreDigits t → AreDigits (s ++ t)
unfolding AreDigits
AreDigits-append [] t a b = b
AreDigits-append (c ∷ s) t (h, a) b = (h, AreDigits-append s t a b)

digits_of-AreDigits : (left n : ℕ) → AreDigits (digits_of left n)
unfolding digits_of AreDigits
digits_of-AreDigits zero n = tt
digits_of-AreDigits (suc left) n = elim (Bool-cases (ltb n 10)) [
  | inl small ↦ rw small (digit_is_digit n (ground (arith, small)), tt)
  | inr large ↦ rw large (
      AreDigits-append (digits_of left (n / 10)) ((48 + n % 10) ∷ [])
        (digits_of-AreDigits left (n / 10)) (digit_is_digit (n % 10) (omega arith), tt))
]

length-digits_of : (left n : ℕ) → length (digits_of left n) ≤ left
unfolding digits_of
length-digits_of zero n = omega arith
length-digits_of (suc left) n = elim (Bool-cases (ltb n 10)) [
  | inl small ↦ rw small (omega arith)
  | inr large ↦
      rw (large, length-append (digits_of left (n / 10)) ((48 + n % 10) ∷ []))
        (omega (arith, length-digits_of left (n / 10)))
]

-- A number has at least one digit.
not_empty : (left n : ℕ) → n < 10 ^ left → (n ≡ 0 → 0 < left) → 0 < length (digits_of left n)
unfolding digits_of
not_empty zero n h k = omega arith
not_empty (suc left) n h k = elim (Bool-cases (ltb n 10)) [
  | inl small ↦ rw small (omega arith)
  | inr large ↦
      rw (large, length-append (digits_of left (n / 10)) ((48 + n % 10) ∷ [])) (omega arith)
]

starts-append : (s t : Str) → AreDigits s → 0 < length s → starts_with_digit (s ++ t) ≡ true
unfolding AreDigits starts_with_digit
starts-append [] t a h = absurd (omega arith)
starts-append (c ∷ s) t (d, a) h = d

read_digits-stop : (v : ℕ) (s : Str) → starts_with_digit s ≡ false → read_digits v s ≡ (v, s)
unfolding read_digits starts_with_digit
read_digits-stop v [] h = refl
read_digits-stop v (c ∷ s) h = rw h refl

digits_no_minus :
    (s t : Str) → AreDigits s → 0 < length s → from_chars (s ++ t) ≡ int_digits false (s ++ t)
unfolding AreDigits from_chars is_digit
digits_no_minus [] t a h = absurd (omega arith)
digits_no_minus (c ∷ s) t (d, a) h =
    let other : (c == 45) ≡ false = ground (arith, d) in rw other refl

pub decimal-AreDigits : (n : ℕ) → AreDigits (decimal n)
unfolding decimal
decimal-AreDigits n = digits_of-AreDigits 20 n

pub length-decimal : (n : ℕ) → length (decimal n) ≤ 20
unfolding decimal
length-decimal n = length-digits_of 20 n

pub decimal-not_empty : (n : ℕ) → n < 2 ^ 31 → 0 < length (decimal n)
unfolding decimal
decimal-not_empty n h = not_empty 20 n (omega arith) (λ e. omega arith)

read_back :
    (n : ℕ) (s : Str)
    → n < 2 ^ 31
    → starts_with_digit s ≡ false
    → read_digits 0 (decimal n ++ s) ≡ (n, s)
unfolding decimal
read_back n s small stop = read_digits-digits_of 20 n s (omega arith) ∙ read_digits-stop n s stop

-- A number that is printed and followed by no digit is read back, up to its end.
pub from_chars-decimal :
    (n : ℕ) (s : Str)
    → n < 2 ^ 31
    → starts_with_digit s ≡ false
    → from_chars (decimal n ++ s) ≡ some (pos n, s)
unfolding int_digits int_value
from_chars-decimal n s small stop =
    let some_digits = decimal-not_empty n small in
    rw
      (
        digits_no_minus (decimal n) s (decimal-AreDigits n) some_digits,
        starts-append (decimal n) s (decimal-AreDigits n) some_digits,
        read_back n s small stop,
        lt→ltb n (2 ^ 31) small,
      )
      refl
