-- ===== src/Host/Agent/Values.antt =====
-- What src/host/agent/agent_core.cpp takes from nlohmann::json and from the C++ library: JSON values, doubles
-- and `strtoll`.
use open_image_debugger.Prelude.{
  ℕ, zero, suc, ◌-◌, ◌^◌, ◌<◌, ◌≡◌, Bool, true, false, ◌&&◌, ◌||◌, Option, none, some, List, [],
  ◌∷◌, ltb, leb, ◌==◌, if◌then◌else◌, ℤ, pos, negsuc, Str, Dict, find, read_digits,
  starts_with_digit,
}

-- The hardware's `double` and the functions of <cmath>. `literal` is the value of a decimal literal;
-- `float_max` and `float_min` are the limits of `float`, widened.
pub record Doubles (D : Type 0) : Type 0 where
  pub literal : Str → D
  pub float_max : D
  pub float_min : D
  pub pi : D
  pub is_finite : D → Bool
  pub less : D → D → Bool
  pub at_most : D → D → Bool
  pub abs : D → D
  pub log : D → D
  pub fmod : D → D → D
  pub add : D → D → D
  pub times : D → D → D
  pub divided_by : D → D → D

-- The range of `std::int64_t`.
abbrev pub IsI64 : ℤ → Type 0
IsI64 (pos n) = n < 2 ^ 63
IsI64 (negsuc n) = n < 2 ^ 63

-- `nlohmann::json`: the tests and reads of a value, and how one is built. `member` is `contains` and
-- `at`; a read is `none` where its type test fails. `as_integer` is `get<std::int64_t>()`.
pub record JsonLibrary (D V : Type 0) : Type 0 where
  pub is_object : V → Bool
  pub member : Str → V → Option V
  pub as_string : V → Option Str
  pub as_boolean : V → Option Bool
  pub as_integer : V → Option ℤ
  pub as_number : V → Option D
  pub as_array : V → Option (List V)
  pub null : V
  pub string : Str → V
  pub boolean : Bool → V
  pub integer : ℤ → V
  pub number : D → V
  pub array : List V → V
  pub object : Dict V → V
  pub as_integer-IsI64 : (v : V) (n : ℤ) → as_integer v ≡ some n → IsI64 n
  -- Reading back a member of an object that was built, and a string.
  pub member-object : (k : Str) (fields : Dict V) → member k (object fields) ≡ find k fields
  pub as_string-string : (s : Str) → as_string (string s) ≡ some s

-- `isspace` in the C locale.
unfoldable pub is_space : ℕ → Bool
is_space c = c == 32 || (leb 9 c && leb c 13)

unfoldable pub skip_spaces : Str → Str
skip_spaces [] = []
skip_spaces (c ∷ s) = let rest = skip_spaces s in if is_space c then rest else c ∷ s

-- The result is clamped to the range of `long long`.
clamp : (negative : Bool) → ℕ → ℤ
clamp false n = if ltb n (2 ^ 63) then pos n else pos (2 ^ 63 - 1)
clamp true zero = pos 0
clamp true (suc n) = if ltb n (2 ^ 63) then negsuc n else negsuc (2 ^ 63 - 1)

signed : (negative : Bool) → Str → Option (ℤ × Str)
unfolding clamp
signed negative s =
    let (n, rest) = read_digits 0 s in
    if starts_with_digit s then some (clamp negative n, rest) else none

after_spaces : Str → Option (ℤ × Str)
unfolding signed
after_spaces [] = none
after_spaces (c ∷ s) =
    if c == 45 then signed true s else if c == 43 then signed false s else signed false (c ∷ s)

-- `strtoll` in base ten: the value and what `end` points at, or no conversion.
unfoldable pub strtoll : Str → Option (ℤ × Str)
unfolding after_spaces
strtoll s = after_spaces (skip_spaces s)
