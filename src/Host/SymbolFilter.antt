-- ===== src/Host/SymbolFilter.antt =====
-- src/host/ui/symbol_filter.{h,cpp}: the completions of what was typed. A `char` is signed, and
-- `std::tolower` is that of the C locale.
pub mod Sorted
use open_image_debugger.Prelude.{
  ℕ, suc, ◌+◌, ◌%◌, Bool, true, false, not, ◌&&◌, ◌||◌, List, [], ◌∷◌, ltb, leb, ◌==◌,
  if◌then◌else◌, ℤ, pos, negsuc, ◌+ℤ◌, leb_ℤ, ltb_ℤ, Str,
}

unfoldable pub ascii_tolower : ℕ → ℕ
ascii_tolower c = if leb 65 c && leb c 90 then c + 32 else c

unfoldable pub ci_char_equal : ℕ → ℕ → Bool
ci_char_equal a b = ascii_tolower a == ascii_tolower b

-- The needle stands at the front.
unfoldable pub starts_with_ci : (haystack needle : Str) → Bool
starts_with_ci haystack [] = true
starts_with_ci [] (n ∷ needle) = false
starts_with_ci (h ∷ haystack) (n ∷ needle) = ci_char_equal h n && starts_with_ci haystack needle

-- `std::ranges::search` finds the needle at some place; an empty needle is found.
unfoldable pub contains_ci : (haystack needle : Str) → Bool
contains_ci [] needle = starts_with_ci [] needle
contains_ci (h ∷ haystack) needle =
    starts_with_ci (h ∷ haystack) needle || contains_ci haystack needle

-- The order of signed `char`s.
unfoldable pub char_less : ℕ → ℕ → Bool
char_less a b = ltb ((a + 128) % 256) ((b + 128) % 256)

unfoldable pub ci_less : Str → Str → Bool
ci_less a [] = false
ci_less [] (y ∷ b) = true
ci_less (x ∷ a) (y ∷ b) =
    char_less (ascii_tolower x) (ascii_tolower y)
    || (not (char_less (ascii_tolower y) (ascii_tolower x)) && ci_less a b)

unfoldable pub matching : List Str → (query : Str) → List Str
matching [] query = []
matching (c ∷ candidates) query =
    let rest = matching candidates query in if contains_ci c query then c ∷ rest else rest

-- `sort_by` is `std::ranges::stable_sort`.
unfoldable pub filter_symbols :
    (sort_by : (Str → Str → Bool) → List Str → List Str)
    → (candidates : List Str) → (query : Str) → List Str
filter_symbols sort_by candidates query = sort_by ci_less (matching candidates query)

-- The two bounds at the end of `symbol_completion_nav`.
unfoldable pub clamped : (idx match_count : ℤ) → ℤ
clamped idx match_count =
    let low = if ltb_ℤ idx (pos 0) then pos 0 else idx in
    if leb_ℤ (match_count +ℤ negsuc 0) low then match_count +ℤ negsuc 0 else low

-- `current` is an int away from the ends of its range, where the addition of the source overflows.
unfoldable pub symbol_completion_nav : (current match_count : ℤ) → (up down : Bool) → ℤ
symbol_completion_nav current match_count up down =
    if leb_ℤ match_count (pos 0)
    then pos 0
    else if down && not up
    then clamped (current +ℤ pos 1) match_count
    else if up && not down
    then clamped (current +ℤ negsuc 0) match_count
    else clamped current match_count
