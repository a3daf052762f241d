-- ===== src/Host/SymbolFilter/Sorted.antt =====
-- The order of the answers of src/host/ui/symbol_filter.cpp, and the range of its index.
use open_image_debugger.Prelude.{
  ℕ, suc, ◌+◌, ◌%◌, ◌≡◌, refl, ◌∙◌, sym, ap, inl, inr, Bool, true, false, not, ◌&&◌, ◌||◌, List, [],
  ◌∷◌, leb, ltb, ◌==◌, if◌then◌else◌, ℤ, pos, negsuc, ◌+ℤ◌, ◌≤ℤ◌, leb_ℤ, Str, str_eq, map, take,
  length, Bool-cases, arith,
}
use open_image_debugger.Host.SymbolFilter.{
  ascii_tolower, ci_char_equal, starts_with_ci, contains_ci, char_less, ci_less, matching,
  filter_symbols, clamped, symbol_completion_nav,
}

-- What a comparison must be for a sort.
pub record IsStrictWeak (less : Str → Str → Bool) : Type 0 where
  pub asym : (a b : Str) → less a b ≡ true → less b a ≡ false
  pub negtrans : (a b c : Str) → less b a ≡ false → less c b ≡ false → less c a ≡ false

-- No element is less than the one before it.
abbrev pub IsOrdered : (less : Str → Str → Bool) → List Str → Type 0
IsOrdered less [] = Unit
IsOrdered less (s ∷ []) = Unit
IsOrdered less (s ∷ t ∷ rest) = (less t s ≡ false) × IsOrdered less (t ∷ rest)

-- Neither is less than the other.
unfoldable pub tied : (less : Str → Str → Bool) → Str → Str → Bool
tied less a b = not (less a b) && not (less b a)

-- The elements of a list that are tied with one, in their order.
unfoldable pub tied_with : (less : Str → Str → Bool) → Str → List Str → List Str
tied_with less k [] = []
tied_with less k (s ∷ rest) =
    let later = tied_with less k rest in if tied less k s then s ∷ later else later

-- What `std::ranges::stable_sort` is documented to do.
pub record StableSort (sort_by : (Str → Str → Bool) → List Str → List Str) : Type 0 where
  pub orders :
      (less : Str → Str → Bool)
      → IsStrictWeak less
      → (l : List Str) → IsOrdered less (sort_by less l)
  pub keeps_ties :
      (less : Str → Str → Bool)
      → IsStrictWeak less
      → (k : Str) (l : List Str) → tied_with less k (sort_by less l) ≡ tied_with less k l

ci_less-asym : (a b : Str) → ci_less a b ≡ true → ci_less b a ≡ false
unfolding ci_less char_less
ci_less-asym a [] h = cc
ci_less-asym [] (y ∷ b) h = refl
ci_less-asym (x ∷ a) (y ∷ b) h = ground (arith, ci_less-asym a b)

char_less-trans_false :
    (x y z : ℕ) → char_less y x ≡ false → char_less z y ≡ false → char_less z x ≡ false
unfolding char_less
char_less-trans_false x y z h k = ground arith

-- Being not less is transitive.
ci_less-negtrans : (a b c : Str) → ci_less b a ≡ false → ci_less c b ≡ false → ci_less c a ≡ false
unfolding ci_less char_less
ci_less-negtrans [] b c h k = refl
ci_less-negtrans (x ∷ a) [] c h k = cc
ci_less-negtrans (x ∷ a) (y ∷ b) [] h k = cc
ci_less-negtrans (x ∷ a) (y ∷ b) (z ∷ c) h k = ground (arith, ci_less-negtrans a b c)

ci_less-IsStrictWeak : IsStrictWeak ci_less
ci_less-IsStrictWeak = record { asym = ci_less-asym; negtrans = ci_less-negtrans }

-- A byte without the case of an ASCII letter, and its place among signed characters.
unfoldable pub folded : ℕ → ℕ
folded c = if leb b'A' c && leb c b'Z' then c + 32 else c

unfoldable pub rank : ℕ → ℕ
rank c = (folded c + 128) % 256

-- The lexicographic order.
unfoldable pub at_most : List ℕ → List ℕ → Bool
at_most [] b = true
at_most (x ∷ a) [] = false
at_most (x ∷ a) (y ∷ b) = ltb x y || (x == y && at_most a b)

abbrev pub IsSorted : List Str → Type 0
IsSorted [] = Unit
IsSorted (s ∷ []) = Unit
IsSorted (s ∷ t ∷ rest) = (at_most (map rank s) (map rank t) ≡ true) × IsSorted (t ∷ rest)

-- The names of a list that differ from one by case alone, in their order.
unfoldable pub alike : Str → List Str → List Str
alike k [] = []
alike k (s ∷ rest) =
    let later = alike k rest in if str_eq (map rank k) (map rank s) then s ∷ later else later

-- The query stands somewhere in the name, whatever the case of either.
unfoldable pub occurs : (query name : Str) → Bool
occurs query [] = str_eq [] (map folded query)
occurs query (c ∷ name) =
    str_eq (take (length query) (map folded (c ∷ name))) (map folded query) || occurs query name

unfoldable pub occurring : (query : Str) → List Str → List Str
occurring query [] = []
occurring query (c ∷ candidates) =
    let later = occurring query candidates in if occurs query c then c ∷ later else later

ci_less-at_most : (s t : Str) → ci_less t s ≡ not (at_most (map rank s) (map rank t))
unfolding ci_less char_less at_most rank folded ascii_tolower
ci_less-at_most [] t = refl
ci_less-at_most (x ∷ s) [] = refl
ci_less-at_most (x ∷ s) (y ∷ t) = ground (arith, ci_less-at_most s t)

at_most-both : (a b : List ℕ) → (at_most a b && at_most b a) ≡ str_eq a b
unfolding at_most str_eq
at_most-both [] [] = refl
at_most-both [] (y ∷ b) = refl
at_most-both (x ∷ a) [] = refl
at_most-both (x ∷ a) (y ∷ b) = ground (arith, at_most-both a b)

tied-ranks : (k s : Str) → tied ci_less k s ≡ str_eq (map rank k) (map rank s)
unfolding tied
tied-ranks k s =
    ground (arith, ci_less-at_most k s, ci_less-at_most s k, at_most-both (map rank k) (map rank s))

tied_with-alike : (k : Str) (l : List Str) → tied_with ci_less k l ≡ alike k l
unfolding tied_with alike
tied_with-alike k [] = refl
tied_with-alike k (s ∷ rest) = rw (tied-ranks k s, tied_with-alike k rest) refl

IsOrdered-IsSorted : (l : List Str) → IsOrdered ci_less l → IsSorted l
IsOrdered-IsSorted [] v = tt
IsOrdered-IsSorted (s ∷ []) v = tt
IsOrdered-IsSorted (s ∷ t ∷ rest) (h, v) =
    (ground (arith, h, ci_less-at_most s t), IsOrdered-IsSorted (t ∷ rest) v)

starts_with_ci-folded :
    (name query : Str)
    → starts_with_ci name query ≡ str_eq (take (length query) (map folded name)) (map folded query)
unfolding starts_with_ci ci_char_equal ascii_tolower folded str_eq
starts_with_ci-folded name [] = refl
starts_with_ci-folded [] (n ∷ query) = refl
starts_with_ci-folded (h ∷ name) (n ∷ query) = rw (starts_with_ci-folded name query) refl

contains_ci-empty : (query : Str) → contains_ci [] query ≡ occurs query []
unfolding contains_ci occurs starts_with_ci str_eq
contains_ci-empty [] = refl
contains_ci-empty (n ∷ query) = refl

contains_ci-occurs : (name query : Str) → contains_ci name query ≡ occurs query name
unfolding contains_ci occurs
contains_ci-occurs [] query = contains_ci-empty query
contains_ci-occurs (h ∷ name) query =
    rw (starts_with_ci-folded (h ∷ name) query, contains_ci-occurs name query) refl

matching-occurring :
    (candidates : List Str) (query : Str) → matching candidates query ≡ occurring query candidates
unfolding matching occurring
matching-occurring [] query = refl
matching-occurring (c ∷ candidates) query =
    rw (contains_ci-occurs c query, matching-occurring candidates query) refl

-- For a stable sort, the completions are in the lexicographic order of their characters without
-- case, and those that differ from any name by case alone are the candidates of that kind in which
-- the query stands, whatever its case, in the order and as often as they were given.
pub filter_symbols-IsSorted :
    (sort_by : (Str → Str → Bool) → List Str → List Str)
    → StableSort sort_by
    → (candidates : List Str) (query k : Str)
    → IsSorted (filter_symbols sort_by candidates query)
      × (alike k (filter_symbols sort_by candidates query) ≡ alike k (occurring query candidates))
unfolding filter_symbols
filter_symbols-IsSorted sort_by sort candidates query k = (
  IsOrdered-IsSorted _ (sort.orders ci_less ci_less-IsStrictWeak (matching candidates query)),
  sym (tied_with-alike k _)
      ∙ (sort.keeps_ties ci_less ci_less-IsStrictWeak k (matching candidates query)
          ∙ (tied_with-alike k _ ∙ ap (alike k) (matching-occurring candidates query))),
)

clamped-bounds :
    (idx : ℤ) (n : ℕ) → (pos 0 ≤ℤ clamped idx (pos (suc n))) × (clamped idx (pos (suc n)) ≤ℤ pos n)
unfolding clamped
clamped-bounds (pos k) n = elim (Bool-cases (leb n k)) [
  | inl last ↦ ground (arith, last)
  | inr inside ↦ ground (arith, inside)
]
clamped-bounds (negsuc k) n = ground arith

no_match_false : (last : ℕ) → leb_ℤ (pos (suc last)) (pos 0) ≡ false
no_match_false last = ground arith

-- With at least one match, navigation always answers the index of a match.
pub symbol_completion_nav-bounds :
    (current : ℤ) (last : ℕ) (up down : Bool)
    → (pos 0 ≤ℤ symbol_completion_nav current (pos (suc last)) up down)
      × (symbol_completion_nav current (pos (suc last)) up down ≤ℤ pos last)
unfolding symbol_completion_nav
symbol_completion_nav-bounds current last true true =
    rw (no_match_false last) (clamped-bounds current last)
symbol_completion_nav-bounds current last true false =
    rw (no_match_false last) (clamped-bounds (current +ℤ negsuc 0) last)
symbol_completion_nav-bounds current last false true =
    rw (no_match_false last) (clamped-bounds (current +ℤ pos 1) last)
symbol_completion_nav-bounds current last false false =
    rw (no_match_false last) (clamped-bounds current last)
