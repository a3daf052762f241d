-- ===== src/Examples/Sorting.antt =====
-- An insertion sort, as a stable sort.
use open_image_debugger.Prelude.{
  ◌≡◌, refl, ◌∙◌, inl, inr, Bool, true, false, List, [], ◌∷◌, if◌then◌else◌, Str, Bool-cases, arith,
}
use open_image_debugger.Host.SymbolFilter.Sorted.{
  IsStrictWeak, IsOrdered, tied, tied_with, StableSort,
}

-- An element goes before those that are not less than it.
abbrev insert : (less : Str → Str → Bool) → Str → List Str → List Str
insert less s [] = s ∷ []
insert less s (t ∷ rest) = if less t s then t ∷ insert less s rest else s ∷ t ∷ rest

abbrev pub stable_sort : (less : Str → Str → Bool) → List Str → List Str
stable_sort less [] = []
stable_sort less (s ∷ rest) = insert less s (stable_sort less rest)

module _ (less : Str → Str → Bool) (weak : IsStrictWeak less) where
  tail-IsOrdered : (s : Str) (rest : List Str) → IsOrdered less (s ∷ rest) → IsOrdered less rest
  tail-IsOrdered s [] v = tt
  tail-IsOrdered s (t ∷ rest) (h, v) = v

  insert-head :
      (s t : Str) (rest : List Str)
      → less s t ≡ false
      → IsOrdered less (t ∷ rest)
      → IsOrdered less (insert less s rest)
      → IsOrdered less (t ∷ insert less s rest)
  insert-head s t [] h v w = (h, tt)
  insert-head s t (u ∷ rest) h (hu, v) w = elim (Bool-cases (less u s)) [
    | inl before ↦ rw before (hu, rw before at w)
    | inr other ↦ rw other (h, rw other at w)
  ]

  insert-IsOrdered : (s : Str) (l : List Str) → IsOrdered less l → IsOrdered less (insert less s l)
  insert-IsOrdered s [] v = tt
  insert-IsOrdered s (t ∷ rest) v = elim (Bool-cases (less t s)) [
    | inl before ↦ rw before (
        insert-head s t rest (weak.asym t s before) v
          (insert-IsOrdered s rest (tail-IsOrdered t rest v)))
    | inr other ↦ rw other (other, v)
  ]

  stable_sort-IsOrdered : (l : List Str) → IsOrdered less (stable_sort less l)
  stable_sort-IsOrdered [] = tt
  stable_sort-IsOrdered (s ∷ rest) =
      insert-IsOrdered s (stable_sort less rest) (stable_sort-IsOrdered rest)

  -- Of two that are tied with one, neither is less.
  tied_less : (k s t : Str) → tied less k s ≡ true → tied less k t ≡ true → less t s ≡ false
  unfolding tied
  tied_less k s t h j = weak.negtrans s k t (ground arith) (ground arith)

  tied_with-insert :
      (k s : Str) (l : List Str)
      → tied_with less k (insert less s l)
        ≡ (if tied less k s then s ∷ tied_with less k l else tied_with less k l)
  unfolding tied_with
  tied_with-insert k s [] = refl
  tied_with-insert k s (t ∷ rest) = ground (arith, tied_with-insert k s rest, tied_less k s t)

  tied_with-stable_sort :
      (k : Str) (l : List Str) → tied_with less k (stable_sort less l) ≡ tied_with less k l
  unfolding tied_with
  tied_with-stable_sort k [] = refl
  tied_with-stable_sort k (s ∷ rest) =
      tied_with-insert k s (stable_sort less rest) ∙ rw (tied_with-stable_sort k rest) refl

pub stable_sort-StableSort : StableSort stable_sort
stable_sort-StableSort = record {
  orders = stable_sort-IsOrdered;
  keeps_ties = tied_with-stable_sort;
}
