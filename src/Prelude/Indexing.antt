-- ===== src/Prelude/Indexing.antt =====
-- What stands at an index of a list: after `take`, `drop` and `write_at`, and equality by indices.
use Prim.Native.Nat.{ℕ, zero, suc, ◌+◌, ◌≤◌, ◌<◌}
use mathlib.Core.Path.{◌≡◌, refl, ap₂}
use mathlib.Core.Bool.{Bool, true, false}
use mathlib.Core.List.{List, [], ◌∷◌}
use mathlib.Core.Option.{none, some}
use native.Mathlib.Omega.{arith}
use open_image_debugger.Prelude.Lists.{length, get_elem?, take, drop, replicate, write_at, all_true}

zero_plus : (n : ℕ) → 0 + n ≡ n
zero_plus n = omega arith

suc_plus : (m n : ℕ) → suc m + n ≡ suc (m + n)
suc_plus m n = omega arith

module _ {ℓ} {A : Type ℓ} where
  pub get_elem?-none : (xs : List A) (j : ℕ) → length xs ≤ j → get_elem? xs j ≡ none
  get_elem?-none [] j h = refl
  get_elem?-none (x ∷ xs) zero h = absurd (omega arith)
  get_elem?-none (x ∷ xs) (suc j) h = get_elem?-none xs j (omega arith)

  pub get_elem?-some : (xs : List A) (j : ℕ) → j < length xs → (a : A) × (get_elem? xs j ≡ some a)
  get_elem?-some [] j h = absurd (omega arith)
  get_elem?-some (x ∷ xs) zero h = (x, refl)
  get_elem?-some (x ∷ xs) (suc j) h = get_elem?-some xs j (omega arith)

  pub get_elem?-drop :
      (n : ℕ) (xs : List A) (j : ℕ) → get_elem? (drop n xs) j ≡ get_elem? xs (n + j)
  get_elem?-drop zero xs j = rw (zero_plus j)
  get_elem?-drop (suc n) [] j = refl
  get_elem?-drop (suc n) (x ∷ xs) j = rw (suc_plus n j) (get_elem?-drop n xs j)

  pub get_elem?-take :
      (n : ℕ) (xs : List A) (j : ℕ) → j < n → get_elem? (take n xs) j ≡ get_elem? xs j
  get_elem?-take zero xs j h = absurd (omega arith)
  get_elem?-take (suc n) [] j h = refl
  get_elem?-take (suc n) (x ∷ xs) zero h = refl
  get_elem?-take (suc n) (x ∷ xs) (suc j) h = get_elem?-take n xs j (omega arith)

  pub get_elem?-replicate : (n : ℕ) (a : A) (j : ℕ) → j < n → get_elem? (replicate n a) j ≡ some a
  get_elem?-replicate zero a j h = absurd (omega arith)
  get_elem?-replicate (suc n) a zero h = refl
  get_elem?-replicate (suc n) a (suc j) h = get_elem?-replicate n a j (omega arith)

  -- Inside the written block, and outside it.
  pub get_elem?-write_at_inside :
      (i : ℕ) (src dst : List A) (k : ℕ)
      → k < length src
      → i + k < length dst
      → get_elem? (write_at i src dst) (i + k) ≡ get_elem? src k
  unfolding write_at
  get_elem?-write_at_inside i src [] k h g = absurd (omega arith)
  get_elem?-write_at_inside zero [] (x ∷ xs) k h g = absurd (omega arith)
  get_elem?-write_at_inside zero (s ∷ src) (x ∷ xs) zero h g = refl
  get_elem?-write_at_inside zero (s ∷ src) (x ∷ xs) (suc k) h g =
      let ih = get_elem?-write_at_inside zero src xs k (omega arith) (omega arith) in
      rw (zero_plus (suc k)) (rw (zero_plus k) at ih)
  get_elem?-write_at_inside (suc i) src (x ∷ xs) k h g =
      rw (suc_plus i k) (get_elem?-write_at_inside i src xs k (omega arith) (omega arith))

  pub get_elem?-write_at_before :
      (i : ℕ) (src dst : List A) (j : ℕ)
      → j < i
      → get_elem? (write_at i src dst) j ≡ get_elem? dst j
  unfolding write_at
  get_elem?-write_at_before i src [] j h = refl
  get_elem?-write_at_before zero src (x ∷ xs) j h = absurd (omega arith)
  get_elem?-write_at_before (suc i) src (x ∷ xs) zero h = refl
  get_elem?-write_at_before (suc i) src (x ∷ xs) (suc j) h =
      get_elem?-write_at_before i src xs j (omega arith)

  pub get_elem?-write_at_after :
      (i : ℕ) (src dst : List A) (j : ℕ)
      → i + length src ≤ j
      → get_elem? (write_at i src dst) j ≡ get_elem? dst j
  unfolding write_at
  get_elem?-write_at_after i src [] j h = refl
  get_elem?-write_at_after zero [] (x ∷ xs) j h = refl
  get_elem?-write_at_after zero (s ∷ src) (x ∷ xs) zero h = absurd (omega arith)
  get_elem?-write_at_after zero (s ∷ src) (x ∷ xs) (suc j) h =
      get_elem?-write_at_after zero src xs j (omega arith)
  get_elem?-write_at_after (suc i) src (x ∷ xs) zero h = refl
  get_elem?-write_at_after (suc i) src (x ∷ xs) (suc j) h =
      get_elem?-write_at_after i src xs j (omega arith)

  -- Lists of one length that agree at every index are equal.
  pub list_ext :
      (xs ys : List A)
      → length xs ≡ length ys
      → ((j : ℕ) → j < length xs → get_elem? xs j ≡ get_elem? ys j)
      → xs ≡ ys
  list_ext [] [] h g = refl
  list_ext [] (y ∷ ys) h g = absurd (omega arith)
  list_ext (x ∷ xs) [] h g = absurd (omega arith)
  list_ext (x ∷ xs) (y ∷ ys) h g =
      ap₂ ◌∷◌ (cc (g 0 (omega arith)))
        (list_ext xs ys (omega arith) (λ j k. g (suc j) (omega arith)))

pub all_true-get_elem? :
    (bs : List Bool) → all_true bs ≡ true → (i : ℕ) → i < length bs → get_elem? bs i ≡ some true
unfolding all_true
all_true-get_elem? [] e i h = absurd (omega arith)
all_true-get_elem? (true ∷ bs) e zero h = refl
all_true-get_elem? (false ∷ bs) e zero h = cc
all_true-get_elem? (true ∷ bs) e (suc i) h = all_true-get_elem? bs e i (omega arith)
all_true-get_elem? (false ∷ bs) e (suc i) h = cc

pub all_true_intro :
    (bs : List Bool) → ((i : ℕ) → i < length bs → get_elem? bs i ≡ some true) → all_true bs ≡ true
unfolding all_true
all_true_intro [] g = refl
all_true_intro (true ∷ bs) g = all_true_intro bs (λ i h. g (suc i) (omega arith))
all_true_intro (false ∷ bs) g = cc (g 0 (omega arith))
