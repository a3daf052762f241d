-- ===== src/Ipc/Execution.antt =====
-- C++ functions that may throw, over an explicit state. What was done before a throw stays done, so
-- the state comes back in every case.
pub mod Tame
pub mod Ensures
use open_image_debugger.Prelude.{◌≡◌, refl}

-- The exceptions that reach a handler of this program. `out_of_fuel` is none of them: it marks a loop
-- of the model that was cut short.
pub data Fault : Type 0 where
  socket_timeout decode_error bad_alloc out_of_fuel : Fault

pub data Outcome {ℓ} (A : Type ℓ) : Type ℓ where
  ok : A → Outcome A
  err : Fault → Outcome A

abbrev pub Exec : Type 0 → Type 0 → Type 0
Exec S A = S → Outcome A × S

module _ {S A : Type 0} where
  unfoldable pub return : A → Exec S A
  return a s = (ok a, s)

  unfoldable pub throw : Fault → Exec S A
  throw f s = (err f, s)

module _ {S A B : Type 0} where
  abbrev pub proceed : Outcome A → (A → Exec S B) → Exec S B
  proceed (ok a) f s = f a s
  proceed (err e) f s = (err e, s)

  infixl 5 ◌>>=◌ ◌>>◌
  unfoldable pub ◌>>=◌ : Exec S A → (A → Exec S B) → Exec S B
  unfolding return throw
  ◌>>=◌ m f s = let (r, s') = m s in proceed r f s'

  abbrev pub ◌>>◌ : Exec S A → Exec S B → Exec S B
  m >> n = m >>= λ _. n

  proceed-ok :
      (r : Outcome A) (f : A → Exec S B) (s : S) {b : B}
      → (proceed r f s).0 ≡ ok b
      → (a : A) × (r ≡ ok a) × (proceed r f s ≡ f a s)
  proceed-ok (ok a) f s h = (a, refl, refl)
  proceed-ok (err e) f s h = cc

  -- A sequence that succeeds went through a value of its first part.
  pub >>=-ok :
      (m : Exec S A) (f : A → Exec S B) (s : S) {b : B}
      → ((m >>= f) s).0 ≡ ok b
      → (a : A) × ((m s).0 ≡ ok a) × ((m >>= f) s ≡ f a (m s).1)
  unfolding ◌>>=◌
  >>=-ok m f s h = proceed-ok (m s).0 f (m s).1 h
