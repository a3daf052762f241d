-- ===== src/Ipc/Execution/Tame.antt =====
-- Computations that end and never take a measure of the state up: the rules for building them.
use open_image_debugger.Prelude.{ℕ, ◌≤◌, ◌≢◌, refl, Bool, true, false, if◌then◌else◌, arith}
use open_image_debugger.Ipc.Execution.{
  socket_timeout, decode_error, bad_alloc, out_of_fuel, Outcome, ok, err, Exec, return, throw,
  proceed, ◌>>=◌,
}

pub record Tame {S A : Type 0} (measure : S → ℕ) (m : Exec S A) : Type 0 where
  pub shrinks : (s : S) → measure (m s).1 ≤ measure s
  pub ends : (s : S) → (m s).0 ≢ err out_of_fuel

module _ {S A : Type 0} {measure : S → ℕ} where
  pub Tame-return : (a : A) → Tame measure (return a)
  unfolding return
  Tame-return a = record { shrinks = λ s. omega arith; ends = λ s e. cc }

  pub Tame-decode_error : Tame measure (throw {A = A} decode_error)
  unfolding throw
  Tame-decode_error = record { shrinks = λ s. omega arith; ends = λ s e. cc }

  pub Tame-bad_alloc : Tame measure (throw {A = A} bad_alloc)
  unfolding throw
  Tame-bad_alloc = record { shrinks = λ s. omega arith; ends = λ s e. cc }

  pub Tame-if :
      (b : Bool) (m n : Exec S A)
      → Tame measure m
      → Tame measure n
      → Tame measure (if b then m else n)
  Tame-if true m n tm tn = tm
  Tame-if false m n tm tn = tn

module _ {S A B : Type 0} {measure : S → ℕ} where
  proceed_shrinks :
      (r : Outcome A) (f : A → Exec S B) (s : S)
      → ((a : A) → Tame measure (f a))
      → measure (proceed r f s).1 ≤ measure s
  proceed_shrinks (ok a) f s tf = (tf a).shrinks s
  proceed_shrinks (err e) f s tf = omega arith

  proceed_ends :
      (r : Outcome A) (f : A → Exec S B) (s : S)
      → r ≢ err out_of_fuel
      → ((a : A) → Tame measure (f a))
      → (proceed r f s).0 ≢ err out_of_fuel
  proceed_ends (ok a) f s h tf e = (tf a).ends s e
  proceed_ends (err socket_timeout) f s h tf e = cc
  proceed_ends (err decode_error) f s h tf e = cc
  proceed_ends (err bad_alloc) f s h tf e = cc
  proceed_ends (err out_of_fuel) f s h tf e = h refl

  pub Tame-bind :
      (m : Exec S A) (f : A → Exec S B)
      → Tame measure m
      → ((a : A) → Tame measure (f a))
      → Tame measure (m >>= f)
  unfolding ◌>>=◌
  Tame-bind m f tm tf = record {
    shrinks = λ s. omega (arith, proceed_shrinks (m s).0 f (m s).1 tf, tm.shrinks s);
    ends = λ s. proceed_ends (m s).0 f (m s).1 (tm.ends s) tf;
  }

pub ruleset tame_rules = (Tame-return, Tame-decode_error, Tame-bad_alloc, Tame-if, Tame-bind)
