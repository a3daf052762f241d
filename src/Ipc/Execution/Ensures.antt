-- ===== src/Ipc/Execution/Ensures.antt =====
-- What a computation's answer satisfies, and what it keeps true of the state, throw or not.
use open_image_debugger.Prelude.{◌≡◌, refl, subst}
use open_image_debugger.Ipc.Execution.{Outcome, ok, err, Exec, return, proceed, ◌>>=◌, >>=-ok}

pub record Ensures {S A : Type 0} (m : Exec S A) (Q : A → Type 0) : Type 0 where
  pub at : (s : S) (a : A) → (m s).0 ≡ ok a → Q a

pub Ensures-any : {S A : Type 0} (m : Exec S A) → Ensures m (λ a. Unit)
Ensures-any m = record { at = λ s a h. tt }

out_of_ok : {A : Type 0} (P : A → Type 0) (a b : A) → ok a ≡ ok b → P a → P b
out_of_ok P a b h p = subst P (cc) p

pub Ensures-return : {S A : Type 0} {Q : A → Type 0} (a : A) → Q a → Ensures {S = S} (return a) Q
unfolding return
Ensures-return {Q = Q} a q = record { at = λ s b h. out_of_ok Q a b h q }

pub Ensures-bind :
    {S A B : Type 0} {Q : B → Type 0} (m : Exec S A) (f : A → Exec S B) (P : A → Type 0)
    → Ensures m P
    → ((a : A) → P a → Ensures (f a) Q)
    → Ensures (m >>= f) Q
Ensures-bind m f P em ef = record {
  at = λ s b h.
      let (a, first, run) = >>=-ok m f s h in (ef a (em.at s a first)).at (m s).1 b (rw run at h);
}

pub record Keeps {S A : Type 0} (P : S → Type 0) (m : Exec S A) : Type 0 where
  pub at : (s : S) → P s → P (m s).1

proceed-Keeps :
    {S A B : Type 0} (P : S → Type 0) (r : Outcome A) (f : A → Exec S B) (s : S)
    → ((a : A) → r ≡ ok a → P (f a s).1)
    → P s
    → P (proceed r f s).1
proceed-Keeps P (ok a) f s k p = k a refl
proceed-Keeps P (err e) f s k p = p

pub Keeps-return : {S A : Type 0} {P : S → Type 0} (a : A) → Keeps P (return a)
unfolding return
Keeps-return a = record { at = λ s p. p }

pub Keeps-bind :
    {S A B : Type 0} {P : S → Type 0} (m : Exec S A) (f : A → Exec S B) (Q : A → Type 0)
    → Keeps P m
    → Ensures m Q
    → ((a : A) → Q a → Keeps P (f a))
    → Keeps P (m >>= f)
unfolding ◌>>=◌
Keeps-bind {P = P} m f Q km em kf = record {
  at = λ s p.
      proceed-Keeps P (m s).0 f (m s).1 (λ a h. (kf a (em.at s a h)).at (m s).1 (km.at s p))
        (km.at s p);
}
