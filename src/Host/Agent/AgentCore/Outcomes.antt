-- ===== src/Host/Agent/AgentCore/Outcomes.antt =====
-- The outcomes of the validation in src/host/agent/agent_core.cpp: what holds of a value that comes out.
use open_image_debugger.Prelude.{◌≡◌, refl, Option, none, some, subst}
use open_image_debugger.Host.Agent.AgentCore.{Checked, undefined, rejected, valid, ◌>>=◌}

-- `P` holds of the value if there is one.
unfoldable pub Whenever : {A : Type 0} → (A → Type 0) → Option A → Type 0
Whenever P none = Unit
Whenever P (some a) = P a

-- The outcome is defined, and `P` holds of its value if it is valid.
unfoldable pub Holds : {R A : Type 0} → (A → Type 0) → Checked R A → Type 0
Holds P undefined = ⊥
Holds P (rejected r) = Unit
Holds P (valid a) = P a

pub Whenever-map :
    {A : Type 0} {P Q : A → Type 0} (o : Option A)
    → ((a : A) → P a → Q a)
    → Whenever P o
    → Whenever Q o
unfolding Whenever
Whenever-map none f w = tt
Whenever-map (some a) f w = f a w

module _ {R A B : Type 0} where
  pub Holds-bind :
      {P : A → Type 0} (Q : B → Type 0) (m : Checked R A) (f : A → Checked R B)
      → Holds P m
      → ((a : A) → P a → Holds Q (f a))
      → Holds Q (m >>= f)
  unfolding Holds ◌>>=◌
  Holds-bind Q undefined f h k = absurd h
  Holds-bind Q (rejected r) f h k = tt
  Holds-bind Q (valid a) f h k = k a h

  pub >>=-valid :
      (m : Checked R A) (f : A → Checked R B) {b : B}
      → (m >>= f) ≡ valid b
      → (a : A) × (m ≡ valid a) × (f a ≡ valid b)
  unfolding ◌>>=◌
  >>=-valid undefined f h = cc
  >>=-valid (rejected r) f h = cc
  >>=-valid (valid a) f h = (a, refl, h)

valid_inj : (R : Type 0) {A : Type 0} {a b : A} → ◌≡◌ {A = Checked R A} (valid a) (valid b) → a ≡ b
valid_inj R h = cc

pub Holds-valid :
    {R A : Type 0} (P : A → Type 0) (m : Checked R A) {a : A} → Holds P m → m ≡ valid a → P a
unfolding Holds
Holds-valid P undefined h e = absurd h
Holds-valid P (rejected r) h e = cc
Holds-valid {R} P (valid b) h e = subst P (valid_inj R e) h

pub Holds-map :
    {R A : Type 0} {P Q : A → Type 0} (m : Checked R A)
    → ((a : A) → P a → Q a)
    → Holds P m
    → Holds Q m
unfolding Holds
Holds-map undefined f h = h
Holds-map (rejected r) f h = tt
Holds-map (valid a) f h = f a h
