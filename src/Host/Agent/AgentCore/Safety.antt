-- ===== src/Host/Agent/AgentCore/Safety.antt =====
-- src/host/agent/agent_core.cpp: the dereferences of the handlers, and the atomic set_view.
use open_image_debugger.Prelude.{
  ◌≡◌, refl, ◌⊎◌, inl, inr, Bool, true, false, Option, none, some, Str, codes, Bool-cases,
  Option-cases, subst, str_eq, ◌==◌, not, if◌then◌else◌,
}
use open_image_debugger.Host.Agent.Values.{Doubles, JsonLibrary}
use open_image_debugger.Host.Agent.ViewModel.{ViewState, ViewModel}
use open_image_debugger.Host.Agent.AgentCore.{
  dereference, Checked, undefined, rejected, valid, ViewUpdate, Reply, is_some,
}
use open_image_debugger.Host.Agent.AgentCore.Outcomes.{
  Whenever, Holds, Holds-bind, Holds-valid, >>=-valid,
}
use open_image_debugger.Host.Agent.AgentCore.SetView
use open_image_debugger.Host.Agent.AgentCore.Handlers.{AgentCore, bind_option}
use open_image_debugger.Host.Agent.AgentCore.Handlers
use open_image_debugger.Host.Agent.AgentCore.Admissible.{IsAdmissible, IsTargeted, validate-Holds}

abbrev IsGiven : {A : Type 0} → Option A → Type 0
IsGiven {A} o = (a : A) × (o ≡ some a)

given : {A : Type 0} (a : A) → IsGiven (some a)
given a = (a, refl)

if-IsGiven :
    {A : Type 0} (b : Bool) {x y : Option A} → IsGiven x → IsGiven y → IsGiven (if b then x else y)
if-IsGiven true p q = p
if-IsGiven false p q = q

module _ {D V S : Type 0} (d : Doubles D) (j : JsonLibrary D V) (vm : ViewModel D S) where
  -- A view of a buffer is complete: only the view of no buffer leaves fields out.
  pub record IsComplete : Type 0 where
    pub buffer :
        (s : S) (name : Str) (v : ViewState D)
        → vm.view_of name s ≡ some v
        → is_some v.buffer ≡ true
    pub center_x :
        (s : S) (name : Str) (v : ViewState D)
        → vm.view_of name s ≡ some v
        → is_some v.center_x ≡ true
    pub center_y :
        (s : S) (name : Str) (v : ViewState D)
        → vm.view_of name s ≡ some v
        → is_some v.center_y ≡ true
    pub zoom :
        (s : S) (name : Str) (v : ViewState D) → vm.view_of name s ≡ some v → is_some v.zoom ≡ true
    pub rotation_deg :
        (s : S) (name : Str) (v : ViewState D)
        → vm.view_of name s ≡ some v
        → is_some v.rotation_deg ≡ true

  abbrev Anything : {A : Type 0} → A → Type 0
  Anything a = Unit

  apply_some-Holds :
      {A : Type 0} (P : A → Type 0) (target : Option Str) (o : Option A)
      (f : A → Str → S → Bool × S) (r : Bool × S)
      → Whenever (λ a. IsTargeted d j vm target × P a) o
      → Holds Anything (SetView.apply_some d j vm o (λ a. SetView.at_target d j vm target (f a)) r)
  unfolding SetView.apply_some SetView.at_target SetView.and_ok dereference Whenever Holds
  apply_some-Holds P target none f r w = tt
  apply_some-Holds P none (some a) f r ((name, e), p) = cc
  apply_some-Holds P (some name) (some a) f (ok, s) w = tt

  apply_valid-Holds :
      {A : Type 0} (o : Option A) (f : A → S → Bool × S) (r : Bool × S)
      → Holds Anything (SetView.apply_some d j vm o (λ a s. valid (f a s)) r)
  unfolding SetView.apply_some SetView.and_ok Holds
  apply_valid-Holds none f r = tt
  apply_valid-Holds (some a) f (ok, s) = tt

  pub apply_view-Holds :
      (s t : S) (u : ViewUpdate D)
      → IsAdmissible d j vm s u
      → Holds Anything (SetView.apply_view d j vm u t)
  unfolding SetView.apply_view
  apply_view-Holds s t u v = Holds-bind _ _ _ (apply_valid-Holds u.buffer_name _ _) λ a p.
      Holds-bind _ _ _ (apply_valid-Holds u.auto_contrast _ a) λ b q.
        Holds-bind _ _ _ (apply_some-Holds _ u.target u.rotation_deg _ b v.rotation_deg) λ c r.
          Holds-bind _ _ _ (apply_some-Holds _ u.target u.zoom _ c v.zoom) λ e w.
            Holds-bind _ _ _ (apply_some-Holds _ u.target u.center _ e v.center)
              λ f x. apply_some-Holds _ u.target u.channel _ f v.channel

  dereferenced-Holds :
      {A : Type 0} (o : Option A)
      → is_some o ≡ true
      → Holds Anything (Handlers.dereferenced d j vm o)
  unfolding Handlers.dereferenced dereference is_some Holds
  dereferenced-Holds none h = cc
  dereferenced-Holds (some a) h = tt

  view_fields-Holds :
      (s : S) (name : Str) (v : ViewState D)
      → IsComplete
      → vm.view_of name s ≡ some v
      → Holds Anything (Handlers.view_fields d j vm (some v))
  unfolding Handlers.view_fields Holds
  view_fields-Holds s name v k e =
      Holds-bind _ _ _ (dereferenced-Holds v.buffer (k.buffer s name v e)) λ a p.
        Holds-bind _ _ _ (dereferenced-Holds v.center_x (k.center_x s name v e)) λ b q.
          Holds-bind _ _ _ (dereferenced-Holds v.center_y (k.center_y s name v e)) λ c r.
            Holds-bind _ _ _ (dereferenced-Holds v.zoom (k.zoom s name v e)) λ f t.
              Holds-bind _ _ _ (dereferenced-Holds v.rotation_deg (k.rotation_deg s name v e))
                λ g u. tt

  no_view : Unit {0} → Holds Anything (Handlers.view_fields d j vm none)
  unfolding Handlers.view_fields Holds
  no_view u = tt

  shown-Holds :
      (s : S) → IsComplete → Holds Anything (Handlers.view_fields d j vm (Handlers.shown d j vm s))
  unfolding Handlers.shown bind_option
  shown-Holds s k = elim (Bool-cases (vm.buffer_count s == 0)) [
    | inl empty ↦ rw empty (no_view tt)
    | inr held ↦ elim (Option-cases (vm.selected_name s)) [
      | inl unselected ↦ rw (held, unselected) (no_view tt)
      | inr (name, e) ↦ elim (Option-cases (vm.view_of name s)) [
        | inl unseen ↦ rw (held, e, unseen) (no_view tt)
        | inr (v, seen) ↦ rw (held, e, seen) (view_fields-Holds s name v k seen)
      ]
    ]
  ]

  get_view_body-Holds : (s : S) → IsComplete → Holds Anything (Handlers.get_view_body d j vm s)
  unfolding Handlers.get_view_body Holds
  get_view_body-Holds s k = Holds-bind _ _ _ (shown-Holds s k) λ fields u. tt

  pub handle_get_view-Holds :
      (s : S) → IsComplete → Holds Anything (Handlers.handle_get_view d j vm s)
  unfolding Handlers.handle_get_view Holds
  handle_get_view-Holds s k = Holds-bind _ _ _ (get_view_body-Holds s k) λ body u. tt

  report_view-Holds : (r : Bool × S) → IsComplete → Holds Anything (Handlers.report_view d j vm r)
  unfolding Handlers.report_view Holds
  report_view-Holds (true, s) k = Holds-bind _ _ _ (handle_get_view-Holds s k) λ r u. tt
  report_view-Holds (false, s) k = tt

  finish-some :
      (s : S) (m : Checked (Reply V) (Reply V × S))
      → Holds Anything m
      → (r : Reply V × S) × (Handlers.finish d j vm s m ≡ some r)
  unfolding Handlers.finish Holds
  finish-some s undefined h = absurd h
  finish-some s (rejected r) h = ((r, s), refl)
  finish-some s (valid r) h = (r, refl)

  pub handle_set_view-some :
      (request : V) (s : S)
      → IsComplete
      → (r : Reply V × S) × (Handlers.handle_set_view d j vm request s ≡ some r)
  unfolding Handlers.handle_set_view
  handle_set_view-some request s k = finish-some s _ (
      Holds-bind _ _ _ (validate-Holds d j vm request s)
        λ u a. Holds-bind _ _ _ (apply_view-Holds s s u a) λ r p. report_view-Holds r k)

  dispatch-some :
      (method : Str) (request : V) (s : S)
      → IsComplete
      → IsGiven (Handlers.dispatch d j vm method request s)
  unfolding Handlers.dispatch Holds
  dispatch-some method request s k = if-IsGiven (str_eq method (codes "ping")) (given _) (
      if-IsGiven (str_eq method (codes "list_buffers")) (given _) (
        if-IsGiven (str_eq method (codes "get_buffer")) (given _) (
          if-IsGiven (str_eq method (codes "get_view"))
            (finish-some s _ (Holds-bind _ _ _ (handle_get_view-Holds s k) λ r u. tt))
            (if-IsGiven (str_eq method (codes "set_view")) (handle_set_view-some request s k)
              (given _)))))

  with_authed-IsGiven :
      (authed : Bool) (o : Option (Reply V × S))
      → IsGiven o
      → IsGiven (Handlers.with_authed d j vm authed o)
  unfolding Handlers.with_authed
  with_authed-IsGiven authed o ((r, s), e) = rw e (given _)

  handle_method-some :
      (core : AgentCore) (method : Option Str) (request : V) (authed : Bool) (s : S)
      → IsComplete
      → IsGiven (Handlers.handle_method d j vm core method request authed s)
  unfolding Handlers.handle_method
  handle_method-some core none request authed s k = given _
  handle_method-some core (some method) request authed s k =
      if-IsGiven (str_eq method (codes "hello")) (given _) (
        if-IsGiven (not authed) (given _)
          (with_authed-IsGiven authed _ (dispatch-some method request s k)))

  -- If the view that the model has of a buffer is complete, every request is answered: no handler
  -- dereferences an empty target or an empty field of a view, whatever the request holds.
  pub handle-some :
      (core : AgentCore) (request : V) (authed : Bool) (s : S)
      → IsComplete
      → (r : Reply V × Bool × S) × (Handlers.handle d j vm core request authed s ≡ some r)
  unfolding Handlers.handle
  handle-some core request authed s k =
      handle_method-some core (Handlers.method_of d j vm request) request authed s k

  valid_pair : {A : Type 0} {a b : A} → ◌≡◌ {A = Checked (Reply V) A} (valid a) (valid b) → a ≡ b
  valid_pair h = cc

  -- Where a rejection does not explain the result, the sequence was valid.
  finish-cases :
      (s : S) (m : Checked (Reply V) (Reply V × S)) (r : Reply V) (t : S)
      → Handlers.finish d j vm s m ≡ some (r, t)
      → (t ≡ s) ⊎ (m ≡ valid (r, t))
  unfolding Handlers.finish
  finish-cases s undefined r t h = cc
  finish-cases s (rejected e) r t h = inl cc
  finish-cases s (valid x) r t h = inr cc

  report_view-state :
      (a : Bool × S) (r : Reply V) (t : S) → Handlers.report_view d j vm a ≡ valid (r, t) → a.1 ≡ t
  unfolding Handlers.report_view
  report_view-state (true, s) r t h = let (body, e, f) = >>=-valid _ _ h in cc
  report_view-state (false, s) r t h = cc

  -- After set_view the model is as it was, or it is what applying an update gives whose every
  -- field was in range: a buffer that is known, a channel of the first three of the target or all
  -- of them, a zoom and a center that stay finite as floats, a rotation of a finite number, and a
  -- target wherever a field needs one.
  pub handle_set_view-atomic :
      (request : V) (s t : S) (r : Reply V)
      → Handlers.handle_set_view d j vm request s ≡ some (r, t)
      → (t ≡ s)
        ⊎ ((u : ViewUpdate D) × (ok : Bool) × IsAdmissible d j vm s u
            × (SetView.apply_view d j vm u s ≡ valid (ok, t)))
  unfolding Handlers.handle_set_view
  handle_set_view-atomic request s t r h = elim (finish-cases s _ r t h) [
    | inl same ↦ inl same
    | inr done ↦
        let (u, checked, rest) = >>=-valid (SetView.validate d j vm request s) _ done in
        let ((ok, after), applied, reported) = >>=-valid (SetView.apply_view d j vm u s) _ rest in
        inr (
          u,
          ok,
          Holds-valid _ _ (validate-Holds d j vm request s) checked,
          subst (λ x. SetView.apply_view d j vm u s ≡ valid (ok, x))
              (report_view-state _ r t reported) applied,
        )
  ]
