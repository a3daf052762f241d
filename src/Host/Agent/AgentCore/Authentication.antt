-- ===== src/Host/Agent/AgentCore/Authentication.antt =====
-- src/host/agent/agent_core.cpp: who may use the requests.
use open_image_debugger.Prelude.{
  ◌≡◌, refl, ◌⊎◌, inl, inr, Bool, true, false, not, Option, none, some, ◌↔◌, Str, codes, length,
  ◌||◌, ap, Bool-cases, arith, str_eq, str_eq_iff, ◌==◌, ==_iff,
}
use open_image_debugger.Host.Agent.Values.{Doubles, JsonLibrary}
use open_image_debugger.Host.Agent.ViewModel.{ViewModel}
use open_image_debugger.Host.Agent.AgentCore.{Reply, constant_time_equal}
use open_image_debugger.Host.Agent.AgentCore.Tokens.{constant_time_equal_iff}
use open_image_debugger.Host.Agent.AgentCore.Handlers.{AgentCore}
use open_image_debugger.Host.Agent.AgentCore.SetView.{make_error, err_bad_token}
use open_image_debugger.Host.Agent.AgentCore.Handlers

-- The test that refuses a token.
unfoldable refuses : (supplied token : Str) → Bool
refuses supplied token =
    not (length supplied == length token) || not (constant_time_equal supplied token)

refuses_iff : (supplied token : Str) → (refuses supplied token ≡ false) ↔ (supplied ≡ token)
unfolding refuses
refuses_iff supplied token = (
  (λ h. (constant_time_equal_iff supplied token).0 (ground (arith, h))),
  λ e.
      rw
        (
          (==_iff (length supplied) (length token)).1 (ap (λ x. length x) e),
          (constant_time_equal_iff supplied token).1 e,
        )
        refl,
)

module _ {D V S : Type 0} (d : Doubles D) (j : JsonLibrary D V) (vm : ViewModel D S) where
  -- A hello grants exactly with the token, and keeps what was granted.
  handle_hello-authed :
      (core : AgentCore) (request : V) (authed : Bool)
      → ((Handlers.handle_hello d j vm core request authed).1 ≡ true)
        ↔ ((authed ≡ true) ⊎ (Handlers.supplied_token d j vm request ≡ core.token))
  unfolding Handlers.handle_hello refuses
  handle_hello-authed core request authed =
      elim (Bool-cases (refuses (Handlers.supplied_token d j vm request) core.token)) [
        | inr same ↦ rw same ((λ u. inr ((refuses_iff _ _).0 same)), λ u. refl)
        | inl other ↦ rw other (
          (λ u. inl u),
          λ g. elim g [
            | inl already ↦ already
            | inr equal ↦ absurd (ground (arith, other, (refuses_iff _ _).1 equal))
          ],
        )
      ]

  with_authed_lem :
      (authed granted : Bool) (o : Option (Reply V × S)) (r : Reply V) (t : S)
      → Handlers.with_authed d j vm authed o ≡ some (r, granted, t)
      → granted ≡ authed
  unfolding Handlers.with_authed
  with_authed_lem authed granted none r t h = cc
  with_authed_lem authed granted (some (a, b)) r t h = cc

  without_grant : (supplied token : Str) → (false ≡ true) ⊎ (supplied ≡ token) → supplied ≡ token
  without_grant supplied token (inl h) = cc
  without_grant supplied token (inr h) = h

  not_hello : (m : Str) → str_eq m (codes "hello") ≡ false → some m ≡ some (codes "hello") → ⊥
  not_hello m other h = absurd (ground (arith, other, str_eq_iff m (codes "hello"), h))

  handle_method-unauthenticated :
      (core : AgentCore) (method : Option Str) (request : V) (s t : S) (r : Reply V)
      (granted : Bool)
      → Handlers.handle_method d j vm core method request false s ≡ some (r, granted, t)
      → (t ≡ s)
        × ((granted ≡ true) ↔ (
            (method ≡ some (codes "hello"))
            × (Handlers.supplied_token d j vm request ≡ core.token)))
  unfolding Handlers.handle_method
  handle_method-unauthenticated core none request s t r granted h = (cc, ((λ g. cc), λ (m, e). cc))
  handle_method-unauthenticated core (some m) request s t r granted h =
      elim (Bool-cases (str_eq m (codes "hello"))) [
        | inl hello ↦
            let same : some (
              (Handlers.handle_hello d j vm core request false).0,
              (Handlers.handle_hello d j vm core request false).1,
              s,
            )
                ≡ some (r, granted, t) =
              rw hello at h in
            let by_token = handle_hello-authed core request false in
            let is_hello = (str_eq_iff m _).0 hello in
            (
              cc,
              (
                (λ g. (ap some is_hello, without_grant _ _ (by_token.0 cc))),
                λ (m, e). let granted_now = by_token.1 (inr e) in cc,
              ),
            )
        | inr other ↦
            let same : some
                  (make_error d j vm err_bad_token (codes "first request must be hello"), false, s)
                ≡ some (r, granted, t) =
              rw other at h in
            (cc, ((λ g. cc), λ (e, f). absurd (not_hello m other e)))
      ]

  -- A request on a connection that is not authenticated leaves the model as it was, and grants
  -- exactly if it is a hello that supplies the token.
  pub handle-unauthenticated :
      (core : AgentCore) (request : V) (s t : S) (r : Reply V) (granted : Bool)
      → Handlers.handle d j vm core request false s ≡ some (r, granted, t)
      → (t ≡ s)
        × ((granted ≡ true) ↔ (
            (Handlers.method_of d j vm request ≡ some (codes "hello"))
            × (Handlers.supplied_token d j vm request ≡ core.token)))
  unfolding Handlers.handle
  handle-unauthenticated core request = handle_method-unauthenticated core _ request

  handle_method-authenticated :
      (core : AgentCore) (method : Option Str) (request : V) (s t : S) (r : Reply V)
      (granted : Bool)
      → Handlers.handle_method d j vm core method request true s ≡ some (r, granted, t)
      → granted ≡ true
  unfolding Handlers.handle_method
  handle_method-authenticated core none request s t r granted h = cc
  handle_method-authenticated core (some m) request s t r granted h =
      elim (Bool-cases (str_eq m (codes "hello"))) [
        | inl hello ↦
            let same : some (
              (Handlers.handle_hello d j vm core request true).0,
              (Handlers.handle_hello d j vm core request true).1,
              s,
            )
                ≡ some (r, granted, t) =
              rw hello at h in
            let kept = (handle_hello-authed core request true).1 (inl refl) in cc
        | inr other ↦ with_authed_lem true granted _ r t (rw other at h)
      ]

  -- No request, and no hello with a wrong token, takes the authentication of a connection back.
  pub handle-authenticated :
      (core : AgentCore) (request : V) (s t : S) (r : Reply V) (granted : Bool)
      → Handlers.handle d j vm core request true s ≡ some (r, granted, t)
      → granted ≡ true
  unfolding Handlers.handle
  handle-authenticated core request = handle_method-authenticated core _ request
