-- ===== src/Host/Agent/AgentCore/Admissible.antt =====
-- What the validation of set_view in src/host/agent/agent_core.cpp lets through.
use open_image_debugger.Prelude.{
  ◌≡◌, refl, ◌⊎◌, inl, inr, Bool, true, false, Option, none, some, List, [], ◌∷◌, ℤ, pos, negsuc,
  ◌≤ℤ◌, Str, codes, Bool-cases, arith, Option-cases, Option-cases, leb_ℤ, zero, suc, ltb_ℤ, ◌+ℤ◌,
}
use open_image_debugger.Host.Agent.Values.{Doubles, JsonLibrary}
use open_image_debugger.Host.Agent.ViewModel.{BufferInfo, ViewModel}
use open_image_debugger.Host.Agent.AgentCore.{
  dereference, Checked, ChannelSelection, ViewUpdate, Reply, max_channel, min_int, predecessor,
  is_some, or_else,
}
use open_image_debugger.Host.Agent.AgentCore.Outcomes.{
  Whenever, Holds, Whenever-map, Holds-map, Holds-bind,
}
use open_image_debugger.Host.Agent.AgentCore.SetView

module _ {D V S : Type 0} (d : Doubles D) (j : JsonLibrary D V) (vm : ViewModel D S) where
  -- A number that neither is infinite nor becomes so as a `float`.
  pub record IsFinite (x : D) : Type 0 where
    pub finite : d.is_finite x ≡ true
    pub in_float : d.at_most (d.abs x) d.float_max ≡ true

  pub record IsZoom (x : D) : Type 0 where
    pub number : IsFinite x
    pub not_tiny : d.less x d.float_min ≡ false
    pub not_large : d.less (d.literal (codes "930.0")) (SetView.zoom_power d j vm x) ≡ false

  -- Every channel, or the index of one of the first three channels of the buffer.
  abbrev pub IsChannel : S → (target : Option Str) → ChannelSelection → Type 0
  IsChannel s target c =
      (c.all ≡ true)
      ⊎ ((name : Str) × (info : BufferInfo) × (target ≡ some name)
          × (vm.buffer_named name s ≡ some info)
          × (pos 0 ≤ℤ c.index)
          × (c.index ≤ℤ pos 2)
          × ((c.index +ℤ pos 1) ≤ℤ info.channels))

  finite_number-IsFinite : (x : D) → Whenever IsFinite (SetView.finite_number d j vm x)
  unfolding SetView.finite_number Whenever
  finite_number-IsFinite x = elim (Bool-cases (d.is_finite x)) [
    | inr other ↦ rw other tt
    | inl good ↦ elim (Bool-cases (d.at_most (d.abs x) d.float_max)) [
      | inr other ↦ rw (good, other) tt
      | inl bounded ↦ rw (good, bounded) (record { finite = good; in_float = bounded })
    ]
  ]

  bind_number-IsFinite : (o : Option D) → Whenever IsFinite (SetView.bind_number d j vm o)
  unfolding SetView.bind_number Whenever
  bind_number-IsFinite none = tt
  bind_number-IsFinite (some x) = finite_number-IsFinite x

  pub as_finite_number-IsFinite : (v : V) → Whenever IsFinite (SetView.as_finite_number d j vm v)
  unfolding SetView.as_finite_number
  as_finite_number-IsFinite v = bind_number-IsFinite (j.as_number v)

  -- A field is checked only if it is there.
  on_field-Holds :
      {A : Type 0} (P : A → Type 0) (o : Option V) (f : V → Checked (Reply V) (Option A))
      → (is_some o ≡ true → (v : V) → Holds (Whenever P) (f v))
      → Holds (Whenever P) (SetView.on_field d j vm o f)
  unfolding SetView.on_field Holds Whenever is_some
  on_field-Holds P none f h = tt
  on_field-Holds P (some v) f h = h refl v

  check_zoom-Holds :
      (o : Option D) → Whenever IsFinite o → Holds (Whenever IsZoom) (SetView.check_zoom d j vm o)
  unfolding SetView.check_zoom SetView.bad_params Holds Whenever
  check_zoom-Holds none w = tt
  check_zoom-Holds (some x) w = elim (Bool-cases (d.less x d.float_min)) [
    | inl tiny ↦ rw tiny tt
    | inr ok ↦
        elim (Bool-cases (d.less (d.literal (codes "930.0")) (SetView.zoom_power d j vm x))) [
          | inl large ↦ rw (ok, large) tt
          | inr bounded ↦
              rw (ok, bounded) (record { number = w; not_tiny = ok; not_large = bounded })
        ]
  ]

  unfoldable pub IsPoint : D × D → Type 0
  IsPoint c = IsFinite c.0 × IsFinite c.1

  check_pair-Holds :
      (x y : Option D)
      → Whenever IsFinite x
      → Whenever IsFinite y
      → Holds (Whenever IsPoint) (SetView.check_pair d j vm x y)
  unfolding SetView.check_pair SetView.bad_params Holds Whenever IsPoint
  check_pair-Holds none y p q = tt
  check_pair-Holds (some x) none p q = tt
  check_pair-Holds (some x) (some y) p q = (p, q)

  check_center-Holds :
      (o : Option (List V)) → Holds (Whenever IsPoint) (SetView.check_center d j vm o)
  unfolding SetView.check_center SetView.bad_params Holds
  check_center-Holds none = tt
  check_center-Holds (some []) = tt
  check_center-Holds (some (x ∷ [])) = tt
  check_center-Holds (some (x ∷ y ∷ [])) =
      check_pair-Holds _ _ (as_finite_number-IsFinite x) (as_finite_number-IsFinite y)
  check_center-Holds (some (x ∷ y ∷ z ∷ r)) = tt

  abbrev pub IsRotation : D → Type 0
  IsRotation x = (v : D) × IsFinite v × (x ≡ SetView.normalized d j vm v)

  check_rotation-Holds :
      (o : Option D)
      → Whenever IsFinite o
      → Holds (Whenever IsRotation) (SetView.check_rotation d j vm o)
  unfolding SetView.check_rotation SetView.bad_params Holds Whenever
  check_rotation-Holds none w = tt
  check_rotation-Holds (some x) w = (x, w, refl)

  -- Both bounds of a channel index that is not refused.
  highest_bounds :
      (c n : ℤ)
      → ltb_ℤ n (pos 0) ≡ false
      → ltb_ℤ (predecessor (min_int c (pos 3))) n ≡ false
      → (pos 0 ≤ℤ n) × (n ≤ℤ pos 2) × ((n +ℤ pos 1) ≤ℤ c)
  unfolding predecessor min_int
  highest_bounds c (negsuc n) low high = absurd (ground (arith, low))
  highest_bounds (negsuc c) (pos n) low high = elim (Bool-cases (leb_ℤ (negsuc c) (pos 3))) [
    | inl small ↦ let h = rw small at high in absurd (ground (arith, h))
    | inr large ↦ absurd (ground (arith, large))
  ]
  highest_bounds (pos zero) (pos n) low high = absurd (ground (arith, high))
  highest_bounds (pos (suc c)) (pos n) low high = elim (Bool-cases (leb_ℤ (pos (suc c)) (pos 3))) [
    | inl small ↦ let h = rw small at high in ground (arith, h, small)
    | inr large ↦ let h = rw large at high in ground (arith, h, large)
  ]

  above_none : (n : ℤ) → ltb_ℤ n (pos 0) ≡ false → ltb_ℤ (negsuc 0) n ≡ true
  above_none (pos n) low = ground arith
  above_none (negsuc n) low = absurd (ground (arith, low))

  check_index-Holds :
      (s : S) (name : Str) (o : Option BufferInfo) (n : Option ℤ)
      → vm.buffer_named name s ≡ o
      → Holds (Whenever (IsChannel s (some name))) (SetView.check_index d j vm (max_channel o) n)
  unfolding SetView.check_index SetView.bad_params Holds Whenever max_channel
  check_index-Holds s name o none e = tt
  check_index-Holds s name none (some n) e = elim (Bool-cases (ltb_ℤ n (pos 0))) [
    | inl negative ↦ rw negative tt
    | inr low ↦ rw (low, above_none n low) tt
  ]
  check_index-Holds s name (some info) (some n) e = elim (Bool-cases (ltb_ℤ n (pos 0))) [
    | inl negative ↦ rw negative tt
    | inr low ↦ elim (Bool-cases (ltb_ℤ (predecessor (min_int info.channels (pos 3))) n)) [
      | inl above ↦ rw (low, above) tt
      | inr high ↦
          rw (low, high)
            (let (zero_up, two_down, inside) = highest_bounds info.channels n low high in
              inr (name, info, refl, e, zero_up, two_down, inside))
    ]
  ]

  abbrev pub IsTargeted : (target : Option Str) → Type 0
  IsTargeted target = (name : Str) × (target ≡ some name)

  check_channel-Holds :
      (s : S) (target : Option Str) (v : V)
      → IsTargeted target
      → Holds (Whenever (IsChannel s target)) (SetView.check_channel d j vm s target v)
  unfolding SetView.check_channel dereference Holds Whenever
  check_channel-Holds s none v (name, e) = cc
  check_channel-Holds s (some name) v t =
      elim (Bool-cases (SetView.is_all d j vm (j.as_string v))) [
        | inl all ↦ rw all (inl refl)
        | inr one ↦ rw one (check_index-Holds s name _ _ refl)
      ]

  check_name-Holds :
      (s : S) (o : Option Str)
      → Holds
          (Whenever (λ name. is_some (vm.buffer_named name s) ≡ true))
          (SetView.check_name d j vm s o)
  unfolding SetView.check_name SetView.bad_params Holds Whenever
  check_name-Holds s none = tt
  check_name-Holds s (some name) = elim (Bool-cases (is_some (vm.buffer_named name s))) [
    | inl known ↦ rw known known
    | inr unknown ↦ rw unknown tt
  ]

  -- An update whose fields are in range, and which has a target if a field needs one.
  pub record IsAdmissible (s : S) (u : ViewUpdate D) : Type 0 where
    pub known : Whenever (λ name. is_some (vm.buffer_named name s) ≡ true) u.buffer_name
    pub aimed : u.target ≡ or_else u.buffer_name (vm.selected_name s)
    pub channel : Whenever (λ c. IsTargeted u.target × IsChannel s u.target c) u.channel
    pub zoom : Whenever (λ x. IsTargeted u.target × IsZoom x) u.zoom
    pub center : Whenever (λ c. IsTargeted u.target × IsPoint c) u.center
    pub rotation_deg : Whenever (λ x. IsTargeted u.target × IsRotation x) u.rotation_deg

  needs_target :
      (request : V) (target : Option Str)
      → (SetView.has_per_buffer_field d j vm request ≡ true → IsTargeted target)
      → (is_some (j.member (codes "center") request) ≡ true → IsTargeted target)
        × (is_some (j.member (codes "zoom") request) ≡ true → IsTargeted target)
        × (is_some (j.member (codes "rotation_deg") request) ≡ true → IsTargeted target)
        × (is_some (j.member (codes "channel") request) ≡ true → IsTargeted target)
  unfolding SetView.has_per_buffer_field
  needs_target request target h = (
    (λ there. h (ground (arith, there))),
    (λ there. h (ground (arith, there))),
    (λ there. h (ground (arith, there))),
    λ there. h (ground (arith, there)),
  )

  resolve_target-Holds :
      (request : V) (s : S) (name : Option Str)
      → Holds
          (λ target.
            (target ≡ or_else name (vm.selected_name s))
            × (SetView.has_per_buffer_field d j vm request ≡ true → IsTargeted target))
          (SetView.resolve_target d j vm request s name)
  unfolding SetView.resolve_target SetView.bad_params Holds is_some
  resolve_target-Holds request s name = elim (Option-cases (or_else name (vm.selected_name s))) [
    | inr (n, e) ↦ rw e (refl, λ needed. (n, refl))
    | inl e ↦ elim (Bool-cases (SetView.has_per_buffer_field d j vm request)) [
      | inl needed ↦ rw (e, needed) tt
      | inr free ↦ rw (e, free) (refl, λ needed. cc)
    ]
  ]

  check_boolean-Holds :
      (o : Option Bool) → Holds (Whenever (λ b. Unit)) (SetView.check_boolean d j vm o)
  unfolding SetView.check_boolean SetView.bad_params Holds Whenever
  check_boolean-Holds none = tt
  check_boolean-Holds (some b) = tt

  contrast-Holds :
      (request : V) → Holds (Whenever (λ b. Unit)) (SetView.parse_auto_contrast d j vm request)
  unfolding SetView.parse_auto_contrast
  contrast-Holds request = on_field-Holds _ _ _ λ there v. check_boolean-Holds (j.as_boolean v)

  -- A field that needs a target and is checked has one.
  on_field-IsTargeted :
      {A : Type 0} (P : A → Type 0) (target : Option Str) (o : Option V)
      (f : V → Checked (Reply V) (Option A))
      → (is_some o ≡ true → IsTargeted target)
      → (IsTargeted target → (v : V) → Holds (Whenever P) (f v))
      → Holds (Whenever (λ a. IsTargeted target × P a)) (SetView.on_field d j vm o f)
  on_field-IsTargeted P target o f aim h =
      on_field-Holds _ o f λ there v.
        Holds-map (f v) (λ x w. Whenever-map x (λ a p. (aim there, p)) w) (h (aim there) v)

  pub validate-Holds :
      (request : V) (s : S) → Holds (IsAdmissible s) (SetView.validate d j vm request s)
  unfolding Holds SetView.validate SetView.parse_buffer_name SetView.parse_channel
      SetView.parse_zoom SetView.parse_center SetView.parse_rotation
  validate-Holds request s =
      Holds-bind _ _ _ (on_field-Holds _ _ _ λ there v. check_name-Holds s (j.as_string v))
        λ name known. Holds-bind _ _ _ (resolve_target-Holds request s name) λ target aimed.
          let (centers, zooms, rotations, channels) = needs_target request target aimed.1 in
          Holds-bind _ _ _
            (on_field-IsTargeted _ target _ _ channels λ t v. check_channel-Holds s target v t)
            λ selection c.
              Holds-bind _ _ _
                (on_field-IsTargeted _ target _ _ zooms
                  λ t v. check_zoom-Holds _ (as_finite_number-IsFinite v))
                λ power z.
                  Holds-bind _ _ _
                    (on_field-IsTargeted _ target _ _ centers
                      λ t v. check_center-Holds (j.as_array v))
                    λ middle m.
                      Holds-bind _ _ _
                        (on_field-IsTargeted _ target _ _ rotations
                          λ t v. check_rotation-Holds _ (as_finite_number-IsFinite v))
                        λ rotation r. Holds-bind _ _ _ (contrast-Holds request) λ contrast u.
                          (record {
                            known = known;
                            aimed = aimed.0;
                            channel = c;
                            zoom = z;
                            center = m;
                            rotation_deg = r;
                          })
