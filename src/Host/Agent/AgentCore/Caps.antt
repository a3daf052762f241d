-- ===== src/Host/Agent/AgentCore/Caps.antt =====
-- src/host/agent/agent_core.cpp: the cap on the bytes of a reply to get_buffer.
use open_image_debugger.Prelude.{
  decimal, ℕ, zero, suc, subst, sym, ◌∙◌, ◌*◌, ◌/◌, ◌^◌, ◌≤◌, ◌<◌, ◌≡◌, refl, inl, inr, Bool, true,
  false, not, Option, none, some, ◌↔◌, List, [], ◌∷◌, ◌++◌, Str, codes, length, Bool-cases, arith,
  ltb, ltb→lt, leb, if◌then◌else◌, mul64_exact, ℤ, pos, negsuc, pos_part, IsI32, size_max,
}
use native.Mathlib.Nat.{le-div_iff_mul-le, div-lt_iff_lt-mul}
use open_image_debugger.Ipc.RawDataDecode.{not_renderable, buffer_type, type_size}
use open_image_debugger.Ipc.RawDataDecode.Sizes.{
  not_renderable_iff, IsRenderable, ArePositive, product, le-product, to_u64-pos_part, stride_pos,
  type_size_bounds,
}
use open_image_debugger.Host.Agent.Values.{IsI64, Doubles, JsonLibrary}
use open_image_debugger.Host.Agent.ViewModel.{BufferInfo, ViewModel}
use open_image_debugger.Host.Agent.AgentCore.{
  default_max_bytes, fold_declared, declared_factors, invalid_dimensions,
}
use open_image_debugger.Host.Agent.AgentCore.SetView.{make_error, err_too_large, err_internal}
use open_image_debugger.Host.Agent.AgentCore.Handlers.{requested_max_bytes, bind_option}
use open_image_debugger.Host.Agent.AgentCore.Handlers

-- The fold compares the exact product, with no wrap-around.
pub fold_declared_lem :
    (max n : ℕ) (fs : List ℕ)
    → max ≤ size_max
    → n ≤ max
    → ArePositive fs
    → fold_declared max n fs ≡ leb (product n fs) max
unfolding fold_declared
fold_declared_lem max n [] bound h p = ground arith
fold_declared_lem max n (f ∷ fs) bound h (hf, p) = elim (Bool-cases (ltb (max / f) n)) [
  | inl over ↦ rw over (
      ground (
        arith,
        le-product (n * f) fs p,
        (div-lt_iff_lt-mul {x = max} {y = n} hf).0 (ltb→lt _ _ over),
      ))
  | inr fits ↦
      let small : n * f ≤ max = (le-div_iff_mul-le {x = n} {y = max} hf).0 (ground arith) in
      rw (fits, mul64_exact n f (omega arith)) (fold_declared_lem max (n * f) fs bound small p)
]

bind_option-IsI64 :
    {V : Type 0} (o : Option V) (f : V → Option ℤ)
    → ((v : V) (n : ℤ) → f v ≡ some n → IsI64 n)
    → (n : ℤ) → bind_option o f ≡ some n
    → IsI64 n
unfolding bind_option
bind_option-IsI64 none f h n e = cc
bind_option-IsI64 (some v) f h n e = h v n e

not_swaps : {A : Type 0} (b : Bool) (x y : A) → (if not b then y else x) ≡ (if b then x else y)
not_swaps true x y = refl
not_swaps false x y = refl

requested_cap :
    (o : Option ℤ)
    → ((n : ℤ) → o ≡ some n → IsI64 n)
    → (1 ≤ requested_max_bytes o) × (requested_max_bytes o ≤ default_max_bytes)
unfolding requested_max_bytes
requested_cap none h = omega arith
requested_cap (some (pos n)) h = let small : n < 2 ^ 63 = h (pos n) refl in ground arith
requested_cap (some (negsuc n)) h = ground arith

-- What a request allows: the number that it asks for, if it is above zero, and at most 256 MiB.
unfoldable pub allowed : (max_bytes : Option ℤ) → ℕ
allowed (some (pos (suc n))) = if leb (suc n) (256 * 1024 * 1024) then suc n else 256 * 1024 * 1024
allowed _ = 256 * 1024 * 1024

unfoldable pub allowed_by : {D V : Type 0} → JsonLibrary D V → Option V → ℕ
allowed_by j none = 256 * 1024 * 1024
allowed_by j (some max_bytes) = allowed (j.as_integer max_bytes)

allowed_by_lem :
    {D V : Type 0} (j : JsonLibrary D V) (o : Option V)
    → allowed_by j o ≡ allowed (bind_option o j.as_integer)
unfolding allowed_by bind_option allowed
allowed_by_lem j none = refl
allowed_by_lem j (some v) = refl

requested_max_bytes-allowed :
    (o : Option ℤ) → ((n : ℤ) → o ≡ some n → IsI64 n) → requested_max_bytes o ≡ allowed o
unfolding requested_max_bytes allowed
requested_max_bytes-allowed none h = refl
requested_max_bytes-allowed (some (pos zero)) h = ground arith
requested_max_bytes-allowed (some (pos (suc n))) h =
    let small : suc n < 2 ^ 63 = h (pos (suc n)) refl in ground arith
requested_max_bytes-allowed (some (negsuc n)) h = ground arith

invalid_dimensions_iff :
    (info : BufferInfo)
    → (invalid_dimensions info ≡ false)
      ↔ IsRenderable info.width info.height info.channels info.step
unfolding invalid_dimensions not_renderable
invalid_dimensions_iff info =
    ground (arith, not_renderable_iff info.width info.height info.channels info.step)

-- The bytes that the shape declares: every row carries the whole step.
abbrev pub declared : BufferInfo → ℕ
declared info =
    pos_part info.step
    * pos_part info.channels
    * type_size (buffer_type info.type)
    * pos_part info.height

pub record IsShape (info : BufferInfo) : Type 0 where
  pub width_range : IsI32 info.width
  pub height_range : IsI32 info.height
  pub channels_range : IsI32 info.channels
  pub step_range : IsI32 info.step

fold_exact :
    (info : BufferInfo) (max : ℕ)
    → IsShape info
    → IsRenderable info.width info.height info.channels info.step
    → 1 ≤ max
    → max ≤ size_max
    → fold_declared max 1 (declared_factors info) ≡ leb (declared info) max
unfolding declared_factors
fold_exact info max v r low high =
    let one_times : 1 * pos_part info.step ≡ pos_part info.step = omega arith in
    let steps = stride_pos info.width info.height info.channels info.step r in
    rw
      (
        to_u64-pos_part info.step v.step_range steps,
        to_u64-pos_part info.channels v.channels_range r.deep,
        to_u64-pos_part info.height v.height_range r.high,
      )
      (rw one_times at (
        fold_declared_lem max 1
          (pos_part info.step
            ∷ pos_part info.channels
            ∷ type_size (buffer_type info.type)
            ∷ pos_part info.height
            ∷ [])
          high low (steps, (r.deep, ((type_size_bounds (buffer_type info.type)).0, (r.high, tt))))))

module _ {D V S : Type 0} (d : Doubles D) (j : JsonLibrary D V) (vm : ViewModel D S) where
  max_bytes_of-allowed :
      (request : V)
      → Handlers.max_bytes_of d j vm request ≡ allowed_by j (j.member (codes "max_bytes") request)
  unfolding Handlers.max_bytes_of
  max_bytes_of-allowed request =
      requested_max_bytes-allowed _
        (bind_option-IsI64 (j.member (codes "max_bytes") request) j.as_integer j.as_integer-IsI64)
      ∙ sym (allowed_by_lem j (j.member (codes "max_bytes") request))

  max_bytes_of-cap :
      (request : V)
      → (1 ≤ Handlers.max_bytes_of d j vm request)
        × (Handlers.max_bytes_of d j vm request ≤ default_max_bytes)
  unfolding Handlers.max_bytes_of
  max_bytes_of-cap request =
      requested_cap _
        (bind_option-IsI64 (j.member (codes "max_bytes") request) j.as_integer j.as_integer-IsI64)

  read_buffer-cap :
      (max : ℕ) (info : BufferInfo) (symbol : Str) (o : Option (List ℕ))
      → length (Handlers.read_buffer d j vm max info symbol o).payload ≤ max
  unfolding Handlers.read_buffer Handlers.pixels_reply make_error
  read_buffer-cap max info symbol none = omega arith
  read_buffer-cap max info symbol (some bytes) = elim (Bool-cases (ltb max (length bytes))) [
    | inl over ↦ rw over (omega arith)
    | inr fits ↦ rw fits (ground (arith, fits))
  ]

  send_buffer-cap :
      (max : ℕ) (symbol : Str) (o : Option BufferInfo) (s : S)
      → length (Handlers.send_buffer d j vm max symbol o s).payload ≤ max
  unfolding Handlers.send_buffer make_error
  send_buffer-cap max symbol none s = omega arith
  send_buffer-cap max symbol (some info) s = elim (Bool-cases (invalid_dimensions info)) [
    | inl bad ↦ rw bad (omega arith)
    | inr good ↦ elim (Bool-cases (fold_declared max 1 (declared_factors info))) [
      | inl fits ↦ rw (good, fits) (read_buffer-cap max info symbol _)
      | inr over ↦ rw (good, over) (omega arith)
    ]
  ]

  get_symbol-cap :
      (request : V) (o : Option Str) (s : S)
      → length (Handlers.get_symbol d j vm request o s).payload
        ≤ Handlers.max_bytes_of d j vm request
  unfolding Handlers.get_symbol make_error
  get_symbol-cap request none s = omega arith
  get_symbol-cap request (some symbol) s = send_buffer-cap _ symbol _ s

  handle_get_buffer-max_bytes_of :
      (request : V) (s : S)
      → length (Handlers.handle_get_buffer d j vm request s).payload
        ≤ Handlers.max_bytes_of d j vm request
  unfolding Handlers.handle_get_buffer
  handle_get_buffer-max_bytes_of request s = get_symbol-cap request _ s

  -- Whatever the request and the model, the payload that get_buffer answers with is at most 256
  -- MiB, and at most the integer that the request names as max_bytes where that is above zero.
  pub handle_get_buffer-cap :
      (request : V) (s : S)
      → length (Handlers.handle_get_buffer d j vm request s).payload
        ≤ allowed_by j (j.member (codes "max_bytes") request)
  handle_get_buffer-cap request s =
      subst (λ cap. length (Handlers.handle_get_buffer d j vm request s).payload ≤ cap)
        (max_bytes_of-allowed request) (handle_get_buffer-max_bytes_of request s)

  send_buffer_lem :
      (request : V) (symbol : Str) (info : BufferInfo) (s : S)
      → IsShape info
      → vm.buffer_named symbol s ≡ some info
      → Handlers.send_buffer d j vm
          (Handlers.max_bytes_of d j vm request)
          symbol
          (vm.buffer_named symbol s)
          s
        ≡ (if invalid_dimensions info
            then make_error d j vm err_internal (codes "buffer has invalid dimensions: " ++ symbol)
            else if leb (declared info) (Handlers.max_bytes_of d j vm request)
            then Handlers.read_buffer d j vm
                (Handlers.max_bytes_of d j vm request)
                info
                symbol
                (vm.read_pixels symbol s)
            else make_error d j vm err_too_large (
                codes "buffer exceeds max_bytes "
                ++ decimal (Handlers.max_bytes_of d j vm request)))
  unfolding Handlers.send_buffer
  send_buffer_lem request symbol info s v e = elim (Bool-cases (invalid_dimensions info)) [
    | inl bad ↦ rw (e, bad) refl
    | inr good ↦
        let (low, high) = max_bytes_of-cap request in
        rw (e, good, fold_exact info _ v ((invalid_dimensions_iff info).0 good) low (omega arith))
          (not_swaps (leb (declared info) (Handlers.max_bytes_of d j vm request)) _ _)
  ]

  -- The name that a request gives.
  pub record Asks (request : V) (symbol : Str) : Type 0 where
    pub value : V
    pub member : j.member (codes "symbol") request ≡ some value
    pub name : j.as_string value ≡ some symbol

  -- For a request that names a buffer with 32-bit fields, get_buffer refuses an invalid shape,
  -- refuses a shape whose step times channels times element size times height, with no wrap-
  -- around, is above the cap, and only otherwise reads the pixels.
  pub handle_get_buffer_lem :
      (request : V) (symbol : Str) (info : BufferInfo) (s : S)
      → Asks request symbol
      → IsShape info
      → vm.buffer_named symbol s ≡ some info
      → Handlers.handle_get_buffer d j vm request s ≡ (
          if invalid_dimensions info
          then make_error d j vm err_internal (codes "buffer has invalid dimensions: " ++ symbol)
          else if leb (declared info) (Handlers.max_bytes_of d j vm request)
          then Handlers.read_buffer d j vm
              (Handlers.max_bytes_of d j vm request)
              info
              symbol
              (vm.read_pixels symbol s)
          else make_error d j vm err_too_large
              (codes "buffer exceeds max_bytes " ++ decimal (Handlers.max_bytes_of d j vm request)))
  unfolding Handlers.handle_get_buffer Handlers.get_symbol Handlers.string_member bind_option
  handle_get_buffer_lem request symbol info s a v e =
      rw (a.member, bind_option, a.name) (send_buffer_lem request symbol info s v e)
