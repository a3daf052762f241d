-- ===== src/Host/Agent/AgentCore/SetView.antt =====
-- src/host/agent/agent_core.cpp: the fields of set_view, what they are checked for, and how the view
-- that they describe is applied.
use open_image_debugger.Prelude.{
  decimal, Bool, true, false, not, ◌&&◌, ◌||◌, Option, none, some, List, [], ◌∷◌, ◌++◌,
  if◌then◌else◌, ℤ, pos, negsuc, ltb_ℤ, pos_part, Str, codes, str_eq,
}
use open_image_debugger.Host.Agent.Values.{Doubles, JsonLibrary}
use open_image_debugger.Host.Agent.ViewModel.{ViewModel, zoom_factor}
use open_image_debugger.Host.Agent.AgentCore.{
  dereference, Checked, undefined, rejected, valid, ◌>>=◌, ChannelSelection, ViewUpdate, Reply,
  max_channel, channel_of_string, is_some, or_else,
}

abbrev pub err_bad_token : Str
err_bad_token = codes "bad_token"

abbrev pub err_unknown_method : Str
err_unknown_method = codes "unknown_method"

abbrev pub err_unknown_buffer : Str
err_unknown_buffer = codes "unknown_buffer"

abbrev pub err_bad_params : Str
err_bad_params = codes "bad_params"

abbrev pub err_too_large : Str
err_too_large = codes "too_large"

abbrev pub err_internal : Str
err_internal = codes "internal"

module _ {D V S : Type 0} (d : Doubles D) (j : JsonLibrary D V) (vm : ViewModel D S) where
  unfoldable pub make_error : (code message : Str) → Reply V
  make_error code message = record {
    body = j.object (
        (
          codes "error",
          j.object ((codes "code", j.string code) ∷ (codes "message", j.string message) ∷ []),
        )
        ∷ []);
    payload = [];
  }

  unfoldable pub bad_params : {A : Type 0} → Str → Checked (Reply V) A
  bad_params message = rejected (make_error err_bad_params message)

  -- A number that stays finite as a `float`.
  unfoldable pub finite_number : D → Option D
  finite_number x = if d.is_finite x && d.at_most (d.abs x) d.float_max then some x else none

  unfoldable pub bind_number : Option D → Option D
  bind_number none = none
  bind_number (some x) = finite_number x

  unfoldable pub as_finite_number : V → Option D
  as_finite_number v = bind_number (j.as_number v)

  as_channel : Option ℤ → V → Option ℤ
  as_channel (some n) v = some n
  as_channel none v = channel_of_string (j.as_string v)

  unfoldable pub parse_channel_index : V → Option ℤ
  unfolding as_channel
  parse_channel_index v = as_channel (j.as_integer v) v

  -- An absent field is left empty.
  unfoldable pub on_field :
      {A : Type 0} → Option V → (V → Checked (Reply V) (Option A)) → Checked (Reply V) (Option A)
  on_field none check = valid none
  on_field (some v) check = check v

  unfoldable pub check_name : S → Option Str → Checked (Reply V) (Option Str)
  check_name s none = bad_params (codes "buffer must be a string")
  check_name s (some name) =
      if is_some (vm.buffer_named name s)
      then valid (some name)
      else rejected (make_error err_unknown_buffer (codes "no such buffer: " ++ name))

  unfoldable pub parse_buffer_name : V → S → Checked (Reply V) (Option Str)
  parse_buffer_name request s =
      on_field (j.member (codes "buffer") request) λ v. check_name s (j.as_string v)

  unfoldable pub has_per_buffer_field : V → Bool
  has_per_buffer_field request =
      is_some (j.member (codes "center") request)
      || is_some (j.member (codes "zoom") request)
      || is_some (j.member (codes "rotation_deg") request)
      || is_some (j.member (codes "channel") request)

  unfoldable pub resolve_target :
      V → S → (buffer_name : Option Str) → Checked (Reply V) (Option Str)
  resolve_target request s buffer_name =
      let out = or_else buffer_name (vm.selected_name s) in
      if not (is_some out) && has_per_buffer_field request
      then bad_params (codes "no buffer to apply view to")
      else valid out

  unfoldable pub is_all : Option Str → Bool
  is_all none = false
  is_all (some s) = str_eq s (codes "all")

  unfoldable pub check_index :
      (highest : ℤ) → Option ℤ → Checked (Reply V) (Option ChannelSelection)
  check_index highest none =
      bad_params (codes "channel must be \"all\" or an int in 0.." ++ decimal (pos_part highest))
  check_index highest (some n) =
      if ltb_ℤ n (pos 0) || ltb_ℤ highest n
      then bad_params
          (codes "channel must be \"all\" or an int in 0.." ++ decimal (pos_part highest))
      else valid (some (record { all = false; index = n }))

  unfoldable pub check_channel :
      S → (target : Option Str) → V → Checked (Reply V) (Option ChannelSelection)
  check_channel s target v =
      if is_all (j.as_string v)
      then valid (some (record { all = true; index = pos 0 }))
      else dereference target
          λ name. check_index (max_channel (vm.buffer_named name s)) (parse_channel_index v)

  unfoldable pub parse_channel :
      V → S → (target : Option Str) → Checked (Reply V) (Option ChannelSelection)
  parse_channel request s target =
      on_field (j.member (codes "channel") request) λ v. check_channel s target v

  -- `std::log(value) / std::log(ViewModel::ZOOM_FACTOR)`.
  unfoldable pub zoom_power : D → D
  zoom_power value = d.divided_by (d.log value) (d.log (d.literal zoom_factor))

  unfoldable pub check_zoom : Option D → Checked (Reply V) (Option D)
  check_zoom none = bad_params (codes "zoom must be finite and > 0")
  check_zoom (some value) =
      if d.less value d.float_min
      then bad_params (codes "zoom must be finite and > 0")
      else if d.less (d.literal (codes "930.0")) (zoom_power value)
      then bad_params (codes "zoom is too large")
      else valid (some value)

  unfoldable pub parse_zoom : V → Checked (Reply V) (Option D)
  parse_zoom request =
      on_field (j.member (codes "zoom") request) λ v. check_zoom (as_finite_number v)

  unfoldable pub check_pair : Option D → Option D → Checked (Reply V) (Option (D × D))
  check_pair (some x) (some y) = valid (some (x, y))
  check_pair (some x) none = bad_params (codes "center must be a 2-array of finite numbers")
  check_pair none y = bad_params (codes "center must be a 2-array of finite numbers")

  unfoldable pub check_center : Option (List V) → Checked (Reply V) (Option (D × D))
  check_center (some (x ∷ y ∷ [])) = check_pair (as_finite_number x) (as_finite_number y)
  check_center _ = bad_params (codes "center must be a 2-array of finite numbers")

  unfoldable pub parse_center : V → Checked (Reply V) (Option (D × D))
  parse_center request =
      on_field (j.member (codes "center") request) λ v. check_center (j.as_array v)

  unfoldable pub normalized : D → D
  normalized value =
      let turned = d.fmod value (d.literal (codes "360.0")) in
      if d.less turned (d.literal (codes "0.0"))
      then d.add turned (d.literal (codes "360.0"))
      else turned

  unfoldable pub check_rotation : Option D → Checked (Reply V) (Option D)
  check_rotation none = bad_params (codes "rotation_deg must be finite")
  check_rotation (some value) = valid (some (normalized value))

  unfoldable pub parse_rotation : V → Checked (Reply V) (Option D)
  parse_rotation request =
      on_field (j.member (codes "rotation_deg") request) λ v. check_rotation (as_finite_number v)

  unfoldable pub check_boolean : Option Bool → Checked (Reply V) (Option Bool)
  check_boolean none = bad_params (codes "auto_contrast must be a bool")
  check_boolean (some b) = valid (some b)

  unfoldable pub parse_auto_contrast : V → Checked (Reply V) (Option Bool)
  parse_auto_contrast request =
      on_field (j.member (codes "auto_contrast") request) λ v. check_boolean (j.as_boolean v)

  -- The validation phase of `handle_set_view`.
  unfoldable pub validate : V → S → Checked (Reply V) (ViewUpdate D)
  validate request s = do
    name ← parse_buffer_name request s
    aim ← resolve_target request s name
    selection ← parse_channel request s aim
    power ← parse_zoom request
    middle ← parse_center request
    rotation ← parse_rotation request
    contrast ← parse_auto_contrast request
    valid (record {
      buffer_name = name;
      target = aim;
      channel = selection;
      zoom = power;
      center = middle;
      rotation_deg = rotation;
      auto_contrast = contrast;
    })

  -- `ok &= mutator(...)` for a field that is present.
  unfoldable pub and_ok : Bool → Checked (Reply V) (Bool × S) → Checked (Reply V) (Bool × S)
  and_ok ok undefined = undefined
  and_ok ok (rejected r) = rejected r
  and_ok ok (valid (done, s)) = valid (ok && done, s)

  unfoldable pub apply_some :
      {A : Type 0}
      → Option A
      → (A → S → Checked (Reply V) (Bool × S))
      → Bool × S
      → Checked (Reply V) (Bool × S)
  apply_some none f r = valid r
  apply_some (some a) f (ok, s) = and_ok ok (f a s)

  unfoldable pub at_target : Option Str → (Str → S → Bool × S) → S → Checked (Reply V) (Bool × S)
  at_target target f s = dereference target λ name. valid (f name s)

  unfoldable pub apply_view : ViewUpdate D → S → Checked (Reply V) (Bool × S)
  apply_view u s = do
    selected ← apply_some u.buffer_name (λ name t. valid (vm.select name t)) (true, s)
    contrasted ← apply_some u.auto_contrast (λ b t. valid (true, vm.set_auto_contrast b t)) selected
    rotated ←
        apply_some u.rotation_deg
          (λ x. at_target u.target λ name.
            vm.set_rotation_rad name (d.divided_by (d.times x d.pi) (d.literal (codes "180.0"))))
          contrasted
    zoomed ←
        apply_some u.zoom (λ x. at_target u.target λ name. vm.set_zoom_power name (zoom_power x))
          rotated
    centered ←
        apply_some u.center (λ c. at_target u.target λ name. vm.set_center name c.0 c.1) zoomed
    apply_some u.channel
        (λ c. at_target u.target λ name.
          vm.set_channel name (if c.all then negsuc 0 else pos 1)
            (if c.all then pos 0 else c.index))
        centered
