-- ===== src/Examples/Agent.antt =====
-- The requests of an agent on a concrete view model.
use open_image_debugger.Prelude.{
  starts_with_digit, decimal, read_digits, is_digit, ◌≡◌, refl, ◌⊎◌, ◌↔◌, Bool, true, false, some,
  [], ◌∷◌, ◌++◌, leb, ◌≤◌, if◌then◌else◌, ℤ, pos, length, codes, str_eq, arith, subst,
}
use open_image_debugger.Host.Agent.Values.{strtoll, skip_spaces, is_space}
use open_image_debugger.Host.Agent.AgentCore.{
  is_some, valid, ◌>>=◌, or_else, dereference, Reply, ViewUpdate, constant_time_equal,
  invalid_dimensions,
}
use open_image_debugger.Host.Agent.AgentCore.Tokens.{constant_time_equal_iff}
use open_image_debugger.Host.Agent.AgentCore.Handlers.{AgentCore}
use open_image_debugger.Host.Agent.AgentCore.Handlers
use open_image_debugger.Host.Agent.AgentCore.SetView
use open_image_debugger.Host.Agent.AgentCore.Admissible.{IsAdmissible}
use open_image_debugger.Host.Agent.AgentCore.Safety.{
  IsComplete, handle-some, handle_set_view-atomic,
}
use open_image_debugger.Host.Agent.AgentCore.Authentication.{handle-unauthenticated}
use open_image_debugger.Host.Agent.AgentCore.Caps.{
  Asks, IsShape, declared, handle_get_buffer-cap, allowed_by, handle_get_buffer_lem,
}
use open_image_debugger.Examples.Viewing.{
  Value, boolean_value, integer_value, number_value, string_value, array_value, object_value,
  Viewer, some_inj, from_list, from_dict, values_library, whole_numbers, viewer_model, small_image,
  viewer, core,
}

abbrev hello_request : Value
hello_request = object_value (
    from_dict (
      (codes "method", string_value (codes "hello"))
      ∷ (codes "token", string_value (codes "a1"))
      ∷ []))

abbrev buffer_request : Value
buffer_request = object_value (
    from_dict (
      (codes "method", string_value (codes "get_buffer"))
      ∷ (codes "symbol", string_value (codes "img"))
      ∷ []))

abbrev view_request : Value
view_request = object_value (
    from_dict (
      (codes "method", string_value (codes "set_view"))
      ∷ (codes "buffer", string_value (codes "img"))
      ∷ (codes "zoom", integer_value (pos 4))
      ∷ []))

viewer_model-IsComplete : IsComplete whole_numbers values_library viewer_model
unfolding is_some
viewer_model-IsComplete = record {
  buffer = λ s name v e. subst (λ x. is_some x.buffer ≡ true) (some_inj e) refl;
  center_x = λ s name v e. subst (λ x. is_some x.center_x ≡ true) (some_inj e) refl;
  center_y = λ s name v e. subst (λ x. is_some x.center_y ≡ true) (some_inj e) refl;
  zoom = λ s name v e. subst (λ x. is_some x.zoom ≡ true) (some_inj e) refl;
  rotation_deg = λ s name v e. subst (λ x. is_some x.rotation_deg ≡ true) (some_inj e) refl;
}

constant_time_equal_iff_example :
    (constant_time_equal (codes "a1") (codes "a1") ≡ true) ↔ (codes "a1" ≡ codes "a1")
constant_time_equal_iff_example = constant_time_equal_iff (codes "a1") (codes "a1")

handle-some_example :
    (r : Reply Value × Bool × Viewer) × (Handlers.handle whole_numbers values_library viewer_model
        core view_request true viewer
      ≡ some r)
handle-some_example =
    handle-some whole_numbers values_library viewer_model core view_request true viewer
      viewer_model-IsComplete

abbrev hello_reply : Reply Value
hello_reply = record {
  body = object_value (
      from_dict (
        (codes "version", integer_value (pos 1))
        ∷ (codes "kind", string_value (codes "viewer"))
        ∷ (codes "pid", integer_value (pos 7))
        ∷ []));
  payload = [];
}

said_hello :
    (authed : Bool)
    → Handlers.handle whole_numbers values_library viewer_model core hello_request authed viewer
      ≡ some (hello_reply, true, viewer)
unfolding Handlers.handle Handlers.handle_method Handlers.method_of Handlers.string_member
    Handlers.bind_option str_eq Handlers.handle_hello Handlers.supplied_token constant_time_equal
    Handlers.reply
said_hello authed = refl

handle-unauthenticated_example :
    (viewer ≡ viewer)
    × ((true ≡ true) ↔ (
        (Handlers.method_of whole_numbers values_library viewer_model hello_request
          ≡ some (codes "hello"))
        × (Handlers.supplied_token whole_numbers values_library viewer_model hello_request
            ≡ core.token)))
handle-unauthenticated_example =
    handle-unauthenticated whole_numbers values_library viewer_model core hello_request viewer
      viewer hello_reply true (said_hello false)

abbrev zoomed : Viewer
zoomed = record viewer { selected = some (codes "img"); power = pos 4 }

abbrev view_reply : Reply Value
view_reply = record {
  body = object_value (
      from_dict (
        (codes "buffer", string_value (codes "img"))
        ∷ (
          codes "center",
          array_value (from_list (number_value (pos 0) ∷ number_value (pos 0) ∷ [])),
        )
        ∷ (codes "zoom", number_value (pos 4))
        ∷ (codes "rotation_deg", number_value (pos 0))
        ∷ (codes "channel", string_value (codes "all"))
        ∷ (codes "auto_contrast", boolean_value true)
        ∷ (
          codes "viewport",
          array_value (from_list (integer_value (pos 640) ∷ integer_value (pos 480) ∷ [])),
        )
        ∷ []));
  payload = [];
}

view_set :
    Handlers.handle_set_view whole_numbers values_library viewer_model view_request viewer
    ≡ some (view_reply, zoomed)
unfolding Handlers.handle_set_view Handlers.finish ◌>>=◌ SetView.validate SetView.parse_buffer_name
    SetView.on_field str_eq SetView.check_name is_some SetView.resolve_target or_else
    SetView.parse_channel SetView.parse_zoom SetView.check_zoom SetView.as_finite_number
    SetView.bind_number SetView.finite_number Handlers.bind_option Handlers.dereferenced
    Handlers.get_view_body Handlers.handle_get_view Handlers.reply Handlers.report_view
    Handlers.shown Handlers.view_fields SetView.and_ok SetView.apply_some SetView.apply_view
    SetView.at_target SetView.check_boolean SetView.check_center SetView.check_rotation
    SetView.has_per_buffer_field SetView.parse_auto_contrast SetView.parse_center
    SetView.parse_rotation SetView.zoom_power dereference starts_with_digit strtoll skip_spaces
    is_space read_digits is_digit
view_set = refl

handle_set_view-atomic_example :
    (zoomed ≡ viewer)
    ⊎ ((u : ViewUpdate ℤ) × (ok : Bool) × IsAdmissible whole_numbers values_library viewer_model
          viewer u
        × (SetView.apply_view whole_numbers values_library viewer_model u viewer
            ≡ valid (ok, zoomed)))
handle_set_view-atomic_example =
    handle_set_view-atomic whole_numbers values_library viewer_model view_request viewer zoomed
      view_reply view_set

handle_get_buffer-cap_example :
    length
      (Handlers.handle_get_buffer whole_numbers values_library viewer_model buffer_request
        viewer).payload
    ≤ allowed_by values_library (values_library.member (codes "max_bytes") buffer_request)
handle_get_buffer-cap_example =
    handle_get_buffer-cap whole_numbers values_library viewer_model buffer_request viewer

img-Asks : Asks whole_numbers values_library viewer_model buffer_request (codes "img")
unfolding str_eq
img-Asks = record { value = string_value (codes "img"); member = refl; name = refl }

small_image-IsShape : IsShape small_image
small_image-IsShape = record {
  width_range = omega arith;
  height_range = omega arith;
  channels_range = omega arith;
  step_range = omega arith;
}

img_named : viewer_model.buffer_named (codes "img") viewer ≡ some small_image
unfolding str_eq
img_named = refl

handle_get_buffer_lem_example :
    Handlers.handle_get_buffer whole_numbers values_library viewer_model buffer_request viewer ≡ (
      if invalid_dimensions small_image
      then SetView.make_error whole_numbers values_library viewer_model SetView.err_internal
          (codes "buffer has invalid dimensions: " ++ codes "img")
      else if leb
          (declared small_image)
          (Handlers.max_bytes_of whole_numbers values_library viewer_model buffer_request)
      then Handlers.read_buffer whole_numbers values_library viewer_model
          (Handlers.max_bytes_of whole_numbers values_library viewer_model buffer_request)
          small_image
          (codes "img")
          (viewer_model.read_pixels (codes "img") viewer)
      else SetView.make_error whole_numbers values_library viewer_model SetView.err_too_large (
          codes "buffer exceeds max_bytes "
          ++ decimal
              (Handlers.max_bytes_of whole_numbers values_library viewer_model buffer_request)))
handle_get_buffer_lem_example =
    handle_get_buffer_lem whole_numbers values_library viewer_model buffer_request (codes "img")
      small_image viewer img-Asks small_image-IsShape img_named
