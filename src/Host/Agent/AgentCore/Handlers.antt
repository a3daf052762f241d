-- ===== src/Host/Agent/AgentCore/Handlers.antt =====
-- src/host/agent/agent_core.cpp: the handlers of the requests and their dispatch.
use open_image_debugger.Prelude.{
  decimal, ℕ, zero, suc, Bool, true, false, not, ◌&&◌, ◌||◌, Option, none, some, List, [], ◌∷◌,
  ◌++◌, ltb, ◌==◌, if◌then◌else◌, ℤ, pos, ltb_ℤ, to_u64, length, Str, Dict, codes, str_eq,
}
use open_image_debugger.Host.Agent.Values.{Doubles, JsonLibrary}
use open_image_debugger.Host.Agent.ViewModel.{BufferInfo, ViewState, ViewModel}
use open_image_debugger.Host.Agent.AgentCore.{
  dereference, Checked, undefined, rejected, valid, ◌>>=◌, Reply, constant_time_equal,
  default_max_bytes, fold_declared, declared_factors, invalid_dimensions,
}
use open_image_debugger.Host.Agent.AgentCore.SetView.{
  make_error, err_bad_token, err_unknown_method, err_unknown_buffer, err_bad_params, err_too_large,
  err_internal, validate, apply_view,
}

-- What the constructor takes beside the model.
pub record AgentCore : Type 0 where
  pub token : Str
  pub pid : ℤ
  pub session_kind : Str

unfoldable pub requested_max_bytes : Option ℤ → ℕ
requested_max_bytes none = default_max_bytes
requested_max_bytes (some requested) =
    if ltb_ℤ (pos 0) requested && ltb (to_u64 requested) default_max_bytes
    then to_u64 requested
    else default_max_bytes

unfoldable pub bind_option : {A B : Type 0} → Option A → (A → Option B) → Option B
bind_option none f = none
bind_option (some a) f = f a

module _ {D V S : Type 0} (d : Doubles D) (j : JsonLibrary D V) (vm : ViewModel D S) where
  unfoldable pub reply : V → Reply V
  reply body = record { body = body; payload = [] }

  unfoldable pub dereferenced : {A : Type 0} → Option A → Checked (Reply V) A
  dereferenced o = dereference o valid

  unfoldable pub view_fields : Option (ViewState D) → Checked (Reply V) (Dict V)
  view_fields none = valid (
      (codes "buffer", j.null)
      ∷ (codes "center", j.null)
      ∷ (codes "zoom", j.null)
      ∷ (codes "rotation_deg", j.null)
      ∷ (codes "channel", j.null)
      ∷ [])
  view_fields (some v) = do
    name ← dereferenced v.buffer
    x ← dereferenced v.center_x
    y ← dereferenced v.center_y
    power ← dereferenced v.zoom
    angle ← dereferenced v.rotation_deg
    valid (
        (codes "buffer", j.string name)
        ∷ (codes "center", j.array (j.number x ∷ j.number y ∷ []))
        ∷ (codes "zoom", j.number power)
        ∷ (codes "rotation_deg", j.number angle)
        ∷ (codes "channel", j.string v.channel)
        ∷ [])

  -- The state that the body describes, or none.
  unfoldable pub shown : S → Option (ViewState D)
  shown s =
      if vm.buffer_count s == 0
      then none
      else bind_option (vm.selected_name s) λ name. vm.view_of name s

  unfoldable pub get_view_body : S → Checked (Reply V) V
  get_view_body s = do
    fields ← view_fields (shown s)
    valid (
        j.object (
          fields
          ++ (codes "auto_contrast", j.boolean (vm.auto_contrast s))
            ∷ (
              codes "viewport",
              j.array (j.integer (vm.viewport_size s).0 ∷ j.integer (vm.viewport_size s).1 ∷ []),
            )
            ∷ []))

  unfoldable pub entry_of : BufferInfo → V
  entry_of info = j.object (
      (codes "name", j.string info.name)
      ∷ (codes "display_name", j.string info.display_name)
      ∷ (codes "width", j.integer info.width)
      ∷ (codes "height", j.integer info.height)
      ∷ (codes "channels", j.integer info.channels)
      ∷ (codes "type", j.integer info.type)
      ∷ (codes "pixel_layout", j.string info.pixel_layout)
      ∷ (codes "transpose_buffer", j.boolean info.transpose)
      ∷ [])

  add_entry : Option BufferInfo → List V → List V
  add_entry none entries = entries
  add_entry (some info) entries = entry_of info ∷ entries

  -- The loop from index `i` on, with `left` buffers to go.
  unfoldable pub entries_from : S → (i left : ℕ) → List V
  unfolding add_entry
  entries_from s i zero = []
  entries_from s i (suc left) = add_entry (vm.buffer_at i s) (entries_from s (suc i) left)

  unfoldable pub handle_list_buffers : S → Reply V
  handle_list_buffers s =
      reply (j.object ((codes "buffers", j.array (entries_from s 0 (vm.buffer_count s))) ∷ []))

  unfoldable pub handle_ping : Reply V
  handle_ping = reply (j.object ((codes "ok", j.boolean true) ∷ []))

  unfoldable pub pixels_reply : BufferInfo → List ℕ → Reply V
  pixels_reply info bytes = record {
    body = j.object (
        (codes "width", j.integer info.width)
        ∷ (codes "height", j.integer info.height)
        ∷ (codes "channels", j.integer info.channels)
        ∷ (codes "step", j.integer info.step)
        ∷ (codes "type", j.integer info.type)
        ∷ (codes "pixel_layout", j.string info.pixel_layout)
        ∷ (codes "transpose_buffer", j.boolean info.transpose)
        ∷ (codes "display_name", j.string info.display_name)
        ∷ []);
    payload = bytes;
  }

  unfoldable pub read_buffer :
      (max_bytes : ℕ) → BufferInfo → (symbol : Str) → Option (List ℕ) → Reply V
  read_buffer max_bytes info symbol none =
      make_error d j vm err_internal (codes "failed to read buffer: " ++ symbol)
  read_buffer max_bytes info symbol (some bytes) =
      if ltb max_bytes (length bytes)
      then make_error d j vm err_too_large (
          codes "buffer of "
          ++ decimal (length bytes)
          ++ codes " bytes exceeds max_bytes "
          ++ decimal max_bytes)
      else pixels_reply info bytes

  -- The part of `handle_get_buffer` that follows once the buffer is found.
  unfoldable pub send_buffer : (max_bytes : ℕ) → (symbol : Str) → Option BufferInfo → S → Reply V
  send_buffer max_bytes symbol none s =
      make_error d j vm err_unknown_buffer (codes "no such buffer: " ++ symbol)
  send_buffer max_bytes symbol (some info) s =
      if invalid_dimensions info
      then make_error d j vm err_internal (codes "buffer has invalid dimensions: " ++ symbol)
      else if not (fold_declared max_bytes 1 (declared_factors info))
      then make_error d j vm err_too_large (codes "buffer exceeds max_bytes " ++ decimal max_bytes)
      else read_buffer max_bytes info symbol (vm.read_pixels symbol s)

  unfoldable pub string_member : Str → V → Option Str
  string_member k request = bind_option (j.member k request) j.as_string

  unfoldable pub max_bytes_of : V → ℕ
  max_bytes_of request =
      requested_max_bytes (bind_option (j.member (codes "max_bytes") request) j.as_integer)

  unfoldable pub get_symbol : V → Option Str → S → Reply V
  get_symbol request none s = make_error d j vm err_bad_params (codes "symbol is required")
  get_symbol request (some symbol) s =
      send_buffer (max_bytes_of request) symbol (vm.buffer_named symbol s) s

  unfoldable pub handle_get_buffer : V → S → Reply V
  unfolding get_symbol string_member
  handle_get_buffer request s = get_symbol request (string_member (codes "symbol") request) s

  unfoldable pub handle_get_view : S → Checked (Reply V) (Reply V)
  handle_get_view s = get_view_body s >>= λ body. valid (reply body)

  viewed : S → Reply V → Reply V × S
  viewed s r = (r, s)

  -- A rejection leaves the state as it was.
  unfoldable pub finish : S → Checked (Reply V) (Reply V × S) → Option (Reply V × S)
  finish s undefined = none
  finish s (rejected r) = some (r, s)
  finish s (valid r) = some r

  unfoldable pub report_view : Bool × S → Checked (Reply V) (Reply V × S)
  unfolding viewed
  report_view (true, s) = handle_get_view s >>= λ r. valid (viewed s r)
  report_view (false, s) = valid (make_error d j vm err_internal (codes "failed to apply view"), s)

  unfoldable pub handle_set_view : V → S → Option (Reply V × S)
  handle_set_view request s = finish s (do
    update ← validate d j vm request s
    applied ← apply_view d j vm update s
    report_view applied)

  unfoldable pub supplied_token : V → Str
  unfolding string_member
  supplied_token request = elim (string_member (codes "token") request) [ none ↦ [] | some s ↦ s ]

  -- The reply and the new value of `authed`.
  unfoldable pub handle_hello : AgentCore → V → (authed : Bool) → Reply V × Bool
  handle_hello core request authed =
      if not (length (supplied_token request) == length core.token)
        || not (constant_time_equal (supplied_token request) core.token)
      then (make_error d j vm err_bad_token (codes "bad or missing token"), authed)
      else (
        reply (
            j.object (
              (codes "version", j.integer (pos 1))
              ∷ (codes "kind", j.string core.session_kind)
              ∷ (codes "pid", j.integer core.pid)
              ∷ [])),
        true,
      )

  -- The table of the handlers.
  unfoldable pub dispatch : (method : Str) → V → S → Option (Reply V × S)
  unfolding viewed
  dispatch method request s =
      if str_eq method (codes "ping")
      then some (handle_ping, s)
      else if str_eq method (codes "list_buffers")
      then some (handle_list_buffers s, s)
      else if str_eq method (codes "get_buffer")
      then some (handle_get_buffer request s, s)
      else if str_eq method (codes "get_view")
      then finish s (handle_get_view s >>= λ r. valid (viewed s r))
      else if str_eq method (codes "set_view")
      then handle_set_view request s
      else some (make_error d j vm err_unknown_method (codes "unknown method: " ++ method), s)

  unfoldable pub method_of : V → Option Str
  unfolding string_member
  method_of request = if j.is_object request then string_member (codes "method") request else none

  unfoldable pub with_authed : Bool → Option (Reply V × S) → Option (Reply V × Bool × S)
  with_authed authed none = none
  with_authed authed (some (r, s)) = some (r, authed, s)

  unfoldable pub handle_method :
      AgentCore → Option Str → V → (authed : Bool) → S → Option (Reply V × Bool × S)
  unfolding with_authed
  handle_method core none request authed s =
      some (
        make_error d j vm err_unknown_method (codes "malformed request (missing method)"),
        authed,
        s,
      )
  handle_method core (some method) request authed s =
      if str_eq method (codes "hello")
      then (let (r, granted) = handle_hello core request authed in some (r, granted, s))
      else if not authed
      then some (make_error d j vm err_bad_token (codes "first request must be hello"), authed, s)
      else with_authed authed (dispatch method request s)

  -- The reply, the new value of `authed` and the new state of the model.
  unfoldable pub handle : AgentCore → V → (authed : Bool) → S → Option (Reply V × Bool × S)
  handle core request authed s = handle_method core (method_of request) request authed s
