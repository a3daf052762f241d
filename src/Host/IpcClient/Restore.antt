-- ===== src/Host/IpcClient/Restore.antt =====
-- Restoring buffers in src/host/ipc/ipc_client.cpp: which are asked for, and how often.
use open_image_debugger.Prelude.{
  none, some, ℕ, sym, map, append-nil, append_assoc, ◌++◌, str_eq_refl, ◌≡◌, refl, ◌∙◌, ap, inl,
  inr, Bool, true, false, not, ◌&&◌, ◌||◌, List, [], ◌∷◌, ◌==◌, if◌then◌else◌, ℤ, leb_ℤ, length,
  length-append, Str, str_eq, str_eq_iff, Bool-cases, arith,
}
use open_image_debugger.Ipc.Words.{to_bytes, length-to_bytes}
use open_image_debugger.Ipc.MessageExchange.{
  MessageComposer, plot_buffer_request, push_message_type, push_bytes, frame,
}
use open_image_debugger.Ipc.MessageExchange.RoundTrip.{frame-push_bytes, sized_bytes}
use open_image_debugger.Host.BufferModel.{BufferRecord}
use open_image_debugger.Host.IpcBufferModel.{index_of}
use open_image_debugger.Host.IpcClient.{
  IpcClient, PreviousBuffer, contains, model_has, send_guarded, request_plot, insert_name,
  restore_one, restore_all,
}

-- A record of the name is in the model.
unfoldable pub has_record : List BufferRecord → Str → Bool
has_record [] name = false
has_record (r ∷ storage) name = str_eq r.variable_name name || has_record storage name

has_record_lem :
    (name : Str) (storage : List BufferRecord)
    → (elim (index_of name storage) [ none ↦ false | some i ↦ true ]) ≡ has_record storage name
unfolding index_of has_record
has_record_lem name [] = refl
has_record_lem name (r ∷ storage) = ground (arith, has_record_lem name storage)

model_has_lem : (c : IpcClient) (name : Str) → model_has c name ≡ has_record c.model.storage name
unfolding model_has
model_has_lem c name = has_record_lem name c.model.storage

-- A buffer that has not expired, is available and is not in the model.
unfoldable pub is_due : (now : ℤ) → IpcClient → PreviousBuffer → Bool
is_due now c b =
    not (leb_ℤ b.expiry_epoch_s now)
    && contains c.available_symbols b.variable_name
    && not (has_record c.model.storage b.variable_name)

unfoldable pub is_due_name : (now : ℤ) → IpcClient → List PreviousBuffer → Str → Bool
is_due_name now c [] name = false
is_due_name now c (b ∷ rest) name =
    (is_due now c b && str_eq b.variable_name name) || is_due_name now c rest name

-- No name stands twice in the list.
abbrev pub AllDifferent : List Str → Type 0
AllDifferent [] = Unit
AllDifferent (s ∷ rest) = (contains rest s ≡ false) × AllDifferent rest

-- The fields that a round leaves alone.
send_guarded_fields :
    (m : MessageComposer) (c : IpcClient)
    → ((send_guarded m c).model ≡ c.model)
      × ((send_guarded m c).available_symbols ≡ c.available_symbols)
      × ((send_guarded m c).restore_requested ≡ c.restore_requested)
      × ((send_guarded m c).connected ≡ c.connected)
unfolding send_guarded
send_guarded_fields m c = ground arith

request_plot-requested :
    (name : Str) (c : IpcClient) → (request_plot name c).restore_requested ≡ c.restore_requested
unfolding request_plot
request_plot-requested name c =
    ground
      (arith, send_guarded_fields (push_bytes name (push_message_type plot_buffer_request [])) c)

restore_one-fields :
    (now : ℤ) (b : PreviousBuffer) (c : IpcClient)
    → ((restore_one now b c).model ≡ c.model)
      × ((restore_one now b c).available_symbols ≡ c.available_symbols)
      × ((restore_one now b c).connected ≡ c.connected)
unfolding restore_one request_plot
restore_one-fields now b c = ground (
  arith,
  send_guarded_fields (push_bytes b.variable_name (push_message_type plot_buffer_request [])) c,
)

restore_one-requested :
    (now : ℤ) (b : PreviousBuffer) (c : IpcClient)
    → (restore_one now b c).restore_requested ≡ (
        if is_due now c b && not (contains c.restore_requested b.variable_name)
        then b.variable_name ∷ c.restore_requested
        else c.restore_requested)
unfolding restore_one is_due insert_name
restore_one-requested now b c =
    ground (arith, model_has_lem c b.variable_name, request_plot-requested b.variable_name c)

contains_same :
    (l : List Str) (s name : Str) → str_eq s name ≡ true → contains l s ≡ contains l name
contains_same l s name h = ap (contains l) ((str_eq_iff s name).0 h)

contains_asked :
    (asked : Bool) (l : List Str) (s name : Str)
    → contains (if asked && not (contains l s) then s ∷ l else l) name
      ≡ (contains l name || (asked && str_eq s name))
unfolding contains
contains_asked asked l s name = ground (arith, contains_same l s name)

restore_one-contains :
    (now : ℤ) (b : PreviousBuffer) (c : IpcClient) (name : Str)
    → contains (restore_one now b c).restore_requested name
      ≡ (contains c.restore_requested name || (is_due now c b && str_eq b.variable_name name))
restore_one-contains now b c name =
    rw restore_one-requested
      (contains_asked (is_due now c b) c.restore_requested b.variable_name name)

is_due_name-restore_one :
    (now : ℤ) (bs : List PreviousBuffer) (b : PreviousBuffer) (c : IpcClient) (name : Str)
    → is_due_name now (restore_one now b c) bs name ≡ is_due_name now c bs name
unfolding is_due_name is_due
is_due_name-restore_one now [] b c name = refl
is_due_name-restore_one now (d ∷ rest) b c name =
    let (model, available, connected) = restore_one-fields now b c in
    rw (is_due_name-restore_one now rest b c name, model, available) refl

or_assoc : (x y z : Bool) → ((x || y) || z) ≡ (x || (y || z))
or_assoc x y z = ground arith

restore_all-contains :
    (now : ℤ) (bs : List PreviousBuffer) (c : IpcClient) (name : Str)
    → contains (restore_all now bs c).restore_requested name
      ≡ (contains c.restore_requested name || is_due_name now c bs name)
unfolding restore_all is_due_name
restore_all-contains now [] c name = ground arith
restore_all-contains now (b ∷ rest) c name =
    restore_all-contains now rest (restore_one now b c) name
    ∙ rw (restore_one-contains now b c name, is_due_name-restore_one now rest b c name)
        (or_assoc (contains c.restore_requested name)
          (is_due now c b && str_eq b.variable_name name) (is_due_name now c rest name))

frame-request :
    (name : Str)
    → (length (frame (push_bytes name (push_message_type plot_buffer_request []))) == 0) ≡ false
frame-request name = ground (
  arith,
  ap length (frame-push_bytes name (push_message_type plot_buffer_request [])),
  length-append (frame (push_message_type plot_buffer_request [])) (sized_bytes name),
  length-append (to_bytes 8 (length name)) name,
  length-to_bytes 8 (length name),
)

abbrev pub request_frame : Str → List ℕ
request_frame name = frame (push_bytes name (push_message_type plot_buffer_request []))

request_plot-sent :
    (name : Str) (c : IpcClient)
    → c.connected ≡ true
    → (request_plot name c).sent ≡ c.sent ++ request_frame name ∷ []
unfolding request_plot send_guarded
request_plot-sent name c h = rw (h, frame-request name) refl

-- Whether the round over a buffer asks for it.
abbrev asks : (now : ℤ) → PreviousBuffer → IpcClient → Bool
asks now b c = is_due now c b && not (contains c.restore_requested b.variable_name)

restore_one-asks :
    (now : ℤ) (b : PreviousBuffer) (c : IpcClient)
    → c.connected ≡ true
    → (restore_one now b c).sent
      ≡ (if asks now b c then c.sent ++ request_frame b.variable_name ∷ [] else c.sent)
unfolding restore_one is_due
restore_one-asks now b c h =
    ground (arith, model_has_lem c b.variable_name, request_plot-sent b.variable_name c h)

-- The names that a round asks for: those that are due and were not asked for, each once.
record Asked (now : ℤ) (bs : List PreviousBuffer) (c : IpcClient) (names : List Str) : Type 0 where
  frames : (restore_all now bs c).sent ≡ c.sent ++ map request_frame names
  once : AllDifferent names
  which :
      (name : Str)
      → contains names name ≡ (is_due_name now c bs name && not (contains c.restore_requested name))

module _ (now : ℤ) (b : PreviousBuffer) (rest : List PreviousBuffer) (c : IpcClient)
    (live : c.connected ≡ true) (names : List Str)
    (later : Asked now rest (restore_one now b c) names) where
  later_which :
      (name : Str)
      → contains names name ≡ (
          is_due_name now c rest name
          && not (
              contains c.restore_requested name || (is_due now c b && str_eq b.variable_name name)))
  later_which name =
      later.which name
      ∙ rw (restore_one-contains now b c name, is_due_name-restore_one now rest b c name) refl

  Asked-one : asks now b c ≡ true → Asked now (b ∷ rest) c (b.variable_name ∷ names)
  unfolding restore_all is_due_name contains
  Asked-one h = record {
    frames =
        later.frames
        ∙ (ap (λ s. s ++ map request_frame names) (restore_one-asks now b c live ∙ rw h refl)
            ∙ append_assoc c.sent (request_frame b.variable_name ∷ []) (map request_frame names));
    once = (ground (arith, later_which b.variable_name, str_eq_refl b.variable_name), later.once);
    which = λ name.
        ground (arith, later_which name, contains_same c.restore_requested b.variable_name name);
  }

  Asked-none : asks now b c ≡ false → Asked now (b ∷ rest) c names
  unfolding restore_all is_due_name contains
  Asked-none h = record {
    frames =
        later.frames
        ∙ ap (λ s. s ++ map request_frame names) (restore_one-asks now b c live ∙ rw h refl);
    once = later.once;
    which = λ name.
        ground (arith, later_which name, contains_same c.restore_requested b.variable_name name);
  }

restore_all-Asked :
    (now : ℤ) (bs : List PreviousBuffer) (c : IpcClient)
    → c.connected ≡ true
    → (names : List Str) × Asked now bs c names
unfolding restore_all is_due_name contains
restore_all-Asked now [] c h =
    ([], record { frames = sym (append-nil c.sent); once = tt; which = λ name. refl })
restore_all-Asked now (b ∷ rest) c h =
    let (model, available, connected) = restore_one-fields now b c in
    let (names, later) = restore_all-Asked now rest (restore_one now b c) (connected ∙ h) in
    elim (Bool-cases (asks now b c)) [
      | inl asked ↦ (b.variable_name ∷ names, Asked-one now b rest c h names later asked)
      | inr left ↦ (names, Asked-none now b rest c h names later left)
    ]

-- On a live connection, the round over the buffers to restore sends one request to plot for each
-- name of a buffer that has not expired, is available and is not in the model, unless it was asked
-- for before, and nothing else; and what counts as asked for behind it is what did before, and
-- those names.
pub restore_all-sent :
    (now : ℤ) (bs : List PreviousBuffer) (c : IpcClient)
    → c.connected ≡ true
    → (names : List Str) × ((restore_all now bs c).sent ≡ c.sent ++ map request_frame names)
      × AllDifferent names
      × ((name : Str)
          → contains names name
            ≡ (is_due_name now c bs name && not (contains c.restore_requested name)))
      × ((name : Str)
          → contains (restore_all now bs c).restore_requested name
            ≡ (contains c.restore_requested name || is_due_name now c bs name))
restore_all-sent now bs c h =
    let (names, a) = restore_all-Asked now bs c h in
    (names, a.frames, a.once, a.which, restore_all-contains now bs c)
