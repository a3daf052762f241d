-- ===== src/Examples/Viewer.antt =====
-- The theorems on the smaller parts of src/host at small inputs.
use open_image_debugger.Prelude.{
  ◌<◌, ◌-◌, ◌%◌, ◌^◌, ltb, negsuc, ℤ, ap, subst, map, false, ℕ, ◌≡◌, refl, true, Option, none, some,
  List, [], ◌∷◌, ◌++◌, if◌then◌else◌, length, pos, ◌+ℤ◌, ◌≤ℤ◌, Str, codes, find, arith,
}
use open_image_debugger.Host.BufferModel.{BufferRecord, make_buffer_record, is_valid_pixel_layout}
use open_image_debugger.Host.IpcClient.{PreviousBuffer, contains}
use open_image_debugger.Host.LogPreview.{log_preview}
use open_image_debugger.Host.LogPreview.Plain.{holds_control, holds_control-log_preview}
use open_image_debugger.Host.SessionBuffers.{
  merge_previous_buffers, expiry_of, live_expiry_of, expiry_of-merge_previous_buffers,
}
use open_image_debugger.Host.FileOpenQueue.{
  Expected, value, error, push_all, drain, put_all, records_of, messages_of, last_of,
  drain-push_all,
}
use open_image_debugger.Host.SymbolFilter.{filter_symbols, symbol_completion_nav}
use open_image_debugger.Host.SymbolFilter.Sorted.{
  IsSorted, alike, occurring, filter_symbols-IsSorted, symbol_completion_nav-bounds,
}
use open_image_debugger.Host.Agent.Values.{IsI64}
use open_image_debugger.Host.Agent.WireFrame.{
  Json, PayloadField, absent, integer, encoded, be_length, encode_frame, prefixed, hinted, decoded,
  decode_frame,
}
use open_image_debugger.Host.Agent.WireFrame.RoundTrip.{JsonLaws, decode_frame-encode_frame}
use open_image_debugger.Host.UiState.{UiState, has_selection}
use open_image_debugger.Host.IpcBufferModel.{IpcBufferModel, init, size}
use open_image_debugger.Host.StageManager.{Stages, StageManager, contains_name, sync}
use open_image_debugger.Host.StageManager.Synced.{after, find-sync}
use open_image_debugger.Examples.Sorting.{stable_sort, stable_sort-StableSort}
use open_image_debugger.Examples.{narrowing, contents}

-- A name with a line break and an 8-bit control.
abbrev hostile : Str
hostile = b'a' ∷ 10 ∷ 194 ∷ 155 ∷ b'z' ∷ []

holds_control-log_preview_example : holds_control (log_preview hostile 4) ≡ false
holds_control-log_preview_example = holds_control-log_preview hostile 4

abbrev prior : List PreviousBuffer
prior = record { variable_name = codes "old"; expiry_epoch_s = pos 150 } ∷ []

expiry_of-merge_previous_buffers_example :
    expiry_of (merge_previous_buffers prior (codes "img" ∷ []) [] (pos 100) (pos 60)) (codes "old")
    ≡ (if contains (codes "img" ∷ []) (codes "old")
        then some (pos 100 +ℤ pos 60)
        else if contains [] (codes "old")
        then none
        else live_expiry_of (pos 100) prior (codes "old"))
expiry_of-merge_previous_buffers_example =
    expiry_of-merge_previous_buffers prior (codes "img" ∷ []) [] (pos 100) (pos 60) (codes "old")

abbrev load : Str → Expected
load [] = error (codes "no path")
load (c ∷ rest) = value (make_buffer_record narrowing contents)

abbrev keep : BufferRecord → List BufferRecord → List BufferRecord
keep r rs = r ∷ rs

abbrev opening : List Str
opening = (codes "a.png" ∷ []) ++ ([] ∷ [])

drain-push_all_example : drain load keep (push_all ([] ∷ []) (codes "a.png" ∷ [])) [] ≡ record {
  pending = [];
  outcome = record {
    succeeded = length (records_of load opening);
    failed = length (messages_of load opening);
    last_error = last_of [] (messages_of load opening);
    last_success = last_of [] (map (λ r. r.display_name) (records_of load opening));
  };
  sink = put_all keep (records_of load opening) [];
}
drain-push_all_example = drain-push_all load keep ([] ∷ []) (codes "a.png" ∷ []) []

abbrev names : List Str
names = codes "mask" ∷ codes "Image" ∷ codes "image" ∷ []

filter_symbols-IsSorted_example :
    IsSorted (filter_symbols stable_sort names (codes "MA"))
    × (alike (codes "IMAGE") (filter_symbols stable_sort names (codes "MA"))
        ≡ alike (codes "IMAGE") (occurring (codes "MA") names))
filter_symbols-IsSorted_example =
    filter_symbols-IsSorted stable_sort stable_sort-StableSort names (codes "MA") (codes "IMAGE")

symbol_completion_nav-bounds_example :
    (pos 0 ≤ℤ symbol_completion_nav (pos 2) (pos 3) false true)
    × (symbol_completion_nav (pos 2) (pos 3) false true ≤ℤ pos 2)
symbol_completion_nav-bounds_example = symbol_completion_nav-bounds (pos 2) 2 false true

-- A JSON library whose objects hold a length hint and nothing else.
abbrev parse_hint : Str → Option (Option ℕ)
parse_hint [] = some none
parse_hint (n ∷ []) = some (some n)
parse_hint (n ∷ m ∷ rest) = none

abbrev dump_hint : Option ℕ → Str
dump_hint none = []
dump_hint (some n) = n ∷ []

-- The lower 64 bits as a signed integer.
abbrev signed : ℕ → ℤ
signed n = if ltb (n % 2 ^ 64) (2 ^ 63) then pos (n % 2 ^ 64) else negsuc (2 ^ 64 - 1 - n % 2 ^ 64)

signed-IsI64 : (n : ℕ) → IsI64 (signed n)
signed-IsI64 n = ground arith

signed-pos : (n : ℕ) → n < 2 ^ 63 → signed n ≡ pos n
signed-pos n h =
    let low : n % 2 ^ 64 ≡ n = omega arith in
    let small : ltb n (2 ^ 63) ≡ true = ground arith in rw low (rw small refl)

abbrev hint_field : Option ℕ → PayloadField
hint_field none = absent
hint_field (some n) = integer (signed n)

integer_inj : {m n : ℤ} → integer m ≡ integer n → m ≡ n
integer_inj h = cc

hint_field-IsI64 : (v : Option ℕ) (n : ℤ) → hint_field v ≡ integer n → IsI64 n
hint_field-IsI64 none n h = cc
hint_field-IsI64 (some m) n h = subst IsI64 (integer_inj h) (signed-IsI64 m)

abbrev hints : Json (Option ℕ)
hints = record {
  dump = dump_hint;
  parse = parse_hint;
  is_object = λ v. true;
  payload_field = hint_field;
  with_payload = λ n v. some n;
  payload_field-IsI64 = hint_field-IsI64;
}

parse_hint-dump_hint : (v : Option ℕ) → parse_hint (dump_hint v) ≡ some v
parse_hint-dump_hint none = refl
parse_hint-dump_hint (some n) = refl

hints-JsonLaws : JsonLaws hints
hints-JsonLaws = record {
  is_object-with_payload = λ n v o. refl;
  payload_field-with_payload = λ n v h o. ap integer (signed-pos n h);
}

abbrev two_bytes : List ℕ
two_bytes = 7 ∷ 8 ∷ []

encoded_two : encode_frame hints none two_bytes ≡ encoded (0 ∷ 0 ∷ 0 ∷ 1 ∷ 2 ∷ 7 ∷ 8 ∷ [])
unfolding encode_frame prefixed hinted be_length
encoded_two = refl

decode_frame-encode_frame_example :
    decode_frame hints ((0 ∷ 0 ∷ 0 ∷ 1 ∷ 2 ∷ 7 ∷ 8 ∷ []) ++ (9 ∷ [])) (some 2)
    ≡ decoded (hinted hints none (length two_bytes)) two_bytes (9 ∷ [])
decode_frame-encode_frame_example =
    decode_frame-encode_frame hints hints-JsonLaws none two_bytes (9 ∷ [])
      (0 ∷ 0 ∷ 0 ∷ 1 ∷ 2 ∷ 7 ∷ 8 ∷ []) (some 2) refl refl (parse_hint-dump_hint _) (omega arith)
      refl encoded_two

abbrev corrupt : BufferRecord
corrupt = record (make_buffer_record narrowing contents) { pixel_layout = []; channels = pos 3 }

isolated_valid : is_valid_pixel_layout (codes "rrra") ≡ true
unfolding is_valid_pixel_layout
isolated_valid = refl

abbrev ui : UiState
ui = record {
  selection = 5;
  query = [];
  available_symbols = [];
  contrast = false;
  link_views = false;
  ac_editor_visible = false;
  status_message = [];
}

abbrev one_buffer : IpcBufferModel
one_buffer = record init { storage = make_buffer_record narrowing contents ∷ [] }

one_selected : has_selection one_buffer ≡ true
unfolding has_selection size
one_selected = refl

-- A stage is the number of bytes that it draws.
abbrev byte_counts : Stages ℕ
byte_counts = record {
  initialize = λ r. some (length r.bytes);
  buffer_update = λ r n. (true, length r.bytes);
}

abbrev replotted : BufferRecord
replotted = make_buffer_record narrowing contents

abbrev before_replot : StageManager ℕ
before_replot = record {
  by_name =
      (codes "gone", record { stage = 7; revision = 1 })
      ∷ (replotted.variable_name, record { stage = 0; revision = 1 })
      ∷ [];
  log = [];
}

find-sync_example :
    find replotted.variable_name (sync byte_counts ((replotted, 2) ∷ []) before_replot).by_name ≡ (
      if contains_name ((replotted, 2) ∷ []) replotted.variable_name
      then after byte_counts replotted.variable_name
          ((replotted, 2) ∷ [])
          (find replotted.variable_name before_replot.by_name)
      else none)
find-sync_example =
    find-sync byte_counts ((replotted, 2) ∷ []) before_replot replotted.variable_name
