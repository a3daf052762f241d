-- ===== src/Host/UiState.antt =====
-- src/host/ui/ui_state.{h,cpp}: the selection, the query and the switches of the viewer, over the model;
-- not the filtered list of buffers.
use open_image_debugger.Prelude.{
  ℕ, ◌-◌, ◌<◌, ◌≡◌, Bool, true, Option, List, ltb, ◌==◌, if◌then◌else◌, Str, arith,
}
use open_image_debugger.Host.SymbolFilter.{filter_symbols}
use open_image_debugger.Host.IpcBufferModel.{IpcBufferModel, index_of, size}

pub record UiState : Type 0 where
  pub selection : ℕ
  pub query : Str
  pub available_symbols : List Str
  pub contrast : Bool
  pub link_views : Bool
  pub ac_editor_visible : Bool
  pub status_message : Str

unfoldable pub selected : IpcBufferModel → UiState → ℕ
selected m st =
    if size m == 0 then 0 else if ltb st.selection (size m) then st.selection else size m - 1

unfoldable pub select : ℕ → UiState → UiState
select i st = record st { selection = i }

unfoldable pub has_selection : IpcBufferModel → Bool
has_selection m = ltb 0 (size m)

unfoldable pub set_query : Str → UiState → UiState
set_query q st = record st { query = q }

unfoldable pub set_available_symbols : List Str → UiState → UiState
set_available_symbols symbols st = record st { available_symbols = symbols }

unfoldable pub filtered_symbols :
    (sort_by : (Str → Str → Bool) → List Str → List Str) → UiState → List Str
filtered_symbols sort_by st = filter_symbols sort_by st.available_symbols st.query

unfoldable pub model_index_of : IpcBufferModel → Str → Option ℕ
model_index_of m variable_name = index_of variable_name m.storage

unfoldable pub set_contrast_enabled : Bool → UiState → UiState
set_contrast_enabled enabled st = record st { contrast = enabled }

unfoldable pub set_link_views : Bool → UiState → UiState
set_link_views enabled st = record st { link_views = enabled }

unfoldable pub set_ac_editor_visible : Bool → UiState → UiState
set_ac_editor_visible visible st = record st { ac_editor_visible = visible }

unfoldable pub set_status_message : Str → UiState → UiState
set_status_message msg st = record st { status_message = msg }

-- Where the model has a buffer, the selection is the index of one, whatever was selected, and it
-- is what was selected where that is in range.
pub selected-lt :
    (m : IpcBufferModel) (i : ℕ) (st : UiState)
    → has_selection m ≡ true
    → (selected m (select i st) < size m) × (i < size m → selected m (select i st) ≡ i)
unfolding selected select has_selection
selected-lt m i st h = (ground arith, λ k. ground arith)
