-- ===== src/Host/StageManager.antt =====
-- src/host/ui/stage_manager.{h,cpp}: the stages that draw the buffers. A stage is a parameter, and the
-- model is the list of its records with their revisions, in order.
pub mod Synced
use open_image_debugger.Prelude.{
  ℕ, Bool, false, ◌||◌, Option, none, some, List, [], ◌∷◌, ◌++◌, ◌==◌, get_elem?, if◌then◌else◌,
  Str, str_eq, Dict, find, assign,
}
use open_image_debugger.Host.BufferModel.{BufferRecord}

-- What the manager uses of a stage: `initialize` is none where it returns false.
pub record Stages (S : Type 0) : Type 0 where
  pub initialize : BufferRecord → Option S
  pub buffer_update : BufferRecord → S → Bool × S

pub record Entry (S : Type 0) : Type 0 where
  pub stage : S
  pub revision : ℕ

-- What is written to `std::cerr`.
pub data StageError : Type 0 where
  not_initialized not_updated : Str → StageError

pub record StageManager (S : Type 0) : Type 0 where
  pub by_name : Dict (Entry S)
  pub log : List StageError

abbrev pub Slot : Type 0
Slot = BufferRecord × ℕ

unfoldable pub contains_name : List Slot → Str → Bool
contains_name [] name = false
contains_name ((r, rev) ∷ rest) name = str_eq r.variable_name name || contains_name rest name

module _ {S : Type 0} (stages : Stages S) where
  unfoldable pub add_stage : BufferRecord → ℕ → Option S → StageManager S → StageManager S
  add_stage r rev none m = record m { log = m.log ++ not_initialized r.variable_name ∷ [] }
  add_stage r rev (some s) m = record m {
    by_name = assign r.variable_name (record { stage = s; revision = rev }) m.by_name;
  }

  unfoldable pub refresh_stage : BufferRecord → ℕ → Bool × S → StageManager S → StageManager S
  refresh_stage r rev (updated, s) m = record {
    by_name = assign r.variable_name (record { stage = s; revision = rev }) m.by_name;
    log = if updated then m.log else m.log ++ not_updated r.variable_name ∷ [];
  }

  unfoldable pub sync_found : BufferRecord → ℕ → Option (Entry S) → StageManager S → StageManager S
  sync_found r rev none m = add_stage r rev (stages.initialize r) m
  sync_found r rev (some e) m =
      if e.revision == rev then m else refresh_stage r rev (stages.buffer_update r e.stage) m

  -- One round of the loop over the model.
  unfoldable pub sync_one : Slot → StageManager S → StageManager S
  sync_one (r, rev) m = sync_found r rev (find r.variable_name m.by_name) m

  unfoldable pub sync_all : List Slot → StageManager S → StageManager S
  sync_all [] m = m
  sync_all (slot ∷ rest) m = sync_all rest (sync_one slot m)

  -- `std::erase_if` of the names that the model has not.
  unfoldable pub retain : List Slot → Dict (Entry S) → Dict (Entry S)
  retain live [] = []
  retain live ((name, e) ∷ entries) =
      let rest = retain live entries in if contains_name live name then (name, e) ∷ rest else rest

  unfoldable pub sync : List Slot → StageManager S → StageManager S
  sync slots m = let all = sync_all slots m in record all { by_name = retain slots all.by_name }

  -- The stage of a slot after a sync, if it has one.
  unfoldable pub stage_for : List Slot → ℕ → StageManager S → Option S × StageManager S
  stage_for slots i m =
      let synced = sync slots m in
      elim (get_elem? slots i) [
        | none ↦ (none, synced)
        | some slot ↦ elim (find slot.0.variable_name synced.by_name) [
          | none ↦ (none, synced)
          | some e ↦ (some e.stage, synced)
        ]
      ]
