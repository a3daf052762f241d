-- ===== src/Host/IpcBufferModel.antt =====
-- src/host/ui/ipc_buffer_model.{h,cpp}: the buffers that the viewer lists, with their revisions.
-- `std::uint64_t` counters wrap.
pub mod Slots
pub mod Laws
use open_image_debugger.Prelude.{
  ℕ, suc, ◌≡◌, Bool, true, false, Option, none, some, List, [], ◌∷◌, ◌++◌, if◌then◌else◌, length,
  get_elem?, set, erase_at, Str, str_eq, add64,
}
use open_image_debugger.Host.BufferModel.{BufferRecord}

pub record IpcBufferModel : Type 0 where
  pub storage : List BufferRecord
  pub slot_revision : List ℕ
  pub revision : ℕ
  pub next_slot_rev : ℕ

abbrev pub init : IpcBufferModel
init = record { storage = []; slot_revision = []; revision = 0; next_slot_rev = 1 }

-- The loops over the slots for a name: the first match.
unfoldable pub index_of : Str → List BufferRecord → Option ℕ
index_of name [] = none
index_of name (r ∷ rs) =
    let rest = index_of name rs in
    if str_eq r.variable_name name
    then some 0
    else (elim rest [ none ↦ none | some i ↦ some (suc i) ])

unfoldable pub size : IpcBufferModel → ℕ
size m = length m.storage

-- `at`, `variable_name_of` and `revision_of` throw out of range: `none`.
unfoldable pub at : IpcBufferModel → ℕ → Option BufferRecord
at m i = get_elem? m.storage i

unfoldable pub revision_of : IpcBufferModel → ℕ → Option ℕ
revision_of m i = get_elem? m.slot_revision i

unfoldable pub upsert : IpcBufferModel → BufferRecord → IpcBufferModel
upsert m r = elim (index_of r.variable_name m.storage) [
  | some i ↦ record {
    storage = set m.storage i r;
    slot_revision = set m.slot_revision i m.next_slot_rev;
    revision = add64 m.revision 1;
    next_slot_rev = add64 m.next_slot_rev 1;
  }
  | none ↦ record {
    storage = m.storage ++ r ∷ [];
    slot_revision = m.slot_revision ++ m.next_slot_rev ∷ [];
    revision = add64 m.revision 1;
    next_slot_rev = add64 m.next_slot_rev 1;
  }
]

unfoldable pub remove : IpcBufferModel → Str → IpcBufferModel
remove m name = elim (index_of name m.storage) [
  | some i ↦ record m {
    storage = erase_at m.storage i;
    slot_revision = erase_at m.slot_revision i;
    revision = add64 m.revision 1;
  }
  | none ↦ m
]

unfoldable pub variable_name_of : IpcBufferModel → ℕ → Option Str
variable_name_of m i = elim (get_elem? m.storage i) [ none ↦ none | some r ↦ some r.variable_name ]
