-- ===== src/Host/IpcBufferModel/Laws.antt =====
-- The model as a map from names to records and revisions.
use open_image_debugger.Prelude.{
  ℕ, suc, ◌+◌, ◌^◌, ◌<◌, ◌≡◌, ◌≢◌, inl, inr, Option, none, some, if◌then◌else◌, length, Str, str_eq,
  add64, arith, Option-cases,
}
use open_image_debugger.Host.BufferModel.{BufferRecord}
use open_image_debugger.Host.IpcBufferModel.{IpcBufferModel, index_of, upsert, remove}
use open_image_debugger.Host.IpcBufferModel.Slots.{
  record_of, stamp_of, put_record, put_stamp, Distinct, AllBelow, record_of-put, stamp_of-put,
  record_of-drop, put-Distinct, drop-Distinct, put-AllBelow, drop-AllBelow, length-put,
  length-drop_slot,
}

abbrev pub lookup : IpcBufferModel → Str → Option BufferRecord
lookup m name = record_of name m.storage

abbrev pub stamp : IpcBufferModel → Str → Option ℕ
stamp m name = stamp_of name m.storage m.slot_revision

pub record IsWellFormed (m : IpcBufferModel) : Type 0 where
  pub parallel : length m.storage ≡ length m.slot_revision
  pub distinct : Distinct m.storage
  pub below : AllBelow m.next_slot_rev m.slot_revision

-- The loops of `upsert` and `remove`, with the search's answer for an argument.
abbrev put : IpcBufferModel → BufferRecord → Option ℕ → IpcBufferModel
put m r o = record {
  storage = put_record o m.storage r;
  slot_revision = put_stamp o m.slot_revision m.next_slot_rev;
  revision = add64 m.revision 1;
  next_slot_rev = add64 m.next_slot_rev 1;
}

upsert-put :
    (m : IpcBufferModel) (r : BufferRecord)
    → upsert m r ≡ put m r (index_of r.variable_name m.storage)
unfolding upsert
upsert-put m r = elim (Option-cases (index_of r.variable_name m.storage)) [
  | inl absent ↦ rw (absent, upsert)
  | inr (i, there) ↦ rw (there, upsert)
]

-- upsert binds the name of the record to the record, and leaves every other name bound as it was.
pub lookup-upsert :
    (m : IpcBufferModel) (r : BufferRecord) (j : Str)
    → lookup (upsert m r) j ≡ (if str_eq r.variable_name j then some r else lookup m j)
lookup-upsert m r j = rw upsert-put (record_of-put m.storage r j)

-- In a well-formed model, upsert gives the slot of the name the next revision, and leaves the
-- revision of every other name as it was.
pub stamp-upsert :
    (m : IpcBufferModel) (r : BufferRecord) (j : Str)
    → IsWellFormed m
    → stamp (upsert m r) j ≡ (if str_eq r.variable_name j then some m.next_slot_rev else stamp m j)
stamp-upsert m r j v =
    rw upsert-put (stamp_of-put m.storage m.slot_revision r m.next_slot_rev j v.parallel)

-- If the next slot revision does not wrap, upsert keeps a model well-formed: as many revisions as
-- records, no name twice, and every revision below the next one.
pub upsert-IsWellFormed :
    (m : IpcBufferModel) (r : BufferRecord)
    → m.next_slot_rev + 1 < 2 ^ 64
    → IsWellFormed m
    → IsWellFormed (upsert m r)
unfolding add64
upsert-IsWellFormed m r room v =
    let o = index_of r.variable_name m.storage in
    let next : add64 m.next_slot_rev 1 ≡ suc m.next_slot_rev = omega arith in
    rw upsert-put (record {
      parallel = length-put o m.storage m.slot_revision r m.next_slot_rev v.parallel;
      distinct = put-Distinct m.storage r v.distinct;
      below = rw next (put-AllBelow o m.next_slot_rev m.slot_revision v.below);
    })

-- In a model whose revision is a 64-bit word, upsert changes the revision, also where the counter
-- wraps.
pub revision-upsert :
    (m : IpcBufferModel) (r : BufferRecord)
    → m.revision < 2 ^ 64
    → (upsert m r).revision ≢ m.revision
unfolding add64
revision-upsert m r h = rw upsert-put (omega arith)

-- In a well-formed model, remove unbinds the name, and leaves every other name bound as it was.
pub lookup-remove :
    (m : IpcBufferModel) (name j : Str)
    → IsWellFormed m
    → lookup (remove m name) j ≡ (if str_eq name j then none else lookup m j)
unfolding remove
lookup-remove m name j v = elim (Option-cases (index_of name m.storage)) [
  | inl absent ↦ rw (absent, remove) (rw absent at (record_of-drop m.storage name j v.distinct))
  | inr (i, there) ↦ rw (there, remove) (rw there at (record_of-drop m.storage name j v.distinct))
]

-- remove keeps a model well-formed.
pub remove-IsWellFormed :
    (m : IpcBufferModel) (name : Str) → IsWellFormed m → IsWellFormed (remove m name)
unfolding remove
remove-IsWellFormed m name v = elim (Option-cases (index_of name m.storage)) [
  | inl absent ↦ rw (absent, remove) v
  | inr (i, there) ↦
      rw (there, remove)
        (record {
          parallel = length-drop_slot (some i) m.storage m.slot_revision v.parallel;
          distinct = rw there at (drop-Distinct m.storage name v.distinct);
          below = drop-AllBelow (some i) m.next_slot_rev m.slot_revision v.below;
        })
]
