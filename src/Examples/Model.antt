-- ===== src/Examples/Model.antt =====
-- The theorems on src/host/ui/ipc_buffer_model.cpp at a model with one buffer.
use open_image_debugger.Prelude.{◌≡◌, refl, some, none, if◌then◌else◌, str_eq, codes, arith}
use open_image_debugger.Host.BufferModel.{BufferRecord, make_buffer_record}
use open_image_debugger.Host.IpcBufferModel.{IpcBufferModel, init, upsert, remove}
use open_image_debugger.Host.IpcBufferModel.Laws.{
  IsWellFormed, lookup, lookup-upsert, upsert-IsWellFormed, lookup-remove,
}
use open_image_debugger.Examples.{narrowing, contents}

abbrev stored : BufferRecord
stored = make_buffer_record narrowing contents

abbrev one_buffer : IpcBufferModel
one_buffer = upsert init stored

init-IsWellFormed : IsWellFormed init
init-IsWellFormed = record { parallel = refl; distinct = tt; below = tt }

one_buffer-IsWellFormed : IsWellFormed one_buffer
one_buffer-IsWellFormed = upsert-IsWellFormed init stored (omega arith) init-IsWellFormed

lookup-upsert_example : lookup (upsert one_buffer stored) (codes "img") ≡ (
    if str_eq stored.variable_name (codes "img")
    then some stored
    else lookup one_buffer (codes "img"))
lookup-upsert_example = lookup-upsert one_buffer stored (codes "img")

upsert-IsWellFormed_example : IsWellFormed (upsert init stored)
upsert-IsWellFormed_example = upsert-IsWellFormed init stored (omega arith) init-IsWellFormed

lookup-remove_example :
    lookup (remove one_buffer (codes "img")) (codes "img")
    ≡ (if str_eq (codes "img") (codes "img") then none else lookup one_buffer (codes "img"))
lookup-remove_example = lookup-remove one_buffer (codes "img") (codes "img") one_buffer-IsWellFormed
