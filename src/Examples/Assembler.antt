-- ===== src/Examples/Assembler.antt =====
-- The theorems on src/ipc/buffer_assembler.cpp at a small transfer.
use open_image_debugger.Prelude.{◌≡◌, refl, none, some, [], ◌∷◌, find, erase, if◌then◌else◌, arith}
use open_image_debugger.Ipc.BufferAssembler.{fresh_entry, end, write_strip}
use open_image_debugger.Ipc.BufferAssembler.Invariant.{
  AllSound, begins, perform, perform-AllSound, fresh_entry-IsSound, fits, received, write_strip_lem,
}
use open_image_debugger.Ipc.BufferAssembler.Delivery.{
  covered, delivered, transferred, end-transferred, end-transferred_partial,
}
use open_image_debugger.Examples.{
  memory, image, payload, strips, image_accepted, image_stride, every_row,
}

pub empty-AllSound : AllSound []
empty-AllSound = record { at = λ k e h. absurd (unfold find in cc) }

end-transferred_example :
    end (transferred memory.allocates [] image payload strips) image.variable_name ≡ (
      erase image.variable_name (transferred memory.allocates [] image payload strips),
      some (delivered image payload),
    )
end-transferred_example =
    end-transferred memory.allocates [] image payload strips image_stride image_accepted refl refl
      (omega arith, (omega arith, tt)) every_row

end-transferred_partial_example :
    end (transferred memory.allocates [] image payload ((1, 1) ∷ [])) image.variable_name ≡ (
      erase image.variable_name (transferred memory.allocates [] image payload ((1, 1) ∷ [])),
      none,
    )
end-transferred_partial_example =
    end-transferred_partial memory.allocates [] image payload ((1, 1) ∷ []) image_stride
      image_accepted refl refl (omega arith, tt) 0 (omega arith) (unfold covered in refl)

perform-AllSound_example : AllSound (perform memory.allocates [] (begins image))
perform-AllSound_example =
    perform-AllSound memory.allocates [] (begins image) image_stride empty-AllSound

write_strip_lem_example : write_strip (fresh_entry image) 1 1 (3 ∷ 4 ∷ 0 ∷ []) ≡ (
    if fits (fresh_entry image) 1 1 (3 ∷ 4 ∷ 0 ∷ [])
    then some (received (fresh_entry image) 1 1 (3 ∷ 4 ∷ 0 ∷ []))
    else none)
write_strip_lem_example =
    write_strip_lem image.variable_name (fresh_entry image) 1 1 (3 ∷ 4 ∷ 0 ∷ [])
      (fresh_entry-IsSound image image_stride image_accepted)
