-- ===== src/Io/NpyExport/Rows.antt =====
-- The rows that src/io/buffer_export_core.cpp writes.
use open_image_debugger.Prelude.{
  ℕ, zero, suc, ◌+◌, ◌*◌, ◌≤◌, ◌<◌, ◌≡◌, refl, false, List, [], ◌++◌, length, take, drop,
  length-append, length-take, length-drop, ltb, arith, mul64_exact, word_mod,
}
use open_image_debugger.Io.NpyExport.{written, write_rows, append_row}

-- The bytes of the rows from `y` on, without the padding between them.
abbrev pub packed_rows : (bytes : List ℕ) → (row_bytes row_stride y left : ℕ) → List ℕ
packed_rows bytes row_bytes row_stride y zero = []
packed_rows bytes row_bytes row_stride y (suc left) =
    take row_bytes (drop (y * row_stride) bytes)
    ++ packed_rows bytes row_bytes row_stride (suc y) left

-- Every row lies inside the bytes, at an offset that is a 64-bit word.
abbrev pub RowsFit : (size row_bytes row_stride rows : ℕ) → Type 0
RowsFit size row_bytes row_stride rows =
    (y : ℕ) → y < rows → (y * row_stride + row_bytes ≤ size) × (y * row_stride < word_mod)

pub write_rows-packed_rows :
    (bytes : List ℕ) (row_bytes row_stride y left : ℕ)
    → RowsFit (length bytes) row_bytes row_stride (y + left)
    → write_rows bytes row_bytes row_stride y left
      ≡ written (packed_rows bytes row_bytes row_stride y left)
unfolding write_rows append_row
write_rows-packed_rows bytes row_bytes row_stride y zero fit = refl
write_rows-packed_rows bytes row_bytes row_stride y (suc left) fit =
    let (inside, word) = fit y (omega arith) in
    let enough : ltb (length bytes) (y * row_stride + row_bytes) ≡ false = ground (arith, inside) in
    rw
      (
        mul64_exact y row_stride word,
        enough,
        write_rows-packed_rows bytes row_bytes row_stride (suc y) left (λ x h. fit x (omega arith)),
      )
      refl

pub length-packed_rows :
    (bytes : List ℕ) (row_bytes row_stride y left : ℕ)
    → RowsFit (length bytes) row_bytes row_stride (y + left)
    → length (packed_rows bytes row_bytes row_stride y left) ≡ left * row_bytes
length-packed_rows bytes row_bytes row_stride y zero fit = omega arith
length-packed_rows bytes row_bytes row_stride y (suc left) fit =
    let (inside, word) = fit y (omega arith) in
    omega (
      arith,
      length-append (take row_bytes (drop (y * row_stride) bytes))
          (packed_rows bytes row_bytes row_stride (suc y) left),
      length-take row_bytes (drop (y * row_stride) bytes),
      length-drop (y * row_stride) bytes,
      length-packed_rows bytes row_bytes row_stride (suc y) left (λ x h. fit x (omega arith)),
    )
