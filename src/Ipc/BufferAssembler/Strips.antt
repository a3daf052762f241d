-- ===== src/Ipc/BufferAssembler/Strips.antt =====
-- The strips of one payload, and what a transfer has received of it (src/ipc/buffer_assembler.cpp).
use open_image_debugger.Prelude.{
  ℕ, ◌+◌, ◌-◌, ◌*◌, ◌/◌, ◌%◌, ◌≤◌, ◌<◌, ◌≡◌, ◌∙◌, sym, ◌⊎◌, inl, inr, Bool, true, false, ◌&&◌, ◌||◌,
  some, List, ltb, leb, pos_part, to_u64, length, get_elem?, take, drop, replicate, write_at,
  all_true, length-replicate, length-take, length-drop, get_elem?-drop, get_elem?-take,
  get_elem?-replicate, get_elem?-write_at_inside, get_elem?-write_at_before,
  get_elem?-write_at_after, list_ext, all_true_intro, all_true-get_elem?, Str, arith, grid_split,
  ap, cell_lt, mul_mono, Bool-cases,
}
use open_image_debugger.Ipc.BufferAssembler.{BeginParams, InProgress, fresh_entry}
use open_image_debugger.Ipc.BufferAssembler.Invariant.{
  row_bytes, HasGeometry, IsSound, geometry, received,
}

-- The rows `row_offset` to `row_offset + row_count` of a payload.
unfoldable pub strip : (payload : List ℕ) → (row_size row_offset row_count : ℕ) → List ℕ
strip payload rb ro rc = take (rc * rb) (drop (ro * rb) payload)

pub length-strip :
    (payload : List ℕ) (h rb ro rc : ℕ)
    → length payload ≡ h * rb
    → ro + rc ≤ h
    → length (strip payload rb ro rc) ≡ rc * rb
unfolding strip
length-strip payload h rb ro rc e inside =
    let room : (ro + rc) * rb ≤ h * rb = mul_mono (ro + rc) h rb rb inside (omega arith) in
    rw (length-take, length-drop, e) (omega arith)

-- The element at an offset `d` into a strip is the one of the payload.
get_elem?-strip :
    (payload : List ℕ) (rb ro rc d : ℕ)
    → d < rc * rb
    → get_elem? (strip payload rb ro rc) d ≡ get_elem? payload (ro * rb + d)
unfolding strip
get_elem?-strip payload rb ro rc d h =
    get_elem?-take (rc * rb) (drop (ro * rb) payload) d h ∙ get_elem?-drop (ro * rb) payload d

abbrev pub in_strip : (row_offset row_count i : ℕ) → Bool
in_strip ro rc i = leb ro i && ltb i (ro + rc)

row_cases :
    (ro rc i : ℕ)
    → ((i < ro) × (in_strip ro rc i ≡ false))
      ⊎ ((ro + rc ≤ i) × (in_strip ro rc i ≡ false))
      ⊎ ((d : ℕ) × (i ≡ ro + d) × (d < rc) × (in_strip ro rc i ≡ true))
row_cases ro rc i = elim (Bool-cases (leb ro i)) [
  | inr before ↦ inl (ground arith, ground arith)
  | inl from ↦ elim (Bool-cases (ltb i (ro + rc))) [
    | inr after ↦ inr (inl (ground arith, ground arith))
    | inl to ↦ inr (inr (i - ro, ground arith, ground arith, ground arith))
  ]
]

-- The entry's flags are `cov`, and the rows that are flagged are those of the payload.
pub record Tracks (payload : List ℕ) (cov : ℕ → Bool) (e : InProgress) : Type 0 where
  pub flags : (i : ℕ) → i < pos_part e.params.height → get_elem? e.rows_received i ≡ some (cov i)
  pub rows :
      (i k : ℕ)
      → i < pos_part e.params.height
      → k < row_bytes e.params
      → cov i ≡ true
      → get_elem? e.bytes (i * row_bytes e.params + k)
        ≡ get_elem? payload (i * row_bytes e.params + k)

module _ (name : Str) (payload : List ℕ) (cov : ℕ → Bool) (e : InProgress) (ro rc : ℕ)
    (v : IsSound name e) (whole : length payload ≡ e.params.total_byte_size)
    (inside : ro + rc ≤ pos_part e.params.height) (t : Tracks payload cov e) where
  abbrev rb : ℕ
  rb = row_bytes e.params

  abbrev src : List ℕ
  src = strip payload rb ro rc

  flags_received :
      (i : ℕ)
      → i < pos_part e.params.height
      → get_elem? (write_at ro (replicate rc true) e.rows_received) i
        ≡ some (in_strip ro rc i || cov i)
  flags_received i hi = elim (row_cases ro rc i) [
    | inl (before, out) ↦ rw out (get_elem?-write_at_before ro _ _ i before ∙ t.flags i hi)
    | inr (inl (after, out)) ↦
        rw out
          (get_elem?-write_at_after ro _ _ i (rw (length-replicate rc true) after) ∙ t.flags i hi)
    | inr (inr (d, at, room, hit)) ↦ rw hit (
        rw at (
          get_elem?-write_at_inside ro (replicate rc true) e.rows_received d
            (rw (length-replicate rc true) room) (omega (arith, v.rows))
          ∙ get_elem?-replicate rc true d room))
  ]

  length-src : length src ≡ rc * rb
  length-src =
      length-strip payload (pos_part e.params.height) rb ro rc (whole ∙ (geometry e v).total) inside

  -- The row `i = ro + d` of the strip, at the offset `k`.
  row_inside :
      (d k : ℕ)
      → d < rc
      → k < rb
      → get_elem? (write_at (ro * rb) src e.bytes) ((ro + d) * rb + k)
        ≡ get_elem? payload ((ro + d) * rb + k)
  row_inside d k hd hk =
      let cell : d * rb + k < rc * rb = cell_lt d rc rb k hd hk in
      let room : (ro + rc) * rb ≤ pos_part e.params.height * rb =
        mul_mono (ro + rc) (pos_part e.params.height) rb rb inside (omega arith) in
      let shift : (ro + d) * rb + k ≡ ro * rb + (d * rb + k) = omega arith in
      rw shift (
        get_elem?-write_at_inside (ro * rb) src e.bytes (d * rb + k) (omega (arith, length-src))
          (omega (arith, v.size, (geometry e v).total))
        ∙ get_elem?-strip payload rb ro rc (d * rb + k) cell)

  rows_received :
      (i k : ℕ)
      → i < pos_part e.params.height
      → k < rb
      → (in_strip ro rc i || cov i) ≡ true
      → get_elem? (write_at (ro * rb) src e.bytes) (i * rb + k) ≡ get_elem? payload (i * rb + k)
  rows_received i k hi hk c = elim (row_cases ro rc i) [
    | inl (before, out) ↦
        get_elem?-write_at_before (ro * rb) src e.bytes (i * rb + k) (cell_lt i ro rb k before hk)
        ∙ t.rows i k hi hk (ground (arith, out, c))
    | inr (inl (after, out)) ↦
        get_elem?-write_at_after (ro * rb) src e.bytes (i * rb + k)
          (omega (arith, length-src, mul_mono (ro + rc) i rb rb after (omega arith)))
        ∙ t.rows i k hi hk (ground (arith, out, c))
    | inr (inr (d, at, room, hit)) ↦ rw at (row_inside d k room hk)
  ]

  pub received-Tracks : Tracks payload (λ i. in_strip ro rc i || cov i) (received e ro rc src)
  unfolding received
  received-Tracks = record { flags = flags_received; rows = rows_received }

-- A new transfer has no row, so it tracks any payload.
pub fresh_entry-Tracks :
    (payload : List ℕ) (p : BeginParams)
    → HasGeometry p
    → Tracks payload (λ i. false) (fresh_entry p)
unfolding fresh_entry
fresh_entry-Tracks payload p g = record {
  flags = λ i h. get_elem?-replicate (to_u64 p.height) false i (rw g.height_word h);
  rows = λ i k hi hk c. cc;
}

-- With every row flagged, the bytes are the payload.
pub bytes_of_Tracks :
    (name : Str) (payload : List ℕ) (cov : ℕ → Bool) (e : InProgress)
    → IsSound name e
    → length payload ≡ e.params.total_byte_size
    → Tracks payload cov e
    → ((i : ℕ) → i < pos_part e.params.height → cov i ≡ true)
    → e.bytes ≡ payload
bytes_of_Tracks name payload cov e v whole t full =
    list_ext e.bytes payload (v.size ∙ sym whole) λ j hj.
      let rb : ℕ = row_bytes e.params in
      let total : length e.bytes ≡ pos_part e.params.height * rb = v.size ∙ (geometry e v).total in
      let (row, column, split) = grid_split j (pos_part e.params.height) rb (rw (← total) hj) in
      rw split at (t.rows (j / rb) (j % rb) row column (full (j / rb) row))

-- A row below the height that was not flagged keeps `end` from answering.
pub unflagged :
    (name : Str) (payload : List ℕ) (cov : ℕ → Bool) (e : InProgress) (i : ℕ)
    → IsSound name e
    → Tracks payload cov e
    → i < pos_part e.params.height
    → cov i ≡ false
    → all_true e.rows_received ≡ false
unflagged name payload cov e i v t hi gap = elim (Bool-cases (all_true e.rows_received)) [
  | inr partial ↦ partial
  | inl full ↦
      cc (all_true-get_elem? e.rows_received full i (omega (arith, v.rows)), t.flags i hi, gap)
]

pub flagged :
    (name : Str) (payload : List ℕ) (cov : ℕ → Bool) (e : InProgress)
    → IsSound name e
    → Tracks payload cov e
    → ((i : ℕ) → i < pos_part e.params.height → cov i ≡ true)
    → all_true e.rows_received ≡ true
flagged name payload cov e v t full = all_true_intro e.rows_received λ i hi.
    let row : i < pos_part e.params.height = omega (arith, v.rows) in
    t.flags i row ∙ ap some (full i row)
