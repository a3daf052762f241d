-- ===== src/Ipc/BufferAssembler/Invariant.antt =====
-- What holds of every transfer in flight, and the strip test without machine words.
use open_image_debugger.Prelude.{
  ℕ, ◌+◌, ◌*◌, ◌/◌, ◌≤◌, ◌≡◌, refl, subst₂, ◌∙◌, inl, inr, Bool, true, false, ◌&&◌, Option, none,
  some, List, leb, ◌==◌, if◌then◌else◌, ℤ, pos, negsuc, pos_part, to_u64, IsI32, length, replicate,
  write_at, length-replicate, length-write_at, Str, find, arith, mul_mono, mul64, mul64_exact,
  sub64_exact, add64_exact, all_true, erase, assign, Bool-cases, Option-cases, str_eq_iff, str_eq,
  find-erase, find-assign,
}
use open_image_debugger.Ipc.RawDataDecode.{
  buffer_type, is_known_buffer_type, exceeds_max_buffer_bytes, within_display_limits,
  max_buffer_bytes, padded_payload_size, type_size,
}
use open_image_debugger.Ipc.RawDataDecode.Sizes.{IsRenderable, to_u64-pos_part}
use open_image_debugger.Ipc.RawDataDecode.Payload.{
  WithinLimits, within_display_limits-WithinLimits, padded_payload_size-some,
}
use open_image_debugger.Ipc.BufferAssembler.{
  BeginParams, InProgress, BufferAssembler, accepts, fresh_entry, begin, write_strip, store_strip,
  chunk, end, abort, is_size,
}
use native.Mathlib.Nat.{mul-div_cancel_left}

-- The bytes of one row, padding included.
abbrev pub row_bytes : BeginParams → ℕ
row_bytes p = pos_part p.stride * pos_part p.channels * type_size (buffer_type p.type)

pub record HasGeometry (p : BeginParams) : Type 0 where
  pub known : is_known_buffer_type (buffer_type p.type) ≡ true
  pub limits : WithinLimits p.width p.height p.channels
  pub width_range : IsI32 p.width
  pub height_range : IsI32 p.height
  pub channels_range : IsI32 p.channels
  pub renderable : IsRenderable p.width p.height p.channels p.stride
  pub total : p.total_byte_size ≡ pos_part p.height * row_bytes p
  pub bounded : p.total_byte_size ≤ max_buffer_bytes
  pub height_word : to_u64 p.height ≡ pos_part p.height

limit_range : (n : ℤ) → 1 ≤ pos_part n → pos_part n ≤ 131072 → IsI32 n
limit_range (pos n) h k = omega arith
limit_range (negsuc n) h k = absurd (omega arith)

pub is_size_eq : (o : Option ℕ) (n : ℕ) → is_size o n ≡ true → o ≡ some n
is_size_eq none n h = cc
is_size_eq (some m) n h = ground arith

pub accepts_parts :
    (p : BeginParams)
    → accepts p ≡ true
    → (is_known_buffer_type (buffer_type p.type) ≡ true)
      × (p.total_byte_size ≤ max_buffer_bytes)
      × (within_display_limits p.width p.height p.channels ≡ true)
      × (is_size
            (padded_payload_size p.width p.height p.channels p.stride (buffer_type p.type))
            p.total_byte_size
          ≡ true)
unfolding accepts exceeds_max_buffer_bytes
accepts_parts p e = ground arith

total_by_rows : (s h c t : ℕ) → s * h * c * t ≡ h * (s * c * t)
total_by_rows s h c t = omega arith

-- What `begin` has checked of a transfer that it starts.
pub accepts-HasGeometry : (p : BeginParams) → IsI32 p.stride → accepts p ≡ true → HasGeometry p
accepts-HasGeometry p si e =
    let (known, bounded, limits, size) = accepts_parts p e in
    let l = within_display_limits-WithinLimits p.width p.height p.channels limits in
    let wi : IsI32 p.width = limit_range p.width l.width_low l.width_high in
    let hi : IsI32 p.height = limit_range p.height l.height_low l.height_high in
    let ci : IsI32 p.channels =
      limit_range p.channels l.channels_low (omega (arith, l.channels_high)) in
    let (_, r, total) =
      padded_payload_size-some p.width p.height p.channels p.stride (buffer_type p.type) wi hi ci si
        p.total_byte_size (is_size_eq _ _ size) in
    record {
      known = known;
      limits = l;
      width_range = wi;
      height_range = hi;
      channels_range = ci;
      renderable = r;
      total =
          total
          ∙ total_by_rows (pos_part p.stride) (pos_part p.height) (pos_part p.channels)
              (type_size (buffer_type p.type));
      bounded = bounded;
      height_word = to_u64-pos_part p.height hi r.high;
    }

-- What holds of a transfer in flight under a name.
pub record IsSound (name : Str) (e : InProgress) : Type 0 where
  pub named : e.params.variable_name ≡ name
  pub accepted : accepts e.params ≡ true
  pub stride_range : IsI32 e.params.stride
  pub size : length e.bytes ≡ e.params.total_byte_size
  pub rows : length e.rows_received ≡ pos_part e.params.height

pub geometry : {name : Str} (e : InProgress) → IsSound name e → HasGeometry e.params
geometry e v = accepts-HasGeometry e.params v.stride_range v.accepted

pub fresh_entry-IsSound :
    (p : BeginParams) → IsI32 p.stride → accepts p ≡ true → IsSound p.variable_name (fresh_entry p)
unfolding fresh_entry
fresh_entry-IsSound p si e = record {
  named = refl;
  accepted = e;
  stride_range = si;
  size = length-replicate p.total_byte_size 0;
  rows = length-replicate (to_u64 p.height) false ∙ (accepts-HasGeometry p si e).height_word;
}

-- `bytes.size() / height` is the row size that the declaration implies.
bytes_per_row :
    {name : Str} (e : InProgress)
    → IsSound name e
    → length e.bytes / pos_part e.params.height ≡ row_bytes e.params
bytes_per_row e v =
    let g = geometry e v in
    rw (v.size, g.total)
      (mul-div_cancel_left (row_bytes e.params) (omega (arith, g.limits.height_low)))

-- The effect of an accepted strip.
unfoldable pub received : InProgress → (row_offset row_count : ℕ) → List ℕ → InProgress
received e ro rc bytes = record e {
  bytes = write_at (ro * row_bytes e.params) bytes e.bytes;
  rows_received = write_at ro (replicate rc true) e.rows_received;
}

-- The test of `chunk` without machine words: the rows lie inside the buffer and the payload has
-- their size. Then nothing wraps, and the copy ends inside the allocation.
unfoldable pub fits : InProgress → (row_offset row_count : ℕ) → List ℕ → Bool
fits e ro rc bytes =
    leb (ro + rc) (pos_part e.params.height) && (length bytes == rc * row_bytes e.params)

-- Offsets and sizes of rows inside the buffer, as words.
strip_words :
    (h rb ro rc total : ℕ)
    → total ≡ h * rb
    → total ≤ max_buffer_bytes
    → ro + rc ≤ h
    → (mul64 ro rb ≡ ro * rb) × (mul64 rc rb ≡ rc * rb) × (ro * rb + rc * rb ≤ total)
strip_words h rb ro rc total e bound inside =
    let both : (ro + rc) * rb ≤ h * rb = mul_mono (ro + rc) h rb rb inside (omega arith) in
    (mul64_exact ro rb (omega arith), mul64_exact rc rb (omega arith), omega arith)

-- For a sound transfer, a strip is taken exactly if its rows end inside the buffer and its payload
-- has the size of that many rows, and then its bytes and flags are written at its row offset; the
-- 64-bit products and sums of the test do not change its answer.
pub write_strip_lem :
    (name : Str) (e : InProgress) (ro rc : ℕ) (bytes : List ℕ)
    → IsSound name e
    → write_strip e ro rc bytes
      ≡ (if fits e ro rc bytes then some (received e ro rc bytes) else none)
unfolding write_strip fits received
write_strip_lem name e ro rc bytes v =
    let g = geometry e v in
    let h : ℕ = pos_part e.params.height in
    let rb : ℕ = row_bytes e.params in
    elim (Bool-cases (leb (ro + rc) h)) [
      | inr outside ↦
          rw (g.height_word, outside) (ground (arith, sub64_exact h ro, g.limits.height_high))
      | inl inside ↦
          let (offset, expected, last) =
            strip_words h rb ro rc e.params.total_byte_size g.total g.bounded (ground arith) in
          rw (g.height_word, bytes_per_row e v, offset, expected, inside)
            (ground (
              arith,
              sub64_exact h ro,
              g.limits.height_high,
              add64_exact (ro * rb) (length bytes),
              v.size,
              g.bounded,
              last,
            ))
    ]

pub received-IsSound :
    (name : Str) (e : InProgress) (ro rc : ℕ) (bytes : List ℕ)
    → IsSound name e
    → IsSound name (received e ro rc bytes)
unfolding received
received-IsSound name e ro rc bytes v = record {
  named = v.named;
  accepted = v.accepted;
  stride_range = v.stride_range;
  size = length-write_at (ro * row_bytes e.params) bytes e.bytes ∙ v.size;
  rows = length-write_at ro (replicate rc true) e.rows_received ∙ v.rows;
}

-- Every transfer in flight is sound.
pub record AllSound (a : BufferAssembler) : Type 0 where
  pub at : (k : Str) (e : InProgress) → find k a ≡ some e → IsSound k e

erase-AllSound : (a : BufferAssembler) (name : Str) → AllSound a → AllSound (erase name a)
erase-AllSound a name v = record { at = λ k e h. ground (arith, find-erase name k a, v.at k e) }

assign-AllSound :
    (a : BufferAssembler) (name : Str) (e : InProgress)
    → IsSound name e
    → AllSound a
    → AllSound (assign name e a)
assign-AllSound a name e s v = record {
  at = λ k x h. elim (Bool-cases (str_eq name k)) [
    | inl same ↦
        subst₂ IsSound ((str_eq_iff name k).0 same) (ground (arith, find-assign name k e a)) s
    | inr other ↦ v.at k x (ground (arith, find-assign name k e a))
  ];
}

pub begin-AllSound :
    (allocates : ℕ → Bool) (a : BufferAssembler) (p : BeginParams)
    → IsI32 p.stride
    → AllSound a
    → AllSound (begin allocates a p).0
unfolding begin
begin-AllSound allocates a p si v = elim (Bool-cases (accepts p)) [
  | inr bad ↦ rw bad (erase-AllSound a p.variable_name v)
  | inl accepted ↦ elim (Bool-cases (allocates p.total_byte_size)) [
    | inl given ↦
        rw (accepted, given)
          (assign-AllSound a p.variable_name (fresh_entry p) (fresh_entry-IsSound p si accepted) v)
    | inr failed ↦ rw (accepted, failed) v
  ]
]

store_strip-AllSound :
    (a : BufferAssembler) (name : Str) (e : InProgress) (ro rc : ℕ) (bytes : List ℕ)
    → IsSound name e
    → AllSound a
    → AllSound (store_strip a name (write_strip e ro rc bytes)).0
store_strip-AllSound a name e ro rc bytes s v =
    rw (write_strip_lem name e ro rc bytes s) (elim (Bool-cases (fits e ro rc bytes)) [
      | inl taken ↦ rw taken (
          assign-AllSound a name (received e ro rc bytes) (received-IsSound name e ro rc bytes s) v)
      | inr bad ↦ rw bad v
    ])

pub chunk-AllSound :
    (a : BufferAssembler) (name : Str) (ro rc : ℕ) (bytes : List ℕ)
    → AllSound a
    → AllSound (chunk a name ro rc bytes).0
unfolding chunk
chunk-AllSound a name ro rc bytes v = elim (Option-cases (find name a)) [
  | inl missing ↦ rw (missing, chunk) v
  | inr (e, found) ↦
      rw (found, chunk) (store_strip-AllSound a name e ro rc bytes (v.at name e found) v)
]

pub end-AllSound : (a : BufferAssembler) (name : Str) → AllSound a → AllSound (end a name).0
unfolding end
end-AllSound a name v = elim (Option-cases (find name a)) [
  | inl missing ↦ rw (missing, end) v
  | inr (e, found) ↦
      rw (found, end)
        (elim (Bool-cases (all_true e.rows_received)) [
          | inl full ↦ rw full (erase-AllSound a name v)
          | inr partial ↦ rw partial (erase-AllSound a name v)
        ])
]

pub abort-AllSound : (a : BufferAssembler) (name : Str) → AllSound a → AllSound (abort a name).0
unfolding abort
abort-AllSound a name v = erase-AllSound a name v

-- One call of the assembler, with what the peer sent.
pub data Call : Type 0 where
  begins : BeginParams → Call
  chunks : Str → ℕ → ℕ → List ℕ → Call
  ends aborts : Str → Call

abbrev pub InRange : Call → Type 0
InRange (begins p) = IsI32 p.stride
InRange _ = Unit

unfoldable pub perform : (allocates : ℕ → Bool) → BufferAssembler → Call → BufferAssembler
perform allocates a (begins p) = (begin allocates a p).0
perform allocates a (chunks name ro rc bytes) = (chunk a name ro rc bytes).0
perform allocates a (ends name) = (end a name).0
perform allocates a (aborts name) = (abort a name).0

-- Every call of the assembler with a 32-bit stride, accepted, refused or failed, keeps every
-- transfer in flight sound: filed under its own name, with a declaration that was accepted, an
-- allocation of the declared size, and one flag for each row.
pub perform-AllSound :
    (allocates : ℕ → Bool) (a : BufferAssembler) (c : Call)
    → InRange c
    → AllSound a
    → AllSound (perform allocates a c)
unfolding perform
perform-AllSound allocates a (begins p) r v = begin-AllSound allocates a p r v
perform-AllSound allocates a (chunks name ro rc bytes) r v = chunk-AllSound a name ro rc bytes v
perform-AllSound allocates a (ends name) r v = end-AllSound a name v
perform-AllSound allocates a (aborts name) r v = abort-AllSound a name v
