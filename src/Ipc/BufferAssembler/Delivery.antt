-- ===== src/Ipc/BufferAssembler/Delivery.antt =====
-- A whole transfer: `begin`, one `chunk` for each strip of a payload, `end`.
use open_image_debugger.Prelude.{
  ℕ, ◌+◌, ◌*◌, ◌≤◌, ◌<◌, ◌≡◌, refl, ◌∙◌, sym, subst, Bool, true, false, ◌||◌, none, some, List, [],
  ◌∷◌, pos_part, IsI32, length, all_true, Str, find, arith, fun_ext, find-assign, str_eq_refl,
  assign, erase, ap,
}
use open_image_debugger.Ipc.BufferAssembler.{
  BeginParams, InProgress, BufferAssembler, AssembledBuffer, fresh_entry, assembled, begin, chunk,
  end, accepts,
}
use open_image_debugger.Ipc.BufferAssembler.Strips.{
  strip, length-strip, in_strip, Tracks, received-Tracks, fresh_entry-Tracks, bytes_of_Tracks,
  flagged, unflagged,
}
use open_image_debugger.Ipc.BufferAssembler.Invariant.{
  row_bytes, IsSound, geometry, received, fits, write_strip_lem, received-IsSound,
  fresh_entry-IsSound, accepts-HasGeometry,
}

-- A row is covered if a strip holds it.
unfoldable pub covered : List (ℕ × ℕ) → ℕ → Bool
covered [] i = false
covered ((ro, rc) ∷ strips) i = in_strip ro rc i || covered strips i

abbrev pub AllInside : (height : ℕ) → List (ℕ × ℕ) → Type 0
AllInside h [] = Unit
AllInside h ((ro, rc) ∷ strips) = (ro + rc ≤ h) × AllInside h strips

-- One `chunk` call for each strip of the payload.
unfoldable pub deliver :
    BufferAssembler → Str → (payload : List ℕ) → (row_size : ℕ) → List (ℕ × ℕ) → BufferAssembler
deliver a name payload row_size [] = a
deliver a name payload row_size ((ro, rc) ∷ strips) =
    deliver (chunk a name ro rc (strip payload row_size ro rc)).0 name payload row_size strips

-- The entry that a delivery leaves in the table.
record Held (payload : List ℕ) (cov : ℕ → Bool) (p : BeginParams) (name : Str) (a : BufferAssembler)
    : Type 0 where
  entry : InProgress
  found : find name a ≡ some entry
  same : entry.params ≡ p
  sound : IsSound name entry
  tracks : Tracks payload cov entry

module _ (payload : List ℕ) (cov : ℕ → Bool) (name : Str) (a : BufferAssembler) (ro rc : ℕ) where
  -- A strip of the payload is taken.
  chunk_taken :
      (e : InProgress)
      → find name a ≡ some e
      → IsSound name e
      → length payload ≡ e.params.total_byte_size
      → ro + rc ≤ pos_part e.params.height
      → chunk a name ro rc (strip payload (row_bytes e.params) ro rc)
        ≡ (assign name (received e ro rc (strip payload (row_bytes e.params) ro rc)) a, true)
  unfolding chunk fits
  chunk_taken e found v whole inside =
      let src = strip payload (row_bytes e.params) ro rc in
      let size : length src ≡ rc * row_bytes e.params =
        length-strip payload (pos_part e.params.height) (row_bytes e.params) ro rc
          (whole ∙ (geometry e v).total) inside in
      let taken : fits e ro rc src ≡ true = ground arith in
      rw (found, chunk) (rw (write_strip_lem name e ro rc src v) (rw taken))

  chunk-Held_of :
      (e : InProgress)
      → find name a ≡ some e
      → IsSound name e
      → Tracks payload cov e
      → length payload ≡ e.params.total_byte_size
      → ro + rc ≤ pos_part e.params.height
      → Held payload
          (λ i. in_strip ro rc i || cov i)
          e.params
          name
          (chunk a name ro rc (strip payload (row_bytes e.params) ro rc)).0
  chunk-Held_of e found v t whole inside =
      let src = strip payload (row_bytes e.params) ro rc in
      rw (chunk_taken e found v whole inside) (record {
        entry = received e ro rc src;
        found = find-assign name name (received e ro rc src) a ∙ rw str_eq_refl;
        same = unfold received in refl;
        sound = received-IsSound name e ro rc src v;
        tracks = received-Tracks name payload cov e ro rc v whole inside t;
      })

  -- The entry goes on tracking the payload.
  chunk-Held :
      (p : BeginParams)
      → length payload ≡ p.total_byte_size
      → ro + rc ≤ pos_part p.height
      → Held payload cov p name a
      → Held payload
          (λ i. in_strip ro rc i || cov i)
          p
          name
          (chunk a name ro rc (strip payload (row_bytes p) ro rc)).0
  chunk-Held p whole inside held =
      subst
        (λ q.
          length payload ≡ q.total_byte_size
          → ro + rc ≤ pos_part q.height
          → Held payload (λ i. in_strip ro rc i || cov i) q name
              (chunk a name ro rc (strip payload (row_bytes q) ro rc)).0)
        held.same (chunk-Held_of held.entry held.found held.sound held.tracks) whole inside

Held-covers :
    (payload : List ℕ) (cov dov : ℕ → Bool) (p : BeginParams) (name : Str) (a : BufferAssembler)
    → ((i : ℕ) → cov i ≡ dov i)
    → Held payload cov p name a
    → Held payload dov p name a
Held-covers payload cov dov p name a e held = subst (λ c. Held payload c p name a) (fun_ext e) held

or_shift : (x y z : Bool) → (y || (x || z)) ≡ ((x || y) || z)
or_shift x y z = ground arith

or_false : (x : Bool) → (x || false) ≡ x
or_false x = ground arith

module _ (payload : List ℕ) (p : BeginParams) (name : Str)
    (whole : length payload ≡ p.total_byte_size) where
  deliver-Held :
      (strips : List (ℕ × ℕ)) (cov : ℕ → Bool) (a : BufferAssembler)
      → AllInside (pos_part p.height) strips
      → Held payload cov p name a
      → Held payload
          (λ i. covered strips i || cov i)
          p
          name
          (deliver a name payload (row_bytes p) strips)
  unfolding deliver covered
  deliver-Held [] cov a inside held = held
  deliver-Held ((ro, rc) ∷ strips) cov a (here, rest) held =
      Held-covers payload _ _ p name _ (λ i. or_shift (in_strip ro rc i) (covered strips i) (cov i))
        (deliver-Held strips (λ i. in_strip ro rc i || cov i) _ rest
          (chunk-Held payload cov name a ro rc p whole here held))

-- The fields that were declared, with the whole payload.
abbrev pub delivered : BeginParams → (payload : List ℕ) → AssembledBuffer
delivered p payload = record {
  variable_name = p.variable_name;
  display_name = p.display_name;
  pixel_layout = p.pixel_layout;
  transpose = p.transpose;
  width = p.width;
  height = p.height;
  channels = p.channels;
  stride = p.stride;
  type = p.type;
  bytes = payload;
}

assembled-delivered :
    (e : InProgress) (p : BeginParams) (payload : List ℕ)
    → e.params ≡ p
    → e.bytes ≡ payload
    → assembled e ≡ delivered p payload
unfolding assembled
assembled-delivered e p payload h k = rw (sym h, sym k) refl

module _ (a : BufferAssembler) (name : Str) (e : InProgress) (found : find name a ≡ some e) where
  end_full : all_true e.rows_received ≡ true → end a name ≡ (erase name a, some (assembled e))
  unfolding end
  end_full full = rw (found, end) (rw full)

  end_partial : all_true e.rows_received ≡ false → end a name ≡ (erase name a, none)
  unfolding end
  end_partial gap = rw (found, end) (rw gap)

abbrev nothing : ℕ → Bool
nothing i = false

-- The table after `begin` and the strips of a payload.
abbrev pub transferred :
    (allocates : ℕ → Bool) → BufferAssembler → BeginParams → List ℕ → List (ℕ × ℕ) → BufferAssembler
transferred allocates a p payload strips =
    deliver (begin allocates a p).0 p.variable_name payload (row_bytes p) strips

module _ (allocates : ℕ → Bool) (a : BufferAssembler) (p : BeginParams) (payload : List ℕ)
    (strips : List (ℕ × ℕ)) (stride_range : IsI32 p.stride) (accepted : accepts p ≡ true)
    (memory : allocates p.total_byte_size ≡ true) (whole : length payload ≡ p.total_byte_size)
    (inside : AllInside (pos_part p.height) strips) where
  begin-Held : Held payload nothing p p.variable_name (begin allocates a p).0
  unfolding begin
  begin-Held =
      rw (accepted, memory)
        (record {
          entry = fresh_entry p;
          found = find-assign p.variable_name p.variable_name (fresh_entry p) a ∙ rw str_eq_refl;
          same = unfold fresh_entry in refl;
          sound = fresh_entry-IsSound p stride_range accepted;
          tracks = fresh_entry-Tracks payload p (accepts-HasGeometry p stride_range accepted);
        })

  transferred-Held :
      Held payload (covered strips) p p.variable_name (transferred allocates a p payload strips)
  transferred-Held =
      Held-covers payload _ _ p p.variable_name _ (λ i. or_false (covered strips i))
        (deliver-Held payload p p.variable_name whole strips nothing (begin allocates a p).0 inside
          begin-Held)

  -- For an accepted declaration, memory that is given, and a payload of the declared size,
  -- delivered in strips inside the buffer that together hold every row, in any order and with
  -- repetitions, end hands out exactly the payload with the declared fields and removes the
  -- transfer.
  pub end-transferred :
      ((i : ℕ) → i < pos_part p.height → covered strips i ≡ true)
      → end (transferred allocates a p payload strips) p.variable_name ≡ (
        erase p.variable_name (transferred allocates a p payload strips),
        some (delivered p payload),
      )
  end-transferred full =
      let held = transferred-Held in
      let e = held.entry in
      let rows : (i : ℕ) → i < pos_part e.params.height → covered strips i ≡ true =
        subst (λ q. (i : ℕ) → i < pos_part q.height → covered strips i ≡ true) (sym held.same)
          full in
      let size : length payload ≡ e.params.total_byte_size =
        whole ∙ ap (λ q. q.total_byte_size) (sym held.same) in
      let bytes : e.bytes ≡ payload =
        bytes_of_Tracks p.variable_name payload (covered strips) e held.sound size held.tracks
          rows in
      end_full _ p.variable_name e held.found
        (flagged p.variable_name payload (covered strips) e held.sound held.tracks rows)
      ∙ ap (λ b. (erase p.variable_name (transferred allocates a p payload strips), some b))
          (assembled-delivered e p payload held.same bytes)

  -- For an accepted declaration, memory that is given, and strips of a payload of the declared
  -- size inside the buffer of which none holds some row, end hands out nothing and removes the
  -- transfer.
  pub end-transferred_partial :
      (i : ℕ)
      → i < pos_part p.height
      → covered strips i ≡ false
      → end (transferred allocates a p payload strips) p.variable_name
        ≡ (erase p.variable_name (transferred allocates a p payload strips), none)
  end-transferred_partial i hi gap =
      let held = transferred-Held in
      end_partial _ p.variable_name held.entry held.found (
        unflagged p.variable_name payload (covered strips) held.entry i held.sound held.tracks
          (subst (λ q. i < pos_part q.height) (sym held.same) hi) gap)
