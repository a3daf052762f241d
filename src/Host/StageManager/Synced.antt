-- ===== src/Host/StageManager/Synced.antt =====
-- What src/host/ui/stage_manager.cpp holds after a sync.
use open_image_debugger.Prelude.{
  ℕ, ◌≡◌, refl, ◌∙◌, ap, sym, Option, none, some, List, [], ◌∷◌, ◌==◌, if◌then◌else◌, Str, str_eq,
  str_eq_iff, Dict, find, find-assign, Bool-cases, inl, inr, arith,
}
use open_image_debugger.Host.BufferModel.{BufferRecord}
use open_image_debugger.Host.StageManager.{
  Stages, Entry, StageManager, Slot, contains_name, add_stage, refresh_stage, sync_found, sync_one,
  sync_all, retain, sync,
}

module _ {S : Type 0} where
  -- A name that is the found one has what was found.
  same_name :
      (n k : Str) (o : Option (Entry S)) (d : Dict (Entry S))
      → (find n d ≡ o)
      → find k d ≡ (if str_eq n k then o else find k d)
  same_name n k o d e = elim (Bool-cases (str_eq n k)) [
    | inl t ↦ rw t (ap (λ j. find j d) (sym ((str_eq_iff n k).0 t)) ∙ e)
    | inr f ↦ rw f refl
  ]

module _ {S : Type 0} (stages : Stages S) where
  unfoldable pub created : ℕ → Option S → Option (Entry S)
  created rev none = none
  created rev (some s) = some (record { stage = s; revision = rev })

  -- The entry of a record, from the one it had.
  unfoldable pub refreshed : BufferRecord → ℕ → Option (Entry S) → Option (Entry S)
  refreshed r rev none = created rev (stages.initialize r)
  refreshed r rev (some e) =
      if e.revision == rev
      then some e
      else some (record { stage = (stages.buffer_update r e.stage).1; revision = rev })

  -- The entry of a name, from the one it had before a model that has these records.
  unfoldable pub after : Str → List Slot → Option (Entry S) → Option (Entry S)
  after k [] old = old
  after k ((r, rev) ∷ rest) old =
      after k rest (if str_eq r.variable_name k then refreshed r rev old else old)

  find-add_stage :
      (r : BufferRecord) (rev : ℕ) (o : Option S) (m : StageManager S)
      → (find r.variable_name m.by_name ≡ none)
      → (k : Str)
      → find k (add_stage stages r rev o m).by_name
        ≡ (if str_eq r.variable_name k then created rev o else find k m.by_name)
  unfolding add_stage created
  find-add_stage r rev none m e k = same_name r.variable_name k none m.by_name e
  find-add_stage r rev (some s) m e k = find-assign r.variable_name k _ m.by_name

  -- A round gives the record's own name its entry.
  find-sync_found :
      (r : BufferRecord) (rev : ℕ) (old : Option (Entry S)) (m : StageManager S)
      → (find r.variable_name m.by_name ≡ old)
      → (k : Str)
      → find k (sync_found stages r rev old m).by_name
        ≡ (if str_eq r.variable_name k then refreshed r rev old else find k m.by_name)
  unfolding sync_found refreshed refresh_stage
  find-sync_found r rev none m e k = find-add_stage r rev (stages.initialize r) m e k
  find-sync_found r rev (some old) m e k = elim (Bool-cases (old.revision == rev)) [
    | inl t ↦ rw (t, refreshed) (same_name r.variable_name k (some old) m.by_name e)
    | inr f ↦ rw (f, refreshed) (find-assign r.variable_name k _ m.by_name)
  ]

  find-sync_one :
      (r : BufferRecord) (rev : ℕ) (m : StageManager S) (k : Str)
      → find k (sync_one stages (r, rev) m).by_name ≡ (
          if str_eq r.variable_name k then refreshed r rev (find k m.by_name) else find k m.by_name)
  unfolding sync_one
  find-sync_one r rev m k = elim (Bool-cases (str_eq r.variable_name k)) [
    | inl t ↦
        find-sync_found r rev (find r.variable_name m.by_name) m refl k
        ∙ ap
            (λ j.
              if str_eq r.variable_name k
              then refreshed r rev (find j m.by_name)
              else find k m.by_name)
            ((str_eq_iff r.variable_name k).0 t)
    | inr f ↦ find-sync_found r rev (find r.variable_name m.by_name) m refl k ∙ (rw f refl)
  ]

  -- A name of the model has the entry that the rounds on it leave; any other name keeps its own.
  find-sync_all :
      (slots : List Slot) (m : StageManager S) (k : Str)
      → find k (sync_all stages slots m).by_name ≡ after k slots (find k m.by_name)
  unfolding sync_all after
  find-sync_all [] m k = refl
  find-sync_all ((r, rev) ∷ rest) m k =
      find-sync_all rest (sync_one stages (r, rev) m) k
      ∙ ap (after k rest) (find-sync_one r rev m k)

  find-retain :
      (live : List Slot) (k : Str) (d : Dict (Entry S))
      → find k (retain stages live d) ≡ (if contains_name live k then find k d else none)
  unfolding retain find
  find-retain live k [] = ground arith
  find-retain live k ((name, x) ∷ d) = elim (Bool-cases (str_eq name k)) [
    | inl t ↦
        ground (arith, find-retain live k d, ap (contains_name live) ((str_eq_iff name k).0 t))
    | inr f ↦ ground (arith, find-retain live k d)
  ]

  -- After a sync of the stages, a name that the model has not has no stage, and a name that it has
  -- is left with what its own records make of the entry it had.
  pub find-sync :
      (slots : List Slot) (m : StageManager S) (k : Str)
      → find k (sync stages slots m).by_name
        ≡ (if contains_name slots k then after k slots (find k m.by_name) else none)
  unfolding sync
  find-sync slots m k =
      find-retain slots k _
      ∙ ap (λ o. if contains_name slots k then o else none) (find-sync_all slots m k)
