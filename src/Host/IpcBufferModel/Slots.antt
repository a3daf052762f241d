-- ===== src/Host/IpcBufferModel/Slots.antt =====
-- The slots of the model as lists: a search by name, and what a write or an erase at its answer does.
use open_image_debugger.Prelude.{
  ℕ, zero, suc, ◌≤◌, ◌<◌, ◌≡◌, refl, Option, none, some, List, [], ◌∷◌, ◌++◌, if◌then◌else◌, length,
  set, erase_at, Str, str_eq, str_eq_iff, arith, Option-cases, length-append,
}
use open_image_debugger.Host.BufferModel.{BufferRecord}
use open_image_debugger.Host.IpcBufferModel.{index_of}

-- The record of a name, and its slot's revision.
unfoldable pub record_of : Str → List BufferRecord → Option BufferRecord
record_of name [] = none
record_of name (r ∷ rs) = if str_eq r.variable_name name then some r else record_of name rs

unfoldable pub stamp_of : Str → List BufferRecord → List ℕ → Option ℕ
stamp_of name [] ns = none
stamp_of name (r ∷ rs) [] = none
stamp_of name (r ∷ rs) (n ∷ ns) =
    if str_eq r.variable_name name then some n else stamp_of name rs ns

-- The slots after `upsert` and `remove`, step by step.
abbrev pub put_record : Option ℕ → List BufferRecord → BufferRecord → List BufferRecord
put_record none xs r = xs ++ r ∷ []
put_record (some i) xs r = set xs i r

abbrev pub put_stamp : Option ℕ → List ℕ → ℕ → List ℕ
put_stamp none ns n = ns ++ n ∷ []
put_stamp (some i) ns n = set ns i n

abbrev pub drop_slot {ℓ} : {A : Type ℓ} → Option ℕ → List A → List A
drop_slot none xs = xs
drop_slot (some i) xs = erase_at xs i

pub record_of-put :
    (xs : List BufferRecord) (r : BufferRecord) (j : Str)
    → record_of j (put_record (index_of r.variable_name xs) xs r)
      ≡ (if str_eq r.variable_name j then some r else record_of j xs)
unfolding record_of index_of
record_of-put [] r j = refl
record_of-put (x ∷ xs) r j = ground (
  arith,
  record_of-put xs r j,
  str_eq_iff x.variable_name r.variable_name,
  str_eq_iff x.variable_name j,
  str_eq_iff r.variable_name j,
  Option-cases (index_of r.variable_name xs),
)

pub stamp_of-put :
    (xs : List BufferRecord) (ns : List ℕ) (r : BufferRecord) (n : ℕ) (j : Str)
    → length xs ≡ length ns
    → stamp_of j
        (put_record (index_of r.variable_name xs) xs r)
        (put_stamp (index_of r.variable_name xs) ns n)
      ≡ (if str_eq r.variable_name j then some n else stamp_of j xs ns)
unfolding stamp_of index_of
stamp_of-put [] [] r n j h = refl
stamp_of-put [] (m ∷ ns) r n j h = absurd (omega arith)
stamp_of-put (x ∷ xs) [] r n j h = absurd (omega arith)
stamp_of-put (x ∷ xs) (m ∷ ns) r n j h = ground (
  arith,
  stamp_of-put xs ns r n j,
  str_eq_iff x.variable_name r.variable_name,
  str_eq_iff x.variable_name j,
  str_eq_iff r.variable_name j,
  Option-cases (index_of r.variable_name xs),
)

-- No two slots hold records of one name.
abbrev pub Distinct : List BufferRecord → Type 0
Distinct [] = Unit
Distinct (r ∷ rs) = (record_of r.variable_name rs ≡ none) × Distinct rs

pub record_of-drop :
    (xs : List BufferRecord) (k j : Str)
    → Distinct xs
    → record_of j (drop_slot (index_of k xs) xs) ≡ (if str_eq k j then none else record_of j xs)
unfolding record_of index_of
record_of-drop [] k j d = ground arith
record_of-drop (x ∷ xs) k j (here, rest) = ground (
  arith,
  record_of-drop xs k j rest,
  str_eq_iff x.variable_name k,
  str_eq_iff x.variable_name j,
  str_eq_iff k j,
  Option-cases (index_of k xs),
)

pub put-Distinct :
    (xs : List BufferRecord) (r : BufferRecord)
    → Distinct xs
    → Distinct (put_record (index_of r.variable_name xs) xs r)
unfolding record_of index_of
put-Distinct [] r d = (refl, tt)
put-Distinct (x ∷ xs) r (here, rest) = ground (
  arith,
  put-Distinct xs r rest,
  record_of-put xs r x.variable_name,
  str_eq_iff x.variable_name r.variable_name,
  str_eq_iff r.variable_name x.variable_name,
  Option-cases (index_of r.variable_name xs),
)

pub drop-Distinct :
    (xs : List BufferRecord) (k : Str) → Distinct xs → Distinct (drop_slot (index_of k xs) xs)
unfolding record_of index_of
drop-Distinct [] k d = tt
drop-Distinct (x ∷ xs) k (here, rest) = ground (
  arith,
  drop-Distinct xs k rest,
  record_of-drop xs k x.variable_name rest,
  Option-cases (index_of k xs),
)

-- Every stamp is below the next one.
abbrev pub AllBelow : ℕ → List ℕ → Type 0
AllBelow n [] = Unit
AllBelow n (m ∷ ms) = (m < n) × AllBelow n ms

pub AllBelow-mono : (n k : ℕ) (ms : List ℕ) → n ≤ k → AllBelow n ms → AllBelow k ms
AllBelow-mono n k [] h b = tt
AllBelow-mono n k (m ∷ ms) h (b, bs) = (omega arith, AllBelow-mono n k ms h bs)

pub put-AllBelow :
    (o : Option ℕ) (n : ℕ) (ms : List ℕ) → AllBelow n ms → AllBelow (suc n) (put_stamp o ms n)
put-AllBelow none n [] b = (omega arith, tt)
put-AllBelow none n (m ∷ ms) (b, bs) = (omega arith, put-AllBelow none n ms bs)
put-AllBelow (some i) n [] b = tt
put-AllBelow (some zero) n (m ∷ ms) (b, bs) =
    (omega arith, AllBelow-mono n (suc n) ms (omega arith) bs)
put-AllBelow (some (suc i)) n (m ∷ ms) (b, bs) = (omega arith, put-AllBelow (some i) n ms bs)

pub drop-AllBelow :
    (o : Option ℕ) (n : ℕ) (ms : List ℕ) → AllBelow n ms → AllBelow n (drop_slot o ms)
drop-AllBelow none n ms b = b
drop-AllBelow (some i) n [] b = tt
drop-AllBelow (some zero) n (m ∷ ms) (b, bs) = bs
drop-AllBelow (some (suc i)) n (m ∷ ms) (b, bs) = (b, drop-AllBelow (some i) n ms bs)

pub length-put :
    (o : Option ℕ) (xs : List BufferRecord) (ns : List ℕ) (r : BufferRecord) (n : ℕ)
    → length xs ≡ length ns
    → length (put_record o xs r) ≡ length (put_stamp o ns n)
length-put none xs ns r n h = omega (arith, length-append xs (r ∷ []), length-append ns (n ∷ []))
length-put (some i) [] [] r n h = refl
length-put (some i) [] (m ∷ ns) r n h = absurd (omega arith)
length-put (some i) (x ∷ xs) [] r n h = absurd (omega arith)
length-put (some zero) (x ∷ xs) (m ∷ ns) r n h = h
length-put (some (suc i)) (x ∷ xs) (m ∷ ns) r n h =
    omega (arith, length-put (some i) xs ns r n (omega arith))

pub length-drop_slot :
    (o : Option ℕ) (xs : List BufferRecord) (ns : List ℕ)
    → length xs ≡ length ns
    → length (drop_slot o xs) ≡ length (drop_slot o ns)
length-drop_slot none xs ns h = h
length-drop_slot (some i) [] [] h = refl
length-drop_slot (some i) [] (m ∷ ns) h = absurd (omega arith)
length-drop_slot (some i) (x ∷ xs) [] h = absurd (omega arith)
length-drop_slot (some zero) (x ∷ xs) (m ∷ ns) h = omega arith
length-drop_slot (some (suc i)) (x ∷ xs) (m ∷ ns) h =
    omega (arith, length-drop_slot (some i) xs ns (omega arith))
