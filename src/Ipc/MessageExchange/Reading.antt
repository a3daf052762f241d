-- ===== src/Ipc/MessageExchange/Reading.antt =====
-- What the decoder's reads do, however the peer's bytes are cut into segments.
use open_image_debugger.Prelude.{
  ℕ, zero, suc, ◌+◌, ◌-◌, ◌≤◌, ◌<◌, ◌≡◌, ◌≢◌, refl, sym, ap, ◌∙◌, inl, inr, List, [], ◌∷◌, ◌++◌,
  leb, length, append_split, append-nil, append_assoc, length-append, take-length-append,
  drop-length-append, Bool-cases, arith,
}
use open_image_debugger.Ipc.Execution.{out_of_fuel, ok, err, return, ◌>>=◌}
use open_image_debugger.Ipc.Transport.{Wire, receive, flat}
use open_image_debugger.Ipc.MessageExchange.{Decode, read_loop, read_impl}

-- `m` reads exactly `bs` and answers `v`, whatever follows and wherever the segments end.
pub record Decodes {A : Type 0} (m : Decode A) (bs : List ℕ) (v : A) : Type 0 where
  pub at :
      (w : Wire) (rest : List ℕ)
      → flat w ≡ bs ++ rest
      → (w' : Wire) × (m w ≡ (ok v, w')) × (flat w' ≡ rest)

pub Decodes-return : {A : Type 0} (v : A) → Decodes (return v) [] v
unfolding return
Decodes-return v = record { at = λ w rest e. (w, refl, e) }

pub Decodes-bind :
    {A B : Type 0} (m : Decode A) (f : A → Decode B) (bs cs : List ℕ) (v : A) (u : B)
    → Decodes m bs v
    → Decodes (f v) cs u
    → Decodes (m >>= f) (bs ++ cs) u
unfolding ◌>>=◌
Decodes-bind m f bs cs v u dm df = record {
  at = λ w rest e.
      let (w', run, left) = dm.at w (cs ++ rest) (e ∙ append_assoc bs cs rest) in
      let (w'', run', left') = df.at w' rest left in (w'', rw run run', left');
}

flat_cons : (ws : List ℕ) (w : Wire) → 0 < length ws → flat (ws ∷ w) ≡ ws ++ flat w
unfolding flat
flat_cons [] w h = absurd (omega arith)
flat_cons (b ∷ bs) w h = refl

-- What one `receive` takes from a stream that starts with the bytes wanted.
receive_front :
    (w : Wire) (bs rest : List ℕ)
    → 0 < length bs
    → flat w ≡ bs ++ rest
    → (ws : List ℕ) × (bs ≡ (receive (length bs) w).0 ++ ws)
      × (flat (receive (length bs) w).1 ≡ ws ++ rest)
      × (0 < length (receive (length bs) w).0)
unfolding receive flat
receive_front [] [] rest h e = absurd (omega arith)
receive_front [] (b ∷ bs) rest h e = cc
receive_front ([] ∷ w) [] rest h e = absurd (omega arith)
receive_front ([] ∷ w) (b ∷ bs) rest h e = cc
receive_front ((c ∷ seg) ∷ w) bs rest h e = elim (Bool-cases (leb (length (c ∷ seg)) (length bs))) [
  | inl fits ↦
      let (ws, p, q) = append_split (c ∷ seg) (flat w) bs rest e (ground arith) in
      rw fits (ws, p, q, omega arith)
  | inr longer ↦
      let (ws, p, q) = append_split bs rest (c ∷ seg) (flat w) (sym e) (ground arith) in
      let size : length (c ∷ seg) ≡ length bs + length ws = ap length p ∙ length-append bs ws in
      rw (longer, p, take-length-append bs ws, drop-length-append bs ws)
        ([], sym (append-nil bs), flat_cons ws w (ground arith) ∙ sym q, h)
]

read_loop-front :
    (fuel : ℕ) (bs acc rest : List ℕ) (w : Wire)
    → length bs ≤ fuel
    → flat w ≡ bs ++ rest
    → (w' : Wire) × (read_loop fuel (length bs) acc w ≡ (ok (acc ++ bs), w')) × (flat w' ≡ rest)
unfolding read_loop
read_loop-front zero [] acc rest w h e = (w, rw append-nil, e)
read_loop-front zero (b ∷ bs) acc rest w h e = absurd (omega arith)
read_loop-front (suc fuel) [] acc rest w h e = (w, rw append-nil, e)
read_loop-front (suc fuel) (b ∷ bs) acc rest w h e =
    let (ws, p, q, some_read) = receive_front w (b ∷ bs) rest (omega arith) e in
    let got = (receive (length (b ∷ bs)) w).0 in
    let size : length (b ∷ bs) ≡ length got + length ws = ap length p ∙ length-append got ws in
    let missing : length (b ∷ bs) - length got ≡ length ws = omega arith in
    let (w', run, left) =
      read_loop-front fuel ws (acc ++ got) rest (receive (length (b ∷ bs)) w).1 (omega arith) q in
    let whole : (acc ++ got) ++ ws ≡ acc ++ (b ∷ bs) =
      append_assoc acc got ws ∙ ap (λ l. acc ++ l) (sym p) in
    (w', ground (arith, missing, run, whole, some_read), left)

-- `read_impl` reads the bytes that stand next.
pub read_impl-Decodes : (bs : List ℕ) → Decodes (read_impl (length bs)) bs bs
unfolding read_impl
read_impl-Decodes bs = record {
  at = λ w rest e. read_loop-front (length bs) bs [] rest w (omega arith) e;
}

-- The read loop never runs out of fuel: each round but the last reads a byte.
pub read_loop-ends :
    (fuel remaining : ℕ) (acc : List ℕ) (w : Wire)
    → remaining ≤ fuel
    → (read_loop fuel remaining acc w).0 ≢ err out_of_fuel
unfolding read_loop
read_loop-ends zero remaining acc w h = ground arith
read_loop-ends (suc fuel) remaining acc w h =
    let got = (receive remaining w).0 in
    ground
      (arith, read_loop-ends fuel (remaining - length got) (acc ++ got) (receive remaining w).1)
