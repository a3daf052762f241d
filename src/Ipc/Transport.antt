-- ===== src/Ipc/Transport.antt =====
-- src/ipc/transport.h: the two directions of a connection.
-- Inbound data is the sequence of segments in which the peer's bytes arrive; an empty segment is an
-- end of file or a timeout, which `receive` reports as zero bytes.
use open_image_debugger.Prelude.{
  ℕ, ◌+◌, ◌≡◌, Bool, true, false, List, [], ◌∷◌, ◌++◌, leb, if◌then◌else◌, length, take, drop,
  arith, ap, take-append-drop, length-append,
}

abbrev pub Wire : Type 0
Wire = List (List ℕ)

-- At most `n` bytes, all of one segment; the rest of the segment stays.
unfoldable pub receive : (n : ℕ) → Wire → List ℕ × Wire
receive n [] = ([], [])
receive n (segment ∷ rest) =
    if leb (length segment) n then (segment, rest) else (take n segment, drop n segment ∷ rest)

unfoldable pub has_data : Wire → Bool
has_data [] = false
has_data ([] ∷ rest) = false
has_data ((b ∷ bs) ∷ rest) = true

-- The bytes that can be read before the next timeout, however they are cut into segments.
unfoldable pub flat : Wire → List ℕ
flat [] = []
flat ([] ∷ rest) = []
flat ((b ∷ bs) ∷ rest) = b ∷ (bs ++ flat rest)

-- The bytes that have arrived, in whatever segments.
unfoldable pub arrived : Wire → ℕ
arrived [] = 0
arrived (segment ∷ rest) = length segment + arrived rest

pub receive-arrived :
    (n : ℕ) (w : Wire) → length (receive n w).0 + arrived (receive n w).1 ≡ arrived w
unfolding receive arrived
receive-arrived n [] = omega arith
receive-arrived n (segment ∷ rest) =
    ground (
      arith,
      ap length (take-append-drop n segment),
      length-append (take n segment) (drop n segment),
    )
