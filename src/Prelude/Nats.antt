-- ===== src/Prelude/Nats.antt =====
-- Products that are not linear, and the arithmetic of `std::size_t` and `std::uint64_t`.
use Prim.Native.Nat.{ℕ, zero, suc, ◌+◌, ◌-◌, ◌*◌, ◌/◌, ◌%◌, ◌^◌, ◌≤◌, ◌<◌}
use mathlib.Core.Path.{◌≡◌}
use native.Mathlib.Nat.{div-lt_iff_lt-mul, mod-lt, div-add-mod'}
use native.Mathlib.Omega.{arith}

pub mul_mono : (a b c d : ℕ) → a ≤ b → c ≤ d → a * c ≤ b * d
mul_mono a b c d h k = grind arith

-- An index in a grid whose rows are `w` apart.
pub grid_lt : (y x h w n : ℕ) → y < h → x < n → y * w + x < (h - 1) * w + n
grid_lt y x h w n hy hx = omega (arith, mul_mono y (h - 1) w w (omega arith) (omega arith))

pub cell_lt : (d n w k : ℕ) → d < n → k < w → d * w + k < n * w
cell_lt d n w k hd hk = omega (arith, mul_mono (d + 1) n w w (omega arith) (omega arith))

-- Row and column of an index.
pub grid_split : (j n w : ℕ) → j < n * w → (j / w < n) × (j % w < w) × (j / w * w + j % w ≡ j)
grid_split j n zero h = absurd (omega arith)
grid_split j n (suc w) h = (
  (div-lt_iff_lt-mul {x = j} {y = n} (omega arith)).1 h,
  mod-lt j (omega arith),
  div-add-mod' j (suc w),
)

pub span-le-padded : (h s w : ℕ) → 0 < h → w ≤ s → (h - 1) * s + w ≤ s * h
span-le-padded zero s w hh hw = absurd (omega arith)
span-le-padded (suc h) s w hh hw = let e : suc h - 1 ≡ h = omega arith in rw e (omega arith)

-- The bytes of element `k` of a pixel end inside the span of a grid.
pub element_in_span :
    (y x k h s w c size : ℕ)
    → y < h
    → x < w
    → k < c
    → ((y * s + x) * c + k + 1) * size ≤ ((h - 1) * s + w) * (c * size)
element_in_span y x k h s w c size hy hx hk =
    let cells : (y * s + x + 1) * c ≤ ((h - 1) * s + w) * c =
      mul_mono (y * s + x + 1) ((h - 1) * s + w) c c (omega (arith, grid_lt y x h s w hy hx))
        (omega arith) in
    let whole : ((y * s + x) * c + k + 1) * size ≤ ((h - 1) * s + w) * c * size =
      mul_mono ((y * s + x) * c + k + 1) (((h - 1) * s + w) * c) size size (omega arith)
        (omega arith) in
    omega arith

abbrev pub word_mod : ℕ
word_mod = 2 ^ 64

abbrev pub size_max : ℕ
size_max = 2 ^ 64 - 1

unfoldable pub add64 : ℕ → ℕ → ℕ
add64 a b = (a + b) % word_mod

unfoldable pub sub64 : ℕ → ℕ → ℕ
sub64 a b = (a + word_mod - b) % word_mod

unfoldable pub mul64 : ℕ → ℕ → ℕ
mul64 a b = a * b % word_mod

pub add64_exact : (a b : ℕ) → a + b < word_mod → add64 a b ≡ a + b
unfolding add64
add64_exact a b h = omega arith

pub sub64_exact : (a b : ℕ) → b ≤ a → a < word_mod → sub64 a b ≡ a - b
unfolding sub64
sub64_exact a b h k = omega arith

pub mul64_exact : (a b : ℕ) → a * b < word_mod → mul64 a b ≡ a * b
unfolding mul64
mul64_exact a b h = omega arith
