-- ===== src/Host/NpyDecode/Counting.antt =====
-- The count of elements in src/host/io/npy_decode.cpp, for dimensions that are in range.
use open_image_debugger.Prelude.{
  ℕ, ◌*◌, ◌%◌, ◌≤◌, ◌<◌, ◌≡◌, refl, ap, ◌∙◌, false, List, [], ◌∷◌, ℤ, pos, ltb_ℤ, arith,
  mul64_exact, mul_mono, word_mod,
}
use open_image_debugger.Host.NpyDecode.Text.{value}
use open_image_debugger.Host.NpyDecode.{count_elements}

count_elements-step :
    (n d : ℕ) (dims : List ℤ)
    → d < word_mod
    → n * d < word_mod
    → count_elements n (pos d ∷ dims) ≡ count_elements (n * d) dims
unfolding count_elements
count_elements-step n d dims small product =
    let positive : ltb_ℤ (pos d) (pos 0) ≡ false = ground arith in
    let word : d % word_mod ≡ d = omega arith in rw (positive, word, mul64_exact n d product) refl

pub count_elements-two :
    (a b : ℕ) (dims : List ℤ)
    → a ≤ 131072
    → b ≤ 131072
    → count_elements 1 (pos a ∷ pos b ∷ dims) ≡ count_elements (a * b) dims
count_elements-two a b dims small_a small_b =
    let area : a * b ≤ 131072 * 131072 = mul_mono a 131072 b 131072 small_a small_b in
    let one_a : 1 * a ≡ a = omega arith in
    count_elements-step 1 a (pos b ∷ dims) (omega arith) (omega arith)
    ∙ (ap (λ n. count_elements n (pos b ∷ dims)) one_a
        ∙ count_elements-step a b dims (omega arith) (omega arith))

pub count_elements-plane :
    (a b : ℕ) → a ≤ 131072 → b ≤ 131072 → count_elements 1 (pos a ∷ pos b ∷ []) ≡ value (a * b)
count_elements-plane a b small_a small_b =
    count_elements-two a b [] small_a small_b ∙ unfold count_elements in refl

pub count_elements-cube :
    (a b c : ℕ)
    → a ≤ 131072
    → b ≤ 131072
    → c ≤ 4
    → count_elements 1 (pos a ∷ pos b ∷ pos c ∷ []) ≡ value (a * b * c)
count_elements-cube a b c small_a small_b small_c =
    let area : a * b ≤ 131072 * 131072 = mul_mono a 131072 b 131072 small_a small_b in
    let volume : a * b * c ≤ 131072 * 131072 * 4 =
      mul_mono (a * b) (131072 * 131072) c 4 area small_c in
    count_elements-two a b (pos c ∷ []) small_a small_b
    ∙ (count_elements-step (a * b) c [] (omega arith) (omega arith) ∙ unfold count_elements in refl)
