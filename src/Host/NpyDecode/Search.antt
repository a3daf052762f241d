-- ===== src/Host/NpyDecode/Search.antt =====
-- The searches of src/host/io/npy_decode.cpp in text whose start is known.
use open_image_debugger.Prelude.{
  ℕ, ◌+◌, ◌≤◌, ◌≡◌, refl, sym, ap, ◌∙◌, Bool, true, false, not, ◌&&◌, Option, none, some, [], ◌∷◌,
  ◌++◌, ◌==◌, length, Str, AreDigits, is_digit, arith, &&-true,
}
use open_image_debugger.Host.NpyDecode.Text.{search, has_prefix, shifted, found_before}

-- No byte is `c`.
abbrev pub avoids : ℕ → Str → Bool
avoids c [] = true
avoids c (x ∷ s) = not (c == x) && avoids c s

pub shifted-shifted : (m n : ℕ) (o : Option ℕ) → shifted m (shifted n o) ≡ shifted (m + n) o
unfolding shifted
shifted-shifted m n none = refl
shifted-shifted m n (some k) = ap some (omega arith)

shifted-zero : (o : Option ℕ) → shifted 0 o ≡ o
unfolding shifted
shifted-zero none = refl
shifted-zero (some k) = ap some (omega arith)

-- A search goes past text that lacks the first byte of its pattern.
pub search-skip :
    (c : ℕ) (p a t : Str)
    → avoids c a ≡ true
    → search (c ∷ p) (a ++ t) ≡ shifted (length a) (search (c ∷ p) t)
unfolding search has_prefix
search-skip c p [] t h = sym (shifted-zero (search (c ∷ p) t))
search-skip c p (x ∷ a) t h =
    let (differs, rest) = &&-true (not (c == x)) (avoids c a) h in
    let other : (c == x) ≡ false = ground (arith, differs) in
    rw (other, search-skip c p a t rest)
      (shifted-shifted 1 (length a) (search (c ∷ p) t)
        ∙ ap (λ n. shifted n (search (c ∷ p) t)) (omega arith))

pub AreDigits-avoids : (c : ℕ) (s : Str) → is_digit c ≡ false → AreDigits s → avoids c s ≡ true
unfolding AreDigits is_digit
AreDigits-avoids c [] h d = refl
AreDigits-avoids c (x ∷ s) h (digit, d) = ground (arith, h, digit, AreDigits-avoids c s h d)

pub avoids-append :
    (c : ℕ) (a b : Str) → avoids c a ≡ true → avoids c b ≡ true → avoids c (a ++ b) ≡ true
avoids-append c [] b p q = q
avoids-append c (x ∷ a) b p q =
    let (differs, rest) = &&-true (not (c == x)) (avoids c a) p in
    rw (differs, avoids-append c a b rest q) refl

-- What is found only after a position is not found before it.
pub found_before-shifted :
    (n k : ℕ) (o : Option ℕ) → k ≤ n → found_before (shifted n o) (some k) ≡ false
unfolding found_before shifted
found_before-shifted n k none h = refl
found_before-shifted n k (some i) h = ground arith
