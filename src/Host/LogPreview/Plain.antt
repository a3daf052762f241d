-- ===== src/Host/LogPreview/Plain.antt =====
-- What src/host/util/log_preview.h lets into a log.
use open_image_debugger.Prelude.{
  ℕ, zero, suc, ◌+◌, ◌/◌, ◌%◌, ◌≤◌, ◌<◌, ◌≡◌, refl, ◌∙◌, inl, inr, Bool, true, false, ◌&&◌, ◌||◌,
  leb, ◌*◌, [], ◌∷◌, ◌++◌, ltb, ◌==◌, length, take, append-nil, append_assoc, Str, codes,
  Bool-cases, arith,
}
use open_image_debugger.Host.LogPreview.{
  hex, starts_c1, is_c1, second, append_escaped, escape, decimal, byte_count, log_preview,
}

-- The text starts with two bytes of the form 110xxxxx 10yyyyyy whose code point is U+0080 to U+009F.
unfoldable pub is_8_bit_control : Str → Bool
is_8_bit_control [] = false
is_8_bit_control (c ∷ []) = false
is_8_bit_control (c ∷ d ∷ rest) =
    c / 32 == 6 && d / 64 == 2 && leb 128 (c % 32 * 64 + d % 64) && leb (c % 32 * 64 + d % 64) 159

-- A control character: a byte below 0x20, DEL, or a UTF-8 form of U+0080 to U+009F.
unfoldable pub holds_control : Str → Bool
holds_control [] = false
holds_control (c ∷ rest) =
    let later = holds_control rest in ltb c 32 || c == 127 || is_8_bit_control (c ∷ rest) || later

-- The same by the test of the code.
unfoldable has_control : Str → Bool
has_control [] = false
has_control (c ∷ rest) =
    let later = has_control rest in ltb c 32 || c == 127 || is_c1 c rest || later

is_8_bit_control-is_c1 : (c : ℕ) (rest : Str) → is_8_bit_control (c ∷ rest) ≡ is_c1 c rest
unfolding is_8_bit_control is_c1 starts_c1
is_8_bit_control-is_c1 c [] = ground arith
is_8_bit_control-is_c1 c (d ∷ rest) = ground arith

holds_control-has_control : (s : Str) → holds_control s ≡ has_control s
unfolding holds_control has_control
holds_control-has_control [] = refl
holds_control-has_control (c ∷ rest) =
    rw (holds_control-has_control rest, is_8_bit_control-is_c1 c rest) refl

-- One printable byte before text without control characters.
plain_cons :
    (c : ℕ) (s : Str)
    → 32 ≤ c
    → c < 127
    → has_control s ≡ false
    → (has_control (c ∷ s) ≡ false) × (starts_c1 (c ∷ s) ≡ false)
unfolding has_control starts_c1 is_c1
plain_cons c s low high p = ground arith

hex_printable : (d : ℕ) → d < 16 → (32 ≤ hex d) × (hex d < 127)
unfolding hex
hex_printable d h = ground arith

hex_cons : (d : ℕ) (s : Str) → d < 16 → has_control s ≡ false → has_control (hex d ∷ s) ≡ false
hex_cons d s h p = let (low, high) = hex_printable d h in (plain_cons (hex d) s low high p).0

hex_pair :
    (d : ℕ) (s : Str)
    → d < 256
    → has_control s ≡ false
    → has_control (hex (d / 16) ∷ hex (d % 16) ∷ s) ≡ false
hex_pair d s h p = hex_cons (d / 16) _ (omega arith) (hex_cons (d % 16) s (omega arith) p)

-- A backslash and a printable byte before text without control characters.
backslash :
    (c : ℕ) (s : Str)
    → 32 ≤ c
    → c < 127
    → has_control s ≡ false
    → (has_control (92 ∷ c ∷ s) ≡ false) × (starts_c1 (92 ∷ c ∷ s) ≡ false)
backslash c s low high p =
    plain_cons 92 (c ∷ s) (omega arith) (omega arith) (plain_cons c s low high p).0

c1_second : (c : ℕ) (rest : Str) → is_c1 c rest ≡ true → second rest < 256
unfolding is_c1 starts_c1
c1_second c [] h = ground arith
c1_second c (d ∷ rest) h = ground arith

-- A byte that is kept as it is.
literal :
    (c : ℕ) (rest tail : Str)
    → (ltb c 32 || c == 127) ≡ false
    → is_c1 c rest ≡ false
    → has_control tail ≡ false
    → (starts_c1 rest ≡ false → starts_c1 tail ≡ false)
    → has_control (c ∷ tail) ≡ false
unfolding has_control is_c1
literal c rest tail plain single p q = elim (Bool-cases (starts_c1 rest)) [
  | inl follows ↦ ground (arith, follows)
  | inr other ↦ ground (arith, other, q other)
]

-- What is appended for a character, before text without control characters.
append_escaped-plain :
    (c : ℕ) (rest tail : Str)
    → has_control tail ≡ false
    → (is_c1 c rest ≡ false → starts_c1 rest ≡ false → starts_c1 tail ≡ false)
    → (has_control (append_escaped c rest ++ tail) ≡ false)
      × (starts_c1 (c ∷ rest) ≡ false → starts_c1 (append_escaped c rest ++ tail) ≡ false)
unfolding append_escaped
append_escaped-plain c rest tail p q = elim (Bool-cases (c == 10)) [
  | inl newline ↦
      let (plain, start) = backslash b'n' tail (omega arith) (omega arith) p in
      rw newline (plain, λ h. start)
  | inr no_newline ↦ elim (Bool-cases (c == 13)) [
    | inl return ↦
        let (plain, start) = backslash b'r' tail (omega arith) (omega arith) p in
        rw (no_newline, return) (plain, λ h. start)
    | inr no_return ↦ elim (Bool-cases (c == 9)) [
      | inl tab ↦
          let (plain, start) = backslash b't' tail (omega arith) (omega arith) p in
          rw (no_newline, no_return, tab) (plain, λ h. start)
      | inr no_tab ↦
          rw (no_newline, no_return, no_tab)
            (elim (Bool-cases (is_c1 c rest)) [
              | inl control ↦
                  let digits = hex_pair (second rest) tail (c1_second c rest control) p in
                  let zeros =
                    plain_cons b'0' _ (omega arith) (omega arith)
                      (plain_cons b'0' _ (omega arith) (omega arith) digits).0 in
                  let (plain, start) = backslash b'u' _ (omega arith) (omega arith) zeros.0 in
                  rw control (plain, λ h. start)
              | inr single ↦ elim (Bool-cases (ltb c 32 || c == 127)) [
                | inl control ↦
                    let digits = hex_pair c tail (ground arith) p in
                    let (plain, start) = backslash b'x' _ (omega arith) (omega arith) digits in
                    rw (single, control) (plain, λ h. start)
                | inr kept ↦
                    rw (single, kept)
                      (literal c rest tail kept single p (q single), λ h. unfold starts_c1 in h)
              ]
            ])
    ]
  ]
]

escape-plain :
    (consumed : Bool) (s tail : Str)
    → has_control tail ≡ false
    → starts_c1 tail ≡ false
    → (has_control (escape consumed s ++ tail) ≡ false)
      × (consumed ≡ false → starts_c1 s ≡ false → starts_c1 (escape consumed s ++ tail) ≡ false)
unfolding escape
escape-plain consumed [] tail p q = (p, λ first h. q)
escape-plain true (c ∷ rest) tail p q =
    ((escape-plain false rest tail p q).0, λ first h. absurd (cc))
escape-plain false (c ∷ rest) tail p q =
    let (later, start) = escape-plain (is_c1 c rest) rest tail p q in
    let (plain, first) =
      append_escaped-plain c rest (escape (is_c1 c rest) rest ++ tail) later start in
    rw append_assoc (plain, λ u h. first h)

decimal-plain :
    (digits n : ℕ) (tail : Str)
    → has_control tail ≡ false
    → starts_c1 tail ≡ false
    → (has_control (decimal digits n ++ tail) ≡ false)
      × (starts_c1 (decimal digits n ++ tail) ≡ false)
unfolding decimal
decimal-plain zero n tail p q = (p, q)
decimal-plain (suc digits) n tail p q = elim (Bool-cases (ltb n 10)) [
  | inl last ↦ rw last (plain_cons (48 + n) tail (omega arith) (ground arith) p)
  | inr more ↦
      let (plain, start) = plain_cons (48 + n % 10) tail (omega arith) (omega arith) p in
      rw (more, append_assoc) (decimal-plain digits (n / 10) ((48 + n % 10) ∷ tail) plain start)
]

byte_count-plain :
    (n : ℕ) → (has_control (byte_count n) ≡ false) × (starts_c1 (byte_count n) ≡ false)
unfolding byte_count has_control starts_c1 is_c1
byte_count-plain n =
    let (plain, start) = decimal-plain 20 n (codes " bytes)") refl refl in ground (arith, plain)

has_control-log_preview :
    (value : Str) (max_chars : ℕ) → has_control (log_preview value max_chars) ≡ false
unfolding log_preview
has_control-log_preview value max_chars = elim (Bool-cases (ltb max_chars (length value))) [
  | inl truncated ↦
      let (plain, start) = byte_count-plain (length value) in
      rw truncated
        (escape-plain false (take max_chars value) (byte_count (length value)) plain start).0
  | inr whole ↦
      let none_left : has_control [] ≡ false = unfold has_control in refl in
      let none_starts : starts_c1 [] ≡ false = unfold starts_c1 in refl in
      rw whole (rw append-nil at (escape-plain false value [] none_left none_starts).0)
]

-- Whatever the text and the bound, what log_preview lets into a log holds no byte below 0x20, no
-- DEL and no UTF-8 form of U+0080 to U+009F.
pub holds_control-log_preview :
    (value : Str) (max_chars : ℕ) → holds_control (log_preview value max_chars) ≡ false
holds_control-log_preview value max_chars =
    holds_control-has_control _ ∙ has_control-log_preview value max_chars
