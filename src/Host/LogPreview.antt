-- ===== src/Host/LogPreview.antt =====
-- src/host/util/log_preview.h: untrusted text in one line of a log.
pub mod Plain
use open_image_debugger.Prelude.{
  ℕ, zero, suc, ◌+◌, ◌/◌, ◌%◌, Bool, true, false, ◌&&◌, ◌||◌, List, [], ◌∷◌, ◌++◌, ltb, leb, ◌==◌,
  if◌then◌else◌, length, take, Str, codes,
}

abbrev pub name_preview_chars : ℕ
name_preview_chars = 64

-- A lower-case hexadecimal digit.
unfoldable pub hex : ℕ → ℕ
hex d = if ltb d 10 then 48 + d else 87 + d

-- The second byte of an 8-bit control (U+0080 to U+009F) in UTF-8.
unfoldable pub starts_c1 : Str → Bool
starts_c1 [] = false
starts_c1 (d ∷ rest) = leb 128 d && leb d 159

-- The first character of `c ∷ rest` is an 8-bit control.
unfoldable pub is_c1 : ℕ → Str → Bool
is_c1 c rest = c == 194 && starts_c1 rest

abbrev pub second : Str → ℕ
second [] = 0
second (d ∷ rest) = d

-- What is appended for the character that starts `c ∷ rest`.
unfoldable pub append_escaped : (c : ℕ) → (rest : Str) → Str
append_escaped c rest =
    if c == 10
    then 92 ∷ b'n' ∷ []
    else if c == 13
    then 92 ∷ b'r' ∷ []
    else if c == 9
    then 92 ∷ b't' ∷ []
    else if is_c1 c rest
    then 92 ∷ b'u' ∷ b'0' ∷ b'0' ∷ hex (second rest / 16) ∷ hex (second rest % 16) ∷ []
    else if ltb c 32 || c == 127
    then 92 ∷ b'x' ∷ hex (c / 16) ∷ hex (c % 16) ∷ []
    else c ∷ []

-- The loop of `log_preview`; `consumed` says that the first byte went with the one before it.
unfoldable pub escape : (consumed : Bool) → Str → Str
escape consumed [] = []
escape true (c ∷ rest) = escape false rest
escape false (c ∷ rest) = append_escaped c rest ++ escape (is_c1 c rest) rest

-- Twenty digits are enough for a `std::size_t`.
unfoldable pub decimal : (digits n : ℕ) → Str
decimal zero n = []
decimal (suc digits) n =
    let front = decimal digits (n / 10) in
    if ltb n 10 then (48 + n) ∷ [] else front ++ (48 + n % 10) ∷ []

unfoldable pub byte_count : ℕ → Str
byte_count n = codes "... (" ++ (decimal 20 n ++ codes " bytes)")

unfoldable pub log_preview : Str → (max_chars : ℕ) → Str
log_preview value max_chars =
    if ltb max_chars (length value)
    then escape false (take max_chars value) ++ byte_count (length value)
    else escape false value
