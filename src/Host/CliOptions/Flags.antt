-- ===== src/Host/CliOptions/Flags.antt =====
-- What the command line of src/host/cli_options.cpp sets.
use open_image_debugger.Prelude.{
  ℕ, ◌<◌, ◌^◌, ◌≡◌, refl, ◌∙◌, ap, sym, true, Option, none, some, List, [], ◌∷◌, append-nil, ℤ, pos,
  leb_ℤ, ltb_ℤ, Str, codes, decimal, from_chars, from_chars-decimal, starts_with_digit, Bool-cases,
  Option-cases, subst, inl, inr, arith,
}
use open_image_debugger.Host.CliOptions.{
  CliOptions, default_options, matches, positive, parse_positive_int, valid_port, parse_port,
  set_port, apply_flag, parse_args, parse_cli,
}

-- A port that a socket takes, and a process that can exist.
unfoldable pub IsPositive : Option ℤ → Type 0
IsPositive none = Unit
IsPositive (some v) = ltb_ℤ (pos 0) v ≡ true

unfoldable pub IsUsable : CliOptions → Type 0
IsUsable o =
    (ltb_ℤ (pos 0) o.port ≡ true)
    × (leb_ℤ o.port (pos 65535) ≡ true)
    × IsPositive o.agent_debugger_pid

positive-IsPositive : (o : Option (ℤ × Str)) → IsPositive (positive o)
unfolding IsPositive positive
positive-IsPositive none = tt
positive-IsPositive (some (value, [])) = elim (Bool-cases (ltb_ℤ (pos 0) value)) [
  | inl t ↦ rw (t, positive, IsPositive) t
  | inr f ↦ rw (f, positive, IsPositive) tt
]
positive-IsPositive (some (value, c ∷ rest)) = tt

unfoldable pub IsPort : Option ℤ → Type 0
IsPort none = Unit
IsPort (some v) = (ltb_ℤ (pos 0) v ≡ true) × (leb_ℤ v (pos 65535) ≡ true)

valid_port-IsPort : (o : Option ℤ) → IsPositive o → IsPort (valid_port o)
unfolding IsPositive IsPort valid_port
valid_port-IsPort none p = tt
valid_port-IsPort (some v) p = elim (Bool-cases (leb_ℤ v (pos 65535))) [
  | inl t ↦ rw (t, valid_port, IsPort) (p, t)
  | inr f ↦ rw (f, valid_port, IsPort) tt
]

set_port-IsUsable :
    (v : Option ℤ) (o : CliOptions) → IsPort v → IsUsable o → IsUsable (set_port v o)
unfolding IsPort IsUsable set_port
set_port-IsUsable none o p u = u
set_port-IsUsable (some v) o (a, b) (c, d, e) = (a, b, e)

unfoldable AreUsable : Option CliOptions → Type 0
AreUsable none = Unit
AreUsable (some o) = IsUsable o

apply_flag-AreUsable :
    (arg value : Str) (o : CliOptions) → IsUsable o → AreUsable (apply_flag arg value o)
unfolding apply_flag AreUsable IsUsable parse_positive_int parse_port
apply_flag-AreUsable arg value o (c, d, e) =
    elim (Bool-cases (matches arg (codes "-o" ∷ codes "--open" ∷ []))) [
      | inl t ↦ rw (t, apply_flag) (c, d, e)
      | inr f ↦
          elim (Bool-cases (matches arg (codes "-h" ∷ codes "--hostname" ∷ codes "--host" ∷ []))) [
            | inl t ↦ rw (f, t, apply_flag) (c, d, e)
            | inr g ↦ elim (Bool-cases (matches arg (codes "-p" ∷ codes "--port" ∷ []))) [
              | inl t ↦
                  rw (f, g, t, apply_flag)
                    (set_port-IsUsable (parse_port value) o
                      (valid_port-IsPort _ (positive-IsPositive (from_chars value))) (c, d, e))
              | inr h ↦ elim (Bool-cases (matches arg (codes "--agent-debugger-pid" ∷ []))) [
                | inl t ↦ rw (f, g, h, t, apply_flag) (c, d, positive-IsPositive (from_chars value))
                | inr i ↦ rw (f, g, h, i, apply_flag) tt
              ]
            ]
          ]
    ]

parse_args-IsUsable : (argv : List Str) (o : CliOptions) → IsUsable o → IsUsable (parse_args argv o)
unfolding parse_args AreUsable
parse_args-IsUsable [] o u = u
parse_args-IsUsable (arg ∷ []) o u = u
parse_args-IsUsable (arg ∷ value ∷ rest) o u = elim (Option-cases (apply_flag arg value o)) [
  | inl n ↦ rw (n, parse_args) (parse_args-IsUsable (value ∷ rest) o u)
  | inr (later, e) ↦
      rw (e, parse_args)
        (parse_args-IsUsable rest later (subst AreUsable e (apply_flag-AreUsable arg value o u)))
]

pub parse_port-decimal : (p : ℕ) → 0 < p → p < 2 ^ 16 → parse_port (decimal p) ≡ some (pos p)
unfolding parse_port parse_positive_int valid_port positive starts_with_digit
parse_port-decimal p h k =
    ap (λ s. valid_port (positive (from_chars s))) (sym (append-nil (decimal p)))
    ∙ rw (from_chars-decimal p [] (omega arith) refl) (ground arith)

pub parse_positive_int-decimal :
    (p : ℕ) → 0 < p → p < 2 ^ 31 → parse_positive_int (decimal p) ≡ some (pos p)
unfolding parse_positive_int positive starts_with_digit
parse_positive_int-decimal p h k =
    ap (λ s. positive (from_chars s)) (sym (append-nil (decimal p)))
    ∙ rw (from_chars-decimal p [] k refl) (ground arith)

-- Whatever the command line, the port is between 1 and 65535, and the process of the debugger, if
-- it is set, is above 0.
pub parse_cli-IsUsable : (argv : List Str) → IsUsable (parse_cli argv)
unfolding parse_cli IsUsable IsPositive
parse_cli-IsUsable argv = parse_args-IsUsable argv default_options (refl, refl, tt)
