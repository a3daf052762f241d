-- ===== src/Host/CliOptions.antt =====
-- src/host/cli_options.{h,cpp}: the command line. `argv` is the list of its arguments behind the first.
pub mod Flags
pub mod CommandLine
use open_image_debugger.Prelude.{
  Bool, true, false, ◌&&◌, ◌||◌, Option, none, some, List, [], ◌∷◌, ◌++◌, if◌then◌else◌, ℤ, pos,
  leb_ℤ, ltb_ℤ, Str, codes, str_eq, from_chars,
}

pub record CliOptions : Type 0 where
  pub hostname : Str
  pub port : ℤ
  pub open_files : List Str
  pub agent_debugger_pid : Option ℤ

abbrev pub default_options : CliOptions
default_options = record {
  hostname = codes "127.0.0.1";
  port = pos 9588;
  open_files = [];
  agent_debugger_pid = none;
}

unfoldable pub matches : Str → List Str → Bool
matches arg [] = false
matches arg (name ∷ names) = str_eq arg name || matches arg names

-- The whole token is a number above 0.
unfoldable pub positive : Option (ℤ × Str) → Option ℤ
positive none = none
positive (some (value, [])) = if ltb_ℤ (pos 0) value then some value else none
positive (some (value, c ∷ rest)) = none

unfoldable pub parse_positive_int : Str → Option ℤ
parse_positive_int text = positive (from_chars text)

unfoldable pub valid_port : Option ℤ → Option ℤ
valid_port none = none
valid_port (some value) = if leb_ℤ value (pos 65535) then some value else none

unfoldable pub parse_port : Str → Option ℤ
parse_port text = valid_port (parse_positive_int text)

unfoldable pub set_port : Option ℤ → CliOptions → CliOptions
set_port none options = options
set_port (some port) options = record options { port = port }

-- A flag with its value; none where the argument takes no value.
unfoldable pub apply_flag : (arg value : Str) → CliOptions → Option CliOptions
apply_flag arg value options =
    if matches arg (codes "-o" ∷ codes "--open" ∷ [])
    then some (record options { open_files = options.open_files ++ value ∷ [] })
    else if matches arg (codes "-h" ∷ codes "--hostname" ∷ codes "--host" ∷ [])
    then some (record options { hostname = value })
    else if matches arg (codes "-p" ∷ codes "--port" ∷ [])
    then some (set_port (parse_port value) options)
    else if matches arg (codes "--agent-debugger-pid" ∷ [])
    then some (record options { agent_debugger_pid = parse_positive_int value })
    else none

-- The loop: a flag and its value go together, any other argument goes alone.
unfoldable pub parse_args : List Str → CliOptions → CliOptions
parse_args [] options = options
parse_args (arg ∷ []) options = options
parse_args (arg ∷ value ∷ rest) options = elim (apply_flag arg value options) [
  | none ↦ parse_args (value ∷ rest) options
  | some later ↦ parse_args rest later
]

unfoldable pub parse_cli : List Str → CliOptions
parse_cli argv = parse_args argv default_options
