-- ===== src/Host/CliOptions/CommandLine.antt =====
-- The options that a command line of src/host/cli_options.cpp spells.
use open_image_debugger.Prelude.{
  ℕ, ◌<◌, ◌^◌, ◌≡◌, refl, ◌∙◌, ap, sym, Bool, false, ◌||◌, Option, none, some, List, [], ◌∷◌, ◌++◌,
  append_assoc, append-nil, ℤ, pos, Str, codes, str_eq, decimal, arith,
}
use open_image_debugger.Host.CliOptions.{
  CliOptions, default_options, matches, set_port, apply_flag, parse_args, parse_cli,
}
use open_image_debugger.Host.CliOptions.Flags.{parse_port-decimal, parse_positive_int-decimal}

-- A flag with its value, in each of its spellings, or an argument that is no flag.
pub data Setting : Type 0 where
  file_by_o file_by_open : Str → Setting
  host_by_h host_by_hostname host_by_host : Str → Setting
  port_by_p port_by_port : ℕ → Setting
  debugger_pid : ℕ → Setting
  other : Str → Setting

unfoldable pub command_line : List Setting → List Str
command_line [] = []
command_line (file_by_o f ∷ rest) = codes "-o" ∷ f ∷ command_line rest
command_line (file_by_open f ∷ rest) = codes "--open" ∷ f ∷ command_line rest
command_line (host_by_h h ∷ rest) = codes "-h" ∷ h ∷ command_line rest
command_line (host_by_hostname h ∷ rest) = codes "--hostname" ∷ h ∷ command_line rest
command_line (host_by_host h ∷ rest) = codes "--host" ∷ h ∷ command_line rest
command_line (port_by_p p ∷ rest) = codes "-p" ∷ decimal p ∷ command_line rest
command_line (port_by_port p ∷ rest) = codes "--port" ∷ decimal p ∷ command_line rest
command_line (debugger_pid p ∷ rest) = codes "--agent-debugger-pid" ∷ decimal p ∷ command_line rest
command_line (other s ∷ rest) = s ∷ command_line rest

unfoldable pub is_flag : Str → Bool
is_flag s =
    str_eq s (codes "-o")
    || str_eq s (codes "--open")
    || str_eq s (codes "-h")
    || str_eq s (codes "--hostname")
    || str_eq s (codes "--host")
    || str_eq s (codes "-p")
    || str_eq s (codes "--port")
    || str_eq s (codes "--agent-debugger-pid")

-- A port from 1 to 65535, a process of 31 bits above 0, and no flag among the other arguments.
unfoldable pub IsValid : Setting → Type 0
IsValid (port_by_p p) = (0 < p) × (p < 2 ^ 16)
IsValid (port_by_port p) = (0 < p) × (p < 2 ^ 16)
IsValid (debugger_pid p) = (0 < p) × (p < 2 ^ 31)
IsValid (other s) = is_flag s ≡ false
IsValid _ = Unit

unfoldable pub AreValid : List Setting → Type 0
AreValid [] = Unit
AreValid (s ∷ rest) = IsValid s × AreValid rest

-- The last host, the last port, the last process, and every file in its order.
abbrev host_then : Setting → Str → Str
host_then (host_by_h h) before = h
host_then (host_by_hostname h) before = h
host_then (host_by_host h) before = h
host_then _ before = before

abbrev port_then : Setting → ℤ → ℤ
port_then (port_by_p p) before = pos p
port_then (port_by_port p) before = pos p
port_then _ before = before

abbrev pid_then : Setting → Option ℤ → Option ℤ
pid_then (debugger_pid p) before = some (pos p)
pid_then _ before = before

abbrev files_then : Setting → List Str → List Str
files_then (file_by_o f) later = f ∷ later
files_then (file_by_open f) later = f ∷ later
files_then _ later = later

unfoldable pub last_host : Str → List Setting → Str
last_host before [] = before
last_host before (s ∷ rest) = last_host (host_then s before) rest

unfoldable pub last_port : ℤ → List Setting → ℤ
last_port before [] = before
last_port before (s ∷ rest) = last_port (port_then s before) rest

unfoldable pub last_pid : Option ℤ → List Setting → Option ℤ
last_pid before [] = before
last_pid before (s ∷ rest) = last_pid (pid_then s before) rest

unfoldable pub all_files : List Setting → List Str
all_files [] = []
all_files (s ∷ rest) = files_then s (all_files rest)

abbrev with_settings : CliOptions → List Setting → CliOptions
with_settings o settings = record {
  hostname = last_host o.hostname settings;
  port = last_port o.port settings;
  open_files = o.open_files ++ all_files settings;
  agent_debugger_pid = last_pid o.agent_debugger_pid settings;
}

apply_flag-other :
    (s value : Str) (o : CliOptions) → is_flag s ≡ false → apply_flag s value o ≡ none
unfolding is_flag apply_flag matches
apply_flag-other s value o h = ground (arith, h)

parse_args-other :
    (s : Str) (rest : List Str) (o : CliOptions)
    → is_flag s ≡ false
    → parse_args (s ∷ rest) o ≡ parse_args rest o
unfolding parse_args
parse_args-other s [] o h = refl
parse_args-other s (value ∷ rest) o h = rw (apply_flag-other s value o h, parse_args) refl

with_file :
    (f : Str) (settings : List Setting) (o : CliOptions)
    → with_settings (record o { open_files = o.open_files ++ f ∷ [] }) settings
      ≡ record (with_settings o settings) { open_files = o.open_files ++ f ∷ all_files settings }
with_file f settings o =
    ap (λ files. record (with_settings o settings) { open_files = files })
      (append_assoc o.open_files (f ∷ []) (all_files settings))

parse_args-command_line :
    (settings : List Setting) (o : CliOptions)
    → AreValid settings
    → parse_args (command_line settings) o ≡ with_settings o settings
unfolding parse_args command_line apply_flag matches str_eq set_port IsValid AreValid last_host
    last_port last_pid all_files
parse_args-command_line [] o v =
    ap (λ files. record o { open_files = files }) (sym (append-nil o.open_files))
parse_args-command_line (file_by_o f ∷ rest) o (u, v) =
    parse_args-command_line rest (record o { open_files = o.open_files ++ f ∷ [] }) v
    ∙ with_file f rest o
parse_args-command_line (file_by_open f ∷ rest) o (u, v) =
    parse_args-command_line rest (record o { open_files = o.open_files ++ f ∷ [] }) v
    ∙ with_file f rest o
parse_args-command_line (host_by_h h ∷ rest) o (u, v) =
    parse_args-command_line rest (record o { hostname = h }) v
parse_args-command_line (host_by_hostname h ∷ rest) o (u, v) =
    parse_args-command_line rest (record o { hostname = h }) v
parse_args-command_line (host_by_host h ∷ rest) o (u, v) =
    parse_args-command_line rest (record o { hostname = h }) v
parse_args-command_line (port_by_p p ∷ rest) o ((low, high), v) =
    ap (λ port. parse_args (command_line rest) (set_port port o)) (parse_port-decimal p low high)
    ∙ parse_args-command_line rest (record o { port = pos p }) v
parse_args-command_line (port_by_port p ∷ rest) o ((low, high), v) =
    ap (λ port. parse_args (command_line rest) (set_port port o)) (parse_port-decimal p low high)
    ∙ parse_args-command_line rest (record o { port = pos p }) v
parse_args-command_line (debugger_pid p ∷ rest) o ((low, high), v) =
    ap (λ pid. parse_args (command_line rest) (record o { agent_debugger_pid = pid }))
      (parse_positive_int-decimal p low high)
    ∙ parse_args-command_line rest (record o { agent_debugger_pid = some (pos p) }) v
parse_args-command_line (other s ∷ rest) o (u, v) =
    parse_args-other s (command_line rest) o u ∙ parse_args-command_line rest o v

-- Any flags, in every spelling and order, with ports from 1 to 65535 and processes of 31 bits
-- above 0, and among them any arguments that are no flag, are parsed to the last host, port and
-- process, or the defaults, and all the files in their order, also where a value looks like a
-- flag.
pub parse_cli-command_line :
    (settings : List Setting)
    → AreValid settings
    → parse_cli (command_line settings) ≡ record {
      hostname = last_host (codes "127.0.0.1") settings;
      port = last_port (pos 9588) settings;
      open_files = all_files settings;
      agent_debugger_pid = last_pid none settings;
    }
unfolding parse_cli
parse_cli-command_line settings v = parse_args-command_line settings default_options v
