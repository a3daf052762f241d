-- ===== src/Examples/CommandLine.antt =====
-- A host and a file that look like flags, and a port that is out of range.
use open_image_debugger.Prelude.{◌≡◌, refl, List, str_eq, none, [], ◌∷◌, pos, codes, arith}
use open_image_debugger.Host.CliOptions.{parse_cli}
use open_image_debugger.Host.CliOptions.Flags.{IsUsable, parse_cli-IsUsable}
use open_image_debugger.Host.CliOptions.CommandLine.{
  Setting, file_by_o, file_by_open, host_by_hostname, port_by_p, debugger_pid, other, command_line,
  is_flag, IsValid, AreValid, last_host, last_port, last_pid, all_files, parse_cli-command_line,
}

abbrev settings : List Setting
settings =
    other (codes "--verbose")
    ∷ file_by_open (codes "-o")
    ∷ port_by_p 9000
    ∷ host_by_hostname (codes "-p")
    ∷ debugger_pid 77
    ∷ file_by_o (codes "b.npy")
    ∷ []

settings-AreValid : AreValid settings
unfolding AreValid IsValid is_flag str_eq
settings-AreValid =
    (refl, (tt, ((omega arith, omega arith), (tt, ((omega arith, omega arith), (tt, tt))))))

parse_cli-command_line_example : parse_cli (command_line settings) ≡ record {
  hostname = last_host (codes "127.0.0.1") settings;
  port = last_port (pos 9588) settings;
  open_files = all_files settings;
  agent_debugger_pid = last_pid none settings;
}
parse_cli-command_line_example = parse_cli-command_line settings settings-AreValid

parse_cli-IsUsable_example : IsUsable (parse_cli (codes "-p" ∷ codes "70000" ∷ codes "-o" ∷ []))
parse_cli-IsUsable_example = parse_cli-IsUsable (codes "-p" ∷ codes "70000" ∷ codes "-o" ∷ [])
