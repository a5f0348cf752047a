-- ===== src/Shell/Examples.antt =====
-- Arguments with quotes in them.
use webhook_ui.Common.{
  ◌+◌, ◌≡◌, ◌≢◌, ◌⊎◌, refl, true, false, none, some, List, [], ◌∷◌, ◌++◌, map, length, Bytes, bytes,
  ◌==◌, bytes_eq, nat_eq, arith,
}
use webhook_ui.Shell.{Env, ssh_script_command, ps_args, cmd_args}
use webhook_ui.Shell.Posix.{read_words}
use webhook_ui.Shell.Variables.{IsArranged, HasSortedKeys}
use webhook_ui.Shell.CommandLine.{assignment, interpreter_flags, read_words-ssh_script_command}
use webhook_ui.Shell.Windows.{
  all_plain, read_ps_array, read_ps_array-ps_args, any_acting, is_inert, quoted_stretches,
  cmd_args_lem,
}

-- it's, and a; rm
abbrev quoted_args : List Bytes
quoted_args = (0x69 ∷ 0x74 ∷ 0x27 ∷ 0x73 ∷ []) ∷ (0x61 ∷ 0x3B ∷ 0x20 ∷ 0x72 ∷ 0x6D ∷ []) ∷ []

-- The key of the second variable is refused.
abbrev variables : Env
variables = (0x41 ∷ [], 0x24 ∷ 0x42 ∷ []) ∷ (0x2D ∷ [], 0x42 ∷ []) ∷ []

abbrev bash : Bytes
bash = 0x62 ∷ 0x61 ∷ 0x73 ∷ 0x68 ∷ []

read_words-ssh_script_command_example :
    (vars : Env) × IsArranged variables vars
    × HasSortedKeys vars
    × (read_words
          (length vars + (length quoted_args + 3))
          (0x20 ∷ ssh_script_command bash quoted_args variables [])
        ≡ some (
            map assignment vars
            ++ (bash ∷ (interpreter_flags (bash == bytes "python3") ++ quoted_args))))
read_words-ssh_script_command_example =
    read_words-ssh_script_command bash quoted_args variables refl

abbrev quoted_dir : Bytes
quoted_dir = 0x27 ∷ 0x2F ∷ []

directory : quoted_dir ≢ []
directory e = cc

plain_args : all_plain quoted_args ≡ true
unfolding all_plain
plain_args = refl

read_ps_array-ps_args_example :
    read_ps_array 2 true (ps_args true quoted_args ++ (0x29 ∷ 0x0A ∷ [])) ≡ some quoted_args
read_ps_array-ps_args_example =
    read_ps_array-ps_args 2 quoted_args (0x0A ∷ []) (omega arith) plain_args

cmd_args_lem_example :
    ((any_acting quoted_args ≡ true) × (cmd_args quoted_args ≡ none))
    ⊎ ((t : Bytes) × (any_acting quoted_args ≡ false)
        × (cmd_args quoted_args ≡ some t)
        × (is_inert false t ≡ true)
        × (quoted_stretches 2 t ≡ some quoted_args))
cmd_args_lem_example = cmd_args_lem 2 quoted_args (omega arith)
