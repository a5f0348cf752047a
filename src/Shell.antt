-- ===== src/Shell.antt =====
-- The command lines of internal/services/ssh.go, over the bytes of Go's strings.
pub mod Posix
pub mod Variables
pub mod CommandLine
pub mod Windows
mod Examples
use webhook_ui.Common.{
  ℕ, ◌+◌, ◌-◌, Bool, true, false, not, ◌&&◌, ◌||◌, Option, none, some, List, [], ◌∷◌, ◌++◌, Bytes,
  bytes, ltb, leb, nat_beq, ◌==◌, bytes_eq, if◌then◌else◌,
}

-- strings.ReplaceAll(s, old, new), for an `old` of one byte.
unfoldable pub replace_all : ℕ → Bytes → Bytes → Bytes
replace_all old new [] = []
replace_all old new (c ∷ s) =
    let rest = replace_all old new s in if nat_beq c old then new ++ rest else c ∷ rest

-- 0x27 is the single quote, 0x5C the backslash.
unfoldable pub shell_escape : Bytes → Bytes
unfolding replace_all
shell_escape s = 0x27 ∷ replace_all 0x27 (0x27 ∷ 0x5C ∷ 0x27 ∷ 0x27 ∷ []) s ++ 0x27 ∷ []

unfoldable pub cd_prefix : Bytes → Bytes
unfolding bytes shell_escape
cd_prefix [] = []
cd_prefix (c ∷ dir) = bytes "cd " ++ (shell_escape (c ∷ dir) ++ bytes " && ")

is_letter : ℕ → Bool
is_letter c = leb b'A' c && leb c b'Z' || leb b'a' c && leb c b'z' || nat_beq c b'_'

is_digit : ℕ → Bool
is_digit c = leb b'0' c && leb c b'9'

all_word : Bytes → Bool
unfolding is_letter is_digit
all_word [] = true
all_word (c ∷ s) = (is_letter c || is_digit c) && all_word s

-- envKeyPattern, ^[A-Za-z_][A-Za-z0-9_]*$
unfoldable pub is_env_key : Bytes → Bool
unfolding is_letter all_word
is_env_key [] = false
is_env_key (c ∷ s) = is_letter c && all_word s

-- The order of Go's strings.
unfoldable pub bytes_le : Bytes → Bytes → Bool
bytes_le [] t = true
bytes_le (a ∷ s) [] = false
bytes_le (a ∷ s) (b ∷ t) = ltb a b || nat_beq a b && bytes_le s t

abbrev pub Env : Type 0
Env = List (Bytes × Bytes)

unfoldable pub insert_key : Bytes × Bytes → Env → Env
unfolding bytes_le
insert_key kv [] = kv ∷ []
insert_key (k, v) ((j, w) ∷ rest) =
    if bytes_le k j then (k, v) ∷ (j, w) ∷ rest else (j, w) ∷ insert_key (k, v) rest

-- The variables of sortedEnvKeys, with their values. An environment is a Go map: no key twice.
unfoldable pub sorted_env : Env → Env
unfolding insert_key is_env_key
sorted_env [] = []
sorted_env ((k, v) ∷ env) =
    let rest = sorted_env env in if is_env_key k then insert_key (k, v) rest else rest

unfoldable pub assignments : Env → Bytes
assignments [] = []
assignments ((k, v) ∷ env) = k ++ (0x3D ∷ (shell_escape v ++ (0x20 ∷ assignments env)))

unfoldable pub env_prefix : Env → Bytes
unfolding assignments sorted_env
env_prefix env = assignments (sorted_env env)

-- `for _, a := range args { b.WriteByte(' '); b.WriteString(shellEscape(a)) }`
unfoldable pub escaped_args : List Bytes → Bytes
escaped_args [] = []
escaped_args (a ∷ args) = 0x20 ∷ shell_escape a ++ escaped_args args

unfoldable pub ssh_script_command : (interpreter : Bytes) → List Bytes → Env → Bytes → Bytes
unfolding cd_prefix env_prefix escaped_args bytes
ssh_script_command interpreter args env work_dir =
    cd_prefix work_dir
    ++ (env_prefix env
        ++ (interpreter
            ++ ((if interpreter == bytes "python3" then bytes " -" else bytes " -s --")
                ++ escaped_args args)))

unfoldable pub ssh_command_line : Bytes → List Bytes → Env → Bytes → Bytes
unfolding cd_prefix env_prefix escaped_args
ssh_command_line command args env work_dir =
    cd_prefix work_dir ++ (env_prefix env ++ (command ++ escaped_args args))

unfoldable pub ps_escape : Bytes → Bytes
unfolding replace_all
ps_escape s = 0x27 ∷ replace_all 0x27 (0x27 ∷ 0x27 ∷ []) s ++ 0x27 ∷ []

ps_assignments : Env → Bytes
unfolding ps_escape bytes
ps_assignments [] = []
ps_assignments ((k, v) ∷ env) =
    bytes "$env:" ++ k ++ bytes " = " ++ ps_escape v ++ bytes "\n" ++ ps_assignments env

-- `true` for the first argument, which no comma precedes.
unfoldable pub ps_args : Bool → List Bytes → Bytes
unfolding ps_escape
ps_args first [] = []
ps_args true (a ∷ args) = ps_escape a ++ ps_args false args
ps_args false (a ∷ args) = 0x2C ∷ 0x20 ∷ ps_escape a ++ ps_args false args

unfoldable pub ps_location : Bytes → Bytes
unfolding ps_escape bytes
ps_location [] = []
ps_location (c ∷ dir) =
    bytes "Set-Location -LiteralPath "
    ++ ps_escape (c ∷ dir)
    ++ bytes "\n"
    ++ bytes "if (-not $?) { exit 1 }\n"

unfoldable pub powershell_preamble : List Bytes → Env → Bytes → Bytes
unfolding ps_location ps_assignments sorted_env ps_args bytes
powershell_preamble args env work_dir =
    ps_location work_dir
    ++ ps_assignments (sorted_env env)
    ++ bytes "$args = @("
    ++ ps_args true args
    ++ bytes ")\n"

-- strings.ContainsAny(s, "\"%\r\n")
unfoldable pub needs_cmd_escape : Bytes → Bool
needs_cmd_escape [] = false
needs_cmd_escape (c ∷ s) =
    nat_beq c 0x22 || nat_beq c 0x25 || nat_beq c 0x0D || nat_beq c 0x0A || needs_cmd_escape s

unfoldable pub cmd_quote : Bytes → Option Bytes
unfolding needs_cmd_escape
cmd_quote s = if needs_cmd_escape s then none else some (0x22 ∷ s ++ 0x22 ∷ [])

abbrev bind_option {ℓ κ} : {A : Type ℓ} {B : Type κ} → Option A → (A → Option B) → Option B
bind_option none f = none
bind_option (some a) f = f a

infixl 5 ◌>>=◌
abbrev ◌>>=◌ {ℓ κ} : {A : Type ℓ} {B : Type κ} → Option A → (A → Option B) → Option B
m >>= f = bind_option m f

unfoldable pub cmd_location : Bytes → Option Bytes
unfolding cmd_quote bytes
cmd_location [] = some []
cmd_location (c ∷ dir) = do q ← cmd_quote (c ∷ dir); some (bytes "cd /d " ++ q ++ bytes " && ")

unfoldable pub cmd_env : Env → Option Bytes
unfolding cmd_quote bytes
cmd_env [] = some []
cmd_env ((k, v) ∷ env) = do
  q ← cmd_quote (k ++ 0x3D ∷ v)
  rest ← cmd_env env
  some (bytes "set " ++ q ++ bytes " && " ++ rest)

unfoldable pub cmd_args : List Bytes → Option Bytes
unfolding cmd_quote
cmd_args [] = some []
cmd_args (a ∷ args) = do q ← cmd_quote a; rest ← cmd_args args; some (0x20 ∷ q ++ rest)

-- `none` is an error, whichever value cannot be quoted.
unfoldable pub windows_command_line : Bytes → List Bytes → Env → Bytes → Option Bytes
unfolding cmd_location cmd_env cmd_args sorted_env
windows_command_line command args env work_dir = do
  location ← cmd_location work_dir
  sets ← cmd_env (sorted_env env)
  tail ← cmd_args args
  some (location ++ sets ++ command ++ tail)
