-- ===== src/Executor.antt =====
-- internal/services/executor.go up to the start of a process, ExecuteScriptSSH and
-- ExecuteCommandSSH
-- of internal/services/ssh.go, and internal/handlers/scriptexec.go: what is run, and where.
--
-- What the operating system and golang.org/x/crypto/ssh do is a `Platform`.
pub mod Whitelist
pub mod Examples
use webhook_ui.Common.{
  ℕ, String, Bool, true, false, not, ◌&&◌, ◌||◌, Option, none, some, ◌⊎◌, inl, inr, List, [], ◌∷◌,
  ◌++◌, ◌==◌, nat_beq, string_eq, bytes_eq, if◌then◌else◌, lookup, adjust, Bytes, bytes,
}
use webhook_ui.Models.{Hook, Script, SshHost, is_interpreter_for_os, target_os_windows}
use webhook_ui.Store.{Db}
use webhook_ui.Shell.{
  Env, ssh_script_command, ssh_command_line, powershell_preamble, windows_command_line,
}

pub record ExecuteResult : Type 0 where
  pub output : Bytes
  pub error : Bytes
  pub success : Bool
  pub canceled : Bool
  pub timed_out : Bool

-- A result whose `Success` is false, and whose only other field is the error.
abbrev pub failure : Bytes → ExecuteResult
failure error = record {
  output = [];
  error = error;
  success = false;
  canceled = false;
  timed_out = false;
}

pub record Platform : Type 0 where
  -- strings.Fields, strings.TrimSpace
  pub fields : Bytes → List Bytes
  pub trim_space : Bytes → Bytes
  -- exec.LookPath, filepath.Abs
  pub look_path : Bytes → Option Bytes
  pub abs : Bytes → Option Bytes
  -- os.PathSeparator
  pub separator : ℕ
  -- the temporary file of a script: an error, or its path
  pub write_script : Bytes → Bytes ⊎ Bytes
  -- run: a command with its arguments, its additions to the environment and its directory
  pub run : List Bytes → Env → Bytes → ExecuteResult
  -- DialSSH: an error, or a connection and the host key learned
  pub dial : SshHost → Bytes ⊎ (ℕ × String)
  -- runSSHSession
  pub run_ssh_session : (client : ℕ) → Bytes → Option Bytes → ExecuteResult
  -- the text of the error of windowsCommandLine
  pub quote_error : Bytes

unfoldable pub has_prefix : (s prefix : Bytes) → Bool
has_prefix s [] = true
has_prefix [] (p ∷ prefix) = false
has_prefix (c ∷ s) (p ∷ prefix) = nat_beq c p && has_prefix s prefix

unfoldable pub has_byte : ℕ → Bytes → Bool
has_byte b [] = false
has_byte b (c ∷ s) = nat_beq c b || has_byte b s

-- The loop of isAllowed.
unfoldable pub is_listed : (separator : ℕ) → List Bytes → Bytes → Bool
unfolding has_prefix
is_listed separator [] path = false
is_listed separator (allowed ∷ rest) path =
    path == allowed || has_prefix path (allowed ++ separator ∷ []) || is_listed separator rest path

-- The absolute path that isAllowed looks up.
unfoldable pub base_path : Platform → Bytes → Option Bytes
unfolding has_byte
base_path p cmd = elim (p.fields cmd) [
  | [] ↦ none
  | base ∷ _ ↦
      if has_byte b'/' base
      then p.abs base
      else elim (p.look_path base) [ none ↦ none | some resolved ↦ p.abs resolved ]
]

unfoldable pub is_allowed : Platform → List Bytes → Bytes → Bool
unfolding base_path is_listed
is_allowed p allowed_commands cmd = elim (base_path p cmd) [
  | none ↦ false
  | some path ↦ is_listed p.separator allowed_commands path
]

unfoldable pub execute_command : Platform → List Bytes → Hook → Env → List Bytes → ExecuteResult
unfolding is_allowed bytes
execute_command p allowed_commands hook env args =
    if not (is_allowed p allowed_commands (bytes hook.command))
    then failure (bytes "command not allowed: " ++ bytes hook.command)
    else p.run (p.fields (bytes hook.command) ++ args) env (bytes hook.working_dir)

unfoldable pub execute_script :
    Platform
    → List Bytes
    → (interpreter content : String) → List Bytes
    → Env
    → (work_dir : Bytes) → ExecuteResult
unfolding is_allowed bytes
execute_script p allowed_commands interpreter content args env work_dir =
    if not (is_allowed p allowed_commands (bytes interpreter))
    then failure (bytes "interpreter not allowed: " ++ bytes interpreter)
    else elim (p.look_path (bytes interpreter)) [
      | none ↦ failure (bytes "interpreter not found: " ++ bytes interpreter)
      | some bin_path ↦ elim (p.write_script (bytes content)) [
        | inl error ↦ failure error
        | inr script_path ↦ p.run (bin_path ∷ script_path ∷ args) env work_dir
      ]
    ]

-- The error quotes the interpreter as %q does for a name without special characters.
unfoldable pub execute_script_ssh :
    Platform
    → (client : ℕ) → (target_os interpreter content : String) → List Bytes
    → Env
    → (work_dir : Bytes) → ExecuteResult
unfolding ssh_script_command powershell_preamble bytes is_interpreter_for_os
execute_script_ssh p client target_os interpreter content args env work_dir =
    if not (is_interpreter_for_os interpreter target_os)
    then failure (
        bytes "interpreter \""
        ++ (bytes interpreter
            ++ (bytes "\" cannot run on a " ++ (bytes target_os ++ bytes " target"))))
    else if target_os == target_os_windows
    then p.run_ssh_session client
        (bytes "powershell -NoLogo -NoProfile -NonInteractive -ExecutionPolicy Bypass -Command -")
        (some (
          powershell_preamble args env work_dir
          ++ (bytes content ++ bytes "\nexit $LASTEXITCODE\n")))
    else p.run_ssh_session client (ssh_script_command (bytes interpreter) args env work_dir)
        (some (bytes content))

unfoldable pub execute_command_ssh :
    Platform
    → (client : ℕ) → (target_os command : String) → List Bytes
    → Env
    → (work_dir : Bytes) → ExecuteResult
unfolding ssh_command_line windows_command_line bytes
execute_command_ssh p client target_os command args env work_dir =
    if p.trim_space (bytes command) == []
    then failure (bytes "command is empty")
    else if target_os == target_os_windows
    then elim (windows_command_line (bytes command) args env work_dir) [
      | none ↦ failure p.quote_error
      | some line ↦ p.run_ssh_session client line none
    ]
    else p.run_ssh_session client (ssh_command_line (bytes command) args env work_dir) none

pub record RunFaults : Type 0 where
  pub select_script : Bool
  pub select_host : Bool
  pub update_host : Bool

abbrev pub persist_learned_host_key : Bool → String → String → Db → Db
persist_learned_host_key fails host_id learned_key db =
    if learned_key == "" || fails then db else record db {
      ssh_hosts = adjust host_id (λ h. record h { host_key = learned_key }) db.ssh_hosts;
    }

unfoldable pub run_remote :
    Platform → RunFaults → String → (ℕ → SshHost → ExecuteResult) → Db → ExecuteResult × Db
unfolding bytes
run_remote p f ssh_host_id run db =
    let missing : ExecuteResult × Db =
      (failure (bytes "ssh host not found: " ++ bytes ssh_host_id), db) in
    if f.select_host then missing else elim (lookup ssh_host_id db.ssh_hosts) [
      | none ↦ missing
      | some host ↦ elim (p.dial host) [
        | inl error ↦ (failure error, db)
        | inr (client, learned_key) ↦
            (run client host, persist_learned_host_key f.update_host host.id learned_key db)
      ]
    ]

unfoldable pub run_script :
    Platform
    → List Bytes
    → RunFaults
    → (interpreter content ssh_host_id : String) → List Bytes
    → Env
    → (work_dir : Bytes) → Db
    → ExecuteResult × Db
unfolding execute_script execute_script_ssh run_remote
run_script p allowed_commands f interpreter content ssh_host_id args env work_dir db =
    if ssh_host_id == ""
    then (execute_script p allowed_commands interpreter content args env work_dir, db)
    else run_remote p f ssh_host_id
        (λ client host.
          execute_script_ssh p client host.target_os interpreter content args env work_dir)
        db

unfoldable pub run_command :
    Platform → List Bytes → RunFaults → Hook → List Bytes → Env → Db → ExecuteResult × Db
unfolding execute_command execute_command_ssh run_remote bytes
run_command p allowed_commands f hook args env db =
    if hook.ssh_host_id == ""
    then (execute_command p allowed_commands hook env args, db)
    else run_remote p f hook.ssh_host_id
        (λ client host.
          execute_command_ssh p client host.target_os hook.command args env
            (bytes hook.working_dir))
        db

-- (*WebhookHandler).execute
unfoldable pub execute :
    Platform → List Bytes → RunFaults → Hook → Env → List Bytes → Db → ExecuteResult × Db
unfolding run_command run_script bytes
execute p allowed_commands f hook env args db =
    let missing : ExecuteResult × Db =
      (failure (bytes "script not found: " ++ bytes hook.script_id), db) in
    if hook.script_id == ""
    then run_command p allowed_commands f hook args env db
    else if f.select_script
    then missing
    else elim (lookup hook.script_id db.scripts) [
      | none ↦ missing
      | some script ↦
          run_script p allowed_commands f script.interpreter script.content hook.ssh_host_id args
            env (bytes hook.working_dir) db
    ]
