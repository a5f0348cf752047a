-- ===== src/Models.antt =====
-- internal/models: the rows of the database, and what a request body must satisfy before it is
-- stored. A text that the code only compares and stores is a `String`; `json.Valid` is an argument.
pub mod Validation
mod Examples
use webhook_ui.Common.{
  ℕ, String, Bool, true, false, not, ◌&&◌, ◌||◌, Option, none, some, List, [], ◌∷◌, ◌==◌, string_eq,
  if◌then◌else◌, ℤ, is_below, is_above,
}

-- models.ExecutionStatus
pub data Status : Type 0 where
  queued running success failed interrupted canceled timeout : Status

-- The column `success_status`; `unset` is the empty text.
pub data Handoff : Type 0 where
  unset pending dispatched failed interrupted : Handoff

-- The column `exec_target`: "local", or the text `user@host:port`.
pub data ExecTarget : Type 0 where
  local : ExecTarget
  remote : String → String → ℤ → ExecTarget

pub record Hook : Type 0 where
  pub success_hook_id : String
  pub success_body : String
  pub id : String
  pub name : String
  pub command : String
  pub script_id : String
  pub ssh_host_id : String
  pub working_dir : String
  pub response_message : String
  pub hmac_secret : String
  pub hmac_algorithm : String
  pub trigger_token : String
  pub pass_arguments : List String
  pub pass_headers : List String
  pub pass_payload_to : String
  pub async : Bool
  pub timeout_seconds : ℤ

pub record Script : Type 0 where
  pub id : String
  pub name : String
  pub interpreter : String
  pub content : String
  pub description : String

pub record SshHost : Type 0 where
  pub id : String
  pub name : String
  pub host : String
  pub port : ℤ
  pub user : String
  pub auth_type : String
  pub target_os : String
  pub credential : String
  pub host_key : String

pub data HookError : Type 0 where
  invalid_success_body id_required name_required command_and_script command_or_script : HookError
  mixed_auth negative_timeout unlimited_sync : HookError

pub data ScriptError : Type 0 where
  name_required invalid_interpreter content_required : ScriptError

pub data HostError : Type 0 where
  name_required host_required port_range user_required : HostError
  invalid_auth_type invalid_target_os credential_required : HostError

-- (*Hook).Validate; `none` is the nil error.
unfoldable pub validate_hook : (String → Bool) → Hook → Option HookError
validate_hook json_valid h =
    if not (h.success_hook_id == "") && not (json_valid h.success_body)
    then some invalid_success_body
    else if h.id == ""
    then some HookError.id_required
    else if h.name == ""
    then some HookError.name_required
    else if not (h.command == "") && not (h.script_id == "")
    then some command_and_script
    else if h.command == "" && h.script_id == ""
    then some command_or_script
    else if not (h.hmac_secret == "") && not (h.trigger_token == "")
    then some mixed_auth
    else if is_below h.timeout_seconds 0
    then some negative_timeout
    else if not h.async && not (is_below h.timeout_seconds 0 || is_above h.timeout_seconds 0)
    then some unlimited_sync
    else none

-- `int(services.DefaultTimeout.Seconds())`
abbrev pub default_timeout_seconds : ℤ
default_timeout_seconds = ℤ.pos 300

-- handlers.applyTimeoutDefault
unfoldable pub apply_timeout_default : Hook → Hook
apply_timeout_default h =
    if not h.async && not (is_below h.timeout_seconds 0 || is_above h.timeout_seconds 0)
    then record h { timeout_seconds = default_timeout_seconds }
    else h

unfoldable pub contains : List String → String → Bool
contains [] s = false
contains (it ∷ rest) s = it == s || contains rest s

abbrev pub valid_interpreters : List String
valid_interpreters = "bash" ∷ "sh" ∷ "python3" ∷ "powershell" ∷ []

abbrev pub windows_interpreters : List String
windows_interpreters = "powershell" ∷ []

abbrev pub target_os_linux : String
target_os_linux = "linux"

abbrev pub target_os_windows : String
target_os_windows = "windows"

unfoldable pub is_valid_interpreter : String → Bool
unfolding contains
is_valid_interpreter name = contains valid_interpreters name

unfoldable pub is_interpreter_for_os : String → String → Bool
unfolding is_valid_interpreter
is_interpreter_for_os name target_os =
    if target_os == target_os_windows
    then contains windows_interpreters name
    else is_valid_interpreter name && not (contains windows_interpreters name)

-- (*Script).Validate
unfoldable pub validate_script : Script → Option ScriptError
unfolding is_valid_interpreter
validate_script s =
    if s.name == ""
    then some ScriptError.name_required
    else if not (is_valid_interpreter s.interpreter)
    then some invalid_interpreter
    else if s.content == ""
    then some content_required
    else none

-- (*SSHHost).Validate
unfoldable pub validate_host : SshHost → Option HostError
validate_host h =
    if h.name == ""
    then some HostError.name_required
    else if h.host == ""
    then some host_required
    else if not (is_above h.port 0) || is_above h.port 65535
    then some port_range
    else if h.user == ""
    then some user_required
    else if not (h.auth_type == "key") && not (h.auth_type == "password")
    then some invalid_auth_type
    else if not (h.target_os == target_os_linux) && not (h.target_os == target_os_windows)
    then some invalid_target_os
    else if h.credential == ""
    then some credential_required
    else none
