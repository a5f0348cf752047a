-- ===== src/Models/Examples.antt =====
-- A synchronous hook without a budget, and a host.
use webhook_ui.Common.{◌≡◌, ◌≢◌, ◌↔◌, String, Bool, false, none, some, [], ◌==◌, string_eq, pos}
use webhook_ui.Models.{
  Hook, SshHost, HookError, validate_hook, apply_timeout_default, validate_host,
}
use webhook_ui.Models.Validation.{
  IsValidHook, validate_hook_lem, validate-apply_timeout_default, IsValidHost, validate_host_lem,
}

-- A stand-in for `json.Valid`.
abbrev is_object : String → Bool
is_object s = s == "{}"

abbrev ping_hook : Hook
ping_hook = record {
  success_hook_id = "notify";
  success_body = "{}";
  id = "ping";
  name = "Ping";
  command = "/bin/ping";
  script_id = "";
  ssh_host_id = "";
  working_dir = "";
  response_message = "OK";
  hmac_secret = "";
  hmac_algorithm = "sha256";
  trigger_token = "t";
  pass_arguments = [];
  pass_headers = [];
  pass_payload_to = "";
  async = false;
  timeout_seconds = pos 0;
}

abbrev build_host : SshHost
build_host = record {
  id = "h";
  name = "build";
  host = "10.0.0.2";
  port = pos 22;
  user = "ci";
  auth_type = "key";
  target_os = "linux";
  credential = "k";
  host_key = "";
}

validate_hook_lem_example :
    (validate_hook is_object ping_hook ≡ none) ↔ IsValidHook is_object ping_hook
validate_hook_lem_example = validate_hook_lem is_object ping_hook

validate-apply_timeout_default_example :
    validate_hook is_object (apply_timeout_default ping_hook) ≢ some HookError.unlimited_sync
validate-apply_timeout_default_example = validate-apply_timeout_default is_object ping_hook

validate_host_lem_example : (validate_host build_host ≡ none) ↔ IsValidHost build_host
validate_host_lem_example = validate_host_lem build_host
