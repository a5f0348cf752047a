-- ===== src/Hooks/Examples.antt =====
-- Two hooks that are made one after the other, and an update that would close their cycle.
use webhook_ui.Common.{
  ◌≢◌, String, Bool, true, false, some, List, [], ◌∷◌, ◌==◌, string_eq, pos, Map, lookup,
}
use webhook_ui.Models.{Hook}
use webhook_ui.Store.{empty_db}
use webhook_ui.Hooks.{HookFaults, out_of_fuel, validate_success_target}
use webhook_ui.Hooks.Acyclic.{IsAcyclic}
use webhook_ui.Hooks.Handlers.{Request, creates, updates, removes, serve_all, serve_all-IsAcyclic}
use webhook_ui.Hooks.Graph.{validate_success_target-ne-out_of_fuel}

-- A stand-in for `json.Valid`.
abbrev is_object : String → Bool
is_object s = s == "{}"

abbrev hook_with : String → String → Hook
hook_with id target = record {
  success_hook_id = target;
  success_body = "{}";
  id = id;
  name = "step";
  command = "/bin/true";
  script_id = "";
  ssh_host_id = "";
  working_dir = "";
  response_message = "OK";
  hmac_secret = "";
  hmac_algorithm = "";
  trigger_token = "";
  pass_arguments = [];
  pass_headers = [];
  pass_payload_to = "";
  async = true;
  timeout_seconds = pos 0;
}

abbrev no_faults : HookFaults
no_faults = record {
  select_host = false;
  begin = false;
  walk = λ id. false;
  write = false;
  commit = false;
}

abbrev requests : List Request
requests =
    creates no_faults "x" (some (hook_with "b" ""))
    ∷ creates no_faults "x" (some (hook_with "a" "b"))
    ∷ updates no_faults "b" (some (hook_with "b" "a"))
    ∷ removes no_faults false "b"
    ∷ []

empty-IsAcyclic : IsAcyclic empty_db.hooks
unfolding lookup
empty-IsAcyclic = record { chain = λ id h at. cc }

serve_all-IsAcyclic_example : IsAcyclic (serve_all is_object requests empty_db).hooks
serve_all-IsAcyclic_example = serve_all-IsAcyclic is_object requests empty_db empty-IsAcyclic

abbrev two_hooks : Map String Hook
two_hooks = ("a", hook_with "a" "b") ∷ ("b", hook_with "b" "a") ∷ []

validate_success_target-ne-out_of_fuel_example :
    validate_success_target (λ id. false) two_hooks (hook_with "c" "a") ≢ out_of_fuel
validate_success_target-ne-out_of_fuel_example =
    validate_success_target-ne-out_of_fuel (λ id. false) two_hooks (hook_with "c" "a")
