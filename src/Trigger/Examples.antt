-- ===== src/Trigger/Examples.antt =====
-- A hook with a token and a request that has another one.
use webhook_ui.Common.{◌≡◌, ◌⊎◌, refl, false, some, [], ◌∷◌, ◌++◌, lookup, string_eq, bytes, pos}
use webhook_ui.Models.{Hook}
use webhook_ui.Store.{empty_db}
use webhook_ui.Runner.{new_runner}
use webhook_ui.Executor.Examples.{test_platform}
use webhook_ui.Chain.{Service}
use webhook_ui.Trigger.{TriggerFaults, trigger}
use webhook_ui.Trigger.Input.{Packages, Request}
use webhook_ui.Trigger.Guard.{IsAuthentic, IsServed, IsRefused, trigger_guarded}

-- Stand-ins: the digest is the key behind the message.
abbrev test_packages : Packages
test_packages = record {
  to_lower = λ s. s;
  to_upper = λ s. s;
  mac = λ hash key message. message ++ key;
  encode_to_string = λ s. s;
  canonical = λ s. s;
  unmarshal = λ s. [];
}

abbrev deploy : Hook
deploy = record {
  success_hook_id = "";
  success_body = "";
  id = "deploy";
  name = "deploy";
  command = "true";
  script_id = "";
  ssh_host_id = "";
  working_dir = "";
  response_message = "OK";
  hmac_secret = "";
  hmac_algorithm = "sha256";
  trigger_token = "t0ken";
  pass_arguments = [];
  pass_headers = [];
  pass_payload_to = "";
  async = false;
  timeout_seconds = pos 30;
}

abbrev wrong_token : Request
wrong_token = record {
  body = some (bytes "{}");
  headers = ("X-Token", bytes "guess" ∷ []) ∷ [];
  query = [];
  client_ip = "192.0.2.1";
}

abbrev no_faults : TriggerFaults
no_faults = record {
  select_hook = false;
  log = false;
  start = record { select_host = false; insert_row = false; last_id = false };
  run = record { select_script = false; select_host = false; update_host = false };
  finish = false;
  dispatch = record {
    begin = false;
    select = false;
    select_hook = false;
    start = record { select_host = false; insert_row = false; last_id = false };
    update = false;
    commit = false;
    new_request = false;
  };
  save = false;
}

abbrev stored : Service
stored = record {
  db = record empty_db { hooks = ("deploy", deploy) ∷ [] };
  runner = new_runner (pos 1) (pos 1);
}

is_stored : lookup "deploy" stored.db.hooks ≡ some deploy
unfolding lookup
is_stored = refl

trigger_guarded_example :
    let reached =
      trigger test_packages test_platform [] (λ s. s) no_faults 7 "deploy" wrong_token stored in
    (IsAuthentic test_packages deploy wrong_token (bytes "{}")
      × IsServed test_packages test_platform []
          (λ s. s)
          no_faults
          7
          deploy
          wrong_token
          (bytes "{}")
          stored
          reached)
    ⊎ (¬ IsAuthentic test_packages deploy wrong_token (bytes "{}")
        × IsRefused no_faults 7 deploy wrong_token stored reached)
trigger_guarded_example =
    trigger_guarded test_packages test_platform [] (λ s. s) no_faults 7 "deploy" wrong_token stored
      deploy (bytes "{}") refl is_stored refl
