-- ===== src/Chain/Examples.antt =====
-- A hook `a` that hands over to a hook `b`.
use webhook_ui.Common.{
  ℕ, ◌≡◌, refl, ◌⊎◌, true, false, some, [], ◌∷◌, lookup, insert, adjust, nat_eq, string_eq, arith,
  pos,
}
use webhook_ui.Models.{Status, Hook, local, contains}
use webhook_ui.Runner.{Runner, new_runner, admit}
use webhook_ui.Store.{Db, Execution, empty_db, insert_execution, update_execution}
use webhook_ui.Chain.{
  StartFaults, start_hook_execution, exec_target_of, new_execution, finish_hook_execution,
  DispatchFaults, Service, launched, dispatched_to, dispatch_pending_success,
}
use webhook_ui.Chain.Retry.{ClaimFaults, claimed, conflict, server_error, claim_success_retry}
use webhook_ui.Chain.Retries.{claim_twice}
use webhook_ui.Chain.Once.Runs.{
  Run, here, next, configures, starts, finishes, dispatches, at_most_one_successor,
}

abbrev plain_hook : Hook
plain_hook = record {
  success_hook_id = "";
  success_body = "";
  id = "b";
  name = "second";
  command = "/bin/sh";
  script_id = "";
  ssh_host_id = "";
  working_dir = "";
  response_message = "OK";
  hmac_secret = "";
  hmac_algorithm = "sha256";
  trigger_token = "";
  pass_arguments = [];
  pass_headers = [];
  pass_payload_to = "";
  async = true;
  timeout_seconds = pos 0;
}

abbrev first_hook : Hook
first_hook = record plain_hook {
  id = "a";
  name = "first";
  success_hook_id = "b";
  success_body = "{}";
}

abbrev configured : Db
configured = record empty_db { hooks = ("a", first_hook) ∷ ("b", plain_hook) ∷ [] }

abbrev no_start_faults : StartFaults
no_start_faults = record { select_host = false; insert_row = false; last_id = false }

abbrev no_faults : DispatchFaults
no_faults = record {
  begin = false;
  select = false;
  select_hook = false;
  start = no_start_faults;
  update = false;
  commit = false;
  new_request = false;
}

abbrev started : Db
started =
    (start_hook_execution no_start_faults 10 first_hook "10.0.0.1" Status.running 0 ("a" ∷ [])
      configured).1

abbrev succeeded : Db
succeeded = finish_hook_execution false 20 1 Status.success [] [] started

idle_runner : Runner
unfolding new_runner
idle_runner = new_runner (pos 2) (pos 3)

abbrev before : Service
before = record { db = succeeded; runner = idle_runner }

abbrev child : Execution
child = new_execution 21 plain_hook "success-hook" Status.queued 1 ("a" ∷ "b" ∷ []) local

-- The database after the dispatch.
after : Service
unfolding start_hook_execution exec_target_of finish_hook_execution insert_execution
    update_execution insert adjust admit idle_runner lookup
after = record {
  db = update_execution 1 (dispatched_to 2) (insert_execution child succeeded).1;
  runner = (admit "b" idle_runner).1;
}

handed_over : dispatch_pending_success no_faults 21 1 before ≡ some (launched 2 0 plain_hook, after)
unfolding after dispatch_pending_success contains
handed_over = refl

run : Run empty_db after.db
run =
    next
      (next
        (next (next here (configures {db' = configured} refl refl))
          (starts no_start_faults 10 first_hook "10.0.0.1" Status.running ("a" ∷ [])))
        (finishes false 20 1 Status.success [] []))
      (dispatches no_faults 21 1 before after (launched 2 0 plain_hook) refl refl handed_over refl)

child_row : lookup 2 after.db.executions ≡ some child
unfolding after
child_row = refl

at_most_one_successor_example : ◌≡◌ {A = ℕ} 2 2
at_most_one_successor_example =
    at_most_one_successor run 2 2 child child child_row child_row (omega arith) refl refl refl

abbrev no_claim_faults : ClaimFaults
no_claim_faults = record {
  begin = false;
  select = false;
  select_child = false;
  update = false;
  commit = false;
}

-- The successor failed.
failed : Db
unfolding after
failed = finish_hook_execution false 30 2 Status.failed [] [] after.db

granted : (claim_success_retry no_claim_faults 1 (pos 1) failed).0 ≡ claimed
unfolding failed claim_success_retry
granted = refl

claim_twice_example :
    let db' = (claim_success_retry no_claim_faults 1 (pos 1) failed).1 in
    (((claim_success_retry no_claim_faults 1 (pos 1) db').0 ≡ conflict)
      ⊎ ((claim_success_retry no_claim_faults 1 (pos 1) db').0 ≡ server_error))
    × ((claim_success_retry no_claim_faults 1 (pos 1) db').1 ≡ db')
claim_twice_example = claim_twice no_claim_faults no_claim_faults 1 (pos 1) failed granted
