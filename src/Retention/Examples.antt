-- ===== src/Retention/Examples.antt =====
-- Three executions: an old one, its recent successor, and one that nothing keeps.
use webhook_ui.Common.{
  ◌≡◌, ◌⊎◌, ℕ, ◌+◌, refl, true, false, ◌||◌, none, some, [], ◌∷◌, lookup, nat_eq, IsUnique,
}
use webhook_ui.Models.{Status, Handoff}
use webhook_ui.Store.{Execution, Db, empty_db, no_note, stdout}
use webhook_ui.Retention.{CleanupFaults, cleanup_old_executions}
use webhook_ui.Retention.Cleanup.{IsCleaned, cleanup_old_executions-IsCleaned}

abbrev ran_at : ℕ → ℕ → Execution
ran_at started parent = record {
  hook_id = "deploy";
  trigger_source = "192.0.2.1";
  exec_target = none;
  status = Status.success;
  output = [];
  error = [];
  started_at = started;
  finished_at = some (started + 1);
  parent_execution_id = parent;
  chain_path = some [];
  success_hook_id = "";
  success_body = "";
  success_status = Handoff.unset;
  success_error = no_note;
  success_execution_id = 0;
  success_attempt = 0;
}

abbrev history : Db
history = record empty_db {
  executions = (1, ran_at 10 0) ∷ (2, ran_at 90 1) ∷ (3, ran_at 11 0) ∷ [];
  last_execution = 3;
  logs = record { id = 1; execution_id = 3; seq = 1; stream = stdout; chunk = [] } ∷ [];
  last_log = 1;
}

abbrev no_faults : CleanupFaults
no_faults = record {
  begin = false;
  logs = false;
  executions = false;
  count = false;
  commit = false;
}

each_once : IsUnique history.executions
unfolding lookup
each_once = (refl, (refl, (refl, tt)))

cleanup_old_executions-IsCleaned_example :
    ((cleanup_old_executions no_faults 50 history ≡ (none, history))
      × ((no_faults.begin || no_faults.logs || no_faults.executions || no_faults.count
            || no_faults.commit)
          ≡ true))
    ⊎ ((removed : ℕ) × (db' : Db) × (cleanup_old_executions no_faults 50 history
          ≡ (some removed, db'))
        × IsCleaned 50 history db' removed)
cleanup_old_executions-IsCleaned_example =
    cleanup_old_executions-IsCleaned no_faults 50 history each_once
