-- ===== src/Execution.antt =====
-- The statements of internal/handlers/webhook.go and internal/handlers/execution.go on the
-- executions table: marking a run, ending it, and the startup sweep.
use webhook_ui.Common.{
  ℕ, String, Bool, ◌||◌, Option, none, some, [], nat_eq, if◌then◌else◌, map_values, tally, Bytes,
}
use webhook_ui.Models.{Status, Handoff}
use webhook_ui.Store.{
  Db, Execution, no_note, service_restarted, insert_execution, update_execution,
  is_queued_or_running,
}

-- (*WebhookHandler).markRunning
unfoldable pub mark_running : Bool → ℕ → ℕ → Db → Db
mark_running fails now id db =
    if fails
    then db
    else update_execution id (λ e. record e { status = Status.running; started_at = now }) db

-- (*WebhookHandler).logExecutionEnd
unfoldable pub log_execution_end : Bool → ℕ → ℕ → Status → Bytes → Bytes → Db → Db
log_execution_end fails now id status output error db =
    if fails
    then db
    else update_execution id
        (λ e. record e { status = status; output = output; error = error; finished_at = some now })
        db

-- (*WebhookHandler).logExecution: a refused trigger leaves a finished row.
unfoldable pub log_execution : Bool → ℕ → String → String → Status → Bytes → Bytes → Db → Db
log_execution fails now hook_id source status output error db =
    if fails
    then db
    else (insert_execution
        (record {
          hook_id = hook_id;
          trigger_source = source;
          exec_target = none;
          status = status;
          output = output;
          error = error;
          started_at = now;
          finished_at = some now;
          parent_execution_id = 0;
          chain_path = some [];
          success_hook_id = "";
          success_body = "";
          success_status = Handoff.unset;
          success_error = no_note;
          success_execution_id = 0;
          success_attempt = 0;
        })
        db).1

-- The two updates of SweepInterruptedExecutions, on a row.
abbrev pub interrupt_handoff : Execution → Execution
interrupt_handoff e = elim e.success_status [
  | Handoff.pending ↦ record e {
    success_status = Handoff.interrupted;
    success_error = service_restarted;
  }
  | _ ↦ e
]

abbrev pub interrupt_run : ℕ → Execution → Execution
interrupt_run now e =
    if is_queued_or_running e.status
    then record e { status = Status.interrupted; finished_at = some now }
    else e

pub record SweepFaults : Type 0 where
  pub begin : Bool
  pub handoffs : Bool
  pub runs : Bool
  pub count : Bool
  pub commit : Bool

-- SweepInterruptedExecutions: `none` is an error, with which the transaction is rolled back.
unfoldable pub sweep_interrupted_executions : SweepFaults → ℕ → Db → Option ℕ × Db
sweep_interrupted_executions f now db =
    if f.begin || f.handoffs || f.runs || f.count || f.commit then (none, db) else (
      some (tally (λ e. if is_queued_or_running e.status then 1 else 0) db.executions),
      record db {
        executions = map_values (interrupt_run now) (map_values interrupt_handoff db.executions);
      },
    )
