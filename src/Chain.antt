-- ===== src/Chain.antt =====
-- internal/handlers/success_chain.go: starting an execution, recording its result, and handing
-- over to the hook that is configured to run after a success.
--
-- SQLite runs one statement or transaction at a time (`SetMaxOpenConns(1)`), so each function but
-- dispatch_success is one step on the database. A `Faults` record says which of its statements fail. `none` is a
-- panic of the runner.
pub mod Admissions
pub mod Handoffs
pub mod Retry
pub mod Retries
pub mod Once
mod Examples
use webhook_ui.Common.{
  ℕ, ◌+◌, String, Bool, true, false, not, ◌&&◌, ◌||◌, Option, none, some, List, [], ◌∷◌, ◌++◌, ◌==◌,
  nat_eq, string_eq, if◌then◌else◌, Map, lookup, insert, adjust, Bytes,
}
use webhook_ui.Models.{Status, Handoff, ExecTarget, local, remote, Hook, contains}
use webhook_ui.Runner.{Runner, Admission, admitted, hook_busy, queue_full, admit, release}
use webhook_ui.Store.{
  Db, Execution, ChainError, HandoffNote, no_note, failed_with, insert_execution, update_execution,
  is_queued_or_running, sql_error, hook_unavailable, host_unavailable, bad_path, loop_refused,
  request_error,
}

pub data Result {ℓ} (A : Type ℓ) : Type ℓ where
  ok : A → Result A
  err : ChainError → Result A

-- `target` of startHookExecution.
unfoldable pub exec_target_of : Bool → Hook → Db → Result ExecTarget
exec_target_of fails hook db =
    if hook.ssh_host_id == ""
    then ok local
    else if fails
    then err host_unavailable
    else elim (lookup hook.ssh_host_id db.ssh_hosts) [
      | none ↦ err host_unavailable
      | some host ↦ ok (remote host.user host.host host.port)
    ]

pub record StartFaults : Type 0 where
  pub select_host : Bool
  pub insert_row : Bool
  pub last_id : Bool

abbrev pub new_execution : ℕ → Hook → String → Status → ℕ → List String → ExecTarget → Execution
new_execution now hook source status parent path target = record {
  hook_id = hook.id;
  trigger_source = source;
  exec_target = some target;
  status = status;
  output = [];
  error = [];
  started_at = now;
  finished_at = none;
  parent_execution_id = parent;
  chain_path = some path;
  success_hook_id = hook.success_hook_id;
  success_body = hook.success_body;
  success_status = Handoff.unset;
  success_error = no_note;
  success_execution_id = 0;
  success_attempt = 0;
}

unfoldable pub start_hook_execution :
    StartFaults → ℕ → Hook → String → Status → ℕ → List String → Db → Result ℕ × Db
start_hook_execution f now hook source status parent path db =
    elim (exec_target_of f.select_host hook db) [
      | err e ↦ (err e, db)
      | ok target ↦
          if f.insert_row
          then (err sql_error, db)
          else let (id, db') =
              insert_execution (new_execution now hook source status parent path target) db in
            if f.last_id then (err sql_error, db') else (ok id, db')
    ]

-- The row that `finishHookExecution` writes.
abbrev pub finished : ℕ → Status → Bytes → Bytes → Execution → Execution
finished now Status.success output error e = record e {
  status = Status.success;
  output = output;
  error = error;
  finished_at = some now;
  success_status = if e.success_hook_id == "" then Handoff.unset else Handoff.pending;
  success_attempt = if e.success_hook_id == "" then 0 else 1;
}
finished now status output error e = record e {
  status = status;
  output = output;
  error = error;
  finished_at = some now;
  success_status = Handoff.unset;
  success_attempt = 0;
}

unfoldable pub finish_hook_execution : Bool → ℕ → ℕ → Status → Bytes → Bytes → Db → Db
finish_hook_execution fails now id status output error db =
    if fails
    then db
    else update_execution id
        (λ e. if is_queued_or_running e.status then finished now status output error e else e) db

pub record DispatchFaults : Type 0 where
  pub begin : Bool
  pub select : Bool
  pub select_hook : Bool
  pub start : StartFaults
  pub update : Bool
  pub commit : Bool
  pub new_request : Bool

pub record Service : Type 0 where
  pub db : Db
  pub runner : Runner

pub data Dispatch : Type 0 where
  -- `return nil` with nothing launched
  nothing : Dispatch
  refused : ChainError → Dispatch
  -- the arguments of `launchHook`
  launched : (child slot : ℕ) → Hook → Dispatch

-- Returning an error after `Admit`: `slot.Release` and `tx.Rollback`, which is void after a commit.
unfoldable pub abandon : ℕ → ChainError → Db → Runner → Option (Dispatch × Service)
abandon slot e db runner = elim (release slot runner) [
  | none ↦ none
  | some r ↦ some (refused e, record { db = db; runner = r })
]

abbrev pub dispatched_to : ℕ → Execution → Execution
dispatched_to child e = record e {
  success_status = Handoff.dispatched;
  success_error = no_note;
  success_execution_id = child;
}

-- dispatchPendingSuccess, after the runner admitted `hook`.
unfoldable pub dispatch_admitted :
    DispatchFaults → ℕ → ℕ → Hook → String → List String → ℕ → Service → Option (Dispatch × Service)
unfolding abandon
dispatch_admitted f now parent hook target path slot s =
    let (r, db') =
      start_hook_execution f.start now hook "success-hook" Status.queued parent
        (path ++ target ∷ []) s.db in
    elim r [
      | err e ↦ abandon slot e s.db s.runner
      | ok child ↦
          let db'' = update_execution parent (dispatched_to child) db' in
          if f.update || f.commit
          then abandon slot sql_error s.db s.runner
          else if f.new_request
          then abandon slot request_error db'' s.runner
          else some (launched child slot hook, record { db = db''; runner = s.runner })
    ]

unfoldable pub admit_successor :
    DispatchFaults → ℕ → ℕ → Hook → String → List String → Service → Option (Dispatch × Service)
unfolding dispatch_admitted
admit_successor f now parent hook target path s =
    let (a, runner) = admit target s.runner in
    elim a [
      | hook_busy id ↦ some (refused ChainError.hook_busy, s)
      | queue_full ↦ some (refused ChainError.queue_full, s)
      | admitted slot ↦
          dispatch_admitted f now parent hook target path slot (record s { runner = runner })
    ]

-- dispatchPendingSuccess, with the parent's row.
unfoldable pub dispatch_row :
    DispatchFaults → ℕ → ℕ → Execution → Service → Option (Dispatch × Service)
unfolding admit_successor
dispatch_row f now parent e s =
    if f.select_hook
    then some (refused hook_unavailable, s)
    else elim (lookup e.success_hook_id s.db.hooks) [
      | none ↦ some (refused hook_unavailable, s)
      | some hook ↦ elim e.chain_path [
        | none ↦ some (refused bad_path, s)
        | some path ↦
            if contains path e.success_hook_id
            then some (refused (loop_refused e.success_hook_id), s)
            else admit_successor f now parent hook e.success_hook_id path s
      ]
    ]

abbrev pub is_success : Status → Bool
is_success Status.success = true
is_success _ = false

abbrev pub is_pending : Handoff → Bool
is_pending Handoff.pending = true
is_pending _ = false

unfoldable pub dispatch_pending_success :
    DispatchFaults → ℕ → ℕ → Service → Option (Dispatch × Service)
unfolding dispatch_row
dispatch_pending_success f now parent s =
    if f.begin || f.select
    then some (refused sql_error, s)
    else elim (lookup parent s.db.executions) [
      | none ↦ some (nothing, s)
      | some e ↦
          if is_success e.status && is_pending e.success_status
          then dispatch_row f now parent e s
          else some (nothing, s)
    ]

-- The row after a failed dispatch: `UPDATE … WHERE success_status='pending'`.
abbrev pub handoff_failed : ChainError → Execution → Execution
handoff_failed e row =
    if is_pending row.success_status
    then record row { success_status = Handoff.failed; success_error = failed_with e }
    else row

-- The transaction, and the update after one that failed, in turn, as one request calls them with
-- nothing in between. Workers and Once make them two steps.
unfoldable pub dispatch_success :
    DispatchFaults → Bool → ℕ → ℕ → Service → Option (Dispatch × Service)
dispatch_success f save_fails now parent s = elim (dispatch_pending_success f now parent s) [
  | none ↦ none
  | some (refused e, s') ↦
      if save_fails
      then some (refused e, s')
      else some (refused e, record s' { db = update_execution parent (handoff_failed e) s'.db })
  | some (other, s') ↦ some (other, s')
]
