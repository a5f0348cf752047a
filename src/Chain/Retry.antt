-- ===== src/Chain/Retry.antt =====
-- internal/handlers/success_chain.go: running a failed successor again (claimSuccessRetry and the
-- handler RetrySuccessor).
use webhook_ui.Common.{
  ℕ, ◌+◌, Bool, true, false, not, ◌||◌, Option, none, some, ◌==◌, nat_eq, string_eq, if◌then◌else◌,
  lookup, map_option, ℤ, pos,
}
use webhook_ui.Models.{Status, Handoff}
use webhook_ui.Store.{Db, Execution, no_note, update_execution}
use webhook_ui.Chain.{is_success, DispatchFaults, Dispatch, Service, dispatch_success}

pub record ClaimFaults : Type 0 where
  pub begin : Bool
  pub select : Bool
  pub select_child : Bool
  pub update : Bool
  pub commit : Bool

-- The status codes of claimSuccessRetry.
pub data Claim : Type 0 where
  claimed not_found conflict server_error : Claim

-- A successor's status that lets it be run again.
abbrev pub has_stopped : Status → Bool
has_stopped Status.failed = true
has_stopped Status.canceled = true
has_stopped Status.interrupted = true
has_stopped Status.timeout = true
has_stopped _ = false

-- `eligible`; `none` is the answer that the successor's row cannot be read.
unfoldable pub eligible : Bool → Execution → Db → Option Bool
eligible select_child_fails e db = elim e.success_status [
  | Handoff.failed ↦ some true
  | Handoff.interrupted ↦ some true
  | Handoff.dispatched ↦
      if select_child_fails
      then none
      else map_option (λ child. has_stopped child.status)
          (lookup e.success_execution_id db.executions)
  | _ ↦ some false
]

abbrev pub claimed_row : Execution → Execution
claimed_row e = record e {
  success_status = Handoff.pending;
  success_error = no_note;
  success_attempt = e.success_attempt + 1;
}

-- A negative `attempt` equals no generation.
abbrev pub is_attempt : ℕ → ℤ → Bool
is_attempt generation (pos n) = generation == n
is_attempt generation (ℤ.negsuc n) = false

unfoldable pub claim_success_retry : ClaimFaults → ℕ → ℤ → Db → Claim × Db
unfolding eligible
claim_success_retry f parent attempt db =
    if f.begin || f.select then (server_error, db) else elim (lookup parent db.executions) [
      | none ↦ (not_found, db)
      | some e ↦
          if not (is_success e.status)
            || e.success_hook_id == ""
            || not (is_attempt e.success_attempt attempt)
          then (conflict, db)
          else elim (eligible f.select_child e db) [
            | none ↦ (conflict, db)
            | some false ↦ (conflict, db)
            | some true ↦
                if f.update || f.commit
                then (server_error, db)
                else (claimed, update_execution parent claimed_row db)
          ]
    ]

-- The answers of RetrySuccessor.
pub data Answer : Type 0 where
  bad_request missing server_failed : Answer
  conflicted : Answer
  accepted : (child : ℕ) → Answer

abbrev pub answer_of : Claim → Answer
answer_of claimed = server_failed
answer_of not_found = missing
answer_of conflict = conflicted
answer_of server_error = server_failed

abbrev pub answer_after : Bool → Option Execution → Answer
answer_after select_fails none = server_failed
answer_after true (some e) = server_failed
answer_after false (some e) = elim e.success_status [
  | Handoff.dispatched ↦ accepted e.success_execution_id
  | _ ↦ conflicted
]

-- RetrySuccessor, with the execution's id and the `attempt` of the body as far as they were read.
-- What `launchHook` is given comes back beside the answer.
unfoldable pub retry_successor :
    ClaimFaults
    → DispatchFaults
    → Bool
    → Bool
    → ℕ
    → Option ℤ
    → Option ℤ
    → Service
    → Option (Answer × Dispatch × Service)
unfolding claim_success_retry
retry_successor cf df save_fails select_fails now (some attempt) (some (pos parent)) s =
    let (c, db) = claim_success_retry cf parent attempt s.db in
    if parent == 0 then some (bad_request, Dispatch.nothing, s) else elim c [
      | claimed ↦ elim (dispatch_success df save_fails now parent (record s { db = db })) [
        | none ↦ none
        | some (d, s') ↦ some (answer_after select_fails (lookup parent s'.db.executions), d, s')
      ]
      | other ↦ some (answer_of other, Dispatch.nothing, record s { db = db })
    ]
retry_successor cf df save_fails select_fails now _ _ s = some (bad_request, Dispatch.nothing, s)
