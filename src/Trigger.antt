-- ===== src/Trigger.antt =====
-- Trigger and buildCommandInput of internal/handlers/webhook.go, and internal/services/hmac.go: who
-- may trigger a hook, and what it is run with.
--
-- Header names are canonical; `meanwhile` is what other requests do while the hook runs. Where the
-- hook is asynchronous, the answer hands over to triggerAsync, which Workers models.
pub mod Input
pub mod Guard
mod Examples
use webhook_ui.Common.{
  ℕ, String, Bool, true, false, not, ◌&&◌, ◌||◌, Option, none, some, List, [], ◌∷◌, ◌++◌, ◌==◌,
  nat_beq, string_eq, bytes_eq, if◌then◌else◌, Map, lookup, insert, Bytes, bytes,
}
use webhook_ui.Models.{Status, Hook}
use webhook_ui.Store.{Db}
use webhook_ui.Shell.{Env}
use webhook_ui.Execution.{log_execution}
use webhook_ui.Executor.{ExecuteResult, Platform, RunFaults, execute}
use webhook_ui.Chain.{
  ok, err, StartFaults, start_hook_execution, finish_hook_execution, DispatchFaults, Service,
  Dispatch, nothing, dispatch_success,
}
use webhook_ui.Trigger.Input.{
  Hash, Packages, Request, Value, after_equals, build_command_input, digest_of, field_args,
  first_sent, first_value, float64, get_hash, get_header, get_signature_header, header_env,
  header_or, is_empty, join, other, query_env, sent_token, sha1, sha256, sha512, string, text_of,
  underscores, validate,
}

pub data Reply : Type 0 where
  not_found internal_error bad_request invalid_token invalid_signature : Reply
  -- triggerAsync goes on
  queues : Hook → Env → List Bytes → Reply
  ran run_failed : (result : ExecuteResult) → Reply

pub record TriggerFaults : Type 0 where
  pub select_hook : Bool
  pub log : Bool
  pub start : StartFaults
  pub run : RunFaults
  pub finish : Bool
  pub dispatch : DispatchFaults
  pub save : Bool

-- A refused request leaves a row.
unfoldable pub refuse :
    Reply
    → Bytes
    → TriggerFaults
    → ℕ
    → Hook
    → Request
    → Service
    → Option (Reply × Dispatch × Service)
unfolding log_execution
refuse reply message f now hook req s = some (
  reply,
  nothing,
  record s { db = log_execution f.log now hook.id req.client_ip Status.failed [] message s.db },
)

-- Trigger of a synchronous hook, from startHookExecution on. `none` is a panic.
unfoldable pub run_hook :
    Platform
    → List Bytes
    → (meanwhile : Service → Service) → TriggerFaults
    → ℕ
    → Hook
    → Request
    → Env
    → List Bytes
    → Service
    → Option (Reply × Dispatch × Service)
unfolding execute dispatch_success finish_hook_execution start_hook_execution
run_hook p allowed_commands meanwhile f now hook req env args s =
    let (started, db) =
      start_hook_execution f.start now hook req.client_ip Status.running 0 (hook.id ∷ []) s.db in
    elim started [
      | err _ ↦ some (internal_error, nothing, record s { db = db })
      | ok exec ↦
          let (result, db') = execute p allowed_commands f.run hook env args db in
          let s' = meanwhile (record s { db = db' }) in
          let status = if result.success then Status.success else Status.failed in
          let finished =
            finish_hook_execution f.finish now exec status result.output result.error s'.db in
          elim (dispatch_success f.dispatch f.save now exec (record s' { db = finished })) [
            | none ↦ none
            | some (d, s'') ↦
                some (if result.success then ran result else run_failed result, d, s'')
          ]
    ]

-- Trigger after its checks.
unfoldable pub proceed :
    Packages
    → Platform
    → List Bytes
    → (meanwhile : Service → Service) → TriggerFaults
    → ℕ
    → Hook
    → Request
    → Bytes
    → Service
    → Option (Reply × Dispatch × Service)
unfolding build_command_input run_hook
proceed k p allowed_commands meanwhile f now hook req payload s =
    let (env, args) = build_command_input k hook req payload in
    if hook.async
    then some (queues hook env args, nothing, s)
    else run_hook p allowed_commands meanwhile f now hook req env args s

-- The check of the trigger token.
unfoldable pub passes_token : Hook → Request → Bool
unfolding sent_token bytes
passes_token hook req = hook.trigger_token == "" || sent_token req == bytes hook.trigger_token

-- The check of the signature.
unfoldable pub passes_signature : Packages → Hook → Request → Bytes → Bool
unfolding validate get_signature_header
passes_signature k hook req payload =
    hook.hmac_secret == ""
    || validate k hook.hmac_secret hook.hmac_algorithm payload (get_signature_header req)

-- Trigger, of a hook that is there, with its payload.
unfoldable pub answer :
    Packages
    → Platform
    → List Bytes
    → (meanwhile : Service → Service) → TriggerFaults
    → ℕ
    → Hook
    → Request
    → Bytes
    → Service
    → Option (Reply × Dispatch × Service)
unfolding passes_token passes_signature proceed refuse bytes
answer k p allowed_commands meanwhile f now hook req payload s =
    if not (passes_token hook req)
    then refuse invalid_token (bytes "invalid trigger token") f now hook req s
    else if not (passes_signature k hook req payload)
    then refuse invalid_signature (bytes "invalid HMAC signature") f now hook req s
    else proceed k p allowed_commands meanwhile f now hook req payload s

unfoldable pub trigger :
    Packages
    → Platform
    → List Bytes
    → (meanwhile : Service → Service) → TriggerFaults
    → ℕ
    → String
    → Request
    → Service
    → Option (Reply × Dispatch × Service)
unfolding answer
trigger k p allowed_commands meanwhile f now hook_id req s =
    if f.select_hook then some (internal_error, nothing, s) else elim (lookup hook_id s.db.hooks) [
      | none ↦ some (not_found, nothing, s)
      | some hook ↦ elim req.body [
        | none ↦ some (bad_request, nothing, s)
        | some payload ↦ answer k p allowed_commands meanwhile f now hook req payload s
      ]
    ]
