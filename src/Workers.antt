-- ===== src/Workers.antt =====
-- internal/handlers/webhook.go: triggerAsync, launchHook and dispatchSuccess as goroutines that
-- interleave over one runner, one cancel registry and one database; and Cancel of
-- internal/handlers/execution.go.
--
-- A goroutine is a row of `workers`, and its phase says what it does next. Each phase is one
-- statement on the database or one call on the runner or the registry, so every order of these is a
-- list of actions; only dispatchPendingSuccess, a transaction with an admission in it and, if it
-- fails, its release, is one step. `none` is a panic of the
-- runner or of a channel that is closed twice. A panic of the execution itself is an outcome, which
-- the deferred calls handle as the source does. Output that goes to the log's sink is left out.
pub mod Holdings
pub mod Moves
pub mod Slots
pub mod Safety
pub mod Calls
pub mod Runs
pub mod Rank
pub mod Progress
mod Examples
use webhook_ui.Common.{
  ℕ, ◌+◌, ◌-◌, String, Bool, true, false, not, ◌&&◌, Option, none, some, List, [], ◌∷◌, Map, lookup,
  insert, delete, ltb, nat_eq, if◌then◌else◌, Bytes, bytes, ◌++◌,
}
use webhook_ui.Models.{Status, Hook}
use webhook_ui.Runner.{
  Runner, admitted, hook_busy, queue_full, admit, set_execution, release, wg_done, track_handoff,
}
use webhook_ui.Cancel.{CancelRegistry, new_cancel_registry, is_closed, register, unregister, cancel}
use webhook_ui.Store.{Db, ChainError, update_execution}
use webhook_ui.Execution.{mark_running, log_execution_end}
use webhook_ui.Chain.{
  ok, err, StartFaults, start_hook_execution, finish_hook_execution, DispatchFaults, Service,
  nothing, refused, launched, dispatch_pending_success, handoff_failed,
}

-- What a goroutine does next.
pub data Phase : Type 0 where
  -- triggerAsync, admitted: record the execution
  recording : Hook → (slot : ℕ) → Phase
  -- launchHook before its goroutine: slot.SetExecution, cancels.Register, runner.TrackHandoff, and
  -- `go`; `tracked` if a goroutine of launchHook calls it for a successor, and not a request
  launching registering : (tracked : Bool) → (exec slot : ℕ) → Phase
  tracking spawning : (tracked : Bool) → (exec slot ch : ℕ) → Phase
  -- runner.Start(cancel)
  waiting : (exec slot ch : ℕ) → Phase
  -- logExecutionEnd of an execution that was canceled before it started
  giving_up : (exec slot : ℕ) → Phase
  -- markRunning
  marking : (exec slot : ℕ) → Phase
  -- execute and finishHookExecution
  running : (exec slot : ℕ) → Phase
  -- the deferred runner.Finish, and the panic that is on its way, if there is one
  returning : (panic : Option Bytes) → (exec slot : ℕ) → Phase
  -- the deferred recover, with a panic
  recovering : (panic : Bytes) → (exec slot : ℕ) → Phase
  -- the deferred cancels.Unregister
  unregistering : (exec slot : ℕ) → Phase
  -- the deferred slot.Release
  releasing : (exec slot : ℕ) → Phase
  -- dispatchSuccess; `tracked` if it is called by a goroutine of launchHook, and not by a request
  dispatching : (tracked : Bool) → (exec : ℕ) → Phase
  -- dispatchSuccess after a dispatch that failed
  noting : (tracked : Bool) → (exec : ℕ) → ChainError → Phase
  -- the deferred handoffDone
  done : Phase

pub record World : Type 0 where
  pub db : Db
  pub runner : Runner
  pub cancels : CancelRegistry
  pub workers : Map ℕ Phase
  pub next_worker : ℕ

-- What an execution came to.
pub data Outcome : Type 0 where
  succeeded failed canceled : (output error : Bytes) → Outcome
  panics : (error : Bytes) → Outcome

-- What a goroutine meets in its next call.
pub record Input : Type 0 where
  pub now : ℕ
  pub source : String
  pub start : StartFaults
  -- whether the update of an execution's row fails
  pub fails : Bool
  -- which of its two ready cases a `select` takes
  pub takes : Bool
  pub outcome : Outcome
  pub dispatch : DispatchFaults
  pub save_fails : Bool

abbrev pub put : ℕ → Phase → World → World
put i p w = record w { workers = insert i p (delete i w.workers) }

abbrev pub gone : ℕ → World → World
gone i w = record w { workers = delete i w.workers }

-- startHookExecution in triggerAsync.
unfoldable pub record_execution : Input → ℕ → Hook → ℕ → World → Option World
record_execution x i hook slot w =
    let (r, db) =
      start_hook_execution x.start x.now hook x.source Status.queued 0 (hook.id ∷ []) w.db in
    elim r [
      | ok exec ↦ some (put i (launching false exec slot) (record w { db = db }))
      | err _ ↦ elim (release slot w.runner) [
        | none ↦ none
        | some runner ↦ some (gone i (record w { db = db; runner = runner }))
      ]
    ]

-- (*Runner).Start as a step: it takes a token, or gives up, or, with neither case ready, blocks.
unfoldable pub start : Bool → ℕ → (exec slot ch : ℕ) → World → World
start takes i exec slot ch w =
    if takes && ltb w.runner.slots w.runner.max_concurrent
    then put i (marking exec slot)
        (record w { runner = record w.runner { slots = w.runner.slots + 1 } })
    else if not takes && is_closed ch w.cancels
    then put i (giving_up exec slot) w
    else w

-- The end of `execute`, and the status of its result.
unfoldable pub finish_run : Input → ℕ → (exec slot : ℕ) → Outcome → World → World
finish_run x i exec slot (succeeded output error) w =
    put i (returning none exec slot)
      (record w { db = finish_hook_execution x.fails x.now exec Status.success output error w.db })
finish_run x i exec slot (failed output error) w =
    put i (returning none exec slot)
      (record w { db = finish_hook_execution x.fails x.now exec Status.failed output error w.db })
finish_run x i exec slot (canceled output error) w =
    put i (returning none exec slot)
      (record w { db = finish_hook_execution x.fails x.now exec Status.canceled output error w.db })
finish_run x i exec slot (panics error) w = put i (returning (some error) exec slot) w

abbrev pub after_finish : Option Bytes → (exec slot : ℕ) → Phase
after_finish none exec slot = unregistering exec slot
after_finish (some panic) exec slot = recovering panic exec slot

-- (*Runner).Finish as a step: it blocks where there is no token.
unfoldable pub give_back : ℕ → Option Bytes → (exec slot : ℕ) → World → World
give_back i panic exec slot w =
    if ltb 0 w.runner.slots
    then put i (after_finish panic exec slot)
        (record w { runner = record w.runner { slots = w.runner.slots - 1 } })
    else w

-- The caller of dispatchSuccess goes on: to handoffDone, or out.
abbrev pub returns : ℕ → Bool → World → World
returns i tracked w = if tracked then put i done w else gone i w

-- dispatchPendingSuccess in dispatchSuccess.
unfoldable pub dispatch : Input → ℕ → Bool → ℕ → World → Option World
dispatch x i tracked exec w =
    elim (dispatch_pending_success x.dispatch x.now exec
      (record { db = w.db; runner = w.runner })) [
        | none ↦ none
        | some (launched child slot hook, s) ↦
            some (put i (launching tracked child slot) (record w { db = s.db; runner = s.runner }))
        | some (refused e, s) ↦
            some (put i (noting tracked exec e) (record w { db = s.db; runner = s.runner }))
        | some (nothing, s) ↦ some (returns i tracked (record w { db = s.db; runner = s.runner }))
      ]

-- The update of dispatchSuccess after a dispatch that failed.
unfoldable pub note_failure : Input → ℕ → Bool → ℕ → ChainError → World → World
note_failure x i tracked exec e w =
    returns i tracked (record w {
      db = if x.save_fails then w.db else update_execution exec (handoff_failed e) w.db;
    })

-- A goroutine more.
abbrev pub spawn : Phase → World → World
spawn p w = put w.next_worker p (record w { next_worker = w.next_worker + 1 })

-- The `go` of launchHook: the caller goes on, beside a goroutine more.
unfoldable pub hand_over : ℕ → Bool → (exec slot ch : ℕ) → World → World
hand_over i tracked exec slot ch w = spawn (waiting exec slot ch) (returns i tracked w)

-- The next call of the goroutine `i`.
unfoldable pub move : Input → ℕ → Phase → World → Option World
unfolding bytes
move x i (recording hook slot) w = record_execution x i hook slot w
move x i (launching tracked exec slot) w =
    some (
      put i (registering tracked exec slot)
        (record w { runner = set_execution slot exec w.runner }))
move x i (registering tracked exec slot) w =
    let (ch, cancels) = register exec w.cancels in
    some (put i (tracking tracked exec slot ch) (record w { cancels = cancels }))
move x i (tracking tracked exec slot ch) w =
    some (put i (spawning tracked exec slot ch) (record w { runner = track_handoff w.runner }))
move x i (spawning tracked exec slot ch) w = some (hand_over i tracked exec slot ch w)
move x i (waiting exec slot ch) w = some (start x.takes i exec slot ch w)
move x i (giving_up exec slot) w = some (
    put i (unregistering exec slot) (record w {
      db =
          log_execution_end x.fails x.now exec Status.canceled []
            (bytes "canceled before it started") w.db;
    }))
move x i (marking exec slot) w =
    some (put i (running exec slot) (record w { db = mark_running x.fails x.now exec w.db }))
move x i (running exec slot) w = some (finish_run x i exec slot x.outcome w)
move x i (returning panic exec slot) w = some (give_back i panic exec slot w)
move x i (recovering panic exec slot) w = some (
    put i (unregistering exec slot) (record w {
      db =
          log_execution_end x.fails x.now exec Status.failed []
            (bytes "execution panicked: " ++ panic) w.db;
    }))
move x i (unregistering exec slot) w =
    some (put i (releasing exec slot) (record w { cancels = unregister exec w.cancels }))
move x i (releasing exec slot) w = elim (release slot w.runner) [
  | none ↦ none
  | some runner ↦ some (put i (dispatching true exec) (record w { runner = runner }))
]
move x i (dispatching tracked exec) w = dispatch x i tracked exec w
move x i (noting tracked exec e) w = some (note_failure x i tracked exec e w)
move x i done w = elim (wg_done w.runner) [
  | none ↦ none
  | some runner ↦ some (gone i (record w { runner = runner }))
]

pub data Action : Type 0 where
  -- triggerAsync of a hook, up to its admission
  triggers : Hook → Action
  -- a synchronous Trigger or RetrySuccessor that reaches dispatchSuccess
  dispatches : (exec : ℕ) → Action
  -- Cancel of an execution
  cancels : (exec : ℕ) → Action
  -- the next call of a goroutine; nothing, where there is none with that number
  moves : Input → (worker : ℕ) → Action
  -- whatever another handler does to the database
  stores : Db → Action

-- `none` is a panic.
unfoldable pub act : Action → World → Option World
unfolding move
act (triggers hook) w =
    let (answer, runner) = admit hook.id w.runner in
    elim answer [
      | admitted slot ↦ some (spawn (recording hook slot) (record w { runner = runner }))
      | _ ↦ some (record w { runner = runner })
    ]
act (dispatches exec) w = some (spawn (dispatching false exec) w)
act (cancels exec) w = elim (cancel exec w.cancels) [
  | none ↦ none
  | some (_, registry) ↦ some (record w { cancels = registry })
]
act (moves x i) w = elim (lookup i w.workers) [ none ↦ some w | some p ↦ move x i p w ]
act (stores db) w = some (record w { db = db })

unfoldable pub acts : List Action → World → Option World
unfolding act
acts [] w = some w
acts (a ∷ rest) w = elim (act a w) [ none ↦ none | some w' ↦ acts rest w' ]
