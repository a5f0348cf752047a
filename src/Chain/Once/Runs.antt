-- ===== src/Chain/Once/Runs.antt =====
-- The invariant across dispatches, retries and the startup sweep, and so in every run.
use webhook_ui.Common.{
  ℕ, ◌≡◌, refl, sym, ◌∙◌, ◌≢◌, ◌⊎◌, inl, inr, String, Bool, true, false, not, ◌||◌, some, List,
  ◌==◌, ==_iff, nat_eq, string_eq, lookup, lookup-adjust, lookup-map_values, map_option, arith,
  Option-cases, Bool-cases, some_injective, Bytes, ℤ, map_values, some_snd,
}
use webhook_ui.Models.{Status, Hook}
use webhook_ui.Store.{Db, Execution, empty_db, update_execution, is_queued_or_running, ChainError}
use webhook_ui.Execution.{
  mark_running, log_execution_end, log_execution, SweepFaults, sweep_interrupted_executions,
  interrupt_run, interrupt_handoff,
}
use webhook_ui.Chain.{
  is_success, is_pending, StartFaults, start_hook_execution, finish_hook_execution, DispatchFaults,
  Service, Dispatch, nothing, refused, launched, dispatch_pending_success, handoff_failed,
}
use webhook_ui.Chain.Handoffs.{idle, undone, handed, dispatch-Outcome}
use webhook_ui.Chain.Retry.{ClaimFaults, claim_success_retry, claimed_row, eligible, is_attempt}
use webhook_ui.Chain.Once.{
  is_active, is_handed, HasParent, IsOnce, IsTame, update-IsOnce, before_update, one_successor,
}
use webhook_ui.Chain.Once.Steps.{
  finish-IsOnce, run-IsOnce, end-IsOnce, start-IsOnce, log-IsOnce, handover-IsOnce, if-IsTame,
}

handoff_failed-IsTame : (x : ChainError) (e : Execution) → IsTame e (handoff_failed x e)
handoff_failed-IsTame x e =
    if-IsTame (is_pending e.success_status) e _
      (λ w. record { parent = refl; active = λ a. a; handed = inl (ground arith) })

dispatch-IsOnce :
    (f : DispatchFaults) (now parent : ℕ) (s : Service)
    → f.new_request ≡ false
    → IsOnce s.db
    → (d : Dispatch) × (s' : Service) × (dispatch_pending_success f now parent s ≡ some (d, s'))
      × IsOnce s'.db
dispatch-IsOnce f now parent s fine v = elim (dispatch-Outcome f now parent fine s) [
  | idle e ↦ (nothing, s, e, v)
  | handed child slot hook s' e h ↦ (launched child slot hook, s', e, handover-IsOnce v h)
  | undone x s' e same _ ↦ (refused x, s', e, rw same v)
]

-- A claim finds no active successor: the handoff failed or was interrupted, or the successor that
-- the row names has stopped.
stopped_successor :
    (fails : Bool) (e x : Execution) (db : Db)
    → eligible fails e db ≡ some true
    → is_handed e ≡ true
    → lookup e.success_execution_id db.executions ≡ some x
    → is_active x.status ≡ true
    → ⊥
unfolding eligible
stopped_successor fails e x db ok' handed' at active = ground arith

module _ (parent : ℕ) (fails : Bool) (db : Db) (e : Execution) (v : IsOnce db)
    (was : lookup parent db.executions ≡ some e) (ok' : eligible fails e db ≡ some true) where
  claimed-HasParent :
      (c up : ℕ) (x : Execution)
      → lookup c db.executions ≡ some x
      → is_active x.status ≡ true
      → HasParent db c up
      → HasParent (update_execution parent claimed_row db) c up
  unfolding update_execution
  claimed-HasParent c up x at active (p, lp, hp, ep) = elim (Bool-cases (parent == up)) [
    | inr other ↦ (p, ground (arith, lookup-adjust up parent claimed_row db.executions), hp, ep)
    | inl same ↦
        let pe : e ≡ p = some_injective (sym was ∙ rw ((==_iff parent up).0 same) lp) in
        absurd (stopped_successor fails e x db ok' (rw pe hp) (rw (pe, ep) at) active)
  ]

  claimed-IsOnce : IsOnce (update_execution parent claimed_row db)
  unfolding update_execution
  claimed-IsOnce = record {
    numbered = λ i x h. elim (Option-cases (lookup i db.executions)) [
      | inl k ↦ ground (arith, lookup-adjust i parent claimed_row db.executions)
      | inr (x', k) ↦ v.numbered i x' k
    ];
    successor = λ c row h nz a. elim (before_update db v parent claimed_row c row h) [
      | inr k ↦ claimed-HasParent c row.parent_execution_id row k a (v.successor c row k nz a)
      | inl (ic, (x, k, re)) ↦ rw re (
          claimed-HasParent c x.parent_execution_id x (rw (← ic) k) (rw re at a)
            (v.successor c x (rw (← ic) k) (rw re at nz) (rw re at a)))
    ];
  }

claim_cases :
    (f : ClaimFaults) (parent : ℕ) (attempt : ℤ) (db : Db)
    → ((claim_success_retry f parent attempt db).1 ≡ db)
      ⊎ ((e : Execution) × (lookup parent db.executions ≡ some e)
          × (eligible f.select_child e db ≡ some true)
          × ((claim_success_retry f parent attempt db).1 ≡ update_execution parent claimed_row db))
unfolding claim_success_retry
claim_cases f parent attempt db = elim (Option-cases (lookup parent db.executions)) [
  | inl e ↦ inl (ground arith)
  | inr (e, h) ↦ elim (Option-cases (eligible f.select_child e db)) [
    | inl k ↦ inl (ground arith)
    | inr (false, k) ↦ inl (ground arith)
    | inr (true, k) ↦ elim (Bool-cases (f.begin || f.select || f.update || f.commit)) [
      | inl b ↦ inl (ground arith)
      | inr b ↦
          elim (Bool-cases (
            not (is_success e.status)
            || e.success_hook_id == ""
            || not (is_attempt e.success_attempt attempt))) [
              | inl r ↦ inl (ground arith)
              | inr r ↦ inr (e, h, k, ground arith)
            ]
    ]
  ]
]

claim-IsOnce :
    (f : ClaimFaults) (parent : ℕ) (attempt : ℤ) (db : Db)
    → IsOnce db
    → IsOnce (claim_success_retry f parent attempt db).1
claim-IsOnce f parent attempt db v = elim (claim_cases f parent attempt db) [
  | inl same ↦ rw same v
  | inr (e, h, k, new) ↦ rw new (claimed-IsOnce parent f.select_child db e v h k)
]

sweep_row : (now : ℕ) (e : Execution) → IsTame e (interrupt_run now (interrupt_handoff e))
sweep_row now e = record {
  parent = ground arith;
  active = λ a. ground arith;
  handed = ground arith;
}

abbrev swept : ℕ → Execution → Execution
swept now e = interrupt_run now (interrupt_handoff e)

module _ (now : ℕ) (db : Db) where
  abbrev after_sweep : Db
  after_sweep = record db {
    executions = map_values (interrupt_run now) (map_values interrupt_handoff db.executions);
  }

  lookup-swept :
      (i : ℕ) → lookup i after_sweep.executions ≡ map_option (swept now) (lookup i db.executions)
  lookup-swept i = elim (Option-cases (lookup i db.executions)) [
    | inl e ↦ rw (
      lookup-map_values i (interrupt_run now) (map_values interrupt_handoff db.executions),
      lookup-map_values i interrupt_handoff db.executions,
      e,
    )
    | inr (x, e) ↦ rw (
      lookup-map_values i (interrupt_run now) (map_values interrupt_handoff db.executions),
      lookup-map_values i interrupt_handoff db.executions,
      e,
    )
  ]

  swept-HasParent : (c up : ℕ) → HasParent db c up → HasParent after_sweep c up
  swept-HasParent c up (p, lp, hp, ep) =
      let h = (sweep_row now p).handed in
      (swept now p, rw (lookup-swept up, lp), ground (arith, h), ground (arith, h))

  swept-IsOnce : IsOnce db → IsOnce after_sweep
  swept-IsOnce v = record {
    numbered = λ i x h. elim (Option-cases (lookup i db.executions)) [
      | inl k ↦ ground (arith, lookup-swept i)
      | inr (x', k) ↦ v.numbered i x' k
    ];
    successor = λ c row h nz a. elim (Option-cases (lookup c db.executions)) [
      | inl k ↦ ground (arith, lookup-swept c)
      | inr (x, k) ↦
          let t = sweep_row now x in
          let same : row ≡ swept now x = some_injective (sym h ∙ rw (lookup-swept c, k)) in
          rw (same, t.parent)
            (swept-HasParent c x.parent_execution_id
              (v.successor c x k (rw (same, t.parent) at nz) (t.active (rw same at a))))
    ];
  }

sweep-IsOnce :
    (f : SweepFaults) (now : ℕ) (db : Db)
    → IsOnce db
    → IsOnce (sweep_interrupted_executions f now db).1
unfolding sweep_interrupted_executions
sweep-IsOnce f now db v =
    elim (Bool-cases (f.begin || f.handoffs || f.runs || f.count || f.commit)) [
      | inl b ↦ rw b v
      | inr b ↦ rw b (swept-IsOnce now db v)
    ]

-- The statements that change the executions table. `markRunning` and the ends that are not a
-- result come only from the goroutine of an execution that is queued or running; a request that
-- is built from constants does not fail.
pub data Step (db : Db) : Db → Type 0 where
  starts :
      (f : StartFaults) (now : ℕ) (hook : Hook) (source : String) (status : Status)
      (path : List String)
      → Step db (start_hook_execution f now hook source status 0 path db).1
  logs :
      (fails : Bool) (now : ℕ) (hook source : String) (status : Status) (output error : Bytes)
      → Step db (log_execution fails now hook source status output error db)
  runs :
      (fails : Bool) (now id : ℕ)
      → ((e : Execution) → lookup id db.executions ≡ some e → is_queued_or_running e.status ≡ true)
      → Step db (mark_running fails now id db)
  ends :
      (fails : Bool) (now id : ℕ) (status : Status) (output error : Bytes)
      → is_active status ≡ false
      → ((e : Execution) → lookup id db.executions ≡ some e → is_queued_or_running e.status ≡ true)
      → Step db (log_execution_end fails now id status output error db)
  finishes :
      (fails : Bool) (now id : ℕ) (status : Status) (output error : Bytes)
      → Step db (finish_hook_execution fails now id status output error db)
  dispatches :
      {db' : Db} (f : DispatchFaults) (now parent : ℕ) (s s' : Service) (d : Dispatch)
      → f.new_request ≡ false
      → s.db ≡ db
      → dispatch_pending_success f now parent s ≡ some (d, s')
      → db' ≡ s'.db
      → Step db db'
  -- the update after a dispatch that failed, whenever it comes
  notes : (x : ChainError) (parent : ℕ) → Step db (update_execution parent (handoff_failed x) db)
  claims :
      (f : ClaimFaults) (parent : ℕ) (attempt : ℤ)
      → Step db (claim_success_retry f parent attempt db).1
  sweeps : (f : SweepFaults) (now : ℕ) → Step db (sweep_interrupted_executions f now db).1
  -- a statement on another table
  configures :
      {db' : Db}
      → db'.executions ≡ db.executions
      → db'.last_execution ≡ db.last_execution
      → Step db db'

Step-IsOnce : {db db' : Db} → IsOnce db → Step db db' → IsOnce db'
Step-IsOnce v (starts f now hook source status path) =
    start-IsOnce f now hook source status path _ v
Step-IsOnce v (logs b now hook source status o e) = log-IsOnce b now hook source status o e _ v
Step-IsOnce v (runs b now id live) = run-IsOnce b now id _ v live
Step-IsOnce v (ends b now id status o e a live) = end-IsOnce b now id status o e _ v a live
Step-IsOnce v (finishes b now id status o e) = finish-IsOnce b now id status o e _ v
Step-IsOnce v (dispatches f now parent s s' d fine same h eq) =
    let (d₂, s₂, h₂, v₂) = dispatch-IsOnce f now parent s fine (rw same v) in
    rw (eq, some_snd (sym h ∙ h₂)) v₂
Step-IsOnce v (notes x parent) =
    update-IsOnce _ v parent (handoff_failed x) (λ row _. handoff_failed-IsTame x row)
Step-IsOnce v (claims f parent attempt) = claim-IsOnce f parent attempt _ v
Step-IsOnce v (sweeps f now) = sweep-IsOnce f now _ v
Step-IsOnce v (configures e n) = record {
  numbered = λ id x h. rw n (v.numbered id x (rw e at h));
  successor = λ c row h nz a. rw e (v.successor c row (rw e at h) nz a);
}

pub data Run (db : Db) : Db → Type 0 where
  here : Run db db
  next : {x y : Db} → Run db x → Step x y → Run db y

Run-IsOnce : {db db' : Db} → IsOnce db → Run db db' → IsOnce db'
Run-IsOnce v here = v
Run-IsOnce v (next r st) = Step-IsOnce (Run-IsOnce v r) st

IsOnce-empty : IsOnce empty_db
unfolding lookup
IsOnce-empty = record { numbered = λ id e h. cc; successor = λ c row h nz a. cc }

-- From an empty database, however the statements of `Step` interleave and whichever of them fail,
-- no execution ever has two successors that are queued, running or done.
pub at_most_one_successor :
    {db : Db}
    → Run empty_db db
    → (c d : ℕ) (x y : Execution) → lookup c db.executions ≡ some x
    → lookup d db.executions ≡ some y
    → x.parent_execution_id ≢ 0
    → x.parent_execution_id ≡ y.parent_execution_id
    → is_active x.status ≡ true
    → is_active y.status ≡ true
    → c ≡ d
at_most_one_successor r = one_successor _ (Run-IsOnce IsOnce-empty r)
