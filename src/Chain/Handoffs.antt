-- ===== src/Chain/Handoffs.antt =====
-- What one dispatch does: it hands over exactly once, or leaves the executions as they were.
use webhook_ui.Common.{
  ℕ, ◌+◌, ◌≤◌, ◌<◌, ◌≡◌, refl, ◌⊎◌, inl, inr, String, true, false, ◌||◌, Option, none, some, List,
  [], ◌∷◌, ◌++◌, nat_eq, string_eq, lookup, arith, Option-cases, Bool-cases, length,
}
use webhook_ui.Models.{Status, Hook, contains, ExecTarget}
use webhook_ui.Runner.{Runner}
use webhook_ui.Runner.Admissions.{with_slot, without_slot, admit_cases, release-with_slot}
use webhook_ui.Store.{
  Db, Execution, ChainError, insert_execution, update_execution, sql_error, hook_unavailable,
  bad_path, loop_refused,
}
use webhook_ui.Chain.{
  Result, ok, err, start_hook_execution, exec_target_of, StartFaults, new_execution, DispatchFaults,
  Service, Dispatch, nothing, refused, launched, dispatched_to, dispatch_admitted, admit_successor,
  dispatch_row, is_success, is_pending, dispatch_pending_success,
}

-- The row numbers stay below the counter.
abbrev pub IsNumbered : Db → Type 0
IsNumbered db = (id : ℕ) (e : Execution) → lookup id db.executions ≡ some e → id ≤ db.last_execution

-- A start succeeds with a fresh row, or fails; where nothing fails after the insert, a failure
-- changes nothing.
pub start_cases :
    (f : StartFaults) (now : ℕ) (hook : Hook) (source : String) (status : Status) (parent : ℕ)
    (path : List String) (db : Db)
    → let r = start_hook_execution f now hook source status parent path db in
      ((e : ChainError) × (r.0 ≡ err e))
      ⊎ ((target : _) × (exec_target_of f.select_host hook db ≡ ok target)
          × (r ≡ (
            ok (db.last_execution + 1),
            (insert_execution (new_execution now hook source status parent path target) db).1,
          )))
unfolding start_hook_execution insert_execution
start_cases f now hook source status parent path db = go (exec_target_of f.select_host hook db) refl
  where
    go :
        (t : Result _)
        → exec_target_of f.select_host hook db ≡ t
        → ((e : ChainError) × ((start_hook_execution f now hook source status parent path db).0
              ≡ err e))
          ⊎ ((target : _) × (exec_target_of f.select_host hook db ≡ ok target)
              × (start_hook_execution f now hook source status parent path db ≡ (
                ok (db.last_execution + 1),
                (insert_execution (new_execution now hook source status parent path target) db).1,
              )))
    go (err e) h = inl (e, ground arith)
    go (ok t) h = elim (Bool-cases f.insert_row) [
      | inl i ↦ inl (sql_error, ground arith)
      | inr i ↦ elim (Bool-cases f.last_id) [
        | inl l ↦ inl (sql_error, ground arith)
        | inr l ↦ inr (t, h, ground arith)
      ]
    ]

-- The runner admits and waits for what it did before; only spent slot numbers differ.
pub record IsSameRunner (r r' : Runner) : Type 0 where
  pub in_flight : r'.in_flight ≡ r.in_flight
  pub wg : r'.wg ≡ r.wg
  pub slots : r'.slots ≡ r.slots
  pub capacity : r'.capacity ≡ r.capacity

-- A handover of `parent`: its row was a success that waits for a handoff to a hook that is not
-- on its path; the hook is admitted, a queued row for it is added under the next number with the
-- longer path, and the parent's row says so. Nothing else changes.
pub record IsHandover (now parent child slot : ℕ) (hook : Hook) (s s' : Service) : Type 0 where
  pub row : Execution
  pub path : List String
  pub target : ExecTarget
  pub was : lookup parent s.db.executions ≡ some row
  pub succeeded : is_success row.status ≡ true
  pub waiting : is_pending row.success_status ≡ true
  pub found : lookup row.success_hook_id s.db.hooks ≡ some hook
  pub parsed : row.chain_path ≡ some path
  pub no_loop : contains path row.success_hook_id ≡ false
  pub was_free : lookup row.success_hook_id s.runner.in_flight ≡ none
  pub had_room : length s.runner.in_flight < s.runner.capacity
  pub slot_number : slot ≡ s.runner.next_slot
  pub runner : s'.runner ≡ with_slot row.success_hook_id s.runner
  pub child_number : child ≡ s.db.last_execution + 1
  pub db :
      s'.db
      ≡ update_execution parent
          (dispatched_to child)
          (insert_execution
            (new_execution now hook "success-hook" Status.queued parent
              (path ++ row.success_hook_id ∷ [])
              target)
            s.db).1

pub data Outcome (now parent : ℕ) (s : Service) (r : Option (Dispatch × Service)) : Type 0 where
  idle : r ≡ some (nothing, s) → Outcome now parent s r
  undone :
      (e : ChainError) (s' : Service)
      → r ≡ some (refused e, s')
      → s'.db ≡ s.db
      → IsSameRunner s.runner s'.runner
      → Outcome now parent s r
  handed :
      (child slot : ℕ) (hook : Hook) (s' : Service)
      → r ≡ some (launched child slot hook, s')
      → IsHandover now parent child slot hook s s'
      → Outcome now parent s r

module _ (f : DispatchFaults) (now parent : ℕ) (no_fault : f.new_request ≡ false) where
  -- Everything after the admission either reaches the launch or is undone.
  dispatch_admitted-Outcome :
      (hook : Hook) (target : String) (path : List String) (s : Service) (row : Execution)
      → lookup parent s.db.executions ≡ some row
      → is_success row.status ≡ true
      → is_pending row.success_status ≡ true
      → row.success_hook_id ≡ target
      → lookup target s.db.hooks ≡ some hook
      → row.chain_path ≡ some path
      → contains path target ≡ false
      → lookup target s.runner.in_flight ≡ none
      → length s.runner.in_flight < s.runner.capacity
      → Outcome now parent s (
          dispatch_admitted f now parent hook target path s.runner.next_slot
            (record s { runner = with_slot target s.runner }))
  unfolding dispatch_admitted
  dispatch_admitted-Outcome hook target path s row was ok' wait named found parsed fresh free room =
      let gave_back = release-with_slot target s.runner free in
      elim (start_cases f.start now hook "success-hook" Status.queued parent (path ++ target ∷ [])
        s.db) [
          | inl (e, h) ↦
              undone e (record s { runner = without_slot target s.runner })
                (ground (arith, gave_back)) refl
                (record { in_flight = refl; wg = refl; slots = refl; capacity = refl })
          | inr (t, _, h) ↦ elim (Bool-cases (f.update || f.commit)) [
            | inl failed ↦
                undone sql_error (record s { runner = without_slot target s.runner })
                  (ground (arith, gave_back)) refl
                  (record { in_flight = refl; wg = refl; slots = refl; capacity = refl })
            | inr fine ↦
                handed (s.db.last_execution + 1) s.runner.next_slot hook
                  (record {
                    db =
                        update_execution parent (dispatched_to (s.db.last_execution + 1))
                          (insert_execution
                            (new_execution now hook "success-hook" Status.queued parent
                              (path ++ target ∷ []) t)
                            s.db).1;
                    runner = with_slot target s.runner;
                  })
                  (ground arith)
                  (record {
                    row = row;
                    path = path;
                    target = t;
                    was = was;
                    succeeded = ok';
                    waiting = wait;
                    found = rw named found;
                    parsed = parsed;
                    no_loop = rw named fresh;
                    was_free = rw named free;
                    had_room = room;
                    slot_number = refl;
                    runner = rw named;
                    child_number = refl;
                    db = rw named;
                  })
          ]
        ]

  unchanged : (s : Service) → IsSameRunner s.runner s.runner
  unchanged s = record { in_flight = refl; wg = refl; slots = refl; capacity = refl }

  admit_successor-Outcome :
      (hook : Hook) (path : List String) (s : Service) (row : Execution)
      → lookup parent s.db.executions ≡ some row
      → is_success row.status ≡ true
      → is_pending row.success_status ≡ true
      → lookup row.success_hook_id s.db.hooks ≡ some hook
      → row.chain_path ≡ some path
      → contains path row.success_hook_id ≡ false
      → Outcome now parent s (admit_successor f now parent hook row.success_hook_id path s)
  unfolding admit_successor
  admit_successor-Outcome hook path s row was ok' wait found parsed fresh =
      elim (admit_cases row.success_hook_id s.runner) [
        | inl (held, _, e) ↦ undone ChainError.hook_busy s (ground (arith, e)) refl (unchanged s)
        | inr (inl (_, _, e)) ↦
            undone ChainError.queue_full s (ground (arith, e)) refl (unchanged s)
        | inr (inr (free, room, e)) ↦
            rw (e, admit_successor)
              (rw e (
                dispatch_admitted-Outcome hook row.success_hook_id path s row was ok' wait refl
                  found parsed fresh free room))
      ]

  dispatch_row-Outcome :
      (s : Service) (row : Execution)
      → lookup parent s.db.executions ≡ some row
      → is_success row.status ≡ true
      → is_pending row.success_status ≡ true
      → Outcome now parent s (dispatch_row f now parent row s)
  unfolding dispatch_row
  dispatch_row-Outcome s row was ok' wait = elim (Bool-cases f.select_hook) [
    | inl e ↦ undone hook_unavailable s (ground arith) refl (unchanged s)
    | inr e ↦ elim (Option-cases (lookup row.success_hook_id s.db.hooks)) [
      | inl h ↦ undone hook_unavailable s (ground arith) refl (unchanged s)
      | inr (hook, h) ↦ elim (Option-cases row.chain_path) [
        | inl p ↦ undone bad_path s (ground arith) refl (unchanged s)
        | inr (path, p) ↦ elim (Bool-cases (contains path row.success_hook_id)) [
          | inl c ↦ undone (loop_refused row.success_hook_id) s (ground arith) refl (unchanged s)
          | inr c ↦
              rw (e, dispatch_row)
                (rw (h, dispatch_row)
                  (rw (p, dispatch_row)
                    (rw c (admit_successor-Outcome hook path s row was ok' wait h p c))))
        ]
      ]
    ]
  ]

  pub dispatch-Outcome :
      (s : Service) → Outcome now parent s (dispatch_pending_success f now parent s)
  unfolding dispatch_pending_success
  dispatch-Outcome s = elim (Bool-cases (f.begin || f.select)) [
    | inl e ↦ undone sql_error s (ground arith) refl (unchanged s)
    | inr e ↦ elim (Option-cases (lookup parent s.db.executions)) [
      | inl h ↦ idle (ground arith)
      | inr (row, h) ↦ elim (Bool-cases (is_success row.status)) [
        | inr k ↦ idle (ground arith)
        | inl k ↦ elim (Bool-cases (is_pending row.success_status)) [
          | inr w ↦ idle (ground arith)
          | inl w ↦
              rw e (rw (h, dispatch_pending_success) (rw (k, w) (dispatch_row-Outcome s row h k w)))
        ]
      ]
    ]
  ]
