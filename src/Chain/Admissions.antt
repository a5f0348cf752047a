-- ===== src/Chain/Admissions.antt =====
-- What a dispatch does to the runner, whichever of its statements fail.
use webhook_ui.Common.{
  ℕ, ◌<◌, ◌≡◌, refl, inl, inr, String, Bool, true, false, ◌&&◌, ◌||◌, Option, none, some, List, [],
  ◌∷◌, ◌++◌, nat_eq, string_eq, lookup, arith, Option-cases, Bool-cases, length,
}
use webhook_ui.Models.{Status, Hook, contains}
use webhook_ui.Runner.{Runner, release}
use webhook_ui.Runner.Admissions.{with_slot, without_slot, admit_cases, release-with_slot}
use webhook_ui.Store.{Db, Execution, ChainError, update_execution}
use webhook_ui.Chain.{
  Result, ok, err, start_hook_execution, DispatchFaults, Service, Dispatch, nothing, refused,
  launched, dispatched_to, dispatch_admitted, admit_successor, dispatch_row, is_success, is_pending,
  dispatch_pending_success,
}

abbrev pub is_launched : Dispatch → Bool
is_launched (launched _ _ _) = true
is_launched _ = false

-- The runner is as it was, has spent a slot number, or holds one admission more.
pub data Admitted (r : Runner) (o : Option (Dispatch × Service)) : Type 0 where
  same :
      (d : Dispatch) (s' : Service)
      → o ≡ some (d, s')
      → is_launched d ≡ false
      → s'.runner ≡ r
      → Admitted r o
  spent :
      (target : String) (d : Dispatch) (s' : Service)
      → o ≡ some (d, s')
      → is_launched d ≡ false
      → s'.runner ≡ without_slot target r
      → Admitted r o
  took :
      (target : String) (child : ℕ) (hook : Hook) (s' : Service)
      → o ≡ some (launched child r.next_slot hook, s')
      → lookup target r.in_flight ≡ none
      → length r.in_flight < r.capacity
      → s'.runner ≡ with_slot target r
      → Admitted r o

module _ (f : DispatchFaults) (now parent : ℕ) where
  dispatch_admitted-Admitted :
      (hook : Hook) (target : String) (path : List String) (s : Service)
      → lookup target s.runner.in_flight ≡ none
      → length s.runner.in_flight < s.runner.capacity
      → Admitted s.runner (
          dispatch_admitted f now parent hook target path s.runner.next_slot
            (record s { runner = with_slot target s.runner }))
  unfolding dispatch_admitted
  dispatch_admitted-Admitted hook target path s free room =
      go
        (start_hook_execution f.start now hook "success-hook" Status.queued parent
          (path ++ target ∷ []) s.db)
        refl
    where
      gave_back :
          release s.runner.next_slot (with_slot target s.runner)
          ≡ some (without_slot target s.runner)
      gave_back = release-with_slot target s.runner free

      go :
          (r : Result ℕ × Db)
          → start_hook_execution f.start now hook "success-hook" Status.queued parent
              (path ++ target ∷ [])
              s.db
            ≡ r
          → Admitted s.runner (
              dispatch_admitted f now parent hook target path s.runner.next_slot
                (record s { runner = with_slot target s.runner }))
      go (err e, db) h =
          spent target (refused e) (record s { runner = without_slot target s.runner })
            (ground (arith, gave_back)) refl refl
      go (ok child, db) h = elim (Bool-cases (f.update || f.commit)) [
        | inl e ↦
            spent target (refused ChainError.sql_error)
              (record s { runner = without_slot target s.runner }) (ground (arith, gave_back)) refl
              refl
        | inr e ↦
            let db' : Db = update_execution parent (dispatched_to child) db in
            elim (Bool-cases f.new_request) [
              | inl b ↦
                  spent target (refused ChainError.request_error)
                    (record { db = db'; runner = without_slot target s.runner })
                    (ground (arith, gave_back)) refl refl
              | inr b ↦
                  took target child hook (record { db = db'; runner = with_slot target s.runner })
                    (ground arith) free room refl
            ]
      ]

  admit_successor-Admitted :
      (hook : Hook) (target : String) (path : List String) (s : Service)
      → Admitted s.runner (admit_successor f now parent hook target path s)
  unfolding admit_successor
  admit_successor-Admitted hook target path s = elim (admit_cases target s.runner) [
    | inl (held, _, e) ↦ same (refused ChainError.hook_busy) s (ground (arith, e)) refl refl
    | inr (inl (_, _, e)) ↦ same (refused ChainError.queue_full) s (ground (arith, e)) refl refl
    | inr (inr (free, room, e)) ↦
        rw (e, admit_successor) (rw e (dispatch_admitted-Admitted hook target path s free room))
  ]

  dispatch_row-Admitted :
      (s : Service) (row : Execution) → Admitted s.runner (dispatch_row f now parent row s)
  unfolding dispatch_row
  dispatch_row-Admitted s row = elim (Bool-cases f.select_hook) [
    | inl e ↦ same (refused ChainError.hook_unavailable) s (ground arith) refl refl
    | inr e ↦ elim (Option-cases (lookup row.success_hook_id s.db.hooks)) [
      | inl h ↦ same (refused ChainError.hook_unavailable) s (ground arith) refl refl
      | inr (hook, h) ↦ elim (Option-cases row.chain_path) [
        | inl p ↦ same (refused ChainError.bad_path) s (ground arith) refl refl
        | inr (path, p) ↦ elim (Bool-cases (contains path row.success_hook_id)) [
          | inl c ↦
              same (refused (ChainError.loop_refused row.success_hook_id)) s (ground arith) refl
                refl
          | inr c ↦
              rw (e, dispatch_row)
                (rw (h, dispatch_row)
                  (rw (p, dispatch_row)
                    (rw c (admit_successor-Admitted hook row.success_hook_id path s))))
        ]
      ]
    ]
  ]

  -- The transaction of a dispatch never panics, and admits at most the one successor that it launches.
  pub dispatch_pending_success-Admitted :
      (s : Service) → Admitted s.runner (dispatch_pending_success f now parent s)
  unfolding dispatch_pending_success
  dispatch_pending_success-Admitted s = elim (Bool-cases (f.begin || f.select)) [
    | inl b ↦ same (refused ChainError.sql_error) s (ground arith) refl refl
    | inr b ↦ elim (Option-cases (lookup parent s.db.executions)) [
      | inl h ↦ same nothing s (ground arith) refl refl
      | inr (e, h) ↦ elim (Bool-cases (is_success e.status && is_pending e.success_status)) [
        | inl w ↦
            rw (b, dispatch_pending_success)
              (rw (h, dispatch_pending_success) (rw w (dispatch_row-Admitted s e)))
        | inr w ↦ same nothing s (ground arith) refl refl
      ]
    ]
  ]
