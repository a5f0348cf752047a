-- ===== src/Chain/Once/Steps.antt =====
-- Every statement on the executions table, but for the cleanup's DELETE, keeps the one-successor
-- invariant.
use webhook_ui.Common.{
  adjust-insert, Map, ℕ, ◌+◌, ◌≡◌, refl, ap, ◌⊎◌, inl, inr, String, Bool, true, false, none, some,
  List, ◌==◌, ==_iff, ==_refl, nat_eq, string_eq, if◌then◌else◌, lookup, lookup-insert,
  lookup-adjust, arith, Option-cases, Bool-cases, Bytes,
}
use webhook_ui.Models.{Status, Hook}
use webhook_ui.Store.{Db, Execution, insert_execution, update_execution, is_queued_or_running}
use webhook_ui.Execution.{mark_running, log_execution_end, log_execution}
use webhook_ui.Chain.{
  is_success, is_pending, StartFaults, start_hook_execution, exec_target_of, Result, ok, err,
  finish_hook_execution, finished, Service, dispatched_to,
}
use webhook_ui.Chain.Handoffs.{IsHandover}
use webhook_ui.Chain.Once.{is_active, HasParent, IsOnce, IsTame, update-IsOnce}

fresh_number : (db : Db) → IsOnce db → lookup (db.last_execution + 1) db.executions ≡ none
fresh_number db v = elim (Option-cases (lookup (db.last_execution + 1) db.executions)) [
  | inl e ↦ e
  | inr (row, e) ↦ absurd (omega (arith, v.numbered (db.last_execution + 1) row e))
]

insert-HasParent :
    (db : Db) (e : Execution)
    → IsOnce db
    → (c parent : ℕ) → HasParent db c parent
    → HasParent (insert_execution e db).1 c parent
unfolding insert_execution
insert-HasParent db e v c parent (p, lp, hp, ep) = (
  p,
  ground (
    arith,
    lookup-insert parent (db.last_execution + 1) e db.executions,
    fresh_number db v,
    ==_iff (db.last_execution + 1) parent,
  ),
  hp,
  ep,
)

-- A row with no parent, or one that its parent already names.
insert-IsOnce :
    (db : Db) (e : Execution)
    → IsOnce db
    → (e.parent_execution_id ≡ 0) ⊎ HasParent db (db.last_execution + 1) e.parent_execution_id
    → IsOnce (insert_execution e db).1
unfolding insert_execution
insert-IsOnce db e v z = record {
  numbered = λ i x h.
      ground (arith, lookup-insert i (db.last_execution + 1) e db.executions, v.numbered i x);
  successor = λ c row h nz a. elim (Bool-cases (db.last_execution + 1 == c)) [
    | inl new ↦
        let same : e ≡ row =
          ground (arith, lookup-insert c (db.last_execution + 1) e db.executions) in
        elim z [
          | inl zero' ↦ absurd (nz (rw (← same) zero'))
          | inr up ↦
              rw (← same, ← (==_iff (db.last_execution + 1) c).0 new)
                (insert-HasParent db e v (db.last_execution + 1) e.parent_execution_id up)
        ]
    | inr old ↦ insert-HasParent db e v c row.parent_execution_id (
        v.successor c row (ground (arith, lookup-insert c (db.last_execution + 1) e db.executions))
          nz a)
  ];
}

finished-IsTame :
    (now : ℕ) (status : Status) (output error : Bytes) (e : Execution)
    → is_queued_or_running e.status ≡ true
    → IsTame e (finished now status output error e)
finished-IsTame now Status.success output error e h = record {
  parent = refl;
  active = λ _. ground arith;
  handed = inl (ground arith);
}
finished-IsTame now _ output error e h = record {
  parent = refl;
  active = λ _. ground arith;
  handed = inl (ground arith);
}

pub same-IsTame : (e : Execution) → IsTame e e
same-IsTame e = record { parent = refl; active = λ a. a; handed = inr (refl, refl) }

pub if-IsTame :
    (b : Bool) (e x : Execution) → (b ≡ true → IsTame e x) → IsTame e (if b then x else e)
if-IsTame true e x t = t refl
if-IsTame false e x t = same-IsTame e

pub finish-IsOnce :
    (fails : Bool) (now id : ℕ) (status : Status) (output error : Bytes) (db : Db)
    → IsOnce db
    → IsOnce (finish_hook_execution fails now id status output error db)
unfolding finish_hook_execution
finish-IsOnce true now id status output error db v = v
finish-IsOnce false now id status output error db v = update-IsOnce db v id _ (λ e _.
    if-IsTame (is_queued_or_running e.status) e _ (finished-IsTame now status output error e))

pub run-IsOnce :
    (fails : Bool) (now id : ℕ) (db : Db)
    → IsOnce db
    → ((e : Execution) → lookup id db.executions ≡ some e → is_queued_or_running e.status ≡ true)
    → IsOnce (mark_running fails now id db)
unfolding mark_running
run-IsOnce true now id db v live = v
run-IsOnce false now id db v live = update-IsOnce db v id _ (λ e h. record {
  parent = refl;
  active = λ _. ground (arith, live e h);
  handed = inl (ground (arith, live e h));
})

pub end-IsOnce :
    (fails : Bool) (now id : ℕ) (status : Status) (output error : Bytes) (db : Db)
    → IsOnce db
    → is_active status ≡ false
    → ((e : Execution) → lookup id db.executions ≡ some e → is_queued_or_running e.status ≡ true)
    → IsOnce (log_execution_end fails now id status output error db)
unfolding log_execution_end
end-IsOnce true now id status output error db v s live = v
end-IsOnce false now id status output error db v s live = update-IsOnce db v id _ (λ e h. record {
  parent = refl;
  active = λ k. ground arith;
  handed = inl (ground (arith, live e h));
})

pub start-IsOnce :
    (f : StartFaults) (now : ℕ) (hook : Hook) (source : String) (status : Status)
    (path : List String) (db : Db)
    → IsOnce db
    → IsOnce (start_hook_execution f now hook source status 0 path db).1
unfolding start_hook_execution
start-IsOnce f now hook source status path db v = go (exec_target_of f.select_host hook db) refl
  where
    go :
        (t : Result _)
        → exec_target_of f.select_host hook db ≡ t
        → IsOnce (start_hook_execution f now hook source status 0 path db).1
    go (err x) h = rw (h, start_hook_execution) v
    go (ok t) h = elim (Bool-cases f.insert_row) [
      | inl i ↦ rw (h, start_hook_execution) (rw i v)
      | inr i ↦ elim (Bool-cases f.last_id) [
        | inl l ↦ rw (h, start_hook_execution) (rw (i, l) (insert-IsOnce db _ v (inl refl)))
        | inr l ↦ rw (h, start_hook_execution) (rw (i, l) (insert-IsOnce db _ v (inl refl)))
      ]
    ]

pub log-IsOnce :
    (fails : Bool) (now : ℕ) (hook source : String) (status : Status) (output error : Bytes)
    (db : Db)
    → IsOnce db
    → IsOnce (log_execution fails now hook source status output error db)
unfolding log_execution
log-IsOnce true now hook source status output error db v = v
log-IsOnce false now hook source status output error db v = insert-IsOnce db _ v (inl refl)

dispatched_to-IsTame :
    (child : ℕ) (e : Execution)
    → is_pending e.success_status ≡ true
    → IsTame e (dispatched_to child e)
dispatched_to-IsTame child e w = record {
  parent = refl;
  active = λ a. a;
  handed = inl (ground arith);
}

module _ (db : Db) (v : IsOnce db) (parent : ℕ) (row e : Execution)
    (was : lookup parent db.executions ≡ some row) where
  -- The parent's row is not the new one.
  parent_old : parent == db.last_execution + 1 ≡ false
  parent_old = ground (arith, v.numbered parent row was)

  handover_order :
      (f : Execution → Execution)
      → update_execution parent f (insert_execution e db).1
        ≡ (insert_execution e (update_execution parent f db)).1
  unfolding insert_execution update_execution
  handover_order f =
      ap
        (λ (m : Map ℕ Execution). record db {
          executions = m;
          last_execution = db.last_execution + 1;
        })
        (adjust-insert parent (db.last_execution + 1) f e db.executions parent_old)

  -- The handover adds the successor and names it in its parent's row, in one step.
  handover_row-IsOnce :
      is_success row.status ≡ true
      → is_pending row.success_status ≡ true
      → e.parent_execution_id ≡ parent
      → IsOnce (
          update_execution parent (dispatched_to (db.last_execution + 1)) (insert_execution e db).1)
  unfolding update_execution
  handover_row-IsOnce done wait named =
      rw (handover_order (dispatched_to (db.last_execution + 1))) (
        insert-IsOnce (update_execution parent (dispatched_to (db.last_execution + 1)) db) e
          (update-IsOnce db v parent (dispatched_to (db.last_execution + 1))
            (λ x h. dispatched_to-IsTame (db.last_execution + 1) x (ground arith)))
          (inr (
            rw named (
              dispatched_to (db.last_execution + 1) row,
              ground (
                arith,
                lookup-adjust parent parent (dispatched_to (db.last_execution + 1)) db.executions,
                ==_refl parent,
              ),
              ground arith,
              refl,
            ))))

pub handover-IsOnce :
    {now parent child slot : ℕ} {hook : Hook} {s s' : Service}
    → IsOnce s.db
    → IsHandover now parent child slot hook s s'
    → IsOnce s'.db
handover-IsOnce {parent} {s} v h =
    rw (h.db, h.child_number)
      (handover_row-IsOnce s.db v parent h.row _ h.was h.succeeded h.waiting refl)
