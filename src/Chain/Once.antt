-- ===== src/Chain/Once.antt =====
-- Across the statements that the program makes, but for the cleanup's DELETE, an execution has at
-- most one successor that is queued, running or done.
pub mod Steps
pub mod Runs
use webhook_ui.Common.{
  ℕ, ◌+◌, ◌≤◌, ◌<◌, ◌≡◌, refl, sym, ◌∙◌, ap, ◌≢◌, ◌⊎◌, inl, inr, String, Bool, true, false, not,
  ◌&&◌, ◌||◌, Option, none, some, List, [], ◌∷◌, ◌++◌, ◌==◌, ==_iff, ==_refl, nat_eq, string_eq,
  if◌then◌else◌, lookup, insert, lookup-insert, lookup-adjust, lookup-map_values, map_option, arith,
  Option-cases, Bool-cases, length, some_injective,
}
use webhook_ui.Models.{Status, Handoff, Hook, contains}
use webhook_ui.Store.{
  Db, Execution, empty_db, insert_execution, update_execution, is_queued_or_running,
}
use webhook_ui.Chain.{is_success}

-- Queued, running or done.
abbrev pub is_active : Status → Bool
is_active Status.queued = true
is_active Status.running = true
is_active Status.success = true
is_active _ = false

abbrev pub is_dispatched : Handoff → Bool
is_dispatched Handoff.dispatched = true
is_dispatched _ = false

-- The row says that it handed over.
abbrev pub is_handed : Execution → Bool
is_handed e = is_success e.status && is_dispatched e.success_status

-- What an active successor knows of its parent.
abbrev pub HasParent : Db → ℕ → ℕ → Type 0
HasParent db c parent =
    (p : Execution) × (lookup parent db.executions ≡ some p)
    × (is_handed p ≡ true)
    × (p.success_execution_id ≡ c)

-- Row numbers start at 1 and stay below the counter; and a row with a parent that is active is
-- the one that its parent names as its successor.
pub record IsOnce (db : Db) : Type 0 where
  pub numbered :
      (id : ℕ) (e : Execution)
      → lookup id db.executions ≡ some e
      → (1 ≤ id) × (id ≤ db.last_execution)
  pub successor :
      (c : ℕ) (row : Execution)
      → lookup c db.executions ≡ some row
      → row.parent_execution_id ≢ 0
      → is_active row.status ≡ true
      → HasParent db c row.parent_execution_id

-- So no execution has two of them.
pub one_successor :
    (db : Db)
    → IsOnce db
    → (c d : ℕ) (x y : Execution) → lookup c db.executions ≡ some x
    → lookup d db.executions ≡ some y
    → x.parent_execution_id ≢ 0
    → x.parent_execution_id ≡ y.parent_execution_id
    → is_active x.status ≡ true
    → is_active y.status ≡ true
    → c ≡ d
one_successor db v c d x y hx hy nz same ax ay =
    let (p, lp, _, ep) = v.successor c x hx nz ax in
    let (q, lq, _, eq) = v.successor d y hy (λ e. nz (same ∙ e)) ay in
    sym ep
    ∙ ap (λ (e : Execution). e.success_execution_id)
        (some_injective (sym lp ∙ ap (λ i. lookup i db.executions) same ∙ lq))
    ∙ eq

-- A change of one row that keeps its parent, does not make it active anew, and either found it
-- without a handover or keeps the handover.
pub record IsTame (e e' : Execution) : Type 0 where
  pub parent : e'.parent_execution_id ≡ e.parent_execution_id
  pub active : is_active e'.status ≡ true → is_active e.status ≡ true
  pub handed :
      (is_handed e ≡ false)
      ⊎ ((is_handed e' ≡ is_handed e) × (e'.success_execution_id ≡ e.success_execution_id))

module _ (db : Db) (v : IsOnce db) (id : ℕ) (f : Execution → Execution) where
  update-HasParent :
      ((e : Execution) → lookup id db.executions ≡ some e → IsTame e (f e))
      → (c parent : ℕ) → HasParent db c parent
      → HasParent (update_execution id f db) c parent
  unfolding update_execution
  update-HasParent tame c parent (p, lp, hp, ep) = elim (Bool-cases (id == parent)) [
    | inr other ↦ (p, ground (arith, lookup-adjust parent id f db.executions), hp, ep)
    | inl same ↦
        let h = (tame p (at same lp)).handed in
        (
          f p,
          ground (arith, lookup-adjust parent id f db.executions),
          ground (arith, h),
          ground (arith, h),
        )
  ]
    where
      at :
          id == parent ≡ true
          → lookup parent db.executions ≡ some p
          → lookup id db.executions ≡ some p
      at e h = rw ((==_iff id parent).0 e) h

  -- The row before the update.
  pub before_update :
      (c : ℕ) (row : Execution)
      → lookup c (update_execution id f db).executions ≡ some row
      → ((id ≡ c) × ((e : Execution) × (lookup id db.executions ≡ some e) × (row ≡ f e)))
        ⊎ (lookup c db.executions ≡ some row)
  unfolding update_execution
  before_update c row h = elim (Bool-cases (id == c)) [
    | inr other ↦ inr (ground (arith, lookup-adjust c id f db.executions))
    | inl same ↦ elim (Option-cases (lookup c db.executions)) [
      | inl k ↦ inr (ground (arith, lookup-adjust c id f db.executions))
      | inr (e, k) ↦ inl (
        (==_iff id c).0 same,
        (e, rw ((==_iff id c).0 same) k, ground (arith, lookup-adjust c id f db.executions)),
      )
    ]
  ]

  pub update-IsOnce :
      ((e : Execution) → lookup id db.executions ≡ some e → IsTame e (f e))
      → IsOnce (update_execution id f db)
  unfolding update_execution
  update-IsOnce tame = record {
    numbered = λ i e h. elim (Option-cases (lookup i db.executions)) [
      | inl k ↦ ground (arith, lookup-adjust i id f db.executions)
      | inr (e', k) ↦ v.numbered i e' k
    ];
    successor = λ c row h nz a. elim (before_update c row h) [
      | inr k ↦ update-HasParent tame c row.parent_execution_id (v.successor c row k nz a)
      | inl (ic, (e, k, re)) ↦
          let t = tame e k in
          rw (re, t.parent)
            (update-HasParent tame c e.parent_execution_id
              (v.successor c e (rw (← ic) k) (rw (re, t.parent) at nz) (t.active (rw re at a))))
    ];
  }
