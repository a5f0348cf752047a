-- ===== src/Chain/Retries.antt =====
-- A retry is claimed once for each generation of the handoff, and only after its successor stopped.
use webhook_ui.Common.{
  ℕ, ◌+◌, ◌≡◌, ◌⊎◌, inl, inr, Bool, true, false, ◌||◌, ==_refl, some, lookup, lookup-adjust, nat_eq,
  string_eq, arith, Option-cases, Bool-cases, ℤ, pos, negsuc,
}
use webhook_ui.Store.{Db, Execution, update_execution}
use webhook_ui.Models.{Status, Handoff}
use webhook_ui.Chain.Retry.{
  ClaimFaults, claimed, conflict, server_error, claim_success_retry, claimed_row, eligible,
  is_attempt, has_stopped,
}

-- What a successful claim found, and did.
pub record IsClaim (parent : ℕ) (attempt : ℤ) (db db' : Db) : Type 0 where
  pub row : Execution
  pub was : lookup parent db.executions ≡ some row
  pub succeeded : row.status ≡ Status.success
  pub generation : is_attempt row.success_attempt attempt ≡ true
  pub stopped :
      (row.success_status ≡ Handoff.failed)
      ⊎ (row.success_status ≡ Handoff.interrupted)
      ⊎ ((row.success_status ≡ Handoff.dispatched)
          × ((child : Execution) × (lookup row.success_execution_id db.executions ≡ some child)
              × (has_stopped child.status ≡ true)))
  pub now : lookup parent db'.executions ≡ some (claimed_row row)

stopped_of :
    (fails : Bool) (e : Execution) (db : Db)
    → eligible fails e db ≡ some true
    → (e.success_status ≡ Handoff.failed)
      ⊎ (e.success_status ≡ Handoff.interrupted)
      ⊎ ((e.success_status ≡ Handoff.dispatched)
          × ((child : Execution) × (lookup e.success_execution_id db.executions ≡ some child)
              × (has_stopped child.status ≡ true)))
unfolding eligible
stopped_of fails e db h = elim (Option-cases (lookup e.success_execution_id db.executions)) [
  | inl k ↦ ground arith
  | inr (x, k) ↦ ground arith
]

pub claim_success_retry_claimed :
    (f : ClaimFaults) (parent : ℕ) (attempt : ℤ) (db : Db)
    → (claim_success_retry f parent attempt db).0 ≡ claimed
    → IsClaim parent attempt db (claim_success_retry f parent attempt db).1
unfolding claim_success_retry update_execution
claim_success_retry_claimed f parent attempt db h =
    elim (Option-cases (lookup parent db.executions)) [
      | inl e ↦ let none' : ⊥ = ground arith in absurd none'
      | inr (e, k) ↦ elim (Option-cases (eligible f.select_child e db)) [
        | inl m ↦ let none' : ⊥ = ground arith in absurd none'
        | inr (false, m) ↦ let none' : ⊥ = ground arith in absurd none'
        | inr (true, ok') ↦ record {
          row = e;
          was = k;
          succeeded = ground arith;
          generation = ground arith;
          stopped = stopped_of f.select_child e db ok';
          now =
              ground (arith, lookup-adjust parent parent claimed_row db.executions, ==_refl parent);
        }
      ]
    ]

past_generation : (n : ℕ) (a : ℤ) → is_attempt n a ≡ true → is_attempt (n + 1) a ≡ false
past_generation n (pos a) h = ground arith
past_generation n (negsuc a) h = cc

claim_past :
    (g : ClaimFaults) (parent : ℕ) (attempt : ℤ) (d : Db) (x : Execution)
    → lookup parent d.executions ≡ some x
    → is_attempt x.success_attempt attempt ≡ false
    → (((claim_success_retry g parent attempt d).0 ≡ conflict)
        ⊎ ((claim_success_retry g parent attempt d).0 ≡ server_error))
      × ((claim_success_retry g parent attempt d).1 ≡ d)
unfolding claim_success_retry
claim_past g parent attempt d x k past = elim (Bool-cases (g.begin || g.select)) [
  | inl b ↦ (inr (ground arith), ground arith)
  | inr b ↦ (inl (ground arith), ground arith)
]

-- A second claim with the same attempt after a granted one is never granted: it answers a conflict
-- or a failure, and changes nothing.
pub claim_twice :
    (f g : ClaimFaults) (parent : ℕ) (attempt : ℤ) (db : Db)
    → (claim_success_retry f parent attempt db).0 ≡ claimed
    → let db' = (claim_success_retry f parent attempt db).1 in
      (((claim_success_retry g parent attempt db').0 ≡ conflict)
        ⊎ ((claim_success_retry g parent attempt db').0 ≡ server_error))
      × ((claim_success_retry g parent attempt db').1 ≡ db')
claim_twice f g parent attempt db h =
    let c = claim_success_retry_claimed f parent attempt db h in
    claim_past g parent attempt (claim_success_retry f parent attempt db).1 (claimed_row c.row)
      c.now (past_generation _ attempt c.generation)
