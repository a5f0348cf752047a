-- ===== src/Retention/Cleanup.antt =====
-- What CleanupOldExecutions of internal/handlers/execution.go deletes.
use webhook_ui.Common.{
  ℕ, ◌+◌, ◌≡◌, ◌⊎◌, inl, inr, refl, ◌↔◌, true, ◌||◌, none, some, List, [], ◌∷◌, length, ==_iff,
  nat_eq, if◌then◌else◌, Map, lookup, arith, Bool-cases, Option-cases, IsUnique,
}
use webhook_ui.Store.{Execution, Db, LogRow}
use webhook_ui.Retention.{
  contains_id, delete_rows, is_doomed, delete_logs, CleanupFaults, cleanup_old_executions,
}
use webhook_ui.Retention.Closure.{retained_ids_lem}
use webhook_ui.Retention.Query.{Retained}

lookup-delete_rows :
    (kept : List ℕ) (x : ℕ) (rows : Map ℕ Execution)
    → IsUnique rows
    → lookup x (delete_rows kept rows).1 ≡ (if contains_id kept x then lookup x rows else none)
unfolding delete_rows lookup
lookup-delete_rows kept x [] u = ground arith
lookup-delete_rows kept x ((id, e) ∷ rows) u =
    ground (arith, lookup-delete_rows kept x rows u.1, ==_iff id x, u.0)

length-delete_rows :
    (kept : List ℕ) (rows : Map ℕ Execution)
    → length (delete_rows kept rows).1 + (delete_rows kept rows).0 ≡ length rows
unfolding delete_rows
length-delete_rows kept [] = omega arith
length-delete_rows kept ((id, e) ∷ rows) = ground (arith, length-delete_rows kept rows)

-- The logs that stay: those of a row that stays, and those of no row.
pub data IsTrimmed (cutoff : ℕ) (rows : Map ℕ Execution) : List LogRow → List LogRow → Type 0 where
  all_done : IsTrimmed cutoff rows [] []
  stays :
      {l : LogRow} {logs left : List LogRow}
      → Retained cutoff rows l.execution_id ⊎ (lookup l.execution_id rows ≡ none)
      → IsTrimmed cutoff rows logs left
      → IsTrimmed cutoff rows (l ∷ logs) (l ∷ left)
  goes :
      {l : LogRow} {logs left : List LogRow} (e : Execution)
      → lookup l.execution_id rows ≡ some e
      → ¬ Retained cutoff rows l.execution_id
      → IsTrimmed cutoff rows logs left
      → IsTrimmed cutoff rows (l ∷ logs) left

delete_logs-IsTrimmed :
    (cutoff : ℕ) (kept : List ℕ) (rows : Map ℕ Execution)
    → ((x : ℕ) → (contains_id kept x ≡ true) ↔ Retained cutoff rows x)
    → (logs : List LogRow) → IsTrimmed cutoff rows logs (delete_logs kept rows logs)
unfolding delete_logs
delete_logs-IsTrimmed cutoff kept rows same [] = all_done
delete_logs-IsTrimmed cutoff kept rows same (l ∷ logs) =
    let rest = delete_logs-IsTrimmed cutoff kept rows same logs in
    elim (Bool-cases (is_doomed kept rows l.execution_id)) [
      | inl d ↦ elim (Option-cases (lookup l.execution_id rows)) [
        | inl e ↦ absurd (ground (arith, d, e))
        | inr (x, e) ↦ rw d (goes x e (λ r. ground (arith, (same l.execution_id).1 r, d, e)) rest)
      ]
      | inr d ↦ elim (Option-cases (lookup l.execution_id rows)) [
        | inl e ↦ rw d (stays (inr e) rest)
        | inr (x, e) ↦ rw d (stays (inl ((same l.execution_id).0 (ground (arith, d, e)))) rest)
      ]
    ]

pub record IsCleaned (cutoff : ℕ) (db db' : Db) (removed : ℕ) : Type 0 where
  pub rows :
      (id : ℕ)
      → (Retained cutoff db.executions id × (lookup id db'.executions ≡ lookup id db.executions))
        ⊎ (¬ Retained cutoff db.executions id × (lookup id db'.executions ≡ none))
  pub counted : length db'.executions + removed ≡ length db.executions
  pub logs : IsTrimmed cutoff db.executions db.logs db'.logs
  pub others : db' ≡ record db { executions = db'.executions; logs = db'.logs }

-- In a database that holds no execution twice, a cleanup either fails and changes nothing, or it
-- deletes exactly the executions that need not stay, reports how many, and deletes of the logs
-- just theirs; nothing else changes. An execution must stay that is unfinished, began at the
-- cutoff or later, or waits for its handoff, and the parent of any that must stay.
pub cleanup_old_executions-IsCleaned :
    (f : CleanupFaults) (cutoff : ℕ) (db : Db)
    → IsUnique db.executions
    → ((cleanup_old_executions f cutoff db ≡ (none, db))
        × ((f.begin || f.logs || f.executions || f.count || f.commit) ≡ true))
      ⊎ ((removed : ℕ) × (db' : Db) × (cleanup_old_executions f cutoff db ≡ (some removed, db'))
          × IsCleaned cutoff db db' removed)
unfolding cleanup_old_executions
cleanup_old_executions-IsCleaned f cutoff db u =
    elim (Bool-cases (f.begin || f.logs || f.executions || f.count || f.commit)) [
      | inl e ↦ rw e (inl (refl, refl))
      | inr e ↦
          let (kept, found, same) = retained_ids_lem cutoff db.executions u in
          let deleted = delete_rows kept db.executions in
          rw e (
            rw (found, cleanup_old_executions)
              (inr (
                deleted.0,
                record db { executions = deleted.1; logs = delete_logs kept db.executions db.logs },
                refl,
                record {
                  rows = λ id. elim (Bool-cases (contains_id kept id)) [
                    | inl i ↦ inl (
                      (same id).0 i,
                      ground (arith, lookup-delete_rows kept id db.executions u, i),
                    )
                    | inr i ↦ inr (
                      λ r. ground (arith, (same id).1 r, i),
                      ground (arith, lookup-delete_rows kept id db.executions u, i),
                    )
                  ];
                  counted = length-delete_rows kept db.executions;
                  logs = delete_logs-IsTrimmed cutoff kept db.executions same db.logs;
                  others = refl;
                },
              )))
    ]
