-- ===== src/Retention.antt =====
-- CleanupOldExecutions of internal/handlers/execution.go: the deletion of old executions and their
-- logs, which spares every execution that a retained one descends from.
pub mod Query
pub mod Closure
pub mod Cleanup
mod Examples
use webhook_ui.Common.{
  ℕ, zero, suc, ◌+◌, ◌*◌, Bool, true, false, not, ◌&&◌, ◌||◌, Option, none, some, List, [], ◌∷◌,
  ◌++◌, length, ◌==◌, nat_eq, leb, if◌then◌else◌, Map, lookup,
}
use webhook_ui.Models.{Handoff}
use webhook_ui.Store.{Db, Execution, LogRow}

abbrev pub is_pending : Handoff → Bool
is_pending Handoff.pending = true
is_pending _ = false

abbrev pub is_unfinished : Option ℕ → Bool
is_unfinished none = true
is_unfinished (some _) = false

-- The first SELECT of `retained`: its condition.
abbrev pub is_root : (cutoff : ℕ) → Execution → Bool
is_root cutoff e =
    is_unfinished e.finished_at || leb cutoff e.started_at || is_pending e.success_status

unfoldable pub roots : (cutoff : ℕ) → Map ℕ Execution → List ℕ
roots cutoff [] = []
roots cutoff ((id, e) ∷ rest) =
    let others = roots cutoff rest in if is_root cutoff e then id ∷ others else others

abbrev pub contains_id : List ℕ → ℕ → Bool
contains_id [] id = false
contains_id (x ∷ xs) id = x == id || contains_id xs id

-- The second SELECT, joined on one row of the queue; 0 for none.
unfoldable pub parent_of : Map ℕ Execution → ℕ → ℕ
parent_of rows id = elim (lookup id rows) [ none ↦ 0 | some e ↦ e.parent_execution_id ]

-- WITH RECURSIVE … UNION: each row of the queue in turn, and what it adds if that is new.
-- `none` is the end of the fuel.
unfoldable pub close : (fuel : ℕ) → (queue seen : List ℕ) → Map ℕ Execution → Option (List ℕ)
unfolding parent_of
close fuel [] seen rows = some seen
close zero (id ∷ queue) seen rows = none
close (suc fuel) (id ∷ queue) seen rows =
    let parent = parent_of rows id in
    let old = close fuel queue seen rows in
    let new = close fuel (queue ++ parent ∷ []) (parent ∷ seen) rows in
    if parent == 0 || contains_id seen parent then old else new

unfoldable pub retained_ids : (cutoff : ℕ) → Map ℕ Execution → Option (List ℕ)
unfolding roots close
retained_ids cutoff rows =
    let first = roots cutoff rows in close (length rows + length rows) first first rows

-- DELETE FROM executions WHERE id NOT IN (…): how many, and those that stay.
unfoldable pub delete_rows : (kept : List ℕ) → Map ℕ Execution → ℕ × Map ℕ Execution
delete_rows kept [] = (0, [])
delete_rows kept ((id, e) ∷ rest) =
    let (removed, others) = delete_rows kept rest in
    if contains_id kept id then (removed, (id, e) ∷ others) else (removed + 1, others)

-- Whether a log's execution is one that goes.
abbrev pub is_doomed : (kept : List ℕ) → Map ℕ Execution → ℕ → Bool
is_doomed kept rows id = elim (lookup id rows) [ none ↦ false | some _ ↦ not (contains_id kept id) ]

unfoldable pub delete_logs : (kept : List ℕ) → Map ℕ Execution → List LogRow → List LogRow
delete_logs kept rows [] = []
delete_logs kept rows (l ∷ logs) =
    let others = delete_logs kept rows logs in
    if is_doomed kept rows l.execution_id then others else l ∷ others

pub record CleanupFaults : Type 0 where
  pub begin : Bool
  pub logs : Bool
  pub executions : Bool
  pub count : Bool
  pub commit : Bool

-- `none` is an error, with which the transaction is rolled back; or the end of the fuel.
unfoldable pub cleanup_old_executions : CleanupFaults → (cutoff : ℕ) → Db → Option ℕ × Db
unfolding retained_ids delete_rows delete_logs
cleanup_old_executions f cutoff db =
    if f.begin || f.logs || f.executions || f.count || f.commit
    then (none, db)
    else elim (retained_ids cutoff db.executions) [
      | none ↦ (none, db)
      | some kept ↦
          let (removed, rows) = delete_rows kept db.executions in
          (
            some removed,
            record db { executions = rows; logs = delete_logs kept db.executions db.logs },
          )
    ]
