-- ===== src/ExecutionLog.antt =====
-- internal/handlers/executionlogsink.go: the output of an execution as rows of execution_logs.
--
-- The sink's mutex makes WriteChunk one step. `retained` never falls below 0, since it counts the
-- rows that are there.
pub mod Rows
pub mod Rolling
pub mod Writing
pub mod Reading
mod Examples
use webhook_ui.Common.{
  ℕ, zero, suc, ◌+◌, ◌-◌, Bool, true, false, not, ◌&&◌, ◌||◌, Option, none, some, List, [], ◌∷◌,
  ◌++◌, length, ltb, leb, ◌==◌, nat_eq, if◌then◌else◌, Bytes,
}
use webhook_ui.Store.{Stream, LogRow, Db}

pub record ExecutionLogSink : Type 0 where
  pub exec_id : ℕ
  pub limit_bytes : ℕ
  pub seq : ℕ
  pub retained : ℕ

unfoldable pub new_execution_log_sink : ℕ → ℕ → ExecutionLogSink
new_execution_log_sink exec_id limit_bytes = record {
  exec_id = exec_id;
  limit_bytes = limit_bytes;
  seq = 0;
  retained = 0;
}

-- No sink without an execution.
unfoldable pub sink_for : ℕ → ℕ → Option ExecutionLogSink
unfolding new_execution_log_sink
sink_for exec_id limit_bytes =
    if exec_id == 0 then none else some (new_execution_log_sink exec_id limit_bytes)

abbrev pub earlier : LogRow → Option LogRow → Option LogRow
earlier l none = some l
earlier l (some m) = if leb l.seq m.seq then some l else some m

-- SELECT … FROM execution_logs WHERE execution_id = ? ORDER BY seq LIMIT 1
unfoldable pub oldest_of : ℕ → List LogRow → Option LogRow
oldest_of exec_id [] = none
oldest_of exec_id (l ∷ logs) =
    let rest = oldest_of exec_id logs in if l.execution_id == exec_id then earlier l rest else rest

-- DELETE FROM execution_logs WHERE id = ?
unfoldable pub delete_log : ℕ → List LogRow → List LogRow
delete_log id [] = []
delete_log id (l ∷ logs) = let rest = delete_log id logs in if l.id == id then rest else l ∷ rest

-- Which statement of a round of `trim` fails.
pub data TrimFault : Type 0 where
  no_fault select_fails delete_fails : TrimFault

abbrev pub next_fault : List TrimFault → TrimFault
next_fault [] = no_fault
next_fault (fault ∷ _) = fault

abbrev pub later_faults : List TrimFault → List TrimFault
later_faults [] = []
later_faults (_ ∷ faults) = faults

-- The row that a round of `trim` deletes, if it comes to that.
unfoldable pub trimmed_row : TrimFault → ExecutionLogSink → List LogRow → Option LogRow
unfolding oldest_of
trimmed_row no_fault s logs =
    if ltb 0 s.limit_bytes && ltb s.limit_bytes s.retained
    then elim (oldest_of s.exec_id logs) [
      | none ↦ none
      | some l ↦ if l.seq == s.seq then none else some l
    ]
    else none
trimmed_row _ s logs = none

-- `trim`; a round more than there are rows has nothing to delete.
unfoldable pub trim :
    (fuel : ℕ) → List TrimFault → ExecutionLogSink → List LogRow → ExecutionLogSink × List LogRow
unfolding trimmed_row delete_log
trim zero faults s logs = (s, logs)
trim (suc fuel) faults s logs = elim (trimmed_row (next_fault faults) s logs) [
  | none ↦ (s, logs)
  | some l ↦
      trim fuel (later_faults faults) (record s { retained = s.retained - length l.chunk })
        (delete_log l.id logs)
]

pub record WriteFaults : Type 0 where
  pub insert : Bool
  pub trims : List TrimFault

unfoldable pub write_chunk :
    WriteFaults → Stream → Bytes → ExecutionLogSink × Db → ExecutionLogSink × Db
unfolding trim
write_chunk f stream chunk (s, db) =
    let next = record s { seq = s.seq + 1 } in
    if f.insert
    then (next, db)
    else let row : LogRow = record {
      id = db.last_log + 1;
      execution_id = s.exec_id;
      seq = s.seq + 1;
      stream = stream;
      chunk = chunk;
    } in
      let logs = db.logs ++ row ∷ [] in
      let (trimmed, rows) =
        trim (length logs) f.trims (record next { retained = s.retained + length chunk }) logs in
      (trimmed, record db { logs = rows; last_log = db.last_log + 1 })
