-- ===== src/ExecutionLog/Reading.antt =====
-- Logs of internal/handlers/execution.go: a page of an execution's output.
pub mod Pages
use webhook_ui.Common.{
  ℕ, zero, suc, Bool, true, false, not, ◌&&◌, ◌||◌, Option, none, some, List, [], ◌∷◌, take, leb,
  ◌==◌, nat_eq, if◌then◌else◌, lookup, ℤ, pos, is_below,
}
use webhook_ui.Models.{Status}
use webhook_ui.Store.{LogRow, Db, Execution}
use webhook_ui.ExecutionLog.{oldest_of}

abbrev pub max_log_chunks_per_response : ℕ
max_log_chunks_per_response = 500

-- SELECT … WHERE execution_id = ? AND seq > ?
unfoldable pub rows_after : ℕ → ℤ → List LogRow → List LogRow
rows_after x after [] = []
rows_after x after (l ∷ logs) =
    let rest = rows_after x after logs in
    if l.execution_id == x && is_below after l.seq then l ∷ rest else rest

-- ORDER BY seq
unfoldable pub insert_by_seq : LogRow → List LogRow → List LogRow
insert_by_seq l [] = l ∷ []
insert_by_seq l (m ∷ rows) =
    let later = insert_by_seq l rows in if leb l.seq m.seq then l ∷ m ∷ rows else m ∷ later

unfoldable pub order_by_seq : List LogRow → List LogRow
unfolding insert_by_seq
order_by_seq [] = []
order_by_seq (l ∷ rows) = insert_by_seq l (order_by_seq rows)

-- `nextSeq` after the loop over the rows.
unfoldable pub next_seq_of : ℤ → List LogRow → ℤ
next_seq_of next [] = next
next_seq_of next (l ∷ rows) = next_seq_of (pos l.seq) rows

abbrev pub seq_or_zero : Option LogRow → ℕ
seq_or_zero none = 0
seq_or_zero (some l) = l.seq

abbrev pub is_some_row : List LogRow → Bool
is_some_row [] = false
is_some_row (_ ∷ _) = true

abbrev pub is_set : Option ℕ → Bool
is_set none = false
is_set (some _) = true

pub record LogsPage : Type 0 where
  pub chunks : List LogRow
  pub next_seq : ℤ
  pub oldest_seq : ℕ
  pub has_more : Bool
  pub status : Status
  pub finished : Bool

pub data LogsReply : Type 0 where
  not_found internal_error : LogsReply
  page : LogsPage → LogsReply

-- The answer about an execution, from the queries for its rows on. The errors of the last two are
-- ignored, which leaves the zero values.
unfoldable pub logs_page :
    (oldest_fails more_fails : Bool)
    → Execution
    → (id : ℕ) → (after : ℤ) → (second third fourth : Db) → LogsPage
unfolding rows_after order_by_seq next_seq_of oldest_of
logs_page oldest_fails more_fails e id after second third fourth =
    let chunks =
      take max_log_chunks_per_response (order_by_seq (rows_after id after second.logs)) in
    let next_seq = next_seq_of after chunks in
    record {
      chunks = chunks;
      next_seq = next_seq;
      oldest_seq = if oldest_fails then 0 else seq_or_zero (oldest_of id third.logs);
      has_more = not more_fails && is_some_row (rows_after id next_seq fourth.logs);
      status = e.status;
      finished = is_set e.finished_at;
    }

-- The four queries meet four states of the database.
unfoldable pub logs :
    (select_fails rows_fail oldest_fails more_fails : Bool)
    → (id : ℕ) → (after : ℤ) → (first second third fourth : Db) → LogsReply
unfolding logs_page
logs select_fails rows_fail oldest_fails more_fails id after first second third fourth =
    if select_fails then internal_error else elim (lookup id first.executions) [
      | none ↦ not_found
      | some e ↦
          if rows_fail
          then internal_error
          else page (logs_page oldest_fails more_fails e id after second third fourth)
    ]
