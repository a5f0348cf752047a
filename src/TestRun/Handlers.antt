-- ===== src/TestRun/Handlers.antt =====
-- The handlers of internal/handlers/script.go that start, read, stop and end a test run.
use webhook_ui.Common.{
  ℕ, String, Bool, true, false, not, ◌&&◌, ◌||◌, Option, none, some, List, [], ◌∷◌, ◌++◌, lookup,
  insert, ◌==◌, string_eq, if◌then◌else◌, Bytes, ℤ,
}
use webhook_ui.Models.{Status, is_valid_interpreter}
use webhook_ui.Store.{Stream}
use webhook_ui.Executor.{ExecuteResult}
use webhook_ui.TestRun.{
  TestRun, TestRunPage, TestRunRegistry, cancel_oldest_running, finish, page, request_cancel, start,
  write_chunk,
}

pub record TestScriptRequest : Type 0 where
  pub interpreter : String
  pub content : String
  pub args : List String
  pub ssh_host_id : String

pub data StartReply : Type 0 where
  bad_request too_many : StartReply
  accepted : (run_id : String) → StartReply

-- The answer to what the second call of start returned.
abbrev pub reply_to : Option TestRun × TestRunRegistry → StartReply × TestRunRegistry
reply_to (some run, g) = (accepted run.id, g)
reply_to (none, g) = (too_many, g)

-- StartTestRun after cancelOldestRunning.
unfoldable pub after_eviction :
    (meanwhile' : TestRunRegistry → TestRunRegistry)
    → String
    → ℕ
    → Bool × TestRunRegistry
    → StartReply × TestRunRegistry
unfolding start
after_eviction meanwhile' fresh_id now (true, g) = reply_to (start fresh_id now (meanwhile' g))
after_eviction meanwhile' fresh_id now (false, g) = (too_many, g)

-- StartTestRun after the first call of start.
unfoldable pub after_start :
    (meanwhile meanwhile' : TestRunRegistry → TestRunRegistry)
    → String
    → ℕ
    → Option TestRun × TestRunRegistry
    → StartReply × TestRunRegistry
unfolding cancel_oldest_running after_eviction
after_start meanwhile meanwhile' fresh_id now (some run, g) = (accepted run.id, g)
after_start meanwhile meanwhile' fresh_id now (none, g) =
    after_eviction meanwhile' fresh_id now (cancel_oldest_running (meanwhile g))

-- StartTestRun up to its goroutine. `meanwhile` is what the goroutines of other runs and other
-- requests do to the registry between its calls.
unfoldable pub start_test_run :
    (meanwhile meanwhile' : TestRunRegistry → TestRunRegistry)
    → Option TestScriptRequest
    → String
    → ℕ
    → TestRunRegistry
    → StartReply × TestRunRegistry
unfolding start after_start
start_test_run meanwhile meanwhile' none fresh_id now g = (bad_request, g)
start_test_run meanwhile meanwhile' (some req) fresh_id now g =
    let answer = after_start meanwhile meanwhile' fresh_id now (start fresh_id now g) in
    if not (is_valid_interpreter req.interpreter) || req.content == ""
    then (bad_request, g)
    else answer

abbrev pub test_run_status : ExecuteResult → Status
test_run_status result =
    if result.canceled
    then Status.canceled
    else if result.timed_out
    then Status.timeout
    else if not result.success
    then Status.failed
    else Status.success

abbrev pub is_empty : Bytes → Bool
is_empty [] = true
is_empty (_ ∷ _) = false

-- finishTestRun; the two marks are constants of the source.
unfoldable pub finish_test_run :
    (canceled_mark timeout_mark : Bytes) → ExecuteResult → ℕ → TestRun → TestRun
unfolding write_chunk
finish_test_run canceled_mark timeout_mark result now r = finish (test_run_status result) now (
    if result.canceled
    then write_chunk Stream.stderr canceled_mark r
    else if result.timed_out
    then write_chunk Stream.stderr timeout_mark r
    else if not result.success && not (is_empty result.error)
    then write_chunk Stream.stderr (0x0A ∷ result.error ++ 0x0A ∷ []) r
    else r)

-- What the deferred function of the goroutine does after a panic.
unfoldable pub panic_test_run : Bytes → ℕ → TestRun → TestRun
unfolding write_chunk
panic_test_run message now r = finish Status.failed now (write_chunk Stream.stderr message r)

-- The handler of TestRunLogs, after the reading of the query parameter.
unfoldable pub test_run_logs : String → ℤ → TestRunRegistry → Option TestRunPage
test_run_logs id after g = elim (lookup id g.runs) [ none ↦ none | some r ↦ some (page after r) ]

pub data CancelReply : Type 0 where
  not_found requested : CancelReply
  conflict : (status : Status) → CancelReply

unfoldable pub cancel_test_run : String → TestRunRegistry → CancelReply × TestRunRegistry
cancel_test_run id g = elim (lookup id g.runs) [
  | none ↦ (not_found, g)
  | some r ↦
      let (stoppable, r') = request_cancel r in
      if stoppable
      then (requested, record g { runs = insert id r' g.runs })
      else (conflict r.status, g)
]
