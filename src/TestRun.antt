-- ===== src/TestRun.antt =====
-- internal/handlers/testrun.go, and the test runs of internal/handlers/script.go: the live log of a
-- script that is tried out, and the registry of such runs.
--
-- A run's mutex and the registry's make each method one step. A limit of 0 stands for every limit
-- that is not positive. `none` for `finished_at` is the zero time. The channel `cancel` is whether
-- it was closed; `cancelOnce` closes it once.
pub mod Handlers
pub mod Rolled
pub mod Log
pub mod Pages
pub mod Oldest
pub mod Refusal
pub mod Registry
pub mod Sweep
mod Examples
use webhook_ui.Common.{
  ℕ, zero, suc, ◌+◌, ◌-◌, ◌*◌, String, Bool, true, false, not, ◌&&◌, ◌||◌, Option, none, some, List,
  [], ◌∷◌, ◌++◌, length, Map, lookup, insert, tally, ltb, leb, ◌==◌, string_eq, if◌then◌else◌,
  Bytes, bytes, ℤ, pos, is_below,
}
use webhook_ui.Models.{Status, is_valid_interpreter}
use webhook_ui.Store.{Stream}
use webhook_ui.Executor.{ExecuteResult}

abbrev pub max_concurrent_test_runs : ℕ
max_concurrent_test_runs = 3

abbrev pub max_test_run_chunks : ℕ
max_test_run_chunks = 20000

abbrev pub max_log_chunks_per_response : ℕ
max_log_chunks_per_response = 500

-- Five minutes, in seconds.
abbrev pub test_run_retention : ℕ
test_run_retention = 300

-- models.ExecutionLogChunk
pub record Chunk : Type 0 where
  pub seq : ℕ
  pub stream : Stream
  pub text : Bytes

pub record TestRun : Type 0 where
  pub id : String
  pub chunks : List Chunk
  pub seq : ℕ
  pub retained : ℕ
  pub limit_bytes : ℕ
  pub status : Status
  pub started_at : ℕ
  pub finished_at : Option ℕ
  pub canceled : Bool

abbrev pub new_test_run : String → ℕ → ℕ → TestRun
new_test_run fresh_id now limit_bytes = record {
  id = fresh_id;
  chunks = [];
  seq = 0;
  retained = 0;
  limit_bytes = limit_bytes;
  status = Status.running;
  started_at = now;
  finished_at = none;
  canceled = false;
}

-- The first loop of WriteChunk: the bytes retained, and the chunks.
unfoldable pub roll_bytes : ℕ → ℕ → List Chunk → ℕ × List Chunk
roll_bytes limit retained [] = (retained, [])
roll_bytes limit retained (c ∷ []) = (retained, c ∷ [])
roll_bytes limit retained (c ∷ d ∷ rest) =
    let rolled = roll_bytes limit (retained - length c.text) (d ∷ rest) in
    if ltb 0 retained && ltb 0 limit && ltb limit retained then rolled else (retained, c ∷ d ∷ rest)

-- The second loop.
unfoldable pub roll_count : ℕ → ℕ → List Chunk → ℕ × List Chunk
roll_count most retained [] = (retained, [])
roll_count most retained (c ∷ rest) =
    let rolled = roll_count most (retained - length c.text) rest in
    if ltb most (length (c ∷ rest)) then rolled else (retained, c ∷ rest)

unfoldable pub write_chunk : Stream → Bytes → TestRun → TestRun
write_chunk stream chunk r =
    let seq = r.seq + 1 in
    let (retained, chunks) =
      roll_bytes r.limit_bytes (r.retained + length chunk)
        (r.chunks ++ record { seq = seq; stream = stream; text = chunk } ∷ []) in
    let (retained', chunks') = roll_count max_test_run_chunks retained chunks in
    record r { seq = seq; retained = retained'; chunks = chunks' }

pub record TestRunPage : Type 0 where
  pub chunks : List Chunk
  pub next_seq : ℤ
  pub oldest_seq : ℕ
  pub has_more : Bool
  pub status : Status
  pub finished : Bool

-- The loop of page, with room for `left` chunks more: the chunks, NextSeq and HasMore.
unfoldable pub collect : (left : ℕ) → (after next : ℤ) → List Chunk → List Chunk × ℤ × Bool
collect left after next [] = ([], next, false)
collect zero after next (c ∷ rest) =
    let skipped = collect zero after next rest in
    if is_below after c.seq then ([], next, true) else skipped
collect (suc left) after next (c ∷ rest) =
    let skipped = collect (suc left) after next rest in
    let (chunks, last, more) = collect left after (pos c.seq) rest in
    if is_below after c.seq then (c ∷ chunks, last, more) else skipped

abbrev pub oldest_seq_of : List Chunk → ℕ
oldest_seq_of [] = 0
oldest_seq_of (c ∷ _) = c.seq

abbrev pub is_some {ℓ} : {A : Type ℓ} → Option A → Bool
is_some none = false
is_some (some _) = true

unfoldable pub page : ℤ → TestRun → TestRunPage
unfolding collect
page after r =
    let (chunks, next, more) = collect max_log_chunks_per_response after after r.chunks in
    record {
      chunks = chunks;
      next_seq = next;
      oldest_seq = oldest_seq_of r.chunks;
      has_more = more;
      status = r.status;
      finished = is_some r.finished_at;
    }

abbrev pub finish : Status → ℕ → TestRun → TestRun
finish status now r = record r { status = status; finished_at = some now }

abbrev pub is_running : TestRun → Bool
is_running r = not (is_some r.finished_at)

abbrev pub expired : ℕ → TestRun → Bool
expired now r = elim r.finished_at [ none ↦ false | some t ↦ ltb (t + test_run_retention) now ]

abbrev pub request_cancel : TestRun → Bool × TestRun
request_cancel r = if is_running r then (true, record r { canceled = true }) else (false, r)

pub record TestRunRegistry : Type 0 where
  pub runs : Map String TestRun
  pub limit_bytes : ℕ

abbrev pub new_test_run_registry : ℕ → TestRunRegistry
new_test_run_registry limit_bytes = record { runs = []; limit_bytes = limit_bytes }

abbrev pub one_if : Bool → ℕ
one_if true = 1
one_if false = 0

abbrev pub in_flight : TestRunRegistry → ℕ
in_flight g = tally (λ r. one_if (is_running r)) g.runs

-- `none` is ErrTooManyTestRuns; `fresh_id` is a new UUID.
unfoldable pub start : String → ℕ → TestRunRegistry → Option TestRun × TestRunRegistry
start fresh_id now g =
    if leb max_concurrent_test_runs (in_flight g)
    then (none, g)
    else let run = new_test_run fresh_id now g.limit_bytes in
      (some run, record g { runs = insert fresh_id run g.runs })

-- The loop of cancelOldestRunning, in some order of the map.
unfoldable pub oldest_running :
    Option (String × TestRun) → Map String TestRun → Option (String × TestRun)
oldest_running best [] = best
oldest_running none ((k, r) ∷ rest) =
    if is_running r then oldest_running (some (k, r)) rest else oldest_running none rest
oldest_running (some (j, b)) ((k, r) ∷ rest) =
    if is_running r && ltb r.started_at b.started_at
    then oldest_running (some (k, r)) rest
    else oldest_running (some (j, b)) rest

unfoldable pub cancel_oldest_running : TestRunRegistry → Bool × TestRunRegistry
unfolding oldest_running
cancel_oldest_running g = elim (oldest_running none g.runs) [
  | none ↦ (false, g)
  | some (k, r) ↦ (true, record g { runs = insert k (request_cancel r).1 g.runs })
]

-- sweep: how many went, and the runs that stay.
unfoldable pub sweep_runs : ℕ → Map String TestRun → ℕ × Map String TestRun
sweep_runs now [] = (0, [])
sweep_runs now ((k, r) ∷ rest) =
    let (removed, kept) = sweep_runs now rest in
    if expired now r then (removed + 1, kept) else (removed, (k, r) ∷ kept)

unfoldable pub sweep : ℕ → TestRunRegistry → ℕ × TestRunRegistry
unfolding sweep_runs
sweep now g = let (removed, runs) = sweep_runs now g.runs in (removed, record g { runs = runs })
