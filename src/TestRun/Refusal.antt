-- ===== src/TestRun/Refusal.antt =====
-- StartTestRun of internal/handlers/script.go where the registry is full.
use webhook_ui.Common.{
  ℕ, ◌≤◌, ◌<◌, ◌≡◌, refl, ap, ◌∙◌, String, Bool, true, false, not, ◌&&◌, ◌||◌, none, some, arith,
  lookup, insert, tally-insert_held, IsUnique, string_eq, ◌==◌,
}
use webhook_ui.Models.{is_valid_interpreter}
use webhook_ui.TestRun.{
  TestRun, TestRunRegistry, in_flight, max_concurrent_test_runs, start, cancel_oldest_running,
}
use webhook_ui.TestRun.Handlers.{
  TestScriptRequest, StartReply, start_test_run, after_start, after_eviction, reply_to,
}
use webhook_ui.TestRun.Oldest.{weight, oldest_running-IsOldest, IsOldest}

-- A request that the handler does not turn away.
abbrev pub is_valid : TestScriptRequest → Bool
is_valid req = is_valid_interpreter req.interpreter && not (req.content == "")

-- The registry with a run's channel closed.
abbrev pub with_canceled : String → TestRun → TestRunRegistry → TestRunRegistry
with_canceled k r g = record g { runs = insert k (record r { canceled = true }) g.runs }

cancel_oldest_running-lem :
    (g : TestRunRegistry)
    → IsUnique g.runs
    → 0 < in_flight g
    → (k : String) × (r : TestRun) × IsOldest g.runs k r
      × (cancel_oldest_running g ≡ (true, with_canceled k r g))
unfolding cancel_oldest_running
cancel_oldest_running-lem g u h =
    let (k, r, e, o) = oldest_running-IsOldest g.runs u h in
    (k, r, o, rw (e, cancel_oldest_running) (rw (o.going, cancel_oldest_running) refl))

-- The channel's closing does not end the run.
in_flight_canceled :
    (g : TestRunRegistry) (k : String) (r : TestRun)
    → lookup k g.runs ≡ some r
    → in_flight (with_canceled k r g) ≡ in_flight g
in_flight_canceled g k r h =
    omega (arith, tally-insert_held weight k (record r { canceled = true }) r g.runs h)

start_full :
    (id : String) (now : ℕ) (g : TestRunRegistry)
    → max_concurrent_test_runs ≤ in_flight g
    → start id now g ≡ (none, g)
unfolding start
start_full id now g h = ground arith

-- A valid request where three runs go on, in a registry that holds no id twice, and where nothing
-- else happens in between: the handler closes the channel of the oldest run, and then refuses the
-- request all the same, because a run counts until its goroutine has ended.
pub start_test_run_full :
    (req : TestScriptRequest) (id : String) (now : ℕ) (g : TestRunRegistry)
    → is_valid req ≡ true
    → IsUnique g.runs
    → max_concurrent_test_runs ≤ in_flight g
    → (k : String) × (r : TestRun) × IsOldest g.runs k r
      × (start_test_run (λ x. x) (λ x. x) (some req) id now g
          ≡ (StartReply.too_many, with_canceled k r g))
unfolding start_test_run
start_test_run_full req id now g valid u full =
    let (k, r, o, e) = cancel_oldest_running-lem g u (omega (arith, full)) in
    let first = start_full id now g full in
    let second =
      start_full id now (with_canceled k r g)
        (omega (arith, full, in_flight_canceled g k r o.held)) in
    let good : (not (is_valid_interpreter req.interpreter) || req.content == "") ≡ false =
      ground (arith, valid) in
    (
      k,
      r,
      o,
      rw (good, start_test_run)
          (ap (after_start (λ x. x) (λ x. x) id now) first
            ∙ unfold after_start after_eviction in
              (ap (after_eviction (λ x. x) id now) e ∙ ap reply_to second)),
    )
