-- ===== src/TestRun/Examples.antt =====
-- A log of three bytes, and a registry where three runs go on.
use webhook_ui.Common.{
  ◌≤◌, ◌≡◌, refl, arith, String, some, List, [], ◌∷◌, lookup, insert, tally, IsUnique, nat_eq,
  string_eq, Bytes, pos,
}
use webhook_ui.Models.{Status, is_valid_interpreter}
use webhook_ui.Store.{Stream}
use webhook_ui.TestRun.{
  TestRun, new_test_run, page, finish, TestRunRegistry, new_test_run_registry, in_flight,
  max_concurrent_test_runs, start,
}
use webhook_ui.TestRun.Handlers.{TestScriptRequest, StartReply, start_test_run}
use webhook_ui.TestRun.Log.{IsLog, write_all-new_test_run-IsLog}
use webhook_ui.TestRun.Rolled.{write_all, numbered}
use webhook_ui.TestRun.Pages.{IsPage, page-IsPage}
use webhook_ui.TestRun.Oldest.{IsOldest}
use webhook_ui.TestRun.Registry.{
  starts, Run, here, next, IsBounded, new_test_run_registry-Run-IsBounded,
}
use webhook_ui.TestRun.Refusal.{with_canceled, start_test_run_full}

abbrev output : List (Stream × Bytes)
output =
    (Stream.stdout, 0x61 ∷ 0x62 ∷ [])
    ∷ (Stream.stderr, 0x63 ∷ 0x64 ∷ [])
    ∷ (Stream.stdout, 0x65 ∷ [])
    ∷ []

write_all-new_test_run-IsLog_example :
    IsLog 3 (write_all output (new_test_run "a" 0 3)) (numbered 0 output)
write_all-new_test_run-IsLog_example = write_all-new_test_run-IsLog "a" 0 3 output

page-IsPage_example :
    IsPage
      (numbered 0 output)
      (pos 1)
      (write_all output (new_test_run "a" 0 3))
      (page (pos 1) (write_all output (new_test_run "a" 0 3)))
page-IsPage_example = page-IsPage "a" 0 3 output (pos 1)

three_going : TestRunRegistry
unfolding start
three_going = (start "c" 6 (start "b" 5 (start "a" 4 (new_test_run_registry 3)).1).1).1

to_three : Run (new_test_run_registry 3) three_going
unfolding three_going start
to_three = next (next (next here (starts "a" 4)) (starts "b" 5)) (starts "c" 6)

new_test_run_registry-Run-IsBounded_example : IsBounded three_going
new_test_run_registry-Run-IsBounded_example = new_test_run_registry-Run-IsBounded 3 to_three

is_full : max_concurrent_test_runs ≤ in_flight three_going
unfolding three_going start tally insert
is_full = omega arith

no_id_twice : IsUnique three_going.runs
unfolding three_going start tally insert lookup
no_id_twice = (refl, (refl, (refl, tt)))

abbrev script : TestScriptRequest
script = record { interpreter = "bash"; content = "true"; args = []; ssh_host_id = "" }

start_test_run_full_example :
    (k : String) × (r : TestRun) × IsOldest three_going.runs k r
    × (start_test_run (λ x. x) (λ x. x) (some script) "d" 7 three_going
        ≡ (StartReply.too_many, with_canceled k r three_going))
unfolding is_valid_interpreter
start_test_run_full_example = start_test_run_full script "d" 7 three_going refl no_id_twice is_full

abbrev one_done : TestRunRegistry
one_done = record {
  runs = ("a", finish Status.success 10 (new_test_run "a" 4 3)) ∷ ("b", new_test_run "b" 5 3) ∷ [];
  limit_bytes = 3;
}
