-- ===== src/Workers/Examples.antt =====
-- One slot and two hooks: the second waits while the first runs, and is stopped.
use webhook_ui.Common.{ℕ, true, false, ◌≡◌, refl, some, List, [], ◌∷◌, pos, String}
use webhook_ui.Models.{Hook}
use webhook_ui.Store.{empty_db}
use webhook_ui.Workers.{World, Input, succeeded, Action, triggers, cancels, moves, acts}
use webhook_ui.Workers.Safety.{IsSafe}
use webhook_ui.Workers.Runs.{new_world, acts-IsSafe}
use webhook_ui.Workers.Rank.{IsPlain}
use webhook_ui.Workers.Progress.{moves_of, can_drain}

abbrev hook_called : String → Hook
hook_called id = record {
  success_hook_id = "";
  success_body = "";
  id = id;
  name = "step";
  command = "/bin/true";
  script_id = "";
  ssh_host_id = "";
  working_dir = "";
  response_message = "OK";
  hmac_secret = "";
  hmac_algorithm = "sha256";
  trigger_token = "";
  pass_arguments = [];
  pass_headers = [];
  pass_payload_to = "";
  async = true;
  timeout_seconds = pos 0;
}

abbrev plain_input : Input
plain_input = record {
  now = 0;
  source = "";
  start = record { select_host = false; insert_row = false; last_id = false };
  fails = false;
  takes = true;
  outcome = succeeded [] [];
  dispatch = record {
    begin = true;
    select = false;
    select_hook = false;
    start = record { select_host = false; insert_row = false; last_id = false };
    update = false;
    commit = false;
    new_request = false;
  };
  save_fails = true;
}

plain_input-IsPlain : (n : ℕ) → IsPlain plain_input
plain_input-IsPlain n = record { takes_token = refl; no_transaction = refl }

abbrev two_hooks : List Action
two_hooks =
    triggers (hook_called "a")
    ∷ moves plain_input 0
    ∷ moves plain_input 0
    ∷ moves plain_input 0
    ∷ triggers (hook_called "b")
    ∷ moves plain_input 1
    ∷ moves plain_input 1
    ∷ moves plain_input 1
    ∷ cancels 2
    ∷ []

acts-IsSafe_example :
    (w : World) × (acts two_hooks (new_world (pos 1) (pos 4) empty_db) ≡ some w) × IsSafe w
acts-IsSafe_example = acts-IsSafe (pos 1) (pos 4) empty_db two_hooks

reached : World
reached = (acts-IsSafe (pos 1) (pos 4) empty_db two_hooks).0

is_reached : acts two_hooks (new_world (pos 1) (pos 4) empty_db) ≡ some reached
unfolding reached
is_reached = (acts-IsSafe (pos 1) (pos 4) empty_db two_hooks).1

can_drain_example :
    (schedule : List ℕ) × (w' : World) × (acts (moves_of (λ n. plain_input) 0 schedule) reached
      ≡ some w')
    × (w'.workers ≡ [])
    × (w'.runner.slots ≡ 0)
    × (w'.runner.wg ≡ 0)
    × (w'.runner.in_flight ≡ [])
can_drain_example =
    can_drain (pos 1) (pos 4) empty_db two_hooks reached (λ n. plain_input) is_reached
      plain_input-IsPlain
