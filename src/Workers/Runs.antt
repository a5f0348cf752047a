-- ===== src/Workers/Runs.antt =====
-- Every sequence of calls, in whatever order the goroutines make them.
use webhook_ui.Common.{
  ℕ, ◌≡◌, inl, inr, refl, false, some, List, [], ◌∷◌, lookup, nat_eq, tally, ℤ, arith, Option-cases,
}
use webhook_ui.Runner.{new_runner}
use webhook_ui.Runner.Admissions.{with_slot, admit_cases}
use webhook_ui.Runner.Bounds.{new_runner-IsBounded}
use webhook_ui.Cancel.{new_cancel_registry}
use webhook_ui.Cancel.Laws.{signalled, new-IsLive, unregister-IsLive, cancel-IsLive, cancel_total}
use webhook_ui.Store.{Db}
use webhook_ui.Workers.{
  Phase, recording, launching, registering, tracking, spawning, noting, waiting, giving_up, marking,
  running, returning, recovering, unregistering, releasing, dispatching, done, World, Input, move,
  Action, triggers, dispatches, cancels, moves, stores, spawn, act, acts,
}
use webhook_ui.Workers.Slots.{with_slot-IsSound}
use webhook_ui.Workers.Safety.{IsSafe, Goes, relabels, spawn_in}
use webhook_ui.Workers.Calls.{
  recording-Goes, launching-IsSafe, registering-IsSafe, tracking-IsSafe, spawning-IsSafe,
  noting-IsSafe, waiting-IsSafe, running-IsSafe, returning-IsSafe, releasing-Goes, done-Goes,
  dispatching-Goes,
}

move-Goes :
    (x : Input) (w : World) (i : ℕ) (p : Phase)
    → IsSafe w
    → lookup i w.workers ≡ some p
    → Goes (move x i p w)
unfolding move
move-Goes x w i (recording hook slot) safe at = recording-Goes x w i safe hook slot at
move-Goes x w i (launching tracked exec slot) safe at =
    (_, refl, launching-IsSafe x w i safe tracked exec slot at)
move-Goes x w i (registering tracked exec slot) safe at =
    (_, refl, registering-IsSafe x w i safe tracked exec slot at)
move-Goes x w i (tracking tracked exec slot ch) safe at =
    (_, refl, tracking-IsSafe x w i safe tracked exec slot ch at)
move-Goes x w i (spawning tracked exec slot ch) safe at =
    (_, refl, spawning-IsSafe x w i safe tracked exec slot ch at)
move-Goes x w i (waiting exec slot ch) safe at =
    (_, refl, waiting-IsSafe x w i safe exec slot ch at)
move-Goes x w i (giving_up exec slot) safe at = (
  _,
  refl,
  relabels w i (giving_up exec slot) safe at (unregistering exec slot) _ w.cancels refl refl refl
      safe.live,
)
move-Goes x w i (marking exec slot) safe at = (
  _,
  refl,
  relabels w i (marking exec slot) safe at (running exec slot) _ w.cancels refl refl refl safe.live,
)
move-Goes x w i (running exec slot) safe at =
    (_, refl, running-IsSafe x w i safe exec slot x.outcome at)
move-Goes x w i (returning panic exec slot) safe at =
    (_, refl, returning-IsSafe x w i safe panic exec slot at)
move-Goes x w i (recovering panic exec slot) safe at = (
  _,
  refl,
  relabels w i (recovering panic exec slot) safe at (unregistering exec slot) _ w.cancels refl refl
      refl safe.live,
)
move-Goes x w i (unregistering exec slot) safe at = (
  _,
  refl,
  relabels w i (unregistering exec slot) safe at (releasing exec slot) w.db _ refl refl refl
      (unregister-IsLive exec w.cancels safe.live),
)
move-Goes x w i (releasing exec slot) safe at = releasing-Goes x w i safe exec slot at
move-Goes x w i (dispatching tracked exec) safe at = dispatching-Goes x w i safe tracked exec at
move-Goes x w i (noting tracked exec e) safe at =
    (_, refl, noting-IsSafe x w i safe tracked exec e at)
move-Goes x w i done safe at = done-Goes x w i safe at

pub act-Goes : (a : Action) (w : World) → IsSafe w → Goes (act a w)
unfolding act
act-Goes (triggers hook) w safe = elim (admit_cases hook.id w.runner) [
  | inl (s, _, e) ↦ (w, ground (arith, e), safe)
  | inr (inl (_, _, e)) ↦ (w, ground (arith, e), safe)
  | inr (inr (free, room, e)) ↦
      let (v, m) = with_slot-IsSound hook.id free room safe.sound in
      (
        spawn (recording hook w.runner.next_slot)
            (record w { runner = with_slot hook.id w.runner }),
        rw (e, act) (rw e refl),
        record {
          sound = spawn_in {a = 0} {t = 0} {n = 0} (recording hook w.runner.next_slot) v m;
          live = safe.live;
        },
      )
]
act-Goes (dispatches exec) w safe = (
  _,
  refl,
  record {
    sound = spawn_in {a = 0} {t = 0} {n = 0} (dispatching false exec) safe.sound tt;
    live = safe.live;
  },
)
act-Goes (cancels exec) w safe = elim (cancel_total exec w.cancels safe.live) [
  | inl (_, e) ↦ (w, rw (e, act) refl, safe)
  | inr (ch, _, e) ↦ (
    record w { cancels = signalled exec ch w.cancels },
    rw (e, act) refl,
    record { sound = safe.sound; live = cancel-IsLive exec w.cancels safe.live e },
  )
]
act-Goes (moves x i) w safe = elim (Option-cases (lookup i w.workers)) [
  | inl e ↦ (w, rw (e, act) refl, safe)
  | inr (p, e) ↦ let (w', h, s) = move-Goes x w i p safe e in (w', rw (e, act) h, s)
]
act-Goes (stores db) w safe = (_, refl, record { sound = safe.sound; live = safe.live })

pub acts-Goes : (todo : List Action) (w : World) → IsSafe w → Goes (acts todo w)
unfolding acts
acts-Goes [] w safe = (w, refl, safe)
acts-Goes (a ∷ rest) w safe =
    let (w', e, s) = act-Goes a w safe in
    let (w'', e', s') = acts-Goes rest w' s in (w'', rw (e, acts) e', s')

-- A server that has just started.
abbrev pub new_world : ℤ → ℤ → Db → World
new_world max_concurrent max_queue db = record {
  db = db;
  runner = new_runner max_concurrent max_queue;
  cancels = new_cancel_registry;
  workers = [];
  next_worker = 0;
}

pub new_world-IsSafe : (c q : ℤ) (db : Db) → IsSafe (new_world c q db)
unfolding new_runner lookup tally
new_world-IsSafe c q db = record {
  sound = record {
    keys = tt;
    below = λ i p k. cc;
    owned = λ i p slot k e. cc;
    one = λ i j p r slot k l e g. cc;
    issued = λ slot s k. cc;
    admitted = refl;
    running = refl;
    waited = refl;
    bounded = new_runner-IsBounded c q;
  };
  live = new-IsLive;
}

-- From a server that has just started, with any limits and database: whatever asynchronous hooks
-- are triggered, executions stopped, successors dispatched and other statements made, and in
-- whatever order the goroutines make their calls, no call on the runner or the registry panics; and
-- at any time the tokens, the admissions and the wait group are those that the goroutines hold.
-- (The transaction of a dispatch is one step here, with the admission in it and, if it fails, the
-- release; every other call and statement is a step of its own.)
pub acts-IsSafe :
    (max_concurrent max_queue : ℤ) (db : Db) (todo : List Action)
    → (w : World) × (acts todo (new_world max_concurrent max_queue db) ≡ some w) × IsSafe w
acts-IsSafe c q db todo = acts-Goes todo (new_world c q db) (new_world-IsSafe c q db)
