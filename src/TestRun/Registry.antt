-- ===== src/TestRun/Registry.antt =====
-- The registry of test runs: its bound, its sweep, and the refusal of a run.
use webhook_ui.Common.{
  ℕ, ◌+◌, ◌≤◌, ◌≡◌, inl, inr, String, Bool, true, false, some, [], ◌∷◌, Bytes, arith, Bool-cases,
  Option-cases, if◌then◌else◌, Map, lookup, insert, adjust, tally, tally-insert_fresh,
  tally-insert_held, lookup-adjust, IsUnique, insert-IsUnique, string_eq, ltb, leb,
}
use webhook_ui.Store.{Stream}
use webhook_ui.Executor.{ExecuteResult}
use webhook_ui.TestRun.{
  TestRun, new_test_run, write_chunk, request_cancel, TestRunRegistry, new_test_run_registry,
  in_flight, max_concurrent_test_runs, start, oldest_running, cancel_oldest_running, sweep,
}
use webhook_ui.TestRun.Handlers.{finish_test_run, panic_test_run, cancel_test_run}
use webhook_ui.TestRun.Oldest.{weight, oldest_running-IsOldest, oldest_running-none}
use webhook_ui.TestRun.Sweep.{sweep-IsSwept}

-- What a run's goroutine does to its run.
abbrev pub update : String → (TestRun → TestRun) → TestRunRegistry → TestRunRegistry
update id f g = record g { runs = adjust id f g.runs }

-- What happens to a registry, by whichever goroutines.
pub data Step (g : TestRunRegistry) : TestRunRegistry → Type 0 where
  starts : (fresh_id : String) (now : ℕ) → Step g (start fresh_id now g).1
  evicts : Step g (cancel_oldest_running g).1
  cancels : (id : String) → Step g (cancel_test_run id g).1
  sweeps : (now : ℕ) → Step g (sweep now g).1
  writes :
      (id : String) (stream : Stream) (chunk : Bytes)
      → Step g (update id (write_chunk stream chunk) g)
  finishes :
      (id : String) (canceled_mark timeout_mark : Bytes) (result : ExecuteResult) (now : ℕ)
      → Step g (update id (finish_test_run canceled_mark timeout_mark result now) g)
  panics :
      (id : String) (message : Bytes) (now : ℕ) → Step g (update id (panic_test_run message now) g)

pub data Run (g : TestRunRegistry) : TestRunRegistry → Type 0 where
  here : Run g g
  next : {x y : TestRunRegistry} → Run g x → Step x y → Run g y

pub record IsBounded (g : TestRunRegistry) : Type 0 where
  pub unique : IsUnique g.runs
  pub running : in_flight g ≤ max_concurrent_test_runs

tally-insert-le :
    (k : String) (r : TestRun) (m : Map String TestRun)
    → tally weight (insert k r m) ≤ tally weight m + weight r
tally-insert-le k r m = elim (Option-cases (lookup k m)) [
  | inl e ↦ omega (arith, tally-insert_fresh weight k r m e)
  | inr (w, e) ↦ omega (arith, tally-insert_held weight k r w m e)
]

tally-adjust-le :
    (k : String) (f : TestRun → TestRun) (m : Map String TestRun)
    → ((r : TestRun) → weight (f r) ≤ weight r)
    → tally weight (adjust k f m) ≤ tally weight m
unfolding tally adjust
tally-adjust-le k f [] h = omega arith
tally-adjust-le k f ((j, r) ∷ m) h = ground (arith, h r, tally-adjust-le k f m h)

adjust-IsUnique :
    (k : String) (f : TestRun → TestRun) (m : Map String TestRun)
    → IsUnique m
    → IsUnique (adjust k f m)
unfolding adjust
adjust-IsUnique k f [] u = tt
adjust-IsUnique k f ((j, r) ∷ m) u =
    ground (arith, lookup-adjust j k f m, adjust-IsUnique k f m u.1)

update-IsBounded :
    (k : String) (f : TestRun → TestRun) (g : TestRunRegistry)
    → ((r : TestRun) → weight (f r) ≤ weight r)
    → IsBounded g
    → IsBounded (update k f g)
update-IsBounded k f g h b = record {
  unique = adjust-IsUnique k f g.runs b.unique;
  running = omega (arith, tally-adjust-le k f g.runs h, b.running);
}

start-IsBounded :
    (id : String) (now : ℕ) (g : TestRunRegistry) → IsBounded g → IsBounded (start id now g).1
unfolding start
start-IsBounded id now g b = elim (Bool-cases (leb max_concurrent_test_runs (in_flight g))) [
  | inl e ↦ rw e b
  | inr e ↦
      let run = new_test_run id now g.limit_bytes in
      rw e (record {
        unique = insert-IsUnique id run g.runs b.unique;
        running = ground (arith, tally-insert-le id run g.runs);
      })
]

-- The run of a key that is put back with its channel closed.
canceled-IsBounded :
    (k : String) (r : TestRun) (g : TestRunRegistry)
    → lookup k g.runs ≡ some r
    → IsBounded g
    → IsBounded (record g { runs = insert k (request_cancel r).1 g.runs })
canceled-IsBounded k r g e b = record {
  unique = insert-IsUnique k (request_cancel r).1 g.runs b.unique;
  running = ground (arith, tally-insert_held weight k (request_cancel r).1 r g.runs e, b.running);
}

either-IsBounded :
    {A : Type 0} (b : Bool) (p q : A × TestRunRegistry)
    → IsBounded p.1
    → IsBounded q.1
    → IsBounded (if b then p else q).1
either-IsBounded true p q h i = h
either-IsBounded false p q h i = i

cancel_test_run-IsBounded :
    (id : String) (g : TestRunRegistry) → IsBounded g → IsBounded (cancel_test_run id g).1
unfolding cancel_test_run
cancel_test_run-IsBounded id g b = elim (Option-cases (lookup id g.runs)) [
  | inl e ↦ rw (e, cancel_test_run) b
  | inr (r, e) ↦
      rw (e, cancel_test_run)
        (either-IsBounded (request_cancel r).0 _ _ (canceled-IsBounded id r g e b) b)
]

cancel_oldest_running-IsBounded :
    (g : TestRunRegistry) → IsBounded g → IsBounded (cancel_oldest_running g).1
unfolding cancel_oldest_running oldest_running
cancel_oldest_running-IsBounded g b = elim (Bool-cases (ltb 0 (in_flight g))) [
  | inl some_run ↦
      let (k, r, e, o) = oldest_running-IsOldest g.runs b.unique (ground arith) in
      rw (e, cancel_oldest_running) (canceled-IsBounded k r g o.held b)
  | inr none_runs ↦ rw (oldest_running-none g.runs (ground arith), cancel_oldest_running) b
]

-- A run that finished never goes on again.
write_weight :
    (stream : Stream) (chunk : Bytes) (r : TestRun) → weight (write_chunk stream chunk r) ≤ weight r
unfolding write_chunk
write_weight stream chunk r = omega arith

finish_weight :
    (canceled_mark timeout_mark : Bytes) (result : ExecuteResult) (now : ℕ) (r : TestRun)
    → weight (finish_test_run canceled_mark timeout_mark result now r) ≤ weight r
unfolding finish_test_run
finish_weight canceled_mark timeout_mark result now r = omega arith

panic_weight :
    (message : Bytes) (now : ℕ) (r : TestRun) → weight (panic_test_run message now r) ≤ weight r
unfolding panic_test_run
panic_weight message now r = omega arith

Step-IsBounded : {g h : TestRunRegistry} → IsBounded g → Step g h → IsBounded h
Step-IsBounded {g} b (starts fresh_id now) = start-IsBounded fresh_id now g b
Step-IsBounded {g} b evicts = cancel_oldest_running-IsBounded g b
Step-IsBounded {g} b (cancels id) = cancel_test_run-IsBounded id g b
Step-IsBounded {g} b (sweeps now) =
    let swept = sweep-IsSwept now g b.unique in
    record { unique = swept.unique; running = rw swept.same_load b.running }
Step-IsBounded {g} b (writes id stream chunk) =
    update-IsBounded id (write_chunk stream chunk) g (write_weight stream chunk) b
Step-IsBounded {g} b (finishes id canceled_mark timeout_mark result now) =
    update-IsBounded id (finish_test_run canceled_mark timeout_mark result now) g
      (finish_weight canceled_mark timeout_mark result now) b
Step-IsBounded {g} b (panics id message now) =
    update-IsBounded id (panic_test_run message now) g (panic_weight message now) b

Run-IsBounded : {g h : TestRunRegistry} → IsBounded g → Run g h → IsBounded h
Run-IsBounded b here = b
Run-IsBounded b (next run st) = Step-IsBounded (Run-IsBounded b run) st

-- A new registry, whatever is then done with it in whatever order by requests, the sweep and the
-- goroutines of its runs: it holds no id twice, and never more than three runs that go on.
pub new_test_run_registry-Run-IsBounded :
    (limit : ℕ) {g : TestRunRegistry} → Run (new_test_run_registry limit) g → IsBounded g
new_test_run_registry-Run-IsBounded limit run =
    Run-IsBounded {g = new_test_run_registry limit}
      (record { unique = tt; running = unfold tally in omega arith }) run
