-- ===== src/TestRun/Oldest.antt =====
-- The search of cancelOldestRunning in internal/handlers/testrun.go.
use webhook_ui.Common.{
  ℕ, ◌≤◌, ◌<◌, ◌≡◌, ◌⊎◌, inl, inr, refl, String, true, ◌&&◌, none, some, [], ◌∷◌, arith, Bool-cases,
  Map, lookup, tally, IsUnique, string_eq, ==_iff, ltb,
}
use webhook_ui.TestRun.{TestRun, is_running, one_if, oldest_running}

abbrev pub weight : TestRun → ℕ
weight r = one_if (is_running r)

-- The oldest of the runs that go on: one of them, and none began before it.
pub record IsOldest (runs : Map String TestRun) (k : String) (r : TestRun) : Type 0 where
  pub held : lookup k runs ≡ some r
  pub going : is_running r ≡ true
  pub first :
      (j : String) (s : TestRun)
      → lookup j runs ≡ some s
      → is_running s ≡ true
      → r.started_at ≤ s.started_at

-- What the search finds, from a run that goes on.
record Found (b : TestRun) (j : String) (rest : Map String TestRun) : Type 0 where
  pub key : String
  pub run : TestRun
  pub is_found : oldest_running (some (j, b)) rest ≡ some (key, run)
  pub before : run.started_at ≤ b.started_at
  pub from : ((key ≡ j) × (run ≡ b)) ⊎ ((lookup key rest ≡ some run) × (is_running run ≡ true))
  pub first :
      (i : String) (s : TestRun)
      → lookup i rest ≡ some s
      → is_running s ≡ true
      → run.started_at ≤ s.started_at

oldest_running-Found :
    (j : String) (b : TestRun) (rest : Map String TestRun) → IsUnique rest → Found b j rest
unfolding oldest_running lookup
oldest_running-Found j b [] u = record {
  key = j;
  run = b;
  is_found = refl;
  before = omega arith;
  from = inl (refl, refl);
  first = λ i s h run. absurd (ground (arith, h));
}
oldest_running-Found j b ((k, r) ∷ rest) u =
    elim (Bool-cases (is_running r && ltb r.started_at b.started_at)) [
      | inl e ↦
          let f = oldest_running-Found k r rest u.1 in
          record {
            key = f.key;
            run = f.run;
            is_found = rw e f.is_found;
            before = ground (arith, f.before);
            from = ground (arith, ==_iff k f.key, f.from);
            first = λ i s h going. ground (arith, ==_iff k i, f.first i s, f.before);
          }
      | inr e ↦
          let f = oldest_running-Found j b rest u.1 in
          record {
            key = f.key;
            run = f.run;
            is_found = rw e f.is_found;
            before = f.before;
            from = ground (arith, ==_iff k f.key, f.from, u.0);
            first = λ i s h going. ground (arith, ==_iff k i, f.first i s, f.before);
          }
    ]

-- Where a run goes on, the search finds the oldest.
pub oldest_running-IsOldest :
    (runs : Map String TestRun)
    → IsUnique runs
    → 0 < tally weight runs
    → (k : String) × (r : TestRun) × (oldest_running none runs ≡ some (k, r)) × IsOldest runs k r
unfolding oldest_running lookup tally
oldest_running-IsOldest [] u h = absurd (ground arith)
oldest_running-IsOldest ((k, r) ∷ rest) u h = elim (Bool-cases (is_running r)) [
  | inl e ↦
      let f = oldest_running-Found k r rest u.1 in
      (
        f.key,
        f.run,
        rw (e, oldest_running) f.is_found,
        record {
          held = ground (arith, ==_iff k f.key, f.from, u.0);
          going = ground (arith, f.from);
          first = λ j s i going. ground (arith, ==_iff k j, f.first j s, f.before);
        },
      )
  | inr e ↦
      let (j, b, is_found, o) = oldest_running-IsOldest rest u.1 (ground arith) in
      (
        j,
        b,
        rw (e, oldest_running) is_found,
        record {
          held = ground (arith, ==_iff k j, o.held, u.0);
          going = o.going;
          first = λ i s held going. ground (arith, ==_iff k i, o.first i s);
        },
      )
]

-- Where none goes on, it finds none.
pub oldest_running-none :
    (runs : Map String TestRun) → tally weight runs ≡ 0 → oldest_running none runs ≡ none
unfolding oldest_running tally
oldest_running-none [] h = refl
oldest_running-none ((k, r) ∷ rest) h = ground (arith, oldest_running-none rest)
