-- ===== src/TestRun/Sweep.antt =====
-- The sweep of internal/handlers/testrun.go.
use webhook_ui.Common.{
  ℕ, ◌+◌, ◌≡◌, inl, inr, refl, ap, String, true, Option, none, some, [], ◌∷◌, length, arith,
  Option-cases, if◌then◌else◌, Map, lookup, tally, IsUnique, string_eq, ==_iff,
}
use webhook_ui.TestRun.{TestRun, expired, TestRunRegistry, in_flight, sweep_runs, sweep}
use webhook_ui.TestRun.Oldest.{weight}

-- What a sweep leaves of an entry.
abbrev pub unless_expired : ℕ → Option TestRun → Option TestRun
unless_expired now none = none
unless_expired now (some r) = if expired now r then none else some r

lookup-sweep_runs :
    (now : ℕ) (j : String) (m : Map String TestRun)
    → IsUnique m
    → lookup j (sweep_runs now m).1 ≡ unless_expired now (lookup j m)
unfolding sweep_runs lookup
lookup-sweep_runs now j [] u = refl
lookup-sweep_runs now j ((k, r) ∷ m) u =
    ground (arith, lookup-sweep_runs now j m u.1, ==_iff k j, ap (λ o. unless_expired now o) u.0)

sweep_runs-IsUnique :
    (now : ℕ) (m : Map String TestRun) → IsUnique m → IsUnique (sweep_runs now m).1
unfolding sweep_runs
sweep_runs-IsUnique now [] u = tt
sweep_runs-IsUnique now ((k, r) ∷ m) u = ground (
  arith,
  sweep_runs-IsUnique now m u.1,
  lookup-sweep_runs now k m u.1,
  ap (λ o. unless_expired now o) u.0,
)

expired-weight : (now : ℕ) (r : TestRun) → expired now r ≡ true → weight r ≡ 0
expired-weight now r h = elim (Option-cases r.finished_at) [
  | inl e ↦ absurd (ground arith)
  | inr (t, e) ↦ rw e refl
]

tally-sweep_runs :
    (now : ℕ) (m : Map String TestRun) → tally weight (sweep_runs now m).1 ≡ tally weight m
unfolding sweep_runs tally
tally-sweep_runs now [] = refl
tally-sweep_runs now ((k, r) ∷ m) = ground (arith, tally-sweep_runs now m, expired-weight now r)

length-sweep_runs :
    (now : ℕ) (m : Map String TestRun)
    → length (sweep_runs now m).1 + (sweep_runs now m).0 ≡ length m
unfolding sweep_runs
length-sweep_runs now [] = omega arith
length-sweep_runs now ((k, r) ∷ m) = ground (arith, length-sweep_runs now m)

pub record IsSwept (now : ℕ) (g : TestRunRegistry) (out : ℕ × TestRunRegistry) : Type 0 where
  pub looked : (id : String) → lookup id out.1.runs ≡ unless_expired now (lookup id g.runs)
  pub unique : IsUnique out.1.runs
  pub counted : length out.1.runs + out.0 ≡ length g.runs
  pub same_load : in_flight out.1 ≡ in_flight g

pub sweep-IsSwept : (now : ℕ) (g : TestRunRegistry) → IsUnique g.runs → IsSwept now g (sweep now g)
unfolding sweep
sweep-IsSwept now g u = record {
  looked = λ id. lookup-sweep_runs now id g.runs u;
  unique = sweep_runs-IsUnique now g.runs u;
  counted = length-sweep_runs now g.runs;
  same_load = tally-sweep_runs now g.runs;
}
