-- ===== src/Workers/Safety.antt =====
-- No order of the goroutines' calls panics, and what the runner counts is what they hold.
use webhook_ui.Common.{
  ℕ, ◌+◌, ◌<◌, ◌≡◌, inl, inr, refl, sym, Option, none, some, Map, lookup, insert, delete,
  delete_fresh, nat_eq, arith, Option-cases,
}
use webhook_ui.Runner.{Runner}
use webhook_ui.Cancel.{CancelRegistry}
use webhook_ui.Cancel.Laws.{IsLive}
use webhook_ui.Store.{Db}
use webhook_ui.Workers.{Phase, World, put, gone}
use webhook_ui.Workers.Holdings.{
  held, admissions, tokens, handoffs, waits, InHand, IsSound, take_out, put_in,
}

-- The runner counts what the goroutines hold, and the registry's channels are open.
pub record IsSafe (w : World) : Type 0 where
  pub sound : IsSound w.runner w.workers w.next_worker 0 0 0
  pub live : IsLive w.cancels

pub recount :
    {r : Runner} {ws : Map ℕ Phase} {next a t n a' t' n' : ℕ}
    → IsSound r ws next a t n
    → a ≡ a'
    → t ≡ t'
    → n ≡ n'
    → IsSound r ws next a' t' n'
recount v ea et en = record {
  keys = v.keys;
  below = v.below;
  owned = v.owned;
  one = v.one;
  issued = v.issued;
  admitted = omega (arith, v.admitted, ea);
  running = omega (arith, v.running, et);
  waited = omega (arith, v.waited, en);
  bounded = v.bounded;
}

-- No panic, and a world that is safe again.
abbrev pub Goes : Option World → Type 0
Goes o = (w' : World) × (o ≡ some w') × IsSafe w'

-- The goroutine `i` in phase `p`, taken out of the table.
module _ (w : World) (i : ℕ) (p : Phase) (safe : IsSafe w) (at : lookup i w.workers ≡ some p) where
  abbrev pub others : Map ℕ Phase
  others = delete i w.workers

  pub rest : IsSound w.runner others w.next_worker (admissions p) (tokens p) (waits p)
  rest = recount (take_out safe.sound i p at).0 (omega arith) (omega arith) (omega arith)

  pub mine : InHand w.runner others (held p)
  mine = (take_out safe.sound i p at).1

  -- It goes on in phase `q`.
  pub goes_on :
      (q : Phase) (db : Db) (r : Runner) (c : CancelRegistry)
      → IsSound r others w.next_worker (admissions q) (tokens q) (waits q)
      → InHand r others (held q)
      → IsLive c
      → IsSafe (put i q (record w { db = db; runner = r; cancels = c }))
  goes_on q db r c v m live =
      let (_, _, new, lt) = take_out safe.sound i p at in
      record {
        sound = put_in i q (recount v (omega arith) (omega arith) (omega arith)) m new lt;
        live = live;
      }

  -- It ends.
  pub ends :
      (db : Db) (r : Runner)
      → IsSound r others w.next_worker 0 0 0
      → IsSafe (gone i (record w { db = db; runner = r }))
  ends db r v = record { sound = v; live = safe.live }

  -- It goes on with what it holds.
  pub relabels :
      (q : Phase) (db : Db) (c : CancelRegistry)
      → held q ≡ held p
      → tokens q ≡ tokens p
      → handoffs q ≡ handoffs p
      → IsLive c
      → IsSafe (put i q (record w { db = db; cancels = c }))
  relabels q db c h t o live =
      goes_on q db w.runner c (recount rest (rw h refl) (sym t) (rw (h, o) refl)) (rw h mine) live

-- A number that no goroutine has yet.
pub next_free :
    {r : Runner} {ws : Map ℕ Phase} {next a t n : ℕ}
    → IsSound r ws next a t n
    → lookup next ws ≡ none
next_free {ws = ws} {next = next} v = elim (Option-cases (lookup next ws)) [
  | inl e ↦ e
  | inr (p, e) ↦ let bad : next < next = v.below next p e in absurd (omega (arith, bad))
]

pub widen :
    {r : Runner} {ws : Map ℕ Phase} {next a t n : ℕ}
    → IsSound r ws next a t n
    → IsSound r ws (next + 1) a t n
widen v = record {
  keys = v.keys;
  below = λ i p k. omega (arith, v.below i p k);
  owned = v.owned;
  one = v.one;
  issued = v.issued;
  admitted = v.admitted;
  running = v.running;
  waited = v.waited;
  bounded = v.bounded;
}

-- A goroutine more, with what it holds.
pub spawn_in :
    {r : Runner} {ws : Map ℕ Phase} {next a t n : ℕ} (q : Phase)
    → IsSound r ws next (a + admissions q) (t + tokens q) (n + waits q)
    → InHand r ws (held q)
    → IsSound r (insert next q (delete next ws)) (next + 1) a t n
spawn_in {ws = ws} {next = next} q v m =
    let free = next_free v in
    rw (delete_fresh next ws free) (put_in next q (widen v) m free (omega arith))
