-- ===== src/Workers/Progress.antt =====
-- The goroutines can always finish by their own calls, where these start no successor.
use webhook_ui.Common.{
  ℕ, zero, suc, ◌+◌, ◌≤◌, ◌<◌, ◌≡◌, ◌≢◌, inl, inr, refl, sym, ◌∙◌, true, some, List, [], ◌∷◌, Map,
  lookup, length, IsUnique, ltb, nat_eq, tally, ==_iff, ==_refl, ℤ, arith, Bool-cases,
  some_injective, List-cases,
}
use webhook_ui.Store.{Db}
use webhook_ui.Workers.{Phase, World, Input, move, Action, moves, act, acts}
use webhook_ui.Workers.Holdings.{tokens}
use webhook_ui.Workers.Safety.{IsSafe}
use webhook_ui.Workers.Runs.{act-Goes, new_world, acts-IsSafe}
use webhook_ui.Workers.Rank.{rank, is_waiting, IsPlain, move_less}

-- Where tokens are held, some goroutine holds one.
token_holder :
    (m : Map ℕ Phase)
    → IsUnique m
    → 1 ≤ tally tokens m
    → (i : ℕ) × (p : Phase) × (lookup i m ≡ some p) × (1 ≤ tokens p)
unfolding tally lookup
token_holder [] u h = absurd (omega (arith, h))
token_holder ((j, p) ∷ m) u h = elim (Bool-cases (ltb 0 (tokens p))) [
  | inl mine ↦ (j, p, ground (arith, ==_refl j), ground arith)
  | inr other ↦
      let (i, q, k, t) = token_holder m u.1 (ground arith) in (i, q, ground (arith, ==_iff j i), t)
]

-- Some goroutine is not blocked, as long as there is one.
unblocked :
    (w : World)
    → IsSafe w
    → w.workers ≢ []
    → (i : ℕ) × (p : Phase) × (lookup i w.workers ≡ some p)
      × (is_waiting p ≡ true → w.runner.slots < w.runner.max_concurrent)
unblocked w safe some_worker = elim (Bool-cases (ltb w.runner.slots w.runner.max_concurrent)) [
  | inl free ↦ elim (List-cases w.workers) [
    | inl none' ↦ absurd (some_worker none')
    | inr ((i, p), rest, e) ↦ (i, p, unfold lookup in rw e (rw (==_refl i) refl), λ _. ground arith)
  ]
  | inr full ↦
      let (i, p, at, token) =
        token_holder w.workers safe.sound.keys
          (ground (arith, safe.sound.running, safe.sound.bounded)) in
      (i, p, at, λ e. ground arith)
]

-- Calls in turn, each with what it meets.
abbrev pub moves_of : (ℕ → Input) → (n : ℕ) → List ℕ → List Action
moves_of x n [] = []
moves_of x n (i ∷ schedule) = moves (x n) i ∷ moves_of x (n + 1) schedule

-- One such call.
plain_move :
    (x : Input) (w : World)
    → IsPlain x
    → IsSafe w
    → w.workers ≢ []
    → (i : ℕ) × (w' : World) × (act (moves x i) w ≡ some w')
      × IsSafe w'
      × (tally rank w'.workers < tally rank w.workers)
unfolding act
plain_move x w plain safe some_worker =
    let (i, p, at, ready) = unblocked w safe some_worker in
    let (w', h, safe') = act-Goes (moves x i) w safe in
    (i, w', h, safe', move_less x w w' i p plain safe at ready (moved i p w' at h))
  where
    moved :
        (i : ℕ) (p : Phase) (w' : World)
        → lookup i w.workers ≡ some p
        → act (moves x i) w ≡ some w'
        → move x i p w ≡ some w'
    moved i p w' at h = ground arith

module _ (x : ℕ → Input) (plain : (n : ℕ) → IsPlain (x n)) where
  drain :
      (n k : ℕ) (w : World)
      → IsSafe w
      → tally rank w.workers ≤ n
      → (schedule : List ℕ) × (w' : World) × (acts (moves_of x k schedule) w ≡ some w')
        × IsSafe w'
        × (w'.workers ≡ [])
  unfolding acts
  drain zero k w safe le = elim (List-cases w.workers) [
    | inl e ↦ ([], w, refl, safe, e)
    | inr (kp, rest, e) ↦
        let (i, w1, h, safe', less) = plain_move (x k) w (plain k) safe (λ none'. ground arith) in
        absurd (omega (arith, less, le))
  ]
  drain (suc n) k w safe le = elim (List-cases w.workers) [
    | inl e ↦ ([], w, refl, safe, e)
    | inr (kp, rest, e) ↦
        let (i, w1, h, safe', less) = plain_move (x k) w (plain k) safe (λ none'. ground arith) in
        let (schedule, w', run, safe'', ended) =
          drain n (k + 1) w1 safe' (omega (arith, less, le)) in
        (i ∷ schedule, w', rw (h, acts) run, safe'', ended)
  ]

length-zero : {A : Type 0} (xs : List A) → length xs ≡ 0 → xs ≡ []
length-zero [] h = refl
length-zero (x ∷ xs) h = absurd (omega (arith, h))

-- No deadlock: from every world that a server can reach, however many hooks wait behind full slots,
-- if from then on nothing new is triggered and the database begins no transaction for a handoff,
-- so that no further successor is started, some order of the goroutines' own calls lets all of
-- them end, whatever the executions come to, be it a panic, and whatever other statements fail. The
-- runner then holds no token and no admission, and waits for nothing. (Chains of successors that are
-- started on the way are left out, and so is a stop that comes before a start.)
pub can_drain :
    (max_concurrent max_queue : ℤ) (db : Db) (todo : List Action) (w : World) (x : ℕ → Input)
    → acts todo (new_world max_concurrent max_queue db) ≡ some w
    → ((n : ℕ) → IsPlain (x n))
    → (schedule : List ℕ) × (w' : World) × (acts (moves_of x 0 schedule) w ≡ some w')
      × (w'.workers ≡ [])
      × (w'.runner.slots ≡ 0)
      × (w'.runner.wg ≡ 0)
      × (w'.runner.in_flight ≡ [])
unfolding tally
can_drain c q db todo w x h plain =
    let (w1, e, safe1) = acts-IsSafe c q db todo in
    let safe : IsSafe w = rw (some_injective (sym h ∙ e)) safe1 in
    let (schedule, w', run, safe', ended) =
      drain x plain (tally rank w.workers) 0 w safe (omega arith) in
    (
      schedule,
      w',
      run,
      ended,
      ground (arith, safe'.sound.running),
      ground (arith, safe'.sound.waited),
      length-zero _ (ground (arith, safe'.sound.admitted)),
    )
