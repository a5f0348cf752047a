-- ===== src/Workers/Rank.antt =====
-- A goroutine's next call lowers its rank.
use webhook_ui.Common.{
  ℕ, ◌+◌, ◌≤◌, ◌<◌, ◌≡◌, inl, inr, refl, sym, Bool, true, false, none, some, [], ◌∷◌, Map, lookup,
  insert, delete, delete_fresh, nat_eq, tally, tally-insert_fresh, tally-delete, le-tally,
  lookup-delete, lookup-insert, ==_iff, arith, Option-cases, some_injective,
}
use webhook_ui.Models.{Status, Hook}
use webhook_ui.Runner.{release}
use webhook_ui.Store.{Db, ChainError}
use webhook_ui.Chain.{
  Dispatch, Service, dispatch_pending_success, start_hook_execution, Result, ok, err,
}
use webhook_ui.Workers.{
  succeeded, canceled, panics, Phase, recording, launching, registering, tracking, spawning, noting,
  waiting, giving_up, marking, running, returning, recovering, unregistering, releasing,
  dispatching, done, World, Input, failed, note_failure, record_execution, start, finish_run,
  give_back, dispatch, hand_over, move,
}
use webhook_ui.Workers.Holdings.{tokens, take_out}
use webhook_ui.Workers.Safety.{IsSafe, next_free}

-- How many calls a goroutine has left at most, if it launches no successor anew.
abbrev pub rank : Phase → ℕ
rank (recording _ _) = 16
rank (launching _ _ _) = 15
rank (registering _ _ _) = 14
rank (tracking _ _ _ _) = 13
rank (spawning _ _ _ _) = 12
rank (waiting _ _ _) = 10
rank (giving_up _ _) = 6
rank (marking _ _) = 9
rank (running _ _) = 8
rank (returning _ _ _) = 7
rank (recovering _ _ _) = 6
rank (unregistering _ _) = 5
rank (releasing _ _) = 4
rank (dispatching _ _) = 3
rank (noting _ _ _) = 2
rank done = 1

abbrev pub is_waiting : Phase → Bool
is_waiting (waiting _ _ _) = true
is_waiting _ = false

-- A call that takes a token where there is one, and whose dispatch gets no transaction. All else is
-- left open: what an execution comes to, and which statements fail.
pub record IsPlain (x : Input) : Type 0 where
  pub takes_token : x.takes ≡ true
  pub no_transaction : x.dispatch.begin ≡ true

module _ (w : World) (i : ℕ) (p : Phase) (safe : IsSafe w) (at : lookup i w.workers ≡ some p) where
  less_put :
      (q : Phase)
      → rank q < rank p
      → tally rank (insert i q (delete i w.workers)) < tally rank w.workers
  less_put q lt =
      let (_, _, new, _) = take_out safe.sound i p at in
      omega (
        arith,
        lt,
        tally-insert_fresh rank i q (delete i w.workers) new,
        tally-delete rank i p w.workers safe.sound.keys at,
      )

  less_gone : 1 ≤ rank p → tally rank (delete i w.workers) < tally rank w.workers
  less_gone lt = omega (arith, lt, tally-delete rank i p w.workers safe.sound.keys at)

recording_less :
    (x : Input) (w w' : World) (i : ℕ) (hook : Hook) (slot : ℕ)
    → IsSafe w
    → lookup i w.workers ≡ some (recording hook slot)
    → record_execution x i hook slot w ≡ some w'
    → tally rank w'.workers < tally rank w.workers
unfolding record_execution
recording_less x w w' i hook slot safe at h =
    go (start_hook_execution x.start x.now hook x.source Status.queued 0 (hook.id ∷ []) w.db) refl
  where
    p : Phase
    p = recording hook slot

    go :
        (r : Result ℕ × Db)
        → start_hook_execution x.start x.now hook x.source Status.queued 0 (hook.id ∷ []) w.db ≡ r
        → tally rank w'.workers < tally rank w.workers
    go (ok exec, db) e =
        ground (arith, less_put w i (recording hook slot) safe at (launching false exec slot))
    go (err y, db) e = elim (Option-cases (release slot w.runner)) [
      | inl k ↦ let bad : ⊥ = ground arith in absurd bad
      | inr (r, k) ↦ ground (arith, less_gone w i (recording hook slot) safe at)
    ]

spawn_adds :
    (k : ℕ) (q : Phase) (m : Map ℕ Phase)
    → lookup k m ≡ none
    → tally rank (insert k q (delete k m)) ≡ tally rank m + rank q
spawn_adds k q m h = rw (delete_fresh k m h) (tally-insert_fresh rank k q m h)

spawning_less :
    (w w' : World) (i : ℕ) (tracked : Bool) (exec slot ch : ℕ)
    → IsSafe w
    → lookup i w.workers ≡ some (spawning tracked exec slot ch)
    → hand_over i tracked exec slot ch w ≡ w'
    → tally rank w'.workers < tally rank w.workers
unfolding hand_over
spawning_less w w' i tracked exec slot ch safe at h =
    let p : Phase = spawning tracked exec slot ch in
    let (_, _, new, lt) = take_out safe.sound i p at in
    let k : ℕ = w.next_worker in
    let free : lookup k (delete i w.workers) ≡ none =
      ground (arith, lookup-delete k i w.workers, next_free safe.sound) in
    let free' : lookup k (insert i done (delete i w.workers)) ≡ none =
      ground (arith, lookup-insert k i done (delete i w.workers), ==_iff i k) in
    elim tracked
        as (λ b. hand_over i b exec slot ch w ≡ w' → tally rank w'.workers < tally rank w.workers) [
          | true ↦ λ e. rw (sym e) (
              omega (
                arith,
                spawn_adds k (waiting exec slot ch) (insert i done (delete i w.workers)) free',
                tally-insert_fresh rank i done (delete i w.workers) new,
                tally-delete rank i p w.workers safe.sound.keys at,
              ))
          | false ↦ λ e. rw (sym e) (
              omega (
                arith,
                spawn_adds k (waiting exec slot ch) (delete i w.workers) free,
                tally-delete rank i p w.workers safe.sound.keys at,
              ))
        ]
      h

no_dispatch :
    (x : Input) (exec : ℕ) (s : Service)
    → IsPlain x
    → dispatch_pending_success x.dispatch x.now exec s
      ≡ some (Dispatch.refused ChainError.sql_error, s)
unfolding dispatch_pending_success
no_dispatch x exec s plain = ground (arith, plain.no_transaction)

-- A call with such an input, by a goroutine that is not blocked, leaves less to do.
pub move_less :
    (x : Input) (w w' : World) (i : ℕ) (p : Phase)
    → IsPlain x
    → IsSafe w
    → lookup i w.workers ≡ some p
    → (is_waiting p ≡ true → w.runner.slots < w.runner.max_concurrent)
    → move x i p w ≡ some w'
    → tally rank w'.workers < tally rank w.workers
unfolding move
move_less x w w' i (recording hook slot) plain safe at ready h =
    recording_less x w w' i hook slot safe at h
move_less x w w' i (launching tracked exec slot) plain safe at ready h =
    rw (sym (some_injective h)) (
      less_put w i (launching tracked exec slot) safe at (registering tracked exec slot)
        (omega arith))
move_less x w w' i (registering tracked exec slot) plain safe at ready h =
    rw (sym (some_injective h)) (
      less_put w i (registering tracked exec slot) safe at (tracking tracked exec slot _)
        (omega arith))
move_less x w w' i (tracking tracked exec slot ch) plain safe at ready h =
    rw (sym (some_injective h)) (
      less_put w i (tracking tracked exec slot ch) safe at (spawning tracked exec slot ch)
        (omega arith))
move_less x w w' i (waiting exec slot ch) plain safe at ready h =
    unfold start in
    let free : w.runner.slots < w.runner.max_concurrent = ready refl in
    ground
      (arith, plain.takes_token, less_put w i (waiting exec slot ch) safe at (marking exec slot))
move_less x w w' i (giving_up exec slot) plain safe at ready h =
    rw (sym (some_injective h))
      (less_put w i (giving_up exec slot) safe at (unregistering exec slot) (omega arith))
move_less x w w' i (marking exec slot) plain safe at ready h =
    rw (sym (some_injective h))
      (less_put w i (marking exec slot) safe at (running exec slot) (omega arith))
move_less x w w' i (running exec slot) plain safe at ready h =
    unfold finish_run in
    elim x.outcome
        as (λ o. finish_run x i exec slot o w ≡ w' → tally rank w'.workers < tally rank w.workers) [
          | succeeded _ _ ↦ λ e.
              rw (sym e)
                (less_put w i (running exec slot) safe at (returning none exec slot) (omega arith))
          | failed _ _ ↦ λ e.
              rw (sym e)
                (less_put w i (running exec slot) safe at (returning none exec slot) (omega arith))
          | canceled _ _ ↦ λ e.
              rw (sym e)
                (less_put w i (running exec slot) safe at (returning none exec slot) (omega arith))
          | panics error ↦ λ e. rw (sym e) (
              less_put w i (running exec slot) safe at (returning (some error) exec slot)
                (omega arith))
        ]
      (some_injective h)
move_less x w w' i (returning panic exec slot) plain safe at ready h =
    unfold give_back in
    let some_token : 0 < w.runner.slots =
      omega
        (arith, safe.sound.running, le-tally tokens i (returning panic exec slot) w.workers at) in
    elim panic
        as (λ o.
          lookup i w.workers ≡ some (returning o exec slot)
          → give_back i o exec slot w ≡ w'
          → tally rank w'.workers < tally rank w.workers) [
            | none ↦ λ at' k.
                ground (
                  arith,
                  less_put w i (returning none exec slot) safe at' (unregistering exec slot),
                )
            | some t ↦ λ at' k. ground (
              arith,
              less_put w i (returning (some t) exec slot) safe at' (recovering t exec slot),
            )
          ]
      at (some_injective h)
move_less x w w' i (recovering panic exec slot) plain safe at ready h =
    rw (sym (some_injective h))
      (less_put w i (recovering panic exec slot) safe at (unregistering exec slot) (omega arith))
move_less x w w' i (unregistering exec slot) plain safe at ready h =
    rw (sym (some_injective h))
      (less_put w i (unregistering exec slot) safe at (releasing exec slot) (omega arith))
move_less x w w' i (releasing exec slot) plain safe at ready h =
    ground (arith, less_put w i (releasing exec slot) safe at (dispatching true exec))
move_less x w w' i (dispatching tracked exec) plain safe at ready h =
    unfold dispatch in
    let d = no_dispatch x exec (record { db = w.db; runner = w.runner }) plain in
    ground (
      arith,
      d,
      less_put w i (dispatching tracked exec) safe at (noting tracked exec ChainError.sql_error),
    )
move_less x w w' i (spawning tracked exec slot ch) plain safe at ready h =
    spawning_less w w' i tracked exec slot ch safe at (some_injective h)
move_less x w w' i (noting tracked exec e) plain safe at ready h =
    unfold note_failure in
    ground (
      arith,
      less_put w i (noting tracked exec e) safe at done,
      less_gone w i (noting tracked exec e) safe at,
    )
move_less x w w' i done plain safe at ready h = ground (arith, less_gone w i done safe at)
