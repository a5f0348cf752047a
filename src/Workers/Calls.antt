-- ===== src/Workers/Calls.antt =====
-- Each call of a goroutine goes on without a panic.
use webhook_ui.Common.{
  ℕ, ◌+◌, ◌-◌, ◌<◌, ◌≡◌, inl, inr, refl, Bool, true, false, not, ◌&&◌, Option, none, some, [], ◌∷◌,
  Map, lookup, insert, delete, lookup-insert, ltb, nat_eq, if◌then◌else◌, Bytes, arith, Bool-cases,
}
use webhook_ui.Models.{Status, Hook}
use webhook_ui.Runner.{Runner, set_execution, track_handoff}
use webhook_ui.Cancel.{is_closed, register}
use webhook_ui.Cancel.Laws.{register-IsLive}
use webhook_ui.Store.{Db, ChainError}
use webhook_ui.Chain.{nothing, refused, launched, start_hook_execution, Result, ok, err}
use webhook_ui.Chain.Admissions.{same, spent, took, dispatch_pending_success-Admitted}
use webhook_ui.Workers.{
  Phase, recording, launching, registering, tracking, spawning, noting, waiting, giving_up, marking,
  running, returning, recovering, unregistering, releasing, dispatching, done, World, Input,
  Outcome, succeeded, failed, canceled, panics, put, gone, record_execution, start, finish_run,
  give_back, after_finish, dispatch, hand_over, note_failure, move,
}
use webhook_ui.Workers.Holdings.{handoffs, IsFree, InHand, IsSound, take_out, put_in}
use webhook_ui.Workers.Moves.{
  set_execution-IsHeld, set_execution-IsSound, track_handoff-IsSound, took_token, gave_token,
  wg_done-IsSound,
}
use webhook_ui.Workers.Slots.{without_slot-IsSound, with_slot-IsSound, release-IsSound}
use webhook_ui.Workers.Safety.{IsSafe, Goes, recount, rest, mine, goes_on, ends, relabels, spawn_in}

module _ (x : Input) (w : World) (i : ℕ) (safe : IsSafe w) where
  pub recording-Goes :
      (hook : Hook) (slot : ℕ)
      → lookup i w.workers ≡ some (recording hook slot)
      → Goes (record_execution x i hook slot w)
  unfolding record_execution
  recording-Goes hook slot at =
      go (start_hook_execution x.start x.now hook x.source _ 0 (hook.id ∷ []) w.db) refl
    where
      go :
          (r : Result ℕ × Db)
          → start_hook_execution x.start x.now hook x.source Status.queued 0 (hook.id ∷ []) w.db ≡ r
          → Goes (record_execution x i hook slot w)
      go (ok exec, db) e = (
        put i (launching false exec slot) (record w { db = db }),
        ground arith,
        relabels w i (recording hook slot) safe at (launching false exec slot) db w.cancels refl
            refl refl safe.live,
      )
      go (err y, db) e =
          let (r', freed, v') =
            release-IsSound {a = 0} {t = 0} {n = 0} slot (rest w i (recording hook slot) safe at)
              (mine w i (recording hook slot) safe at) in
          (
            gone i (record w { db = db; runner = r' }),
            ground (arith, freed),
            ends w i (recording hook slot) safe at db r' v',
          )

  pub launching-IsSafe :
      (tracked : Bool) (exec slot : ℕ)
      → lookup i w.workers ≡ some (launching tracked exec slot)
      → IsSafe (
          put i
            (registering tracked exec slot)
            (record w { runner = set_execution slot exec w.runner }))
  launching-IsSafe true exec slot at =
      let (h, free) = mine w i (launching true exec slot) safe at in
      goes_on w i (launching true exec slot) safe at (registering true exec slot) w.db _ w.cancels
        (set_execution-IsSound slot exec (rest w i (launching true exec slot) safe at))
        (set_execution-IsHeld slot exec w.runner slot h, free) safe.live
  launching-IsSafe false exec slot at =
      let (h, free) = mine w i (launching false exec slot) safe at in
      goes_on w i (launching false exec slot) safe at (registering false exec slot) w.db _ w.cancels
        (set_execution-IsSound slot exec (rest w i (launching false exec slot) safe at))
        (set_execution-IsHeld slot exec w.runner slot h, free) safe.live

  pub registering-IsSafe :
      (tracked : Bool) (exec slot : ℕ)
      → lookup i w.workers ≡ some (registering tracked exec slot)
      → IsSafe (
          put i
            (tracking tracked exec slot (register exec w.cancels).0)
            (record w { cancels = (register exec w.cancels).1 }))
  registering-IsSafe true exec slot at =
      relabels w i (registering true exec slot) safe at _ w.db _ refl refl refl
        (register-IsLive exec w.cancels safe.live)
  registering-IsSafe false exec slot at =
      relabels w i (registering false exec slot) safe at _ w.db _ refl refl refl
        (register-IsLive exec w.cancels safe.live)

  pub tracking-IsSafe :
      (tracked : Bool) (exec slot ch : ℕ)
      → lookup i w.workers ≡ some (tracking tracked exec slot ch)
      → IsSafe
          (put i (spawning tracked exec slot ch) (record w { runner = track_handoff w.runner }))
  tracking-IsSafe true exec slot ch at =
      let p : Phase = tracking true exec slot ch in
      goes_on w i p safe at (spawning true exec slot ch) w.db (track_handoff w.runner) w.cancels
        (track_handoff-IsSound (rest w i p safe at)) (unfold track_handoff in mine w i p safe at)
        safe.live
  tracking-IsSafe false exec slot ch at =
      let p : Phase = tracking false exec slot ch in
      goes_on w i p safe at (spawning false exec slot ch) w.db (track_handoff w.runner) w.cancels
        (track_handoff-IsSound (rest w i p safe at)) (unfold track_handoff in mine w i p safe at)
        safe.live

  pub waiting-IsSafe :
      (exec slot ch : ℕ)
      → lookup i w.workers ≡ some (waiting exec slot ch)
      → IsSafe (start x.takes i exec slot ch w)
  unfolding start
  waiting-IsSafe exec slot ch at =
      let p : Phase = waiting exec slot ch in
      elim (Bool-cases (x.takes && ltb w.runner.slots w.runner.max_concurrent)) [
        | inl ready ↦
            let room : w.runner.slots < w.runner.max_concurrent = ground arith in
            rw ready (
              goes_on w i p safe at (marking exec slot) w.db
                (record w.runner { slots = w.runner.slots + 1 }) w.cancels
                (took_token {t = 0} (rest w i p safe at) room) (mine w i p safe at) safe.live)
        | inr other ↦ elim (Bool-cases (not x.takes && is_closed ch w.cancels)) [
          | inl closed ↦ rw other (
              rw closed (
                relabels w i p safe at (giving_up exec slot) w.db w.cancels refl refl refl
                  safe.live))
          | inr open' ↦ rw other (rw open' safe)
        ]
      ]

  pub running-IsSafe :
      (exec slot : ℕ) (o : Outcome)
      → lookup i w.workers ≡ some (running exec slot)
      → IsSafe (finish_run x i exec slot o w)
  unfolding finish_run
  running-IsSafe exec slot (succeeded output error) at =
      relabels w i (running exec slot) safe at (returning none exec slot) _ w.cancels refl refl refl
        safe.live
  running-IsSafe exec slot (failed output error) at =
      relabels w i (running exec slot) safe at (returning none exec slot) _ w.cancels refl refl refl
        safe.live
  running-IsSafe exec slot (canceled output error) at =
      relabels w i (running exec slot) safe at (returning none exec slot) _ w.cancels refl refl refl
        safe.live
  running-IsSafe exec slot (panics error) at =
      relabels w i (running exec slot) safe at (returning (some error) exec slot) w.db w.cancels
        refl refl refl safe.live

  pub returning-IsSafe :
      (panic : Option Bytes) (exec slot : ℕ)
      → lookup i w.workers ≡ some (returning panic exec slot)
      → IsSafe (give_back i panic exec slot w)
  unfolding give_back
  returning-IsSafe panic exec slot at =
      let p : Phase = returning panic exec slot in
      let (some_token, v') = gave_token {t = 0} (rest w i p safe at) in
      let ready : ltb 0 w.runner.slots ≡ true = ground arith in
      rw ready (after panic v' (mine w i p safe at))
    where
      after :
          (o : Option Bytes)
          → IsSound
              (record w.runner { slots = w.runner.slots - 1 })
              (delete i w.workers)
              w.next_worker
              1
              0
              2
          → InHand w.runner (delete i w.workers) (some slot)
          → IsSafe (
              put i
                (after_finish o exec slot)
                (record w { runner = record w.runner { slots = w.runner.slots - 1 } }))
      after none v m =
          goes_on w i (returning panic exec slot) safe at (unregistering exec slot) w.db _ w.cancels
            v m safe.live
      after (some text) v m =
          goes_on w i (returning panic exec slot) safe at (recovering text exec slot) w.db _
            w.cancels v m safe.live

  pub releasing-Goes :
      (exec slot : ℕ)
      → lookup i w.workers ≡ some (releasing exec slot)
      → Goes (move x i (releasing exec slot) w)
  unfolding move
  releasing-Goes exec slot at =
      let p : Phase = releasing exec slot in
      let (r', freed, v') =
        release-IsSound {a = 0} {t = 0} {n = 1} slot (rest w i p safe at) (mine w i p safe at) in
      (
        put i (dispatching true exec) (record w { runner = r' }),
        ground (arith, freed),
        goes_on w i p safe at (dispatching true exec) w.db r' w.cancels v' tt safe.live,
      )

  pub done-Goes : lookup i w.workers ≡ some done → Goes (move x i done w)
  unfolding move
  done-Goes at =
      let (r', freed, v') = wg_done-IsSound {a = 0} {t = 0} {n = 0} (rest w i done safe at) in
      (gone i (record w { runner = r' }), ground (arith, freed), ends w i done safe at w.db r' v')

  -- dispatchSuccess, called by a goroutine of launchHook or by a request.
  dispatched :
      (tracked : Bool) (exec : ℕ) (db : Db) (r : Runner)
      → lookup i w.workers ≡ some (dispatching tracked exec)
      → IsSound r (delete i w.workers) w.next_worker 0 0 (handoffs (dispatching tracked exec))
      → IsSafe (
          if tracked
          then put i done (record w { db = db; runner = r })
          else gone i (record w { db = db; runner = r }))
  dispatched true exec db r at v =
      goes_on w i (dispatching true exec) safe at done db r w.cancels v tt safe.live
  dispatched false exec db r at v = ends w i (dispatching false exec) safe at db r v

  noted :
      (tracked : Bool) (exec : ℕ) (e : ChainError) (db : Db) (r : Runner)
      → lookup i w.workers ≡ some (dispatching tracked exec)
      → IsSound r (delete i w.workers) w.next_worker 0 0 (handoffs (dispatching tracked exec))
      → IsSafe (put i (noting tracked exec e) (record w { db = db; runner = r }))
  noted true exec e db r at v =
      goes_on w i (dispatching true exec) safe at (noting true exec e) db r w.cancels v tt safe.live
  noted false exec e db r at v =
      goes_on w i (dispatching false exec) safe at (noting false exec e) db r w.cancels v tt
        safe.live

  pub noting-IsSafe :
      (tracked : Bool) (exec : ℕ) (e : ChainError)
      → lookup i w.workers ≡ some (noting tracked exec e)
      → IsSafe (note_failure x i tracked exec e w)
  unfolding note_failure
  noting-IsSafe true exec e at =
      goes_on w i (noting true exec e) safe at done _ w.runner w.cancels
        (rest w i (noting true exec e) safe at) tt safe.live
  noting-IsSafe false exec e at =
      ends w i (noting false exec e) safe at _ w.runner (rest w i (noting false exec e) safe at)

  handed :
      (tracked : Bool) (exec child slot : ℕ) (db : Db) (r : Runner)
      → lookup i w.workers ≡ some (dispatching tracked exec)
      → IsSound r (delete i w.workers) w.next_worker 1 0 (handoffs (dispatching tracked exec) + 1)
      → InHand r (delete i w.workers) (some slot)
      → IsSafe (put i (launching tracked child slot) (record w { db = db; runner = r }))
  handed true exec child slot db r at v m =
      goes_on w i (dispatching true exec) safe at (launching true child slot) db r w.cancels v m
        safe.live
  handed false exec child slot db r at v m =
      goes_on w i (dispatching false exec) safe at (launching false child slot) db r w.cancels v m
        safe.live

  pub dispatching-Goes :
      (tracked : Bool) (exec : ℕ)
      → lookup i w.workers ≡ some (dispatching tracked exec)
      → Goes (dispatch x i tracked exec w)
  unfolding dispatch
  dispatching-Goes tracked exec at =
      let p : Phase = dispatching tracked exec in
      let v : IsSound w.runner (delete i w.workers) w.next_worker 0 0 (handoffs p) =
        recount (rest w i p safe at) refl refl (omega arith) in
      elim (dispatch_pending_success-Admitted x.dispatch x.now exec
        (record { db = w.db; runner = w.runner })) [
          | same nothing s e _ k ↦
              (_, rw (e, dispatch) refl, dispatched tracked exec s.db s.runner at (rw k v))
          | same (refused y) s e _ k ↦
              (_, rw (e, dispatch) refl, noted tracked exec y s.db s.runner at (rw k v))
          | spent target nothing s e _ k ↦ (
            _,
            rw (e, dispatch) refl,
            dispatched tracked exec s.db s.runner at (rw k (without_slot-IsSound target v)),
          )
          | spent target (refused y) s e _ k ↦ (
            _,
            rw (e, dispatch) refl,
            noted tracked exec y s.db s.runner at (rw k (without_slot-IsSound target v)),
          )
          | took target child hook s e free room k ↦
              let (v', m') = with_slot-IsSound target free room v in
              (
                _,
                rw (e, dispatch) refl,
                handed tracked exec child w.runner.next_slot s.db s.runner at (rw k v') (rw k m'),
              )
          | same (launched c t h) s e bad k ↦ cc
          | spent target (launched c t h) s e bad k ↦ cc
        ]

  done-IsFree : {slot : ℕ} (ws : Map ℕ Phase) → IsFree ws slot → IsFree (insert i done ws) slot
  done-IsFree {slot} ws free j y k e = ground (arith, lookup-insert j i done ws, free j y)

  pub spawning-IsSafe :
      (tracked : Bool) (exec slot ch : ℕ)
      → lookup i w.workers ≡ some (spawning tracked exec slot ch)
      → IsSafe (hand_over i tracked exec slot ch w)
  unfolding hand_over
  spawning-IsSafe true exec slot ch at =
      let p : Phase = spawning true exec slot ch in
      let (h, free) = mine w i p safe at in
      let (_, _, new, lt) = take_out safe.sound i p at in
      let two : IsSound w.runner (insert i done (delete i w.workers)) w.next_worker 1 0 2 =
        put_in {a = 1} {t = 0} {n = 2} i done (rest w i p safe at) tt new lt in
      record {
        sound =
            spawn_in {a = 0} {t = 0} {n = 0} (waiting exec slot ch) two
              (h, done-IsFree (delete i w.workers) free);
        live = safe.live;
      }
  spawning-IsSafe false exec slot ch at =
      let p : Phase = spawning false exec slot ch in
      record {
        sound =
            spawn_in {a = 0} {t = 0} {n = 0} (waiting exec slot ch) (rest w i p safe at)
              (mine w i p safe at);
        live = safe.live;
      }
