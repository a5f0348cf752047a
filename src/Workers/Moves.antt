-- ===== src/Workers/Moves.antt =====
-- The runner's calls, against what the goroutines hold.
use webhook_ui.Common.{
  ℕ, ◌+◌, ◌-◌, ◌<◌, ◌≡◌, inl, inr, refl, some, Map, lookup, lookup-insert, length, nat_eq,
  string_eq, ◌==◌, ==_iff, arith, Option-cases, Bool-cases,
}
use webhook_ui.Runner.{Runner, Slot, set_execution, wg_done, track_handoff}
use webhook_ui.Runner.Bounds.{IsBounded, set_execution-IsBounded}
use webhook_ui.Workers.{Phase}
use webhook_ui.Workers.Holdings.{held, IsHeld, IsSound}

-- Sound against a runner that still has what the goroutines hold.
module _ {r r' : Runner} {ws : Map ℕ Phase} {next a t n a' t' n' : ℕ} where
  pub against :
      IsSound r ws next a t n
      → ((i : ℕ) (p : Phase) (slot : ℕ)
          → lookup i ws ≡ some p
          → held p ≡ some slot
          → IsHeld r slot
          → IsHeld r' slot)
      → ((slot : ℕ) (s : Slot) → lookup slot r'.allocated ≡ some s → slot < r'.next_slot)
      → length r'.in_flight + a ≡ length r.in_flight + a'
      → r'.slots + t ≡ r.slots + t'
      → r'.wg + n ≡ r.wg + n'
      → IsBounded r'
      → IsSound r' ws next a' t' n'
  against v keep issued' ea et en bounded' = record {
    keys = v.keys;
    below = v.below;
    owned = λ i p slot k e. keep i p slot k e (v.owned i p slot k e);
    one = v.one;
    issued = issued';
    admitted = omega (arith, v.admitted, ea);
    running = omega (arith, v.running, et);
    waited = omega (arith, v.waited, en);
    bounded = bounded';
  }

module _ {r : Runner} {ws : Map ℕ Phase} {next a t n : ℕ} where
  pub took_token :
      IsSound r ws next a t n
      → r.slots < r.max_concurrent
      → IsSound (record r { slots = r.slots + 1 }) ws next a (t + 1) n
  took_token v room =
      against v (λ i p slot k e h. h) v.issued refl (omega arith) refl (ground (arith, v.bounded))

  pub gave_token :
      IsSound r ws next a (t + 1) n
      → (0 < r.slots) × IsSound (record r { slots = r.slots - 1 }) ws next a t n
  gave_token v =
      let some_token : 0 < r.slots = omega (arith, v.running) in
      (
        some_token,
        against v (λ i p slot k e h. h) v.issued refl (omega arith) refl
            (ground (arith, v.bounded)),
      )

  pub track_handoff-IsSound :
      IsSound r ws next a t n → IsSound (track_handoff r) ws next a t (n + 1)
  unfolding track_handoff
  track_handoff-IsSound v =
      against v (λ i p slot k e h. h) v.issued refl refl (omega arith) (ground (arith, v.bounded))

  pub wg_done-IsSound :
      IsSound r ws next a t (n + 1)
      → (r' : Runner) × (wg_done r ≡ some r') × IsSound r' ws next a t n
  unfolding wg_done
  wg_done-IsSound v =
      let some_wait : 0 < r.wg = omega (arith, v.waited) in
      (
        record r { wg = r.wg - 1 },
        ground arith,
        against v (λ i p slot k e h. h) v.issued refl refl (omega arith)
            (ground (arith, v.bounded)),
      )

-- What set_execution leaves as it was.
allocated-set_execution :
    (s id : ℕ) (r : Runner) (slot : ℕ) (x : Slot)
    → lookup slot r.allocated ≡ some x
    → (y : Slot) × (lookup slot (set_execution s id r).allocated ≡ some y) × (y.hook_id ≡ x.hook_id)
unfolding set_execution
allocated-set_execution s id r slot x k = elim (Option-cases (lookup s r.allocated)) [
  | inl e ↦ (x, ground arith, refl)
  | inr (y, e) ↦ elim (Bool-cases (s == slot)) [
    | inl same ↦ (
      record y { exec_id = id },
      ground (arith, lookup-insert slot s (record y { exec_id = id }) r.allocated),
      ground (arith, ==_iff s slot),
    )
    | inr other ↦
        (x, ground (arith, lookup-insert slot s (record y { exec_id = id }) r.allocated), refl)
  ]
]

set_execution-allocated :
    (s id : ℕ) (r : Runner) (slot : ℕ) (y : Slot)
    → lookup slot (set_execution s id r).allocated ≡ some y
    → (x : Slot) × (lookup slot r.allocated ≡ some x)
unfolding set_execution
set_execution-allocated s id r slot y k = elim (Option-cases (lookup slot r.allocated)) [
  | inr (x, e) ↦ (x, e)
  | inl e ↦ elim (Option-cases (lookup s r.allocated)) [
    | inl m ↦ let bad : ⊥ = ground arith in absurd bad
    | inr (x, m) ↦
        let bad : ⊥ =
          ground
            (arith, ==_iff s slot, lookup-insert slot s (record x { exec_id = id }) r.allocated) in
        absurd bad
  ]
]

set_execution_fields :
    (s id : ℕ) (r : Runner)
    → ((set_execution s id r).in_flight ≡ r.in_flight)
      × ((set_execution s id r).slots ≡ r.slots)
      × ((set_execution s id r).wg ≡ r.wg)
      × ((set_execution s id r).next_slot ≡ r.next_slot)
unfolding set_execution
set_execution_fields s id r = elim (Option-cases (lookup s r.allocated)) [
  | inl e ↦ (ground arith, ground arith, ground arith, ground arith)
  | inr (y, e) ↦ (ground arith, ground arith, ground arith, ground arith)
]

pub set_execution-IsHeld :
    (s id : ℕ) (r : Runner) (slot : ℕ) → IsHeld r slot → IsHeld (set_execution s id r) slot
set_execution-IsHeld s id r slot (x, k, m) =
    let (y, l, same) = allocated-set_execution s id r slot x k in
    let (flight, _, _, _) = set_execution_fields s id r in (y, l, rw (flight, same) m)

module _ {r : Runner} {ws : Map ℕ Phase} {next a t n : ℕ} where
  pub set_execution-IsSound :
      (s id : ℕ) → IsSound r ws next a t n → IsSound (set_execution s id r) ws next a t n
  set_execution-IsSound s id v =
      let (flight, slots, wg, num) = set_execution_fields s id r in
      against v (λ i p slot k e h. set_execution-IsHeld s id r slot h)
        (λ slot y k.
          let (x, l) = set_execution-allocated s id r slot y k in rw num (v.issued slot x l))
        (rw flight refl) (rw slots refl) (rw wg refl) (set_execution-IsBounded s id r v.bounded)
