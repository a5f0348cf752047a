-- ===== src/Workers/Slots.antt =====
-- Admission and release, against what the goroutines hold.
use webhook_ui.Common.{
  ℕ, ◌+◌, ◌-◌, ◌<◌, ◌≡◌, refl, String, none, some, Map, lookup, delete, lookup-insert,
  lookup-delete, insert-IsUnique, length, length-delete_held, length-insert_fresh, nat_eq,
  string_eq, ==_iff, ==_refl, arith,
}
use webhook_ui.Runner.{Runner, Slot, release, wg_done}
use webhook_ui.Runner.Admissions.{with_slot, without_slot}
use webhook_ui.Runner.Bounds.{release-IsBounded}
use webhook_ui.Workers.{Phase}
use webhook_ui.Workers.Holdings.{InHand, IsSound}
use webhook_ui.Workers.Moves.{against}

-- Another slot number does not concern an admission that was issued before.
other_slot :
    (hook : String) (r : Runner) (slot : ℕ) (x : Slot)
    → ((s : ℕ) (y : Slot) → lookup s r.allocated ≡ some y → s < r.next_slot)
    → lookup slot r.allocated ≡ some x
    → lookup slot (without_slot hook r).allocated ≡ some x
other_slot hook r slot x issued k = ground (
  arith,
  issued slot x k,
  ==_iff r.next_slot slot,
  lookup-insert slot r.next_slot (record { hook_id = hook; exec_id = 0 }) r.allocated,
)

still_issued :
    (hook : String) (r : Runner) (slot : ℕ) (x : Slot)
    → ((s : ℕ) (y : Slot) → lookup s r.allocated ≡ some y → s < r.next_slot)
    → lookup slot (without_slot hook r).allocated ≡ some x
    → slot < r.next_slot + 1
still_issued hook r slot x issued k = ground (
  arith,
  issued slot x,
  ==_iff r.next_slot slot,
  lookup-insert slot r.next_slot (record { hook_id = hook; exec_id = 0 }) r.allocated,
)

module _ {r : Runner} {ws : Map ℕ Phase} {next a t n : ℕ} where
  -- A slot number that is spent changes nothing that is held.
  pub without_slot-IsSound :
      (hook : String) → IsSound r ws next a t n → IsSound (without_slot hook r) ws next a t n
  without_slot-IsSound hook v =
      against v (λ i p slot k e h. let (x, l, m) = h in (x, other_slot hook r slot x v.issued l, m))
        (λ slot x k. still_issued hook r slot x v.issued k) refl refl refl
        (ground (arith, v.bounded))

  -- An admission: one more to hold, that nothing held before.
  pub with_slot-IsSound :
      (hook : String)
      → lookup hook r.in_flight ≡ none
      → length r.in_flight < r.capacity
      → IsSound r ws next a t n
      → IsSound (with_slot hook r) ws next (a + 1) t (n + 1)
        × InHand (with_slot hook r) ws (some r.next_slot)
  with_slot-IsSound hook free room v = (
    against v
        (λ i p slot k e h.
          let (x, l, m) = h in
          (
            x,
            other_slot hook r slot x v.issued l,
            ground (
              arith,
              lookup-insert x.hook_id hook r.next_slot r.in_flight,
              ==_iff hook x.hook_id,
            ),
          ))
        (λ slot x k. still_issued hook r slot x v.issued k)
        (omega (arith, length-insert_fresh hook r.next_slot r.in_flight free)) refl (omega arith)
        (ground (
          arith,
          v.bounded,
          length-insert_fresh hook r.next_slot r.in_flight,
          insert-IsUnique hook r.next_slot r.in_flight v.bounded.unique,
        )),
    (
      (
        record { hook_id = hook; exec_id = 0 },
        ground (
          arith,
          ==_refl r.next_slot,
          lookup-insert r.next_slot r.next_slot (record { hook_id = hook; exec_id = 0 })
              r.allocated,
        ),
        ground (arith, ==_refl hook, lookup-insert hook hook r.next_slot r.in_flight),
      ),
      λ j x k e.
          let (y, l, m) = v.owned j x r.next_slot k e in
          let early : r.next_slot < r.next_slot = v.issued r.next_slot y l in omega (arith, early),
    ),
  )

  -- A release of what is in hand never panics, and takes nothing from anyone else.
  pub release-IsSound :
      (slot : ℕ)
      → IsSound r ws next (a + 1) t (n + 1)
      → InHand r ws (some slot)
      → (r' : Runner) × (release slot r ≡ some r') × IsSound r' ws next a t n
  unfolding release wg_done
  release-IsSound slot v ((x, k, m), free) =
      let some_wait : 0 < r.wg = omega (arith, v.waited) in
      let gave : release slot r
          ≡ some (record r { in_flight = delete x.hook_id r.in_flight; wg = r.wg - 1 }) =
        ground arith in
      (
        record r { in_flight = delete x.hook_id r.in_flight; wg = r.wg - 1 },
        gave,
        against v
            (λ i p s l e h.
              let (y, yk, ym) = h in
              (
                y,
                yk,
                ground (
                  arith,
                  lookup-delete y.hook_id x.hook_id r.in_flight,
                  ==_iff x.hook_id y.hook_id,
                  free i p l,
                ),
              ))
            v.issued
            (omega (arith, length-delete_held x.hook_id slot r.in_flight v.bounded.unique m)) refl
            (omega arith) (release-IsBounded slot r v.bounded gave),
      )
