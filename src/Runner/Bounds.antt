-- ===== src/Runner/Bounds.antt =====
-- The bounds that each of the runner's operations keeps.
use webhook_ui.Common.{
  Bool, delete_fresh, ℕ, ◌≤◌, ◌<◌, String, ◌≡◌, some, arith, length, lookup, delete, IsUnique,
  insert-IsUnique, delete-IsUnique, length-insert_fresh, length-delete_held, Option-cases, ℤ,
  nat_eq, string_eq, inl, inr,
}
use webhook_ui.Runner.{
  Runner, new_runner, admit, set_execution, release, wg_done, Start, took, gave_up, Finish,
  gave_back,
}

-- The bounds of the runner: admissions within the capacity, one per hook, and running slots
-- within the channel.
pub record IsBounded (r : Runner) : Type 0 where
  pub unique : IsUnique r.in_flight
  pub admissions : length r.in_flight ≤ r.capacity
  pub running : r.slots ≤ r.max_concurrent
  pub some_slot : 0 < r.max_concurrent
  pub room : r.max_concurrent ≤ r.capacity

pub new_runner-IsBounded : (c q : ℤ) → IsBounded (new_runner c q)
unfolding new_runner
new_runner-IsBounded c q = ground arith

pub admit-IsBounded : (hook : String) (r : Runner) → IsBounded r → IsBounded (admit hook r).1
unfolding admit
admit-IsBounded hook r b = ground (
  arith,
  insert-IsUnique hook r.next_slot r.in_flight b.unique,
  length-insert_fresh hook r.next_slot r.in_flight,
)

pub set_execution-IsBounded :
    (s id : ℕ) (r : Runner) → IsBounded r → IsBounded (set_execution s id r)
unfolding set_execution
set_execution-IsBounded s id r b = ground arith

length-delete-le :
    (k : String) (r : Runner)
    → IsUnique r.in_flight
    → length (delete k r.in_flight) ≤ length r.in_flight
length-delete-le k r u = elim (Option-cases (lookup k r.in_flight)) [
  | inl e ↦ rw (delete_fresh k r.in_flight e) (omega arith)
  | inr (w, e) ↦ omega (arith, length-delete_held k w r.in_flight u e)
]

pub release-IsBounded :
    (s : ℕ) (r : Runner) {r' : Runner} → IsBounded r → release s r ≡ some r' → IsBounded r'
unfolding release
release-IsBounded s r b h = elim (Option-cases (lookup s r.allocated)) [
  | inl e ↦ ground arith
  | inr (slot, e) ↦ ground (
    arith,
    delete-IsUnique slot.hook_id r.in_flight b.unique,
    length-delete-le slot.hook_id r b.unique,
  )
]

pub Start-IsBounded : {r r' : Runner} {c ok : Bool} → IsBounded r → Start r c ok r' → IsBounded r'
Start-IsBounded b (took h) = ground arith
Start-IsBounded b (gave_up h) = b

pub Finish-IsBounded : {r r' : Runner} → IsBounded r → Finish r r' → IsBounded r'
Finish-IsBounded b (gave_back h) = ground arith

pub wg_done-IsBounded :
    (r : Runner) {r' : Runner} → IsBounded r → wg_done r ≡ some r' → IsBounded r'
unfolding wg_done
wg_done-IsBounded r b h = ground arith
