-- ===== src/Runner/Admissions.antt =====
-- Admission by hook: a second trigger is refused while the first is held, and told which execution
-- to poll; a released admission leaves nothing behind.
use webhook_ui.Common.{
  ap, ℕ, ◌+◌, ◌≤◌, ◌<◌, String, ◌≡◌, refl, ◌⊎◌, inl, inr, none, some, arith, length, lookup, insert,
  delete-insert_fresh, Option-cases, Bool-cases, lookup-insert, ==_refl, nat_eq, string_eq, leb,
}
use webhook_ui.Runner.{
  Runner, admitted, hook_busy, queue_full, admit, set_execution, release, exec_of,
}

-- The runner after an admission.
abbrev pub with_slot : String → Runner → Runner
with_slot hook r = record r {
  in_flight = insert hook r.next_slot r.in_flight;
  wg = r.wg + 1;
  allocated = insert r.next_slot (record { hook_id = hook; exec_id = 0 }) r.allocated;
  next_slot = r.next_slot + 1;
}

pub admit_cases :
    (hook : String) (r : Runner)
    → ((s : ℕ) × (lookup hook r.in_flight ≡ some s)
        × (admit hook r ≡ (hook_busy (exec_of (lookup s r.allocated)), r)))
      ⊎ ((lookup hook r.in_flight ≡ none)
          × (r.capacity ≤ length r.in_flight)
          × (admit hook r ≡ (queue_full, r)))
      ⊎ ((lookup hook r.in_flight ≡ none)
          × (length r.in_flight < r.capacity)
          × (admit hook r ≡ (admitted r.next_slot, with_slot hook r)))
unfolding admit
admit_cases hook r = elim (Option-cases (lookup hook r.in_flight)) [
  | inr (s, e) ↦ inl (s, e, ground arith)
  | inl e ↦ elim (Bool-cases (leb r.capacity (length r.in_flight))) [
    | inl full ↦ inr (inl (e, ground arith, ground arith))
    | inr room ↦ inr (inr (e, ground arith, ground arith))
  ]
]

-- Releasing an admission takes back what it changed.
abbrev pub without_slot : String → Runner → Runner
without_slot hook r = record r {
  allocated = insert r.next_slot (record { hook_id = hook; exec_id = 0 }) r.allocated;
  next_slot = r.next_slot + 1;
}

pub release-with_slot :
    (hook : String) (r : Runner)
    → lookup hook r.in_flight ≡ none
    → release r.next_slot (with_slot hook r) ≡ some (without_slot hook r)
unfolding release
release-with_slot hook r h = ground (
  arith,
  lookup-insert r.next_slot r.next_slot (record { hook_id = hook; exec_id = 0 }) r.allocated,
  ==_refl r.next_slot,
  delete-insert_fresh hook r.next_slot r.in_flight h,
)

-- The runner once the admission's execution is recorded.
abbrev pub held_by : String → ℕ → Runner → Runner
held_by hook id r = record r {
  in_flight = insert hook r.next_slot r.in_flight;
  wg = r.wg + 1;
  allocated =
      insert r.next_slot (record { hook_id = hook; exec_id = id })
        (insert r.next_slot (record { hook_id = hook; exec_id = 0 }) r.allocated);
  next_slot = r.next_slot + 1;
}

pub set_execution-with_slot :
    (hook : String) (id : ℕ) (r : Runner)
    → set_execution r.next_slot id (with_slot hook r) ≡ held_by hook id r
unfolding set_execution
set_execution-with_slot hook id r = ground (
  arith,
  lookup-insert r.next_slot r.next_slot (record { hook_id = hook; exec_id = 0 }) r.allocated,
  ==_refl r.next_slot,
)

admit-held_by :
    (hook : String) (id : ℕ) (r : Runner)
    → admit hook (held_by hook id r) ≡ (hook_busy id, held_by hook id r)
unfolding admit
admit-held_by hook id r = ground (
  arith,
  lookup-insert hook hook r.next_slot r.in_flight,
  lookup-insert r.next_slot r.next_slot (record { hook_id = hook; exec_id = id })
      (insert r.next_slot (record { hook_id = hook; exec_id = 0 }) r.allocated),
  ==_refl r.next_slot,
  ==_refl hook,
)

-- The runner once that execution is over: as before the admission, but for the spent slot.
abbrev pub after_release : String → ℕ → Runner → Runner
after_release hook id r = record (held_by hook id r) { in_flight = r.in_flight; wg = r.wg }

release-held_by :
    (hook : String) (id : ℕ) (r : Runner)
    → lookup hook r.in_flight ≡ none
    → release r.next_slot (held_by hook id r) ≡ some (after_release hook id r)
unfolding release
release-held_by hook id r h = ground (
  arith,
  lookup-insert r.next_slot r.next_slot (record { hook_id = hook; exec_id = id })
      (insert r.next_slot (record { hook_id = hook; exec_id = 0 }) r.allocated),
  ==_refl r.next_slot,
  delete-insert_fresh hook r.next_slot r.in_flight h,
)

admit_free :
    (hook : String) (r : Runner)
    → lookup hook r.in_flight ≡ none
    → length r.in_flight < r.capacity
    → admit hook r ≡ (admitted r.next_slot, with_slot hook r)
unfolding admit
admit_free hook r h room = ground arith

-- An admission of `hook` to a runner that has room and does not hold it: recorded as execution
-- `id`, it makes every further trigger of the hook answer busy with that id and change nothing;
-- its release restores the runner's admissions and wait count, and the hook is admitted again.
pub admit-release :
    (hook : String) (id : ℕ) (r : Runner)
    → lookup hook r.in_flight ≡ none
    → length r.in_flight < r.capacity
    → let held = set_execution r.next_slot id (admit hook r).1 in
      ((admit hook r).0 ≡ admitted r.next_slot)
      × (admit hook held ≡ (hook_busy id, held))
      × ((r' : Runner) × (release r.next_slot held ≡ some r')
          × (r'.in_flight ≡ r.in_flight)
          × (r'.wg ≡ r.wg)
          × ((admit hook r').0 ≡ admitted r'.next_slot))
admit-release hook id r h room =
    rw (admit_free hook r h room, set_execution-with_slot hook id r)
      (
        refl,
        admit-held_by hook id r,
        (
          after_release hook id r,
          release-held_by hook id r h,
          refl,
          refl,
          ap (λ p. p.0) (admit_free hook (after_release hook id r) h room),
        ),
      )
