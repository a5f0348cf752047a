-- ===== src/Runner.antt =====
-- internal/handlers/runner.go: the bound on asynchronous executions in flight.
--
-- A `*Slot` is an index into `allocated`, so a slot that was released and the slot that the same
-- hook holds later are two objects, as they are in the source. The mutex makes each method one
-- step; `WaitGroup` and the channel `slots` are counters. `none` is the panic of
-- `WaitGroup.Done` below zero.
pub mod Bounds
pub mod Admissions
pub mod Held
mod Examples
use webhook_ui.Common.{
  ℕ, ◌+◌, ◌-◌, ◌<◌, String, ◌≡◌, Bool, true, false, Option, none, some, List, [], ◌∷◌, length, Map,
  lookup, insert, delete, ltb, leb, ◌==◌, if◌then◌else◌, nat_eq, string_eq, ℤ, is_below, to_nat,
}

pub record Slot : Type 0 where
  pub hook_id : String
  pub exec_id : ℕ

pub record Runner : Type 0 where
  -- tokens in the channel `slots`, and its capacity
  pub slots : ℕ
  pub max_concurrent : ℕ
  pub in_flight : Map String ℕ
  pub capacity : ℕ
  pub wg : ℕ
  pub allocated : Map ℕ Slot
  pub next_slot : ℕ

pub data Admission : Type 0 where
  admitted : ℕ → Admission
  hook_busy : ℕ → Admission
  queue_full : Admission

unfoldable pub new_runner : ℤ → ℤ → Runner
new_runner max_concurrent max_queue =
    let concurrent = if is_below max_concurrent 1 then 1 else to_nat max_concurrent in
    let queue = if is_below max_queue 0 then 0 else to_nat max_queue in
    record {
      slots = 0;
      max_concurrent = concurrent;
      in_flight = [];
      capacity = concurrent + queue;
      wg = 0;
      allocated = [];
      next_slot = 0;
    }

-- A read through the pointer; a pointer that the runner handed out is always allocated.
abbrev pub exec_of : Option Slot → ℕ
exec_of none = 0
exec_of (some s) = s.exec_id

unfoldable pub admit : String → Runner → Admission × Runner
admit hook_id r = elim (lookup hook_id r.in_flight) [
  | some held ↦ (hook_busy (exec_of (lookup held r.allocated)), r)
  | none ↦ if leb r.capacity (length r.in_flight) then (queue_full, r) else (
    admitted r.next_slot,
    record r {
      in_flight = insert hook_id r.next_slot r.in_flight;
      wg = r.wg + 1;
      allocated = insert r.next_slot (record { hook_id = hook_id; exec_id = 0 }) r.allocated;
      next_slot = r.next_slot + 1;
    },
  )
]

unfoldable pub set_execution : ℕ → ℕ → Runner → Runner
set_execution s exec_id r = elim (lookup s r.allocated) [
  | none ↦ r
  | some slot ↦ record r { allocated = insert s (record slot { exec_id = exec_id }) r.allocated }
]

unfoldable pub wg_done : Runner → Option Runner
wg_done r = if ltb 0 r.wg then some (record r { wg = r.wg - 1 }) else none

unfoldable pub release : ℕ → Runner → Option Runner
unfolding wg_done
release s r = elim (lookup s r.allocated) [
  | none ↦ none
  | some slot ↦ wg_done (record r { in_flight = delete slot.hook_id r.in_flight })
]

unfoldable pub track_handoff : Runner → Runner
track_handoff r = record r { wg = r.wg + 1 }

-- `select` takes a token where the channel has room, or gives up where `cancel` is closed; it
-- blocks where neither holds, and picks either where both do.
pub data Start (r : Runner) (canceled : Bool) : Bool → Runner → Type 0 where
  took : r.slots < r.max_concurrent → Start r canceled true (record r { slots = r.slots + 1 })
  gave_up : canceled ≡ true → Start r canceled false r

-- Blocks on an empty channel.
pub data Finish (r : Runner) : Runner → Type 0 where
  gave_back : 0 < r.slots → Finish r (record r { slots = r.slots - 1 })
