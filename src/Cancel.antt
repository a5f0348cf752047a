-- ===== src/Cancel.antt =====
-- internal/handlers/cancel.go: the abort switches of the executions that can still be stopped.
--
-- A channel is a number; `closed` lists the channels that were closed. `none` is the panic of
-- `close` on a closed channel.
pub mod Laws
mod Examples
use webhook_ui.Common.{
  ℕ, ◌+◌, Bool, true, false, ◌||◌, Option, none, some, List, [], ◌∷◌, Map, lookup, insert, delete,
  ◌==◌, nat_eq, if◌then◌else◌,
}

pub record CancelRegistry : Type 0 where
  pub pending : Map ℕ ℕ
  pub closed : List ℕ
  pub next_channel : ℕ

abbrev pub new_cancel_registry : CancelRegistry
new_cancel_registry = record { pending = []; closed = []; next_channel = 0 }

unfoldable pub contains : ℕ → List ℕ → Bool
contains c [] = false
contains c (x ∷ xs) = x == c || contains c xs

unfoldable pub is_closed : ℕ → CancelRegistry → Bool
unfolding contains
is_closed ch r = contains ch r.closed

unfoldable pub register : ℕ → CancelRegistry → ℕ × CancelRegistry
register exec_id r = (
  r.next_channel,
  record r { pending = insert exec_id r.next_channel r.pending; next_channel = r.next_channel + 1 },
)

unfoldable pub unregister : ℕ → CancelRegistry → CancelRegistry
unregister exec_id r = record r { pending = delete exec_id r.pending }

unfoldable pub close : ℕ → CancelRegistry → Option CancelRegistry
unfolding is_closed
close ch r = if is_closed ch r then none else some (record r { closed = ch ∷ r.closed })

unfoldable pub cancel : ℕ → CancelRegistry → Option (Bool × CancelRegistry)
unfolding close
cancel exec_id r = elim (lookup exec_id r.pending) [
  | none ↦ some (false, r)
  | some ch ↦ elim (close ch (record r { pending = delete exec_id r.pending })) [
    | none ↦ none
    | some r' ↦ some (true, r')
  ]
]
