-- ===== src/Cancel/Examples.antt =====
-- Two stops of one execution: the second finds nothing to stop.
use webhook_ui.Common.{◌≡◌, some, List, [], ◌∷◌}
use webhook_ui.Cancel.{CancelRegistry, new_cancel_registry}
use webhook_ui.Cancel.Laws.{
  Call, registers, unregisters, cancels, after_calls, IsLive, cancel_never_panics,
}

abbrev stopped_twice : List Call
stopped_twice =
    registers 4 ∷ registers 5 ∷ cancels 4 ∷ cancels 4 ∷ unregisters 4 ∷ registers 5 ∷ cancels 5 ∷ []

cancel_never_panics_example :
    (r : CancelRegistry) × (after_calls stopped_twice new_cancel_registry ≡ some r) × IsLive r
cancel_never_panics_example = cancel_never_panics stopped_twice
