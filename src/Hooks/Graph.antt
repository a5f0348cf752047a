-- ===== src/Hooks/Graph.antt =====
-- The chain of success targets: what the walk of `validateSuccessTarget` finds, and that it ends.
use webhook_ui.Common.{
  ℕ, zero, suc, ◌+◌, ◌≤◌, ◌<◌, ◌≡◌, ◌≢◌, inl, inr, String, Bool, false, some, List, [], ◌∷◌, length,
  ◌==◌, ==_iff, nat_eq, string_eq, if◌then◌else◌, Map, lookup, arith, Option-cases, Bool-cases,
}
use webhook_ui.Models.{Hook, contains}
use webhook_ui.Hooks.{ends, out_of_fuel, walk, validate_success_target}

-- From `id` the targets lead over stored hooks to one that has none.
pub data Ends (hooks : Map String Hook) : String → Type 0 where
  stop : {id : String} → id ≡ "" → Ends hooks id
  step :
      {id : String} (h : Hook)
      → lookup id hooks ≡ some h
      → Ends hooks h.success_hook_id
      → Ends hooks id

-- The same, and no hook of `seen` is on the way.
pub data EndsOutside (hooks : Map String Hook) (seen : List String) : String → Type 0 where
  stop : {id : String} → id ≡ "" → EndsOutside hooks seen id
  step :
      {id : String} (h : Hook)
      → contains seen id ≡ false
      → lookup id hooks ≡ some h
      → EndsOutside hooks seen h.success_hook_id
      → EndsOutside hooks seen id

weaken :
    {hooks : Map String Hook} {seen : List String} {x id : String}
    → EndsOutside hooks (x ∷ seen) id
    → EndsOutside hooks seen id
unfolding contains
weaken (EndsOutside.stop e) = EndsOutside.stop e
weaken (EndsOutside.step h new at rest) = EndsOutside.step h (ground arith) at (weaken rest)

-- A walk that ends has found a chain outside of what it had seen.
pub walk-EndsOutside :
    (fuel : ℕ) (fails : String → Bool) (hooks : Map String Hook) (seen : List String) (id : String)
    → walk fuel fails hooks seen id ≡ ends
    → EndsOutside hooks seen id
unfolding walk
walk-EndsOutside zero fails hooks seen id h = cc
walk-EndsOutside (suc fuel) fails hooks seen id h = elim (Bool-cases (id == "")) [
  | inl e ↦ EndsOutside.stop ((==_iff id "").0 e)
  | inr e ↦ elim (Option-cases (lookup id hooks)) [
    | inl k ↦ let none' : ⊥ = ground arith in absurd none'
    | inr (next, k) ↦
        EndsOutside.step next (ground arith) k (
          weaken
            (walk-EndsOutside fuel fails hooks (id ∷ seen) next.success_hook_id (ground arith)))
  ]
]

-- The rows that a walk has not seen.
unseen : List String → Map String Hook → ℕ
unseen seen [] = 0
unseen seen ((k, _) ∷ rest) = (if contains seen k then 0 else 1) + unseen seen rest

unseen-le : (seen : List String) (hooks : Map String Hook) → unseen seen hooks ≤ length hooks
unfolding unseen
unseen-le seen [] = omega arith
unseen-le seen ((k, h) ∷ rest) = ground (arith, unseen-le seen rest)

unseen_mono :
    (x : String) (seen : List String) (hooks : Map String Hook)
    → unseen (x ∷ seen) hooks ≤ unseen seen hooks
unfolding unseen contains
unseen_mono x seen [] = omega arith
unseen_mono x seen ((k, h) ∷ rest) = ground (arith, unseen_mono x seen rest)

unseen-lt :
    (x : String) (seen : List String) (hooks : Map String Hook) (h : Hook)
    → lookup x hooks ≡ some h
    → contains seen x ≡ false
    → unseen (x ∷ seen) hooks < unseen seen hooks
unfolding unseen contains lookup
unseen-lt x seen [] h at new = cc
unseen-lt x seen ((k, v) ∷ rest) h at new =
    ground (arith, ==_iff k x, ==_iff x k, unseen_mono x seen rest, unseen-lt x seen rest h)

walk-ne-out_of_fuel :
    (fuel : ℕ) (fails : String → Bool) (hooks : Map String Hook) (seen : List String) (id : String)
    → unseen seen hooks < fuel
    → walk fuel fails hooks seen id ≢ out_of_fuel
unfolding walk
walk-ne-out_of_fuel zero fails hooks seen id h e = absurd (omega arith)
walk-ne-out_of_fuel (suc fuel) fails hooks seen id h e = elim (Option-cases (lookup id hooks)) [
  | inl k ↦ ground arith
  | inr (next, k) ↦ ground (
    arith,
    unseen-lt id seen hooks next k,
    walk-ne-out_of_fuel fuel fails hooks (id ∷ seen) next.success_hook_id,
  )
]

-- The walk of `validateSuccessTarget` always ends, also over targets that form a cycle.
pub validate_success_target-ne-out_of_fuel :
    (fails : String → Bool) (hooks : Map String Hook) (hook : Hook)
    → validate_success_target fails hooks hook ≢ out_of_fuel
unfolding validate_success_target
validate_success_target-ne-out_of_fuel fails hooks hook =
    walk-ne-out_of_fuel (length hooks + 2) fails hooks (hook.id ∷ []) hook.success_hook_id
      (omega (arith, unseen-le (hook.id ∷ []) hooks))
