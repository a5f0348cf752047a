-- ===== src/Hooks/Acyclic.antt =====
-- The chains of stored hooks stay free of cycles and of missing targets.
use webhook_ui.Common.{
  ◌≡◌, ◌∙◌, sym, ◌≢◌, inl, inr, String, Bool, false, some, [], ◌∷◌, ◌==◌, ==_iff, string_eq, Map,
  lookup, delete, lookup-delete, arith, Bool-cases, some_injective,
}
use webhook_ui.Models.{Hook, contains}
use webhook_ui.Hooks.{ends, validate_success_target, is_referenced}
use webhook_ui.Hooks.Graph.{Ends, EndsOutside, walk-EndsOutside}

-- From every stored hook the success targets lead, over stored hooks, to one that has none.
pub record IsAcyclic (hooks : Map String Hook) : Type 0 where
  pub chain : (id : String) (h : Hook) → lookup id hooks ≡ some h → Ends hooks h.success_hook_id

-- A chain that avoids `id` is still there when the row of `id` changes.
outside-Ends :
    (id : String) (old new : Map String Hook) {t : String}
    → ((j : String) → id ≢ j → lookup j new ≡ lookup j old)
    → EndsOutside old (id ∷ []) t
    → Ends new t
unfolding contains
outside-Ends id old new same (EndsOutside.stop e) = Ends.stop e
outside-Ends id old new same (EndsOutside.step {id = t} h free at rest) =
    Ends.step h (rw (same t (λ e. ground (arith, ==_iff id t))) at)
      (outside-Ends id old new same rest)

-- A chain that meets `id` goes on from its new target.
redirect-Ends :
    (id : String) (old new : Map String Hook) (hook : Hook) {t : String}
    → ((j : String) → id ≢ j → lookup j new ≡ lookup j old)
    → lookup id new ≡ some hook
    → Ends new hook.success_hook_id
    → Ends old t
    → Ends new t
redirect-Ends id old new hook same here rest (Ends.stop e) = Ends.stop e
redirect-Ends id old new hook same here rest (Ends.step {id = t} h at more) =
    elim (Bool-cases (id == t)) [
      | inl e ↦ Ends.step hook (rw (← (==_iff id t).0 e) here) rest
      | inr e ↦
          Ends.step h (rw (same t (λ p. ground (arith, ==_iff id t))) at)
            (redirect-Ends id old new hook same here rest more)
    ]

-- Writing one row whose target the walk accepted keeps every chain.
pub write-IsAcyclic :
    (fails : String → Bool) (old new : Map String Hook) (hook : Hook)
    → ((j : String) → hook.id ≢ j → lookup j new ≡ lookup j old)
    → lookup hook.id new ≡ some hook
    → validate_success_target fails old hook ≡ ends
    → IsAcyclic old
    → IsAcyclic new
unfolding validate_success_target
write-IsAcyclic fails old new hook same here ok' v =
    let target : Ends new hook.success_hook_id =
      outside-Ends hook.id old new same
        (walk-EndsOutside _ fails old (hook.id ∷ []) hook.success_hook_id ok') in
    record {
      chain = λ id h at. elim (Bool-cases (hook.id == id)) [
        | inl e ↦
            let same' : hook ≡ h = some_injective (sym here ∙ rw ((==_iff hook.id id).0 e) at) in
            rw (← same') target
        | inr e ↦
            redirect-Ends hook.id old new hook same here target
              (v.chain id h (rw (← same id (λ p. ground (arith, ==_iff hook.id id))) at))
      ];
    }

-- A row that no other names as its target can go.
unreferenced :
    (id : String) (hooks : Map String Hook) (j : String) (h : Hook)
    → is_referenced id hooks ≡ false
    → lookup j hooks ≡ some h
    → h.success_hook_id ≢ id
unfolding is_referenced lookup
unreferenced id [] j h free at = cc
unreferenced id ((k, x) ∷ rest) j h free at =
    ground (arith, unreferenced id rest j h, ==_iff h.success_hook_id id)

delete-Ends :
    (id : String) (hooks : Map String Hook) {t : String}
    → is_referenced id hooks ≡ false
    → t ≢ id
    → Ends hooks t
    → Ends (delete id hooks) t
delete-Ends id hooks free ne (Ends.stop e) = Ends.stop e
delete-Ends id hooks free ne (Ends.step {id = t} h at rest) =
    Ends.step h (ground (arith, lookup-delete t id hooks, ==_iff id t))
      (delete-Ends id hooks free (unreferenced id hooks t h free at) rest)

pub delete-IsAcyclic :
    (id : String) (hooks : Map String Hook)
    → is_referenced id hooks ≡ false
    → IsAcyclic hooks
    → IsAcyclic (delete id hooks)
delete-IsAcyclic id hooks free v = record {
  chain = λ j h at.
      let old : lookup j hooks ≡ some h = ground (arith, lookup-delete j id hooks) in
      delete-Ends id hooks free (unreferenced id hooks j h free old) (v.chain j h old);
}
