-- ===== src/Retention/Query.antt =====
-- What the recursive query of CleanupOldExecutions follows, and that it ends.
use webhook_ui.Common.{
  ℕ, zero, suc, ◌+◌, ◌≤◌, ◌≡◌, ◌≢◌, inl, inr, refl, sym, true, false, ◌||◌, none, some, List, [],
  ◌∷◌, ◌++◌, length, length-append, ◌==◌, ==_iff, nat_eq, if◌then◌else◌, Map, lookup, tally, arith,
  Bool-cases,
}
use webhook_ui.Store.{Execution}
use webhook_ui.Retention.{is_root, contains_id, parent_of, close}

-- What must stay: an execution that is unfinished, recent or waits for its handoff, and the parent
-- of one that must stay.
pub data Retained (cutoff : ℕ) (rows : Map ℕ Execution) : ℕ → Type 0 where
  root :
      {id : ℕ} (e : Execution)
      → lookup id rows ≡ some e
      → is_root cutoff e ≡ true
      → Retained cutoff rows id
  parent :
      {child id : ℕ}
      → Retained cutoff rows child
      → parent_of rows child ≡ id
      → id ≢ 0
      → Retained cutoff rows id

-- One for a row whose parent is not seen yet.
abbrev pub unseen : List ℕ → Execution → ℕ
unseen seen e = if contains_id seen e.parent_execution_id then 0 else 1

tally_seen :
    (p : ℕ) (seen : List ℕ) (rows : Map ℕ Execution)
    → tally (unseen (p ∷ seen)) rows ≤ tally (unseen seen) rows
unfolding tally
tally_seen p seen [] = omega arith
tally_seen p seen ((j, e) ∷ rows) = ground (arith, tally_seen p seen rows)

tally_newly_seen :
    (id p : ℕ) (seen : List ℕ) (rows : Map ℕ Execution)
    → parent_of rows id ≡ p
    → p ≢ 0
    → contains_id seen p ≡ false
    → tally (unseen (p ∷ seen)) rows + 1 ≤ tally (unseen seen) rows
unfolding tally parent_of lookup
tally_newly_seen id p seen [] h i n = absurd (i (sym h))
tally_newly_seen id p seen ((j, e) ∷ rows) h i n =
    ground (
      arith,
      ==_iff p e.parent_execution_id,
      tally_seen p seen rows,
      tally_newly_seen id p seen rows,
    )

-- Enough fuel: the queue, and one for each row that can still add its parent.
pub close_enough :
    (fuel : ℕ) (queue seen : List ℕ) (rows : Map ℕ Execution)
    → length queue + tally (unseen seen) rows ≤ fuel
    → close fuel queue seen rows ≢ none
unfolding close
close_enough fuel [] seen rows h = λ e. ground (arith, e)
close_enough zero (id ∷ queue) seen rows h = absurd (ground (arith, h))
close_enough (suc fuel) (id ∷ queue) seen rows h =
    elim (Bool-cases (parent_of rows id == 0 || contains_id seen (parent_of rows id))) [
      | inl old ↦ rw old (close_enough fuel queue seen rows (omega (arith, h)))
      | inr new ↦
          let p : ℕ = parent_of rows id in
          rw new (
            close_enough fuel (queue ++ p ∷ []) (p ∷ seen) rows (
              omega (
                arith,
                h,
                length-append queue (p ∷ []),
                tally_newly_seen id p seen rows refl (λ z. ground (arith, new, z))
                    (ground (arith, new)),
              )))
    ]

pub contains_id-append :
    (xs : List ℕ) (p x : ℕ) → contains_id (xs ++ p ∷ []) x ≡ (contains_id xs x || p == x)
contains_id-append [] p x = ground arith
contains_id-append (y ∷ xs) p x = ground (arith, contains_id-append xs p x)
