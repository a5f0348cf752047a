-- ===== src/Workers/Holdings.antt =====
-- What the goroutines hold: their admissions, their tokens, and what the runner waits for.
use webhook_ui.Common.{
  ℕ, ◌+◌, ◌<◌, ◌≡◌, ◌≢◌, ◌⊎◌, inl, inr, refl, sym, ap, ◌∙◌, true, false, Option, none, some, Map,
  lookup, insert, delete, IsUnique, tally, tally-insert_fresh, tally-delete, lookup-insert,
  lookup-delete, insert-IsUnique, delete-IsUnique, length, nat_eq, string_eq, ==_iff, ==_refl,
  arith,
}
use webhook_ui.Runner.{Runner, Slot}
use webhook_ui.Runner.Bounds.{IsBounded}
use webhook_ui.Workers.{
  Phase, recording, launching, registering, tracking, spawning, noting, waiting, giving_up, marking,
  running, returning, recovering, unregistering, releasing, dispatching, done,
}

-- The admission that a goroutine holds.
abbrev pub held : Phase → Option ℕ
held (recording _ slot) = some slot
held (launching _ _ slot) = some slot
held (registering _ _ slot) = some slot
held (tracking _ _ slot _) = some slot
held (spawning _ _ slot _) = some slot
held (waiting _ slot _) = some slot
held (giving_up _ slot) = some slot
held (marking _ slot) = some slot
held (running _ slot) = some slot
held (returning _ _ slot) = some slot
held (recovering _ _ slot) = some slot
held (unregistering _ slot) = some slot
held (releasing _ slot) = some slot
held (dispatching _ _) = none
held (noting _ _ _) = none
held done = none

abbrev pub one_if_held : Option ℕ → ℕ
one_if_held none = 0
one_if_held (some _) = 1

abbrev pub admissions : Phase → ℕ
admissions p = one_if_held (held p)

abbrev pub tokens : Phase → ℕ
tokens (marking _ _) = 1
tokens (running _ _) = 1
tokens (returning _ _ _) = 1
tokens _ = 0

-- A goroutine of launchHook counts in the wait group until its handoff is over, and before it is
-- started its caller has counted it.
abbrev pub handoffs : Phase → ℕ
handoffs (recording _ _) = 0
handoffs (launching true _ _) = 1
handoffs (launching false _ _) = 0
handoffs (registering true _ _) = 1
handoffs (registering false _ _) = 0
handoffs (tracking true _ _ _) = 1
handoffs (tracking false _ _ _) = 0
handoffs (spawning true _ _ _) = 2
handoffs (spawning false _ _ _) = 1
handoffs (noting true _ _) = 1
handoffs (noting false _ _) = 0
handoffs (dispatching true _) = 1
handoffs (dispatching false _) = 0
handoffs _ = 1

abbrev pub waits : Phase → ℕ
waits p = admissions p + handoffs p

-- The admission `slot` is one of the runner's.
abbrev pub IsHeld : Runner → ℕ → Type 0
IsHeld r slot =
    (s : Slot) × (lookup slot r.allocated ≡ some s) × (lookup s.hook_id r.in_flight ≡ some slot)

-- No goroutine of `ws` holds the admission.
abbrev pub IsFree : Map ℕ Phase → ℕ → Type 0
IsFree ws slot = (j : ℕ) (x : Phase) → lookup j ws ≡ some x → held x ≢ some slot

-- An admission in hand: the runner's, and no other goroutine's.
abbrev pub InHand : Runner → Map ℕ Phase → Option ℕ → Type 0
InHand r ws none = Unit
InHand r ws (some slot) = IsHeld r slot × IsFree ws slot

-- The runner against the goroutines of `ws`, and against `a` admissions, `t` tokens and `n` waits
-- in hand.
pub record IsSound (r : Runner) (ws : Map ℕ Phase) (next : ℕ) (a t n : ℕ) : Type 0 where
  pub keys : IsUnique ws
  pub below : (i : ℕ) (p : Phase) → lookup i ws ≡ some p → i < next
  pub owned :
      (i : ℕ) (p : Phase) (slot : ℕ) → lookup i ws ≡ some p → held p ≡ some slot → IsHeld r slot
  pub one :
      (i j : ℕ) (p q : Phase) (slot : ℕ)
      → lookup i ws ≡ some p
      → lookup j ws ≡ some q
      → held p ≡ some slot
      → held q ≡ some slot
      → i ≡ j
  pub issued : (slot : ℕ) (s : Slot) → lookup slot r.allocated ≡ some s → slot < r.next_slot
  pub admitted : length r.in_flight ≡ tally admissions ws + a
  pub running : r.slots ≡ tally tokens ws + t
  pub waited : r.wg ≡ tally waits ws + n
  pub bounded : IsBounded r

-- A goroutine taken out of the table.
pub take_out :
    {r : Runner} {ws : Map ℕ Phase} {next a t n : ℕ}
    → IsSound r ws next a t n
    → (i : ℕ) (p : Phase) → lookup i ws ≡ some p
    → IsSound r (delete i ws) next (a + admissions p) (t + tokens p) (n + waits p)
      × InHand r (delete i ws) (held p)
      × (lookup i (delete i ws) ≡ none)
      × (i < next)
take_out {r} {ws} v i p at = (
  record {
    keys = delete-IsUnique i ws v.keys;
    below = λ j x k. ground (arith, lookup-delete j i ws, v.below j x);
    owned = λ j x s k e. v.owned j x s (kept j x k) e;
    one = λ j l x y s k m. v.one j l x y s (kept j x k) (kept l y m);
    issued = v.issued;
    admitted = omega (arith, v.admitted, tally-delete admissions i p ws v.keys at);
    running = omega (arith, v.running, tally-delete tokens i p ws v.keys at);
    waited = omega (arith, v.waited, tally-delete waits i p ws v.keys at);
    bounded = v.bounded;
  },
  in_hand (held p) refl,
  ground (arith, lookup-delete i i ws, ==_refl i),
  v.below i p at,
)
  where
    kept : (j : ℕ) (x : Phase) → lookup j (delete i ws) ≡ some x → lookup j ws ≡ some x
    kept j x k = ground (arith, lookup-delete j i ws)

    in_hand : (o : Option ℕ) → held p ≡ o → InHand r (delete i ws) o
    in_hand none e = tt
    in_hand (some slot) e = (
      v.owned i p slot at e,
      λ j x k m.
          let same : i ≡ j = v.one i j p x slot at (kept j x k) e m in
          ground (arith, lookup-delete j i ws, ==_iff i j),
    )

-- A goroutine put into the table, with what it holds.
pub put_in :
    {r : Runner} {ws : Map ℕ Phase} {next a t n : ℕ} (i : ℕ) (q : Phase)
    → IsSound r ws next (a + admissions q) (t + tokens q) (n + waits q)
    → InHand r ws (held q)
    → lookup i ws ≡ none
    → i < next
    → IsSound r (insert i q ws) next a t n
put_in {r} {ws} i q v mine new lt = record {
  keys = insert-IsUnique i q ws v.keys;
  below = λ j x k. ground (arith, lookup-insert j i q ws, v.below j x, ==_iff i j);
  owned = λ j x s k e. elim (inserted j x k) [
    | inl (_, same) ↦ (mine_at (held q) s (sym (ap held same) ∙ e) mine).0
    | inr old ↦ v.owned j x s old e
  ];
  one = λ j l x y s k m e g. elim (inserted j x k) [
    | inl (ij, xq) ↦ elim (inserted l y m) [
      | inl (il, _) ↦ sym ij ∙ il
      | inr old ↦ absurd ((mine_at (held q) s (sym (ap held xq) ∙ e) mine).1 l y old g)
    ]
    | inr old ↦ elim (inserted l y m) [
      | inl (_, yq) ↦ absurd ((mine_at (held q) s (sym (ap held yq) ∙ g) mine).1 j x old e)
      | inr old' ↦ v.one j l x y s old old' e g
    ]
  ];
  issued = v.issued;
  admitted = omega (arith, v.admitted, tally-insert_fresh admissions i q ws new);
  running = omega (arith, v.running, tally-insert_fresh tokens i q ws new);
  waited = omega (arith, v.waited, tally-insert_fresh waits i q ws new);
  bounded = v.bounded;
}
  where
    inserted :
        (j : ℕ) (x : Phase)
        → lookup j (insert i q ws) ≡ some x
        → ((i ≡ j) × (x ≡ q)) ⊎ (lookup j ws ≡ some x)
    inserted j x k = ground (arith, lookup-insert j i q ws, ==_iff i j)

    mine_at : (o : Option ℕ) (slot : ℕ) → o ≡ some slot → InHand r ws o → InHand r ws (some slot)
    mine_at o slot e h = rw e at h
