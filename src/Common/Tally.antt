-- ===== src/Common/Tally.antt =====
-- Updates of a keyed table in place, and sums over its rows.
use Prim.Native.Nat.{ℕ, ◌+◌, ◌≤◌}
use mathlib.Core.Path.{◌≡◌, refl}
use mathlib.Core.Bool.{false}
use mathlib.Core.Option.{Option, none, some}
use mathlib.Core.List.{[], ◌∷◌}
use native.Mathlib.Omega.{arith}
use webhook_ui.Common.Tests.{Keyed, ◌==◌, ==_iff, if◌then◌else◌}
use webhook_ui.Common.Maps.{Map, lookup, insert, delete, IsUnique, IsFresh, delete_fresh}

abbrev pub map_option {ℓ κ} : {A : Type ℓ} {B : Type κ} → (A → B) → Option A → Option B
map_option f none = none
map_option f (some a) = some (f a)

module _ {ℓ κ} {K : Type ℓ} ⦃e : Keyed K⦄ {V : Type κ} where
  -- UPDATE … WHERE key = k
  unfoldable pub adjust : K → (V → V) → Map K V → Map K V
  adjust k f [] = []
  adjust k f ((j, v) ∷ m) = (j, if j == k then f v else v) ∷ adjust k f m

  -- UPDATE of each row
  unfoldable pub map_values : (V → V) → Map K V → Map K V
  map_values f [] = []
  map_values f ((j, v) ∷ m) = (j, f v) ∷ map_values f m

  pub lookup-adjust :
      (j k : K) (f : V → V) (m : Map K V)
      → lookup j (adjust k f m) ≡ (if k == j then map_option f (lookup j m) else lookup j m)
  unfolding lookup adjust
  lookup-adjust j k f [] = ground arith
  lookup-adjust j k f ((i, w) ∷ m) =
      ground (arith, ==_iff k j, ==_iff i k, ==_iff i j, lookup-adjust j k f m)

  pub lookup-map_values :
      (j : K) (f : V → V) (m : Map K V) → lookup j (map_values f m) ≡ map_option f (lookup j m)
  unfolding lookup map_values
  lookup-map_values j f [] = refl
  lookup-map_values j f ((i, w) ∷ m) = ground (arith, lookup-map_values j f m)

  -- The sum of a weight over the rows.
  unfoldable pub tally : (V → ℕ) → Map K V → ℕ
  tally f [] = 0
  tally f ((j, v) ∷ m) = f v + tally f m

  pub tally-insert_fresh :
      (f : V → ℕ) (k : K) (v : V) (m : Map K V)
      → IsFresh k m
      → tally f (insert k v m) ≡ tally f m + f v
  unfolding tally insert lookup
  tally-insert_fresh f k v [] h = omega arith
  tally-insert_fresh f k v ((j, w) ∷ m) h = ground (arith, tally-insert_fresh f k v m)

  pub tally-insert_held :
      (f : V → ℕ) (k : K) (v w : V) (m : Map K V)
      → lookup k m ≡ some w
      → tally f (insert k v m) + f w ≡ tally f m + f v
  unfolding tally insert lookup
  tally-insert_held f k v w [] h = cc
  tally-insert_held f k v w ((j, x) ∷ m) h = ground (arith, tally-insert_held f k v w m)

  pub tally-delete :
      (f : V → ℕ) (k : K) (w : V) (m : Map K V)
      → IsUnique m
      → lookup k m ≡ some w
      → tally f (delete k m) + f w ≡ tally f m
  unfolding tally delete lookup
  tally-delete f k w [] u h = cc
  tally-delete f k w ((j, x) ∷ m) u h =
      ground (arith, tally-delete f k w m u.1, delete_fresh k m, ==_iff j k)

  pub le-tally : (f : V → ℕ) (k : K) (w : V) (m : Map K V) → lookup k m ≡ some w → f w ≤ tally f m
  unfolding tally lookup
  le-tally f k w [] h = cc
  le-tally f k w ((j, x) ∷ m) h = ground (arith, le-tally f k w m)

  pub adjust-insert :
      (k j : K) (f : V → V) (v : V) (m : Map K V)
      → k == j ≡ false
      → adjust k f (insert j v m) ≡ insert j v (adjust k f m)
  unfolding adjust insert
  adjust-insert k j f v [] h = ground (arith, ==_iff k j, ==_iff j k)
  adjust-insert k j f v ((i, w) ∷ m) h =
      ground (arith, ==_iff k j, ==_iff j k, ==_iff i k, ==_iff i j, adjust-insert k j f v m)
