-- ===== src/Common/Maps.antt =====
-- Go maps and keyed tables as association lists.
use Prim.Native.Nat.{◌+◌}
use mathlib.Core.Path.{◌≡◌, refl}
use mathlib.Core.Option.{Option, none, some}
use mathlib.Core.List.{List, [], ◌∷◌}
use native.Mathlib.Omega.{arith}
use webhook_ui.Common.Tests.{Keyed, ◌==◌, ==_iff, ==_refl, if◌then◌else◌}
use webhook_ui.Common.Lists.{length}

abbrev pub Map {ℓ κ} : Type ℓ → Type κ → Type (ℓ ⊔ κ)
Map K V = List (K × V)

module _ {ℓ κ} {K : Type ℓ} ⦃e : Keyed K⦄ {V : Type κ} where
  unfoldable pub lookup : K → Map K V → Option V
  lookup k [] = none
  lookup k ((j, v) ∷ m) = if j == k then some v else lookup k m

  -- m[k] = v
  unfoldable pub insert : K → V → Map K V → Map K V
  insert k v [] = (k, v) ∷ []
  insert k v ((j, old) ∷ rest) =
      let unchanged = insert k v rest in if j == k then (j, v) ∷ rest else (j, old) ∷ unchanged

  -- delete(m, k)
  unfoldable pub delete : K → Map K V → Map K V
  delete k [] = []
  delete k ((j, v) ∷ m) = let rest = delete k m in if j == k then rest else (j, v) ∷ rest

  pub lookup-insert :
      (j k : K) (v : V) (m : Map K V)
      → lookup j (insert k v m) ≡ (if k == j then some v else lookup j m)
  unfolding lookup insert
  lookup-insert j k v [] = refl
  lookup-insert j k v ((i, w) ∷ m) =
      ground (arith, ==_iff k j, ==_iff i k, ==_iff i j, lookup-insert j k v m)

  pub lookup-delete :
      (j k : K) (m : Map K V) → lookup j (delete k m) ≡ (if k == j then none else lookup j m)
  unfolding lookup delete
  lookup-delete j k [] = ground arith
  lookup-delete j k ((i, w) ∷ m) =
      ground (arith, ==_iff k j, ==_iff i k, ==_iff i j, lookup-delete j k m)

  -- Go's map holds a key once; so does a table with a primary key.
  abbrev pub IsFresh : K → Map K V → Type κ
  IsFresh k m = lookup k m ≡ none

  -- No key twice.
  abbrev pub IsUnique : Map K V → Type κ
  IsUnique [] = Unit
  IsUnique ((k, v) ∷ m) = IsFresh k m × IsUnique m

  pub insert-IsUnique : (k : K) (v : V) (m : Map K V) → IsUnique m → IsUnique (insert k v m)
  unfolding insert lookup
  insert-IsUnique k v [] u = (refl, tt)
  insert-IsUnique k v ((j, w) ∷ m) u =
      ground (arith, ==_iff j k, ==_iff k j, lookup-insert j k v m, insert-IsUnique k v m u.1)

  pub delete-IsUnique : (k : K) (m : Map K V) → IsUnique m → IsUnique (delete k m)
  unfolding delete
  delete-IsUnique k [] u = tt
  delete-IsUnique k ((j, w) ∷ m) u =
      ground (arith, ==_iff j k, ==_iff k j, lookup-delete j k m, delete-IsUnique k m u.1)

  pub length-insert_fresh :
      (k : K) (v : V) (m : Map K V) → IsFresh k m → length (insert k v m) ≡ length m + 1
  unfolding insert lookup
  length-insert_fresh k v [] h = omega arith
  length-insert_fresh k v ((j, w) ∷ m) h = ground (arith, length-insert_fresh k v m)

  pub length-insert_held :
      (k : K) (v w : V) (m : Map K V) → lookup k m ≡ some w → length (insert k v m) ≡ length m
  unfolding insert lookup
  length-insert_held k v w [] h = cc
  length-insert_held k v w ((j, x) ∷ m) h = ground (arith, length-insert_held k v w m)

  pub delete_fresh : (k : K) (m : Map K V) → IsFresh k m → delete k m ≡ m
  unfolding delete lookup
  delete_fresh k [] h = refl
  delete_fresh k ((j, x) ∷ m) h = ground (arith, delete_fresh k m)

  pub length-delete_held :
      (k : K) (w : V) (m : Map K V)
      → IsUnique m
      → lookup k m ≡ some w
      → length (delete k m) + 1 ≡ length m
  unfolding delete lookup
  length-delete_held k w [] u h = cc
  length-delete_held k w ((j, x) ∷ m) u h =
      ground (arith, length-delete_held k w m u.1, delete_fresh k m, ==_iff j k)

  -- Taking back an entry that was not there before.
  pub delete-insert_fresh :
      (k : K) (v : V) (m : Map K V) → IsFresh k m → delete k (insert k v m) ≡ m
  unfolding delete insert lookup
  delete-insert_fresh k v [] h = ground (arith, ==_refl k)
  delete-insert_fresh k v ((j, x) ∷ m) h = ground (arith, delete-insert_fresh k v m)
