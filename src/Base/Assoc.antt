-- ===== src/Base/Assoc.antt =====
-- A Go map with string keys, as an association list in the order in which `range` visits it.
-- Go leaves that order open: what is proved of a map holds for a list in any order.
use multiagent.Base.Text.{Text, text_eq, text_eq_iff}
use Prim.Native.Nat.{suc, ◌≤◌}
use mathlib.Core.Path.{◌≡◌, refl, ap}
use mathlib.Core.Option.{Option, none, some}
use mathlib.Core.List.{List, [], ◌∷◌}
use native.Mathlib.Omega.{arith}
use multiagent.Base.Tests.{if◌then◌else◌}
use multiagent.Base.Lists.{length}

abbrev pub Assoc {ℓ} : Type ℓ → Type ℓ
Assoc V = List (Text × V)

module _ {ℓ} {V : Type ℓ} where
  -- m[k]
  unfoldable pub lookup : Text → Assoc V → Option V
  lookup k [] = none
  lookup k ((j, v) ∷ m) = if text_eq j k then some v else lookup k m

  -- delete(m, k)
  unfoldable pub remove : Text → Assoc V → Assoc V
  remove k [] = []
  remove k ((j, v) ∷ m) = let rest = remove k m in if text_eq j k then rest else (j, v) ∷ rest

  -- m[k] = v
  unfoldable pub put : Text → V → Assoc V → Assoc V
  put k v m = (k, v) ∷ remove k m

  -- A write through every pointer that the map holds.
  unfoldable pub map_values : (V → V) → Assoc V → Assoc V
  map_values f [] = []
  map_values f ((j, v) ∷ m) = (j, f v) ∷ map_values f m

  pub lookup-remove :
      (k j : Text) (m : Assoc V)
      → lookup j (remove k m) ≡ (if text_eq k j then none else lookup j m)
  unfolding lookup remove
  lookup-remove k j [] = ground arith
  lookup-remove k j ((i, v) ∷ m) =
      ground (arith, lookup-remove k j m, text_eq_iff i k, text_eq_iff i j, text_eq_iff k j)

  pub lookup-put :
      (k j : Text) (v : V) (m : Assoc V)
      → lookup j (put k v m) ≡ (if text_eq k j then some v else lookup j m)
  unfolding lookup put
  lookup-put k j v m = ground (arith, lookup-remove k j m)

  abbrev pub map_option : (V → V) → Option V → Option V
  map_option f none = none
  map_option f (some v) = some (f v)

  pub lookup-map_values :
      (f : V → V) (k : Text) (m : Assoc V) → lookup k (map_values f m) ≡ map_option f (lookup k m)
  unfolding lookup map_values
  lookup-map_values f k [] = refl
  lookup-map_values f k ((j, v) ∷ m) = ground (arith, lookup-map_values f k m)

  pub length-remove-le : (k : Text) (m : Assoc V) → length (remove k m) ≤ length m
  unfolding remove
  length-remove-le k [] = omega arith
  length-remove-le k ((j, v) ∷ m) = ground (arith, length-remove-le k m)

  -- Removing a key that is there makes the map smaller.
  pub length-remove-lt :
      (k : Text) (m : Assoc V) (v : V) → lookup k m ≡ some v → suc (length (remove k m)) ≤ length m
  unfolding lookup remove
  length-remove-lt k [] v h = absurd (ground arith)
  length-remove-lt k ((j, w) ∷ m) v h = ground (arith, length-remove-lt k m v, length-remove-le k m)

  pub length-map_values : (f : V → V) (m : Assoc V) → length (map_values f m) ≡ length m
  unfolding map_values
  length-map_values f [] = refl
  length-map_values f ((j, v) ∷ m) = ap suc (length-map_values f m)
