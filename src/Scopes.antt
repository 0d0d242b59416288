-- ===== src/Scopes.antt =====
-- server/internal/goal/goal.go and server/internal/plan/plan.go keep one value per scope, and evict
-- by the same loop (evictLocked): here it stands once, over the values' `UpdatedAt`.
pub mod Evictions
pub mod Kept
use multiagent.Base.{
  ℕ, zero, suc, ◌+◌, ◌≤◌, ◌<◌, ◌≡◌, ◌≢◌, ◌⊎◌, inl, inr, refl, sym, ap, subst, Bool, true, false,
  Option, none, some, List, [], ◌∷◌, arith, ltb, leb, length, if◌then◌else◌, Bool-cases,
  Option-cases,
}
use multiagent.Base.Text.{Text, text_eq, text_eq_iff}
use multiagent.Base.Assoc.{
  Assoc, lookup, remove, put, lookup-remove, lookup-put, length-remove-le, length-remove-lt,
}

module _ {V : Type 0} (updated_at : V → ℕ) where
  -- The inner loop of evictLocked: the key updated longest ago, with its time.
  oldest : Option (Text × ℕ) → Assoc V → Option (Text × ℕ)
  oldest best [] = best
  oldest none ((k, v) ∷ m) = oldest (some (k, updated_at v)) m
  oldest (some (j, at)) ((k, v) ∷ m) =
      oldest (if ltb (updated_at v) at then some (k, updated_at v) else some (j, at)) m

  -- The outer loop; a round makes the map smaller, so its length is enough fuel.
  evict_loop : ℕ → ℕ → Assoc V → Assoc V
  evict_loop zero max m = m
  evict_loop (suc fuel) max m = elim (leb (length m) max) [
    | true ↦ m
    | false ↦ elim (oldest none m) [ none ↦ m | some (k, at) ↦ evict_loop fuel max (remove k m) ]
  ]

  -- evictLocked
  unfoldable pub evict : ℕ → Assoc V → Assoc V
  unfolding evict_loop oldest
  evict max m = evict_loop (length m) max m

-- The keys of a map differ.
abbrev pub IsMap {ℓ} : {V : Type ℓ} → Assoc V → Type ℓ
IsMap [] = Unit
IsMap ((k, v) ∷ m) = (lookup k m ≡ none) × IsMap m

module _ {ℓ} {V : Type ℓ} where
  pub remove-IsMap : (k : Text) (m : Assoc V) → IsMap m → IsMap (remove k m)
  unfolding remove
  remove-IsMap k [] h = tt
  remove-IsMap k ((j, v) ∷ m) h = elim (Bool-cases (text_eq j k)) [
    | inl same ↦ rw same (remove-IsMap k m h.1)
    | inr other ↦
        rw other (ground (arith, lookup-remove k j m, text_eq_iff k j), remove-IsMap k m h.1)
  ]

  pub put-IsMap : (k : Text) (v : V) (m : Assoc V) → IsMap m → IsMap (put k v m)
  unfolding put
  put-IsMap k v m h = (ground (arith, lookup-remove k k m, text_eq_iff k k), remove-IsMap k m h)
