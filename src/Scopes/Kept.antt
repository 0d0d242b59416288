-- ===== src/Scopes/Kept.antt =====
-- What holds of every value of a bounded store goes on to hold as entries are put, replaced,
-- evicted and deleted.
use multiagent.Base.{ℕ, ◌≤◌, ◌<◌, ◌≡◌, inl, inr, some, [], arith, length, Bool-cases, subst}
use multiagent.Base.Text.{Text, text_eq, text_eq_iff}
use multiagent.Base.Assoc.{
  Assoc, lookup, remove, put, lookup-remove, lookup-put, length-remove-le, length-remove-lt,
}
use multiagent.Scopes.{evict, IsMap, remove-IsMap, put-IsMap}
use multiagent.Scopes.Evictions.{evict-IsMap, evict-length-le, evict-lookup, evict-newest}

module _ {V : Type 0} (P : V → Type 0) where
  -- A map within its bound, `P` of each of its values.
  pub record Kept (max : ℕ) (m : Assoc V) : Type 0 where
    pub is_map : IsMap m
    pub room : 0 < max
    pub bounded : length m ≤ max
    pub each : (k : Text) (v : V) → lookup k m ≡ some v → P v

  pub Kept-empty : (max : ℕ) → 0 < max → Kept max []
  unfolding lookup
  Kept-empty max room = record {
    is_map = tt;
    room = room;
    bounded = omega arith;
    each = λ k v e. absurd (ground arith);
  }

  put-each :
      (k : Text) (v : V) (m : Assoc V) (j : Text) (w : V)
      → P v
      → ((i : Text) (u : V) → lookup i m ≡ some u → P u)
      → lookup j (put k v m) ≡ some w
      → P w
  put-each k v m j w pv each e = elim (Bool-cases (text_eq k j)) [
    | inl same ↦ subst P (ground (arith, lookup-put k j v m)) pv
    | inr other ↦ each j w (ground (arith, lookup-put k j v m))
  ]

  pub Kept-replace :
      (max : ℕ) (k : Text) (old v : V) (m : Assoc V)
      → lookup k m ≡ some old
      → P v
      → Kept max m
      → Kept max (put k v m)
  Kept-replace max k old v m there pv h = record {
    is_map = put-IsMap k v m h.is_map;
    room = h.room;
    bounded = (unfold put in omega (arith, h.bounded, length-remove-lt k m old there));
    each = λ j w e. put-each k v m j w pv h.each e;
  }

  pub Kept-remove : (max : ℕ) (k : Text) (m : Assoc V) → Kept max m → Kept max (remove k m)
  Kept-remove max k m h = record {
    is_map = remove-IsMap k m h.is_map;
    room = h.room;
    bounded = omega (arith, h.bounded, length-remove-le k m);
    each = λ j w e. h.each j w (ground (arith, lookup-remove k j m));
  }

  module _ (updated_at : V → ℕ) where
    pub Kept-insert :
        (max : ℕ) (k : Text) (v : V) (m : Assoc V)
        → P v
        → Kept max m
        → Kept max (evict updated_at max (put k v m))
    Kept-insert max k v m pv h =
        let map : IsMap (put k v m) = put-IsMap k v m h.is_map in
        record {
          is_map = evict-IsMap updated_at max (put k v m) map;
          room = h.room;
          bounded = evict-length-le updated_at max (put k v m) map;
          each = λ j w e. kept j w map e;
        }
      where
        kept :
            (j : Text) (w : V)
            → IsMap (put k v m)
            → lookup j (evict updated_at max (put k v m)) ≡ some w
            → P w
        kept j w map e = elim (evict-lookup updated_at max (put k v m) j map) [
          | inl gone ↦ absurd (ground arith)
          | inr same ↦ put-each k v m j w pv h.each (ground arith)
        ]

    -- An entry put at a time past those of all the others is there after the eviction.
    pub lookup-insert :
        (max : ℕ) (k : Text) (v : V) (m : Assoc V)
        → Kept max m
        → ((j : Text) (w : V) → lookup j m ≡ some w → updated_at w < updated_at v)
        → lookup k (evict updated_at max (put k v m)) ≡ some v
    lookup-insert max k v m h before =
        evict-newest updated_at max (put k v m) k v (put-IsMap k v m h.is_map) h.room
          (ground (arith, lookup-put k k v m, text_eq_iff k k))
          (λ j w e other. before j w (ground (arith, lookup-put k j v m, text_eq_iff k j)))
