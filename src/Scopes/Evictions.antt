-- ===== src/Scopes/Evictions.antt =====
-- evictLocked: the bound that it enforces, what it leaves alone, and who is safe from it.
use multiagent.Base.{
  ℕ, zero, suc, ◌+◌, ◌≤◌, ◌<◌, ◌≡◌, ◌≢◌, ◌⊎◌, inl, inr, refl, sym, ap, ◌∙◌, false, Option, none,
  some, [], ◌∷◌, arith, ltb, leb, length, Bool-cases,
}
use multiagent.Base.Text.{Text, text_eq, text_eq_iff}
use multiagent.Base.Assoc.{Assoc, lookup, remove, lookup-remove, length-remove-lt}
use multiagent.Scopes.{oldest, evict_loop, evict, IsMap, remove-IsMap}

module _ {V : Type 0} (updated_at : V → ℕ) where
  -- The time that the inner loop returns is that of an entry with the key that it returns, or the
  -- one that it began with.
  oldest-there :
      (best : Option (Text × ℕ)) (m : Assoc V) (k : Text) (at : ℕ)
      → IsMap m
      → oldest updated_at best m ≡ some (k, at)
      → (best ≡ some (k, at)) ⊎ ((v : V) × (lookup k m ≡ some v) × (updated_at v ≡ at))
  unfolding oldest lookup
  oldest-there best [] k at h e = inl e
  oldest-there none ((j, v) ∷ m) k at h e =
      elim (oldest-there (some (j, updated_at v)) m k at h.1 e) [
        | inl first ↦ inr (v, ground (arith, text_eq_iff j k), ground arith)
        | inr (w, there, time) ↦ inr (w, ground (arith, text_eq_iff j k), time)
      ]
  oldest-there (some (i, t)) ((j, v) ∷ m) k at h e = elim (Bool-cases (ltb (updated_at v) t)) [
    | inl less ↦ elim (oldest-there (some (j, updated_at v)) m k at h.1 (ground arith)) [
      | inl first ↦ inr (v, ground (arith, text_eq_iff j k), ground arith)
      | inr (w, there, time) ↦ inr (w, ground (arith, text_eq_iff j k), time)
    ]
    | inr more ↦ elim (oldest-there (some (i, t)) m k at h.1 (ground arith)) [
      | inl first ↦ inl first
      | inr (w, there, time) ↦ inr (w, ground (arith, text_eq_iff j k), time)
    ]
  ]

  oldest-le-best :
      (i : Text) (t : ℕ) (m : Assoc V) (k : Text) (at : ℕ)
      → oldest updated_at (some (i, t)) m ≡ some (k, at)
      → at ≤ t
  unfolding oldest
  oldest-le-best i t [] k at e = ground arith
  oldest-le-best i t ((j, v) ∷ m) k at e = elim (Bool-cases (ltb (updated_at v) t)) [
    | inl less ↦
        let le : at ≤ updated_at v = oldest-le-best j (updated_at v) m k at (ground arith) in
        ground arith
    | inr more ↦ oldest-le-best i t m k at (ground arith)
  ]

  oldest-le :
      (best : Option (Text × ℕ)) (m : Assoc V) (k j : Text) (at : ℕ) (w : V)
      → oldest updated_at best m ≡ some (k, at)
      → lookup j m ≡ some w
      → at ≤ updated_at w
  unfolding oldest lookup
  oldest-le best [] k j at w e there = absurd (ground arith)
  oldest-le none ((i, v) ∷ m) k j at w e there = elim (Bool-cases (text_eq i j)) [
    | inl same ↦
        let le : at ≤ updated_at v = oldest-le-best i (updated_at v) m k at e in ground arith
    | inr other ↦ oldest-le (some (i, updated_at v)) m k j at w e (ground arith)
  ]
  oldest-le (some (b, t)) ((i, v) ∷ m) k j at w e there = elim (Bool-cases (ltb (updated_at v) t)) [
    | inl less ↦
        let e' : oldest updated_at (some (i, updated_at v)) m ≡ some (k, at) = ground arith in
        elim (Bool-cases (text_eq i j)) [
          | inl same ↦
              let le : at ≤ updated_at v = oldest-le-best i (updated_at v) m k at e' in ground arith
          | inr other ↦ oldest-le (some (i, updated_at v)) m k j at w e' (ground arith)
        ]
    | inr more ↦
        let e' : oldest updated_at (some (b, t)) m ≡ some (k, at) = ground arith in
        elim (Bool-cases (text_eq i j)) [
          | inl same ↦ let le : at ≤ t = oldest-le-best b t m k at e' in ground arith
          | inr other ↦ oldest-le (some (b, t)) m k j at w e' (ground arith)
        ]
  ]

  oldest-found :
      (i : Text) (t : ℕ) (m : Assoc V)
      → (r : Text × ℕ) × (oldest updated_at (some (i, t)) m ≡ some r)
  unfolding oldest
  oldest-found i t [] = ((i, t), refl)
  oldest-found i t ((j, v) ∷ m) = elim (Bool-cases (ltb (updated_at v) t)) [
    | inl less ↦ rw less (oldest-found j (updated_at v) m)
    | inr more ↦ rw more (oldest-found i t m)
  ]

  -- A map that is too large has an entry updated longest ago.
  victim :
      (max : ℕ) (m : Assoc V)
      → IsMap m
      → leb (length m) max ≡ false
      → (k : Text) × (v : V) × (oldest updated_at none m ≡ some (k, updated_at v))
        × (lookup k m ≡ some v)
  unfolding oldest
  victim max [] h big = absurd (ground arith)
  victim max ((j, w) ∷ m) h big =
      let ((k, at), found) = oldest-found j (updated_at w) m in
      elim (oldest-there none ((j, w) ∷ m) k at h found) [
        | inl none_first ↦ absurd (ground arith)
        | inr (v, there, time) ↦ (k, v, found ∙ ap (λ t. some (k, t)) (sym time), there)
      ]

  evict_loop-IsMap :
      (fuel max : ℕ) (m : Assoc V) → IsMap m → IsMap (evict_loop updated_at fuel max m)
  unfolding evict_loop
  evict_loop-IsMap zero max m h = h
  evict_loop-IsMap (suc fuel) max m h = elim (Bool-cases (leb (length m) max)) [
    | inl fits ↦ rw (fits, IsMap, evict_loop) h
    | inr big ↦
        let (k, v, found, there) = victim max m h big in
        rw (big, IsMap, evict_loop, found)
          (evict_loop-IsMap fuel max (remove k m) (remove-IsMap k m h))
  ]

  evict_loop-length-le :
      (fuel max : ℕ) (m : Assoc V)
      → IsMap m
      → length m ≤ fuel + max
      → length (evict_loop updated_at fuel max m) ≤ max
  unfolding evict_loop
  evict_loop-length-le zero max m h le = omega arith
  evict_loop-length-le (suc fuel) max m h le = elim (Bool-cases (leb (length m) max)) [
    | inl fits ↦ ground arith
    | inr big ↦
        let (k, v, found, there) = victim max m h big in
        ground (
          arith,
          length-remove-lt k m v there,
          evict_loop-length-le fuel max (remove k m) (remove-IsMap k m h),
        )
  ]

  -- Evicting leaves an entry as it is or takes it away.
  evict_loop-lookup :
      (fuel max : ℕ) (m : Assoc V) (j : Text)
      → IsMap m
      → (lookup j (evict_loop updated_at fuel max m) ≡ none)
        ⊎ (lookup j (evict_loop updated_at fuel max m) ≡ lookup j m)
  unfolding evict_loop
  evict_loop-lookup zero max m j h = inr refl
  evict_loop-lookup (suc fuel) max m j h = elim (Bool-cases (leb (length m) max)) [
    | inl fits ↦ inr (ground arith)
    | inr big ↦
        let (k, v, found, there) = victim max m h big in
        elim (evict_loop-lookup fuel max (remove k m) j (remove-IsMap k m h)) [
          | inl gone ↦ inl (ground arith)
          | inr same ↦ elim (Bool-cases (text_eq k j)) [
            | inl it ↦ inl (ground (arith, lookup-remove k j m))
            | inr other ↦ inr (ground (arith, lookup-remove k j m))
          ]
        ]
  ]

  -- Every other entry was updated before that of `k`.
  abbrev pub IsNewest : Text → V → Assoc V → Type 0
  IsNewest k v m = (j : Text) (w : V) → lookup j m ≡ some w → j ≢ k → updated_at w < updated_at v

  -- In a map of two or more entries, there is another key.
  another :
      (k : Text) (m : Assoc V)
      → IsMap m
      → 1 < length m
      → (j : Text) × (w : V) × (lookup j m ≡ some w) × (j ≢ k)
  unfolding lookup
  another k [] h two = absurd (omega arith)
  another k ((a, v) ∷ []) h two = absurd (omega arith)
  another k ((a, v) ∷ (b, w) ∷ m) h two = elim (Bool-cases (text_eq a k)) [
    | inl same ↦ (
      b,
      w,
      ground (arith, text_eq_iff a b, text_eq_iff b a, text_eq_iff b b),
      ground (arith, text_eq_iff a k, text_eq_iff b a, text_eq_iff a b, text_eq_iff b k),
    )
    | inr other ↦ (a, v, ground (arith, text_eq_iff a a), ground (arith, text_eq_iff a k))
  ]

  evict_loop-newest :
      (fuel max : ℕ) (m : Assoc V) (k : Text) (v : V)
      → IsMap m
      → 0 < max
      → lookup k m ≡ some v
      → IsNewest k v m
      → lookup k (evict_loop updated_at fuel max m) ≡ some v
  unfolding evict_loop
  evict_loop-newest zero max m k v h some_room there newest = there
  evict_loop-newest (suc fuel) max m k v h some_room there newest =
      elim (Bool-cases (leb (length m) max)) [
        | inl fits ↦ ground arith
        | inr big ↦
            let (i, u, found, at) = victim max m h big in
            let (j, w, there_j, ne) = another k m h (ground arith) in
            let le : updated_at u ≤ updated_at w =
              oldest-le none m i j (updated_at u) w found there_j in
            let lt : updated_at w < updated_at v = newest j w there_j ne in
            let keep : text_eq i k ≡ false = ground (arith, text_eq_iff i k) in
            let kept : lookup k (remove i m) ≡ some v = ground (arith, lookup-remove i k m) in
            rw (big, evict_loop, found)
              (evict_loop-newest fuel max (remove i m) k v (remove-IsMap i m h) some_room kept
                (λ j' w' there' ne'. newest j' w' (ground (arith, lookup-remove i j' m)) ne'))
      ]

  pub evict-IsMap : (max : ℕ) (m : Assoc V) → IsMap m → IsMap (evict updated_at max m)
  unfolding evict
  evict-IsMap max m h = evict_loop-IsMap (length m) max m h

  -- After evictLocked the map is within its bound: the loop has enough fuel.
  pub evict-length-le : (max : ℕ) (m : Assoc V) → IsMap m → length (evict updated_at max m) ≤ max
  unfolding evict
  evict-length-le max m h = evict_loop-length-le (length m) max m h (omega arith)

  pub evict-lookup :
      (max : ℕ) (m : Assoc V) (j : Text)
      → IsMap m
      → (lookup j (evict updated_at max m) ≡ none)
        ⊎ (lookup j (evict updated_at max m) ≡ lookup j m)
  unfolding evict
  evict-lookup max m j h = evict_loop-lookup (length m) max m j h

  -- The entry updated last is not evicted.
  pub evict-newest :
      (max : ℕ) (m : Assoc V) (k : Text) (v : V)
      → IsMap m
      → 0 < max
      → lookup k m ≡ some v
      → IsNewest k v m
      → lookup k (evict updated_at max m) ≡ some v
  unfolding evict
  evict-newest max m k v h room there newest =
      evict_loop-newest (length m) max m k v h room there newest
