-- ===== src/Base/Lists.antt =====
-- Lists measured and indexed by native numbers, under the library's names.
use Prim.Native.Nat.{ℕ, zero, suc, ◌+◌, ◌≤◌}
use mathlib.Core.Path.{◌≡◌, refl, ap}
use mathlib.Core.Bool.{Bool, true, false}
use mathlib.Core.List.{List, [], ◌∷◌, ◌++◌}
use mathlib.Core.Option.{Option, none, some}
use native.Mathlib.Omega.{arith}
use mathlib.Core.Logic.{inl, inr}
use multiagent.Base.Tests.{if◌then◌else◌, ltb, Bool-cases}

module _ {ℓ} {A : Type ℓ} where
  abbrev pub length : List A → ℕ
  length [] = 0
  length (x ∷ xs) = suc (length xs)

  abbrev pub get_elem? : List A → ℕ → Option A
  get_elem? [] i = none
  get_elem? (x ∷ xs) zero = some x
  get_elem? (x ∷ xs) (suc i) = get_elem? xs i

  -- A write out of bounds changes nothing.
  abbrev pub set : List A → ℕ → A → List A
  set [] i v = []
  set (x ∷ xs) zero v = v ∷ xs
  set (x ∷ xs) (suc i) v = x ∷ set xs i v

  abbrev pub is_nil : List A → Bool
  is_nil [] = true
  is_nil (x ∷ xs) = false

  -- The elements that pass a Boolean test, in order.
  abbrev pub keep : (A → Bool) → List A → List A
  keep p [] = []
  keep p (x ∷ xs) = let rest = keep p xs in if p x then x ∷ rest else rest

  abbrev pub All {κ} : (A → Type κ) → List A → Type κ
  All P [] = Unit
  All P (x ∷ xs) = P x × All P xs

  pub length-append : (xs ys : List A) → length (xs ++ ys) ≡ length xs + length ys
  length-append [] ys = omega arith
  length-append (x ∷ xs) ys = omega (arith, length-append xs ys)

  pub length-set : (xs : List A) (i : ℕ) (v : A) → length (set xs i v) ≡ length xs
  length-set [] i v = refl
  length-set (x ∷ xs) zero v = refl
  length-set (x ∷ xs) (suc i) v = ap suc (length-set xs i v)

module _ {ℓ} {A : Type ℓ} (less : A → A → Bool) where
  insert_by : A → List A → List A
  insert_by x [] = x ∷ []
  insert_by x (y ∷ ys) = let rest = y ∷ insert_by x ys in if less y x then rest else x ∷ y ∷ ys

  -- sort.Slice by `less`, here stable.
  unfoldable pub sort_by : List A → List A
  unfolding insert_by
  sort_by [] = []
  sort_by (x ∷ xs) = insert_by x (sort_by xs)

module _ {ℓ κ} {A : Type ℓ} (less : A → A → Bool) (P : A → Type κ) where
  All-insert_by : (x : A) (ys : List A) → P x → All P ys → All P (insert_by less x ys)
  unfolding insert_by
  All-insert_by x [] px ps = (px, tt)
  All-insert_by x (y ∷ ys) px ps = elim (Bool-cases (less y x)) [
    | inl e ↦ rw e (ps.0, All-insert_by x ys px ps.1)
    | inr e ↦ rw e (px, ps)
  ]

  -- Sorting keeps what holds of every element.
  pub All-sort_by : (xs : List A) → All P xs → All P (sort_by less xs)
  unfolding sort_by
  All-sort_by [] ps = tt
  All-sort_by (x ∷ xs) ps = All-insert_by x (sort_by less xs) ps.0 (All-sort_by xs ps.1)

module _ {ℓ} {A : Type ℓ} (key : A → ℕ) where
  abbrev pub by_key : A → A → Bool
  by_key x y = ltb (key x) (key y)

  -- Each element has a key that is at most that of every later one.
  abbrev pub Ascending : List A → Type ℓ
  Ascending [] = Unit
  Ascending (x ∷ xs) = All (λ y. key x ≤ key y) xs × Ascending xs

  All-le_trans : (a b : ℕ) (xs : List A) → a ≤ b → All (λ y. b ≤ key y) xs → All (λ y. a ≤ key y) xs
  All-le_trans a b [] h ps = tt
  All-le_trans a b (x ∷ xs) h ps = (omega arith, All-le_trans a b xs h ps.1)

  insert_by-Ascending : (x : A) (ys : List A) → Ascending ys → Ascending (insert_by by_key x ys)
  unfolding insert_by
  insert_by-Ascending x [] h = (tt, tt)
  insert_by-Ascending x (y ∷ ys) h = elim (Bool-cases (by_key y x)) [
    | inl e ↦ rw e (
      All-insert_by by_key (λ z. key y ≤ key z) x ys (ground arith) h.0,
      insert_by-Ascending x ys h.1,
    )
    | inr e ↦ rw e ((ground arith, All-le_trans (key x) (key y) ys (ground arith) h.0), h)
  ]

  pub sort_by-Ascending : (xs : List A) → Ascending (sort_by by_key xs)
  unfolding sort_by
  sort_by-Ascending [] = tt
  sort_by-Ascending (x ∷ xs) = insert_by-Ascending x (sort_by by_key xs) (sort_by-Ascending xs)

module _ {ℓ κ} {A : Type ℓ} (less : A → A → Bool) (P : A → Type κ) where
  All-of-insert_by : (x : A) (ys : List A) → All P (insert_by less x ys) → P x × All P ys
  unfolding insert_by
  All-of-insert_by x [] h = h
  All-of-insert_by x (y ∷ ys) h = elim (Bool-cases (less y x)) [
    | inl e ↦
        let (py, rest) = rw e at h in let (px, ps) = All-of-insert_by x ys rest in (px, (py, ps))
    | inr e ↦ rw e at h
  ]

  -- What holds of every element of a sorted list holds of every element that was sorted.
  pub All-of-sort_by : (xs : List A) → All P (sort_by less xs) → All P xs
  unfolding sort_by
  All-of-sort_by [] h = tt
  All-of-sort_by (x ∷ xs) h =
      let (px, ps) = All-of-insert_by x (sort_by less xs) h in (px, All-of-sort_by xs ps)

module _ {ℓ κ μ} {A : Type ℓ} {P : A → Type κ} {Q : A → Type μ} where
  pub All-mono : (xs : List A) → ((x : A) → P x → Q x) → All P xs → All Q xs
  All-mono [] f h = tt
  All-mono (x ∷ xs) f h = (f x h.0, All-mono xs f h.1)

module _ {ℓ} {A : Type ℓ} where
  abbrev pub take : ℕ → List A → List A
  take zero xs = []
  take (suc n) [] = []
  take (suc n) (x ∷ xs) = x ∷ take n xs

  pub length-take-le : (n : ℕ) (xs : List A) → length (take n xs) ≤ n
  length-take-le zero xs = omega arith
  length-take-le (suc n) [] = omega arith
  length-take-le (suc n) (x ∷ xs) = omega (arith, length-take-le n xs)
