-- ===== src/Plan/Steps/Ids.antt =====
-- plan.go: step identifiers. A plan's steps are s1, s2, … in order, and a step is found by its
-- identifier or by its bare number.
use multiagent.Base.{
  ℕ, zero, suc, ◌+◌, ◌<◌, ◌≡◌, refl, ap, subst, ◌∙◌, false, some, List, [], ◌∷◌, ◌++◌, arith,
  length, get_elem?, length-append,
}
use multiagent.Base.Text.{
  Text, to_lower, text_eq, text_eq_iff, is_space, NoSpace, Digits-NoSpace, trim_space_of_NoSpace,
  to_lower_of_Digits,
}
use multiagent.Base.Decimal.{
  decimal, atoi, atoi-decimal, decimal-Digits, decimal-ne-nil, decimal-injective, int_limit,
}
use multiagent.Plan.Steps.{
  Step, StepSpec, Plan, prefixed, normalize_step_id, index_of, find_id, find, append_specs,
  append_steps,
}

abbrev pub step_id : ℕ → Text
step_id n = b's' ∷ decimal n

-- The steps after the first `k` of a plan.
abbrev pub IsNumbered : ℕ → List Step → Type 0
IsNumbered k [] = Unit
IsNumbered k (s ∷ steps) = (s.id ≡ step_id (suc k)) × IsNumbered (suc k) steps

step_id-injective : (m n : ℕ) → step_id m ≡ step_id n → m ≡ n
step_id-injective m n e = decimal-injective m n (ground arith)

prefixed-decimal : (n : ℕ) → n < int_limit → prefixed (decimal n) ≡ step_id n
prefixed-decimal n small = ground (arith, decimal-ne-nil n, atoi-decimal n small)

-- A bare number stands for the step of that number.
pub normalize_step_id-decimal :
    (table : ℕ → ℕ) (n : ℕ) → n < int_limit → normalize_step_id table (decimal n) ≡ step_id n
unfolding normalize_step_id
normalize_step_id-decimal table n small =
    ap prefixed (
      ap (to_lower table)
        (trim_space_of_NoSpace (decimal n) (Digits-NoSpace (decimal n) (decimal-Digits n)))
      ∙ to_lower_of_Digits table (decimal n) (decimal-Digits n))
    ∙ prefixed-decimal n small

prefixed-step_id : (n : ℕ) → prefixed (step_id n) ≡ step_id n
unfolding atoi
prefixed-step_id n = refl

step_id-NoSpace : (n : ℕ) → NoSpace (step_id n)
unfolding is_space
step_id-NoSpace n = (refl, Digits-NoSpace (decimal n) (decimal-Digits n))

to_lower-s : (table : ℕ → ℕ) (s : Text) → to_lower table (b's' ∷ s) ≡ b's' ∷ to_lower table s
unfolding to_lower
to_lower-s table s = refl

to_lower-step_id : (table : ℕ → ℕ) (n : ℕ) → to_lower table (step_id n) ≡ step_id n
to_lower-step_id table n =
    to_lower-s table (decimal n)
    ∙ ap (λ s. b's' ∷ s) (to_lower_of_Digits table (decimal n) (decimal-Digits n))

-- An identifier stands for itself.
pub normalize_step_id-step_id :
    (table : ℕ → ℕ) (n : ℕ) → normalize_step_id table (step_id n) ≡ step_id n
unfolding normalize_step_id
normalize_step_id-step_id table n =
    ap prefixed (
      ap (to_lower table) (trim_space_of_NoSpace (step_id n) (step_id-NoSpace n))
      ∙ to_lower-step_id table n)
    ∙ prefixed-step_id n

find_id-IsNumbered :
    (k i n : ℕ) (steps : List Step)
    → IsNumbered k steps
    → n ≡ suc (k + i)
    → find_id (step_id n) steps ≡ get_elem? steps i
unfolding find_id
find_id-IsNumbered k i n [] h e = refl
find_id-IsNumbered k zero n (s ∷ steps) h e =
    let first : n ≡ suc k = omega arith in
    ground (arith, text_eq_iff s.id (step_id n), ap step_id first)
find_id-IsNumbered k (suc i) n (s ∷ steps) h e =
    let later : text_eq s.id (step_id n) ≡ false =
      ground (arith, text_eq_iff s.id (step_id n), step_id-injective (suc k) n) in
    ground (arith, find_id-IsNumbered (suc k) i n steps h.1)

index_of-IsNumbered :
    (k i n : ℕ) (steps : List Step)
    → IsNumbered k steps
    → n ≡ suc (k + i)
    → i < length steps
    → index_of (step_id n) steps ≡ some i
unfolding index_of
index_of-IsNumbered k i n [] h e lt = absurd (omega arith)
index_of-IsNumbered k zero n (s ∷ steps) h e lt =
    let first : n ≡ suc k = omega arith in
    ground (arith, text_eq_iff s.id (step_id n), ap step_id first)
index_of-IsNumbered k (suc i) n (s ∷ steps) h e lt =
    let later : text_eq s.id (step_id n) ≡ false =
      ground (arith, text_eq_iff s.id (step_id n), step_id-injective (suc k) n) in
    ground (arith, index_of-IsNumbered (suc k) i n steps h.1)

-- The step that a number or an identifier finds in a plan with the steps s1, s2, … is the one at
-- that place, and there is none where the plan has no such place.
pub find-IsNumbered :
    (table : ℕ → ℕ) (i : ℕ) (p : Plan)
    → IsNumbered 0 p.steps
    → suc i < int_limit
    → (find table (decimal (suc i)) p ≡ get_elem? p.steps i)
      × (find table (step_id (suc i)) p ≡ get_elem? p.steps i)
unfolding find
find-IsNumbered table i p h small = (
  rw (normalize_step_id-decimal table (suc i) small)
      (find_id-IsNumbered 0 i (suc i) p.steps h (omega arith)),
  rw (normalize_step_id-step_id table (suc i))
      (find_id-IsNumbered 0 i (suc i) p.steps h (omega arith)),
)

append_specs-IsNumbered :
    (specs : List StepSpec) (now seq : ℕ) → IsNumbered seq (append_specs specs now seq)
unfolding append_specs
append_specs-IsNumbered [] now seq = tt
append_specs-IsNumbered (spec ∷ specs) now seq = (refl, append_specs-IsNumbered specs now (suc seq))

length-append_specs :
    (specs : List StepSpec) (now seq : ℕ) → length (append_specs specs now seq) ≡ length specs
unfolding append_specs
length-append_specs [] now seq = refl
length-append_specs (spec ∷ specs) now seq = ap suc (length-append_specs specs now (suc seq))

IsNumbered-append :
    (k n : ℕ) (xs ys : List Step)
    → n ≡ k + length xs
    → IsNumbered k xs
    → IsNumbered n ys
    → IsNumbered k (xs ++ ys)
IsNumbered-append k n [] ys e hx hy =
    let same : n ≡ k = omega arith in subst (λ m. IsNumbered m ys) same hy
IsNumbered-append k n (x ∷ xs) ys e hx hy =
    (hx.0, IsNumbered-append (suc k) n xs ys (omega arith) hx.1 hy)

-- A plan's counter is the number of its steps, and they are s1, s2, … in order.
abbrev pub HasIds : Plan → Type 0
HasIds p = (p.step_seq ≡ length p.steps) × IsNumbered 0 p.steps

-- Steps added to a plan go on with its numbers, so no identifier comes twice.
pub append_steps-HasIds :
    (specs : List StepSpec) (now : ℕ) (p : Plan) → HasIds p → HasIds (append_steps specs now p)
unfolding append_steps
append_steps-HasIds specs now p (seq, numbered) = (
  omega (
    arith,
    length-append {0} p.steps (append_specs specs now p.step_seq),
    length-append_specs specs now p.step_seq,
  ),
  IsNumbered-append 0 p.step_seq p.steps (append_specs specs now p.step_seq) (omega arith) numbered
      (append_specs-IsNumbered specs now p.step_seq),
)
