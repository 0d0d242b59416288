-- ===== src/Plan/Steps/Tallies.antt =====
-- plan.go: the statuses read and printed, and the numbers that decide whether a plan is finished.
use multiagent.Base.{
  All, ◌≡◌, ◌↔◌, refl, Bool, true, false, ◌||◌, Option, none, some, List, [], ◌∷◌, arith, length,
  ltb,
}
use multiagent.Plan.Steps.{
  pending, in_progress, status_open, Step, Plan, Counts, count_open, tally, count_steps, no_counts,
  counts, any_open, is_open, first_with, next_step,
}

open-count_steps :
    (c : Counts) (steps : List Step)
    → ltb 0 (count_open (count_steps c steps)) ≡ (ltb 0 (count_open c) || any_open steps)
unfolding count_steps any_open count_open
open-count_steps c [] = ground arith
open-count_steps c (s ∷ steps) = ground (arith, open-count_steps (tally s.status c) steps)

abbrev is_there : Option Step → Bool
is_there none = false
is_there (some s) = true

any_open-first_with :
    (steps : List Step)
    → any_open steps
      ≡ (is_there (first_with in_progress steps) || is_there (first_with pending steps))
unfolding any_open first_with
any_open-first_with [] = refl
any_open-first_with (s ∷ steps) = ground (arith, any_open-first_with steps)

-- The three ways in which the loop asks whether a plan is finished agree: IsOpen, the number of
-- open steps, and whether Next has a step.
pub is_open-agree :
    (p : Plan)
    → (is_open p ≡ ltb 0 (count_open (counts p))) × ((is_open p ≡ false) ↔ (next_step p ≡ none))
unfolding is_open counts next_step count_open
is_open-agree p = (
  ground (arith, open-count_steps (no_counts (length p.steps)) p.steps),
  (
    λ e. ground (arith, any_open-first_with p.steps),
    λ e. ground (arith, any_open-first_with p.steps),
  ),
)

any_open-All :
    (steps : List Step)
    → any_open steps ≡ false
    → All (λ (s : Step). status_open s.status ≡ false) steps
unfolding any_open
any_open-All [] e = tt
any_open-All (s ∷ steps) e = (ground arith, any_open-All steps (ground arith))

pub is_open-All :
    (p : Plan) → is_open p ≡ false → All (λ (s : Step). status_open s.status ≡ false) p.steps
unfolding is_open
is_open-All p e = any_open-All p.steps e
