-- ===== src/Plan/Store/Validity.antt =====
-- plan.go: what holds of every plan in the store, and that every operation keeps it.
use multiagent.Base.{
  ℕ, zero, suc, ◌+◌, ◌≤◌, ◌<◌, ◌≡◌, ◌≢◌, ◌⊎◌, refl, subst, true, some, List, [], ◌∷◌, ◌++◌, arith,
  length, get_elem?, set, length-set, is_nil, All, inl, inr, Bool-cases, ok,
}
use multiagent.Base.Text.{Text, trim_space}
use multiagent.Base.Decimal.{decimal}
use multiagent.Base.Assoc.{lookup}
use multiagent.Scopes.{IsMap}
use multiagent.Plan.Steps.{Step, StepSpec, Plan, append_specs, append_steps, normalize_specs}
use multiagent.Plan.Steps.Ids.{IsNumbered, HasIds, append_steps-HasIds}
use multiagent.Plan.Store.{StepPatch, Store, fresh_plan, grown, patch_step, needs_note}

-- A step has a title, and a reason if it was skipped or failed.
abbrev pub StepValid : Step → Type 0
StepValid s = (s.title ≢ []) × (needs_note s.status ≡ true → s.note ≢ [])

-- A plan has a title, and steps s1, s2, … that are valid.
pub record PlanValid (p : Plan) : Type 0 where
  pub titled : p.title ≢ []
  pub inhabited : p.steps ≢ []
  pub ids : HasIds p
  pub steps_valid : All StepValid p.steps

append_specs-valid :
    (specs : List StepSpec) (now seq : ℕ)
    → All (λ (s : StepSpec). s.title ≢ []) specs
    → All StepValid (append_specs specs now seq)
unfolding append_specs
append_specs-valid [] now seq h = tt
append_specs-valid (spec ∷ specs) now seq h =
    ((h.0, λ e. cc), append_specs-valid specs now (suc seq) h.1)

pub normalize_specs-titled :
    (specs : List StepSpec) → All (λ (s : StepSpec). s.title ≢ []) (normalize_specs specs)
unfolding normalize_specs
normalize_specs-titled [] = tt
normalize_specs-titled (s ∷ specs) = elim (Bool-cases (is_nil (trim_space s.title))) [
  | inl blank ↦ rw (blank, All) (normalize_specs-titled specs)
  | inr full ↦ rw (full, All) (ground arith, normalize_specs-titled specs)
]

All-append {κ} :
    {A : Type 0} (P : A → Type κ) (xs ys : List A) → All P xs → All P ys → All P (xs ++ ys)
All-append P [] ys hx hy = hy
All-append P (x ∷ xs) ys hx hy = (hx.0, All-append P xs ys hx.1 hy)

All-set {κ} :
    {A : Type 0} (P : A → Type κ) (xs : List A) (i : ℕ) (v : A)
    → All P xs
    → P v
    → All P (set xs i v)
All-set P [] i v h pv = tt
All-set P (x ∷ xs) zero v h pv = (pv, h.1)
All-set P (x ∷ xs) (suc i) v h pv = (h.0, All-set P xs i v h.1 pv)

pub All-get_elem? {κ} :
    {A : Type 0} (P : A → Type κ) (xs : List A) (i : ℕ) (v : A)
    → All P xs
    → get_elem? xs i ≡ some v
    → P v
All-get_elem? P [] i v h e = absurd (ground arith)
All-get_elem? P (x ∷ xs) zero v h e = subst P (ground arith) h.0
All-get_elem? P (x ∷ xs) (suc i) v h e = All-get_elem? P xs i v h.1 e

grown_inhabited :
    (steps : List Step) (specs : List StepSpec) (now seq : ℕ)
    → (steps ≢ []) ⊎ (specs ≢ [])
    → steps ++ append_specs specs now seq ≢ []
unfolding append_specs
grown_inhabited [] [] now seq h e = elim h [ inl n ↦ n refl | inr n ↦ n refl ]
grown_inhabited [] (spec ∷ specs) now seq h e = cc
grown_inhabited (s ∷ steps) specs now seq h e = cc

steps-append_steps :
    (specs : List StepSpec) (now : ℕ) (p : Plan)
    → (append_steps specs now p).steps ≡ p.steps ++ append_specs specs now p.step_seq
unfolding append_steps
steps-append_steps specs now p = refl

title-append_steps :
    (specs : List StepSpec) (now : ℕ) (p : Plan) → (append_steps specs now p).title ≡ p.title
unfolding append_steps
title-append_steps specs now p = refl

-- Steps added to a plan leave it valid; a plan without steps becomes valid by them.
append_steps-valid :
    (specs : List StepSpec) (now : ℕ) (p : Plan)
    → All (λ (s : StepSpec). s.title ≢ []) specs
    → (p.steps ≢ []) ⊎ (specs ≢ [])
    → p.title ≢ []
    → HasIds p
    → All StepValid p.steps
    → PlanValid (append_steps specs now p)
append_steps-valid specs now p titles some_step titled ids valid = record {
  titled = rw title-append_steps titled;
  inhabited = rw steps-append_steps (grown_inhabited p.steps specs now p.step_seq some_step);
  ids = append_steps-HasIds specs now p ids;
  steps_valid = rw steps-append_steps (
      All-append StepValid p.steps (append_specs specs now p.step_seq) valid
        (append_specs-valid specs now p.step_seq titles));
}

pub fresh_plan-valid :
    (title : Text) (specs : List StepSpec) (now seq : ℕ)
    → title ≢ []
    → specs ≢ []
    → All (λ (s : StepSpec). s.title ≢ []) specs
    → PlanValid (fresh_plan title specs now seq)
unfolding fresh_plan
fresh_plan-valid title specs now seq titled inhabited titles =
    append_steps-valid specs now
      (record {
        id = b'p' ∷ decimal seq;
        title = title;
        steps = [];
        revision = 1;
        created_at = now;
        updated_at = now;
        step_seq = 0;
      })
      titles (inr inhabited) titled (refl, tt) tt

pub grown-valid :
    (specs : List StepSpec) (now : ℕ) (p : Plan)
    → All (λ (s : StepSpec). s.title ≢ []) specs
    → PlanValid p
    → PlanValid (grown specs now p)
unfolding grown
grown-valid specs now p titles v =
    let w : PlanValid (append_steps specs now p) =
      append_steps-valid specs now p titles (inl v.inhabited) v.titled v.ids v.steps_valid in
    record { titled = w.titled; inhabited = w.inhabited; ids = w.ids; steps_valid = w.steps_valid }

-- A patched step is valid, whatever the patch: without a title or a reason it is refused.
pub patch_step-valid :
    (patch : StepPatch) (now : ℕ) (old new : Step)
    → StepValid old
    → patch_step patch now old ≡ ok new
    → StepValid new × (new.id ≡ old.id)
unfolding patch_step
patch_step-valid patch now old new v e = (ground arith, ground arith)

IsNumbered-set :
    (k : ℕ) (steps : List Step) (i : ℕ) (old new : Step)
    → IsNumbered k steps
    → get_elem? steps i ≡ some old
    → new.id ≡ old.id
    → IsNumbered k (set steps i new)
IsNumbered-set k [] i old new h at same = tt
IsNumbered-set k (s ∷ steps) zero old new h at same = (ground arith, h.1)
IsNumbered-set k (s ∷ steps) (suc i) old new h at same =
    (h.0, IsNumbered-set (suc k) steps i old new h.1 at same)

set-ne-nil : (steps : List Step) (i : ℕ) (new : Step) → steps ≢ [] → set steps i new ≢ []
set-ne-nil [] i new h e = h refl
set-ne-nil (s ∷ steps) zero new h e = cc
set-ne-nil (s ∷ steps) (suc i) new h e = cc

abbrev pub rewritten : Plan → ℕ → ℕ → Step → Plan
rewritten p i now st = record p {
  steps = set p.steps i st;
  revision = p.revision + 1;
  updated_at = now;
}

pub rewritten-valid :
    (p : Plan) (i now : ℕ) (old new : Step)
    → PlanValid p
    → get_elem? p.steps i ≡ some old
    → StepValid new
    → new.id ≡ old.id
    → PlanValid (rewritten p i now new)
rewritten-valid p i now old new v at valid same = record {
  titled = v.titled;
  inhabited = set-ne-nil p.steps i new v.inhabited;
  ids = (
    omega (arith, length-set {0} p.steps i new),
    IsNumbered-set 0 p.steps i old new v.ids.1 at same,
  );
  steps_valid = All-set StepValid p.steps i new v.steps_valid valid;
}

-- The store's plans are a map within its bound, and each is valid.
pub record StoreValid (s : Store) : Type 0 where
  pub is_map : IsMap s.plans
  pub room : 0 < s.max_scopes
  pub bounded : length s.plans ≤ s.max_scopes
  pub plans_valid : (scope : Text) (p : Plan) → lookup scope s.plans ≡ some p → PlanValid p
