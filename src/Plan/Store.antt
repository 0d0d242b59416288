-- ===== src/Plan/Store.antt =====
-- plan.go: the store of plans. `now` is the store's clock; a returned plan is a copy.
pub mod Validity
pub mod Histories
pub mod Replies
pub mod Invariant
use multiagent.Base.{
  ℕ, zero, suc, ◌+◌, Bool, true, false, ◌||◌, ◌&&◌, Option, none, some, List, [], ◌∷◌, length, set,
  get_elem?, if◌then◌else◌, is_nil, Answer, ok, err,
}
use multiagent.Base.Text.{Text, codes, trim_space}
use multiagent.Base.Int.{ℤ, pos, negsuc}
use multiagent.Base.Decimal.{decimal}
use multiagent.Base.Assoc.{Assoc, lookup, put, remove}
use multiagent.Scopes.{evict}
use multiagent.Plan.Steps.{
  StepStatus, skipped, failed, PlanError, not_found, empty_title, no_steps, step_not_found,
  terminal_no_note, Step, StepSpec, Plan, is_open, normalize_step_id, index_of, append_steps,
  normalize_specs,
}

pub record StepPatch : Type 0 where
  pub status : Option StepStatus
  pub note : Option Text
  pub title : Option Text
  pub detail : Option Text

pub record Store : Type 0 where
  pub plans : Assoc Plan
  pub max_scopes : ℕ
  pub seq : ℕ

abbrev pub default_max_scopes : ℕ
default_max_scopes = 512

abbrev scopes_of : ℤ → ℕ
scopes_of (pos zero) = default_max_scopes
scopes_of (pos (suc n)) = suc n
scopes_of (negsuc n) = default_max_scopes

-- NewStore
unfoldable pub new_store : ℤ → Store
new_store max_scopes = record { plans = []; max_scopes = scopes_of max_scopes; seq = 0 }

-- The plan that Create makes.
unfoldable pub fresh_plan : Text → List StepSpec → ℕ → ℕ → Plan
fresh_plan title specs now seq = append_steps specs now (record {
  id = b'p' ∷ decimal seq;
  title = title;
  steps = [];
  revision = 1;
  created_at = now;
  updated_at = now;
  step_seq = 0;
})

-- Create, past its checks.
insert_plan : Text → Text → List StepSpec → ℕ → Store → Store × Answer PlanError Plan
insert_plan scope title specs now s =
    let p = fresh_plan title specs now (s.seq + 1) in
    (
      record s {
        plans = evict (λ (q : Plan). q.updated_at) s.max_scopes (put scope p s.plans);
        seq = s.seq + 1;
      },
      ok p,
    )

unfoldable pub create : Text → Text → List StepSpec → ℕ → Store → Store × Answer PlanError Plan
unfolding insert_plan
create scope title steps now s =
    if is_nil (trim_space title)
    then (s, err empty_title)
    else if is_nil (normalize_specs steps)
    then (s, err no_steps)
    else insert_plan scope (trim_space title) (normalize_specs steps) now s

-- Get
unfoldable pub get : Text → Store → Answer PlanError Plan
get scope s = elim (lookup scope s.plans) [ none ↦ err not_found | some p ↦ ok p ]

-- Has
unfoldable pub has : Text → Store → Bool
has scope s = elim (lookup scope s.plans) [ none ↦ false | some p ↦ true ]

-- Store.IsOpen
unfoldable pub scope_open : Text → Store → Bool
scope_open scope s = elim (lookup scope s.plans) [ none ↦ false | some p ↦ is_open p ]

-- AddSteps, on a plan that is there.
unfoldable pub grown : List StepSpec → ℕ → Plan → Plan
grown specs now p = record (append_steps specs now p) {
  revision = p.revision + 1;
  updated_at = now;
}

unfoldable pub add_steps : Text → List StepSpec → ℕ → Store → Store × Answer PlanError Plan
unfolding grown
add_steps scope steps now s =
    if is_nil (normalize_specs steps) then (s, err no_steps) else elim (lookup scope s.plans) [
      | none ↦ (s, err not_found)
      | some p ↦
          let next = grown (normalize_specs steps) now p in
          (record s { plans = put scope next s.plans }, ok next)
    ]

abbrev patched : Option Text → Text → Text
patched none old = old
patched (some t) old = trim_space t

abbrev patched_status : Option StepStatus → StepStatus → StepStatus
patched_status none old = old
patched_status (some st) old = st

abbrev is_blank : Option Text → Bool
is_blank none = false
is_blank (some t) = is_nil (trim_space t)

abbrev pub needs_note : StepStatus → Bool
needs_note skipped = true
needs_note failed = true
needs_note _ = false

-- The patch of UpdateStep on one step, with its two checks.
unfoldable pub patch_step : StepPatch → ℕ → Step → Answer PlanError Step
patch_step patch now st =
    let next : Step = record st {
      title = patched patch.title st.title;
      detail = patched patch.detail st.detail;
      note = patched patch.note st.note;
      status = patched_status patch.status st.status;
      updated_at = now;
    } in
    if is_blank patch.title
    then err empty_title
    else if needs_note next.status && is_nil next.note
    then err terminal_no_note
    else ok next

rewrite_step : Text → Plan → ℕ → ℕ → Store → Answer PlanError Step → Store × Answer PlanError Plan
rewrite_step scope p i now s (err e) = (s, err e)
rewrite_step scope p i now s (ok st) =
    let next : Plan = record p {
      steps = set p.steps i st;
      revision = p.revision + 1;
      updated_at = now;
    } in
    (record s { plans = put scope next s.plans }, ok next)

patch_at : Text → StepPatch → ℕ → Plan → Store → Option ℕ → Store × Answer PlanError Plan
unfolding rewrite_step
patch_at scope patch now p s none = (s, err step_not_found)
patch_at scope patch now p s (some i) = elim (get_elem? p.steps i) [
  | none ↦ (s, err step_not_found)
  | some st ↦ rewrite_step scope p i now s (patch_step patch now st)
]

unfoldable pub update_step :
    (ℕ → ℕ) → Text → Text → StepPatch → ℕ → Store → Store × Answer PlanError Plan
unfolding patch_at
update_step table scope step_id patch now s =
    let want = normalize_step_id table step_id in
    elim (lookup scope s.plans) [
      | none ↦ (s, err not_found)
      | some p ↦
          if is_nil want
          then (s, err step_not_found)
          else patch_at scope patch now p s (index_of want p.steps)
    ]

-- Delete
unfoldable pub delete : Text → Store → Store
delete scope s = record s { plans = remove scope s.plans }

-- Len
unfoldable pub store_length : Store → ℕ
store_length s = length s.plans
