-- ===== src/Plan/Steps.antt =====
-- plan.go: the steps of a plan, their statuses and identifiers.
pub mod Tallies
pub mod Ids
use multiagent.Base.{
  ℕ, zero, suc, ◌+◌, Bool, true, false, ◌||◌, not, Option, none, some, List, [], ◌∷◌, ◌++◌, length,
  if◌then◌else◌, is_nil, Answer, ok, err,
}
use multiagent.Base.Text.{Text, codes, text_eq, trim_space, to_lower}
use multiagent.Base.Decimal.{decimal, atoi}

pub data StepStatus : Type 0 where
  pending in_progress done skipped failed : StepStatus

abbrev pub status_text : StepStatus → Text
status_text pending = codes "pending"
status_text in_progress = codes "in_progress"
status_text done = codes "done"
status_text skipped = codes "skipped"
status_text failed = codes "failed"

-- AllStepStatuses
abbrev pub all_step_statuses : List StepStatus
all_step_statuses = pending ∷ in_progress ∷ done ∷ skipped ∷ failed ∷ []

pub data PlanError : Type 0 where
  not_found empty_title no_steps step_not_found terminal_no_note invalid_status : PlanError

pick_status : Text → List StepStatus → Answer PlanError StepStatus
pick_status v [] = err invalid_status
pick_status v (st ∷ sts) = if text_eq v (status_text st) then ok st else pick_status v sts

-- ParseStepStatus, over Unicode's table of lower case.
unfoldable pub parse_step_status : (ℕ → ℕ) → Text → Answer PlanError StepStatus
unfolding pick_status
parse_step_status table s = pick_status (to_lower table (trim_space s)) all_step_statuses

-- StepStatus.IsOpen
abbrev pub status_open : StepStatus → Bool
status_open pending = true
status_open in_progress = true
status_open _ = false

-- StepStatus.IsTerminal
abbrev pub is_terminal : StepStatus → Bool
is_terminal s = not (status_open s)

pub record Step : Type 0 where
  pub id : Text
  pub title : Text
  pub detail : Text
  pub status : StepStatus
  pub note : Text
  pub updated_at : ℕ

pub record StepSpec : Type 0 where
  pub title : Text
  pub detail : Text

pub record Plan : Type 0 where
  pub id : Text
  pub title : Text
  pub steps : List Step
  pub revision : ℕ
  pub created_at : ℕ
  pub updated_at : ℕ
  pub step_seq : ℕ

pub record Counts : Type 0 where
  pub total : ℕ
  pub done : ℕ
  pub skipped : ℕ
  pub failed : ℕ
  pub in_progress : ℕ
  pub pending : ℕ

-- Counts.Open
unfoldable pub count_open : Counts → ℕ
count_open c = c.pending + c.in_progress

abbrev tally : StepStatus → Counts → Counts
tally StepStatus.done c = record c { done = c.done + 1 }
tally StepStatus.skipped c = record c { skipped = c.skipped + 1 }
tally StepStatus.failed c = record c { failed = c.failed + 1 }
tally StepStatus.in_progress c = record c { in_progress = c.in_progress + 1 }
tally StepStatus.pending c = record c { pending = c.pending + 1 }

-- The loop of Counts.
count_steps : Counts → List Step → Counts
count_steps c [] = c
count_steps c (s ∷ steps) = count_steps (tally s.status c) steps

-- The zero Counts, with its total.
abbrev no_counts : ℕ → Counts
no_counts n = record { total = n; done = 0; skipped = 0; failed = 0; in_progress = 0; pending = 0 }

-- The method Counts.
unfoldable pub counts : Plan → Counts
unfolding count_steps
counts p = count_steps (no_counts (length p.steps)) p.steps

any_open : List Step → Bool
any_open [] = false
any_open (s ∷ steps) = status_open s.status || any_open steps

-- The method IsOpen of a plan.
unfoldable pub is_open : Plan → Bool
unfolding any_open
is_open p = any_open p.steps

abbrev status_eq : StepStatus → StepStatus → Bool
status_eq pending pending = true
status_eq in_progress in_progress = true
status_eq done done = true
status_eq skipped skipped = true
status_eq failed failed = true
status_eq _ _ = false

unfoldable pub first_with : StepStatus → List Step → Option Step
first_with st [] = none
first_with st (s ∷ steps) = if status_eq s.status st then some s else first_with st steps

-- The method Next.
unfoldable pub next_step : Plan → Option Step
unfolding first_with
next_step p = elim (first_with in_progress p.steps) [
  | some s ↦ some s
  | none ↦ first_with pending p.steps
]

abbrev prefixed : Text → Text
prefixed v = if is_nil v then [] else elim (atoi v) [ some n ↦ b's' ∷ v | none ↦ v ]

-- NormalizeStepID
unfoldable pub normalize_step_id : (ℕ → ℕ) → Text → Text
normalize_step_id table id = prefixed (to_lower table (trim_space id))

-- The place of the first step with an id.
unfoldable pub index_of : Text → List Step → Option ℕ
index_of want [] = none
index_of want (s ∷ steps) =
    let rest = index_of want steps in
    if text_eq s.id want then some 0 else elim rest [ none ↦ none | some i ↦ some (suc i) ]

find_id : Text → List Step → Option Step
find_id want [] = none
find_id want (s ∷ steps) = if text_eq s.id want then some s else find_id want steps

-- The method Find.
unfoldable pub find : (ℕ → ℕ) → Text → Plan → Option Step
unfolding find_id
find table id p =
    let want = normalize_step_id table id in if is_nil want then none else find_id want p.steps

-- appendSteps
unfoldable pub append_specs : List StepSpec → ℕ → ℕ → List Step
append_specs [] now seq = []
append_specs (spec ∷ specs) now seq =
    record {
      id = b's' ∷ decimal (suc seq);
      title = spec.title;
      detail = spec.detail;
      status = pending;
      note = [];
      updated_at = now;
    }
    ∷ append_specs specs now (suc seq)

unfoldable pub append_steps : List StepSpec → ℕ → Plan → Plan
unfolding append_specs
append_steps specs now p = record p {
  steps = p.steps ++ append_specs specs now p.step_seq;
  step_seq = p.step_seq + length specs;
}

-- normalizeSpecs
unfoldable pub normalize_specs : List StepSpec → List StepSpec
normalize_specs [] = []
normalize_specs (s ∷ specs) =
    let rest = normalize_specs specs in
    let title = trim_space s.title in
    if is_nil title then rest else record { title = title; detail = trim_space s.detail } ∷ rest
