-- ===== src/Goal/Contract.antt =====
-- goal.go: a goal, its statuses and how it is printed.
use multiagent.Base.{
  ℕ, suc, Bool, true, false, not, List, [], ◌∷◌, ◌++◌, if◌then◌else◌, is_nil, Answer, ok, err,
}
use multiagent.Base.Text.{Text, codes, text_eq, trim_space, to_lower}
use multiagent.Base.Decimal.{decimal}

pub data Status : Type 0 where
  pending in_progress complete blocked : Status

abbrev pub status_text : Status → Text
status_text pending = codes "pending"
status_text in_progress = codes "in_progress"
status_text complete = codes "complete"
status_text blocked = codes "blocked"

-- AllStatuses
abbrev pub all_statuses : List Status
all_statuses = pending ∷ in_progress ∷ complete ∷ blocked ∷ []

pub data GoalError : Type 0 where
  not_found empty_title blocked_no_reason invalid_status : GoalError

pick_status : Text → List Status → Answer GoalError Status
pick_status v [] = err invalid_status
pick_status v (st ∷ sts) = if text_eq v (status_text st) then ok st else pick_status v sts

-- ParseStatus, over Unicode's table of lower case.
unfoldable pub parse_status : (ℕ → ℕ) → Text → Answer GoalError Status
unfolding pick_status
parse_status table s = pick_status (to_lower table (trim_space s)) all_statuses

-- Status.IsOpen
abbrev pub status_open : Status → Bool
status_open pending = true
status_open in_progress = true
status_open complete = false
status_open blocked = false

-- Status.IsTerminal
abbrev pub is_terminal : Status → Bool
is_terminal s = not (status_open s)

pub record Goal : Type 0 where
  pub id : Text
  pub title : Text
  pub description : Text
  pub acceptance_criteria : List Text
  pub status : Status
  pub progress : Text
  pub blocker : Text
  pub revision : ℕ
  pub created_at : ℕ
  pub updated_at : ℕ

-- Goal.IsOpen
abbrev pub is_open : Goal → Bool
is_open g = status_open g.status

unfoldable pub normalize_criteria : List Text → List Text
normalize_criteria [] = []
normalize_criteria (c ∷ cs) =
    let rest = normalize_criteria cs in if is_nil (trim_space c) then rest else trim_space c ∷ rest

-- A line of Render that is left out where it has nothing to say.
abbrev optional_line : Text → Text → Text
optional_line label t = if is_nil t then [] else label ++ t

render_criteria : ℕ → List Text → Text
render_criteria i [] = []
render_criteria i (c ∷ cs) =
    codes "\n  " ++ decimal (suc i) ++ codes ". " ++ c ++ render_criteria (suc i) cs

-- Render
unfoldable pub render : Goal → Text
unfolding render_criteria
render g =
    codes "目标["
    ++ g.id
    ++ codes "] "
    ++ g.title
    ++ codes "\n状态: "
    ++ status_text g.status
    ++ optional_line (codes "\n描述: ") g.description
    ++ (if is_nil g.acceptance_criteria
        then []
        else codes "\n验收标准:" ++ render_criteria 0 g.acceptance_criteria)
    ++ optional_line (codes "\n进展: ") g.progress
    ++ optional_line (codes "\n阻塞: ") g.blocker
