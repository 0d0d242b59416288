-- ===== src/Enforcer/GoalRules.antt =====
-- server/internal/agent/goal.go: the goal contract of an agent: its callbacks and its three tools.
pub mod Closing
use multiagent.Base.{
  ℕ, zero, suc, ◌+◌, Bool, true, false, Option, none, some, List, [], ◌∷◌, ◌++◌, if◌then◌else◌,
  is_nil, Answer, ok, err,
}
use multiagent.Base.Text.{Text, codes, trim_space}
use multiagent.Base.Int.{ℤ, pos, negsuc}
use multiagent.Goal.Contract.{
  Status, status_text, parse_status, GoalError, not_found, Goal, is_open, render,
}
use multiagent.Goal.Store.{Patch, Store, create, get, update}
use multiagent.Enforcer.Nudges.{
  Nudges, Invocation, Response, Request, goal_scope, Block, block_none, block_missing, block_open,
  after_model, before_model, reminder_count,
}

abbrev tool_create_goal : Text
tool_create_goal = codes "create_goal"

abbrev tool_update_goal : Text
tool_update_goal = codes "update_goal"

-- GoalEnforcer; its store is an argument of the operations.
pub record GoalEnforcer : Type 0 where
  pub max_nudges : ℕ
  pub require_goal : Bool

-- GoalOption
pub data GoalOption : Type 0 where
  with_max_nudges : ℤ → GoalOption
  with_require_goal : Bool → GoalOption

apply_option : GoalOption → GoalEnforcer → GoalEnforcer
apply_option (with_max_nudges (pos zero)) e = e
apply_option (with_max_nudges (pos (suc n))) e = record e { max_nudges = suc n }
apply_option (with_max_nudges (negsuc n)) e = e
apply_option (with_require_goal v) e = record e { require_goal = v }

abbrev pub default_max_goal_nudges : ℕ
default_max_goal_nudges = 3

apply_options : List GoalOption → GoalEnforcer → GoalEnforcer
unfolding apply_option
apply_options [] e = e
apply_options (o ∷ os) e = apply_options os (apply_option o e)

-- NewGoalEnforcer
unfoldable pub new_goal_enforcer : List GoalOption → GoalEnforcer
unfolding apply_options
new_goal_enforcer opts =
    apply_options opts (record { max_nudges = default_max_goal_nudges; require_goal = true })

evaluated : GoalEnforcer → Answer GoalError Goal → Block × Option Goal
evaluated e (err not_found) = if e.require_goal then (block_missing, none) else (block_none, none)
evaluated e (err x) = (block_none, none)
evaluated e (ok g) = if is_open g then (block_open, some g) else (block_none, some g)

-- evaluate
unfoldable pub evaluate : GoalEnforcer → Text → Store → Block × Option Goal
unfolding evaluated
evaluate e scope s = evaluated e (get scope s)

-- nudgeMessage
unfoldable pub nudge_message : GoalEnforcer → Block → Option Goal → ℕ → Text
nudge_message e block_none g attempt = []
nudge_message e block_missing g attempt =
    codes "[系统·目标契约] 你的答复已被拦截，未送达用户。"
    ++ codes "原因：本轮尚未建立目标契约。请先调用 "
    ++ tool_create_goal
    ++ codes " 写清楚目标与验收标准，再继续干活。"
    ++ reminder_count e.max_nudges attempt
nudge_message e block_open none attempt = []
nudge_message e block_open (some g) attempt =
    codes "[系统·目标契约] 你的答复已被拦截，未送达用户。"
    ++ codes "原因：目标尚未收敛（当前状态 "
    ++ status_text g.status
    ++ codes "），不允许给出最终答复。\n"
    ++ render g
    ++ codes "\n请继续推进：还有工作就调用工具去做；"
    ++ codes "确认全部验收标准已满足再 "
    ++ tool_update_goal
    ++ codes "(status=\"complete\")；"
    ++ codes "确实被客观因素卡住则 "
    ++ tool_update_goal
    ++ codes "(status=\"blocked\", blocker=\"具体原因\")。"
    ++ reminder_count e.max_nudges attempt

-- beforeModel
unfoldable pub before_goal_model :
    GoalEnforcer
    → Option Invocation
    → Store
    → Option Request
    → Option Nudges
    → Option Nudges × Option Request
before_goal_model e inv s req n =
    let (block, g) = evaluate e (goal_scope inv) s in
    before_model block (nudge_message e block g) req n

-- afterModel
unfoldable pub after_goal_model :
    (Response → Bool)
    → (Response → Bool)
    → GoalEnforcer
    → Option Invocation
    → Store
    → (error : Option Text) → Option Response
    → Option Nudges
    → Option Nudges × Option Response
after_goal_model is_tool_call is_final e inv s error rsp n =
    after_model is_tool_call is_final (evaluate e (goal_scope inv) s).0 e.max_nudges error rsp n

-- The error of a tool: one of the domain, or that no goal was set yet.
pub data ToolError : Type 0 where
  domain : GoalError → ToolError
  no_goal_yet : ToolError

pub record GoalToolOutput : Type 0 where
  pub succeeded : Bool
  pub goal : Option Goal
  pub summary : Text
  pub hint : Text

pub record CreateGoalInput : Type 0 where
  pub title : Text
  pub description : Text
  pub acceptance_criteria : List Text

pub record UpdateGoalInput : Type 0 where
  pub status : Text
  pub progress : Text
  pub blocker : Text

created : Answer GoalError Goal → Answer ToolError GoalToolOutput
created (err x) = err (domain x)
created (ok g) = ok (record {
  succeeded = true;
  goal = some g;
  summary = render g;
  hint =
      codes "目标已建立，状态 in_progress。现在开始干活；"
      ++ codes "完成后必须调用 "
      ++ tool_update_goal
      ++ codes " 把状态改为 complete 或 blocked，否则无法结束本轮。";
})

-- create_goal
unfoldable pub create_goal_tool :
    Option Invocation → CreateGoalInput → ℕ → Store → Store × Answer ToolError GoalToolOutput
unfolding created
create_goal_tool inv input now s =
    let (s', a) =
      create (goal_scope inv) input.title input.description input.acceptance_criteria now s in
    (s', created a)

-- get_goal
unfoldable pub get_goal_tool : Option Invocation → Store → GoalToolOutput
get_goal_tool inv s = elim (get (goal_scope inv) s) [
  | err x ↦ record {
    succeeded = false;
    goal = none;
    summary = codes "当前没有目标契约。";
    hint = codes "请先调用 " ++ tool_create_goal ++ codes " 建立目标。";
  }
  | ok g ↦ record { succeeded = true; goal = some g; summary = render g; hint = [] }
]

abbrev unless_empty : Text → Option Text
unless_empty t = if is_nil t then none else some t

abbrev patch_of : Option Status → UpdateGoalInput → Patch
patch_of status input = record {
  status = status;
  progress = unless_empty input.progress;
  blocker = unless_empty input.blocker;
  title = none;
  description = none;
  acceptance_criteria = none;
}

with_status : UpdateGoalInput → Answer GoalError Status → Answer GoalError Patch
with_status input (err x) = err x
with_status input (ok st) = ok (patch_of (some st) input)

-- buildGoalPatch
unfoldable pub build_goal_patch : (ℕ → ℕ) → UpdateGoalInput → Answer GoalError Patch
unfolding with_status
build_goal_patch table input =
    if is_nil (trim_space input.status)
    then ok (patch_of none input)
    else with_status input (parse_status table (trim_space input.status))

updated : Answer GoalError Goal → Answer ToolError GoalToolOutput
updated (err not_found) = err no_goal_yet
updated (err x) = err (domain x)
updated (ok g) = ok (record {
  succeeded = true;
  goal = some g;
  summary = render g;
  hint =
      if is_open g
      then codes "目标仍未收敛，请继续推进；此时给出最终答复会被系统拦截。"
      else codes "目标已收敛（" ++ status_text g.status ++ codes "），现在可以向用户给出最终答复。";
})

update_with : Text → ℕ → Store → Answer GoalError Patch → Store × Answer ToolError GoalToolOutput
unfolding updated
update_with scope now s (err x) = (s, err (domain x))
update_with scope now s (ok p) = let (s', a) = update scope p now s in (s', updated a)

-- update_goal
unfoldable pub update_goal_tool :
    (ℕ → ℕ)
    → Option Invocation
    → UpdateGoalInput
    → ℕ
    → Store
    → Store × Answer ToolError GoalToolOutput
unfolding update_with
update_goal_tool table inv input now s =
    update_with (goal_scope inv) now s (build_goal_patch table input)
