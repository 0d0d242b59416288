-- ===== src/Enforcer/PlanRules.antt =====
-- server/internal/agent/plan.go: the plan loop of an agent: its callbacks and its four tools.
pub mod Closing
use multiagent.Base.{
  ℕ, zero, suc, ◌+◌, Bool, true, false, Option, none, some, List, [], ◌∷◌, ◌++◌, map, if◌then◌else◌,
  is_nil, Answer, ok, err,
}
use multiagent.Base.Text.{Text, codes, trim_space}
use multiagent.Base.Int.{ℤ, pos, negsuc}
use multiagent.Base.Decimal.{decimal}
use multiagent.Plan.Steps.{
  StepStatus, parse_step_status, PlanError, not_found, Step, StepSpec, Plan, Counts, counts,
  count_open, is_open, next_step,
}
use multiagent.Plan.Store.{StepPatch, Store, create, get, add_steps, update_step}
use multiagent.Plan.Render.{render, render_progress}
use multiagent.Enforcer.Nudges.{
  Nudges, Invocation, Response, Request, goal_scope, Block, block_none, block_missing, block_open,
  after_model, before_model, reminder_count,
}

abbrev tool_create_plan : Text
tool_create_plan = codes "create_plan"

abbrev tool_update_step : Text
tool_update_step = codes "update_step"

-- PlanEnforcer; its store is an argument of the operations.
pub record PlanEnforcer : Type 0 where
  pub max_nudges : ℕ
  pub require_plan : Bool

-- PlanOption
pub data PlanOption : Type 0 where
  with_max_nudges : ℤ → PlanOption
  with_require_plan : Bool → PlanOption

apply_option : PlanOption → PlanEnforcer → PlanEnforcer
apply_option (with_max_nudges (pos zero)) e = e
apply_option (with_max_nudges (pos (suc n))) e = record e { max_nudges = suc n }
apply_option (with_max_nudges (negsuc n)) e = e
apply_option (with_require_plan v) e = record e { require_plan = v }

abbrev pub default_max_plan_nudges : ℕ
default_max_plan_nudges = 3

apply_options : List PlanOption → PlanEnforcer → PlanEnforcer
unfolding apply_option
apply_options [] e = e
apply_options (o ∷ os) e = apply_options os (apply_option o e)

-- NewPlanEnforcer
unfoldable pub new_plan_enforcer : List PlanOption → PlanEnforcer
unfolding apply_options
new_plan_enforcer opts =
    apply_options opts (record { max_nudges = default_max_plan_nudges; require_plan = false })

evaluated : PlanEnforcer → Answer PlanError Plan → Block × Option Plan
evaluated e (err not_found) = if e.require_plan then (block_missing, none) else (block_none, none)
evaluated e (err x) = (block_none, none)
evaluated e (ok p) = if is_open p then (block_open, some p) else (block_none, some p)

-- evaluate
unfoldable pub evaluate : PlanEnforcer → Text → Store → Block × Option Plan
unfolding evaluated
evaluate e scope s = evaluated e (get scope s)

next_message : Option Step → Text
next_message none = []
next_message (some s) =
    codes "\n下一步："
    ++ s.id
    ++ codes " "
    ++ s.title
    ++ codes " —— 现在就去做它，"
    ++ codes "做完后调用 "
    ++ tool_update_step
    ++ codes "(step_id=\""
    ++ s.id
    ++ codes "\", status=\"done\", note=\"...\") 更新进度。"

-- nudgeMessage
unfoldable pub nudge_message : PlanEnforcer → Block → Option Plan → ℕ → Text
unfolding next_message
nudge_message e block_none p attempt = []
nudge_message e block_missing p attempt =
    codes "[系统·计划执行] 你的答复已被拦截，未送达用户。"
    ++ codes "原因：本轮尚未建立执行计划。请先调用 "
    ++ tool_create_plan
    ++ codes " 把任务拆成有序步骤，再逐项执行。"
    ++ reminder_count e.max_nudges attempt
nudge_message e block_open none attempt = []
nudge_message e block_open (some p) attempt =
    codes "[系统·计划执行] 你的答复已被拦截，未送达用户。"
    ++ codes "原因：计划尚未执行完（还有 "
    ++ decimal (count_open (counts p))
    ++ codes " 个步骤未收敛），不允许给出最终答复。\n"
    ++ render p
    ++ codes "\n"
    ++ render_progress p
    ++ next_message (next_step p)
    ++ codes "\n若某步确实不必做或做不了，用 "
    ++ tool_update_step
    ++ codes "(status=\"skipped\"/\"failed\", note=\"原因\") 如实标注，不要静默跳过。"
    ++ reminder_count e.max_nudges attempt

-- beforeModel
unfoldable pub before_plan_model :
    PlanEnforcer
    → Option Invocation
    → Store
    → Option Request
    → Option Nudges
    → Option Nudges × Option Request
before_plan_model e inv s req n =
    let (block, p) = evaluate e (goal_scope inv) s in
    before_model block (nudge_message e block p) req n

-- afterModel
unfoldable pub after_plan_model :
    (Response → Bool)
    → (Response → Bool)
    → PlanEnforcer
    → Option Invocation
    → Store
    → (error : Option Text) → Option Response
    → Option Nudges
    → Option Nudges × Option Response
after_plan_model is_tool_call is_final e inv s error rsp n =
    after_model is_tool_call is_final (evaluate e (goal_scope inv) s).0 e.max_nudges error rsp n

-- The error of a tool: one of the domain, or that no plan was made yet.
pub data ToolError : Type 0 where
  domain : PlanError → ToolError
  no_plan_yet : ToolError

pub record PlanToolOutput : Type 0 where
  pub succeeded : Bool
  pub plan : Option Plan
  pub summary : Text
  pub progress : Text
  pub next : Option Step
  pub tally : Option Counts
  pub hint : Text

pub record PlanStepInput : Type 0 where
  pub title : Text
  pub detail : Text

abbrev pub to_spec : PlanStepInput → StepSpec
to_spec s = record { title = s.title; detail = s.detail }

-- toSpecs
abbrev pub to_specs : List PlanStepInput → List StepSpec
to_specs input = map to_spec input

next_hint : Option Step → Text
next_hint none = codes "继续推进下一步"
next_hint (some s) = codes "现在去做 " ++ s.id ++ codes "：" ++ s.title

-- renderPlanOutput
unfoldable pub render_plan_output : Plan → PlanToolOutput
unfolding next_hint
render_plan_output p = record {
  succeeded = true;
  plan = some p;
  summary = render p;
  progress = render_progress p;
  next = next_step p;
  tally = some (counts p);
  hint =
      if is_open p
      then codes "计划仍有未完成步骤，" ++ next_hint (next_step p) ++ codes "；此时给出最终答复会被系统拦截。"
      else codes "计划已全部收敛，现在可以向用户汇报最终结果。";
}

created : Answer PlanError Plan → Answer ToolError PlanToolOutput
created (err x) = err (domain x)
created (ok p) = ok (record (render_plan_output p) {
  hint =
      codes "计划已建立。请从第一个步骤开始逐项执行，每完成一项就调用 " ++ tool_update_step ++ codes " 更新状态；所有步骤收敛前不要给出最终答复。";
})

-- create_plan
unfoldable pub create_plan_tool :
    Option Invocation
    → Text
    → List PlanStepInput
    → ℕ
    → Store
    → Store × Answer ToolError PlanToolOutput
unfolding created
create_plan_tool inv title steps now s =
    let (s', a) = create (goal_scope inv) title (to_specs steps) now s in (s', created a)

-- get_plan
unfoldable pub get_plan_tool : Option Invocation → Store → PlanToolOutput
get_plan_tool inv s = elim (get (goal_scope inv) s) [
  | err x ↦ record {
    succeeded = false;
    plan = none;
    summary = codes "当前没有执行计划。";
    progress = [];
    next = none;
    tally = none;
    hint = codes "任务需要多步时，请先调用 " ++ tool_create_plan ++ codes " 建立计划。";
  }
  | ok p ↦ render_plan_output p
]

pub record UpdateStepInput : Type 0 where
  pub step_id : Text
  pub status : Text
  pub note : Text

abbrev patch_of : Option StepStatus → UpdateStepInput → StepPatch
patch_of status input = record {
  status = status;
  note = if is_nil input.note then none else some input.note;
  title = none;
  detail = none;
}

with_status : UpdateStepInput → Answer PlanError StepStatus → Answer PlanError StepPatch
with_status input (err x) = err x
with_status input (ok st) = ok (patch_of (some st) input)

-- buildStepPatch
unfoldable pub build_step_patch : (ℕ → ℕ) → UpdateStepInput → Answer PlanError StepPatch
unfolding with_status
build_step_patch table input =
    if is_nil (trim_space input.status)
    then ok (patch_of none input)
    else with_status input (parse_step_status table (trim_space input.status))

-- How update_step and add_steps answer.
answered : Answer PlanError Plan → Answer ToolError PlanToolOutput
answered (err not_found) = err no_plan_yet
answered (err x) = err (domain x)
answered (ok p) = ok (render_plan_output p)

update_with :
    (ℕ → ℕ)
    → Text
    → Text
    → ℕ
    → Store
    → Answer PlanError StepPatch
    → Store × Answer ToolError PlanToolOutput
unfolding answered
update_with table scope id now s (err x) = (s, err (domain x))
update_with table scope id now s (ok patch) =
    let (s', a) = update_step table scope id patch now s in (s', answered a)

-- update_step
unfoldable pub update_step_tool :
    (ℕ → ℕ)
    → Option Invocation
    → UpdateStepInput
    → ℕ
    → Store
    → Store × Answer ToolError PlanToolOutput
unfolding update_with
update_step_tool table inv input now s =
    update_with table (goal_scope inv) input.step_id now s (build_step_patch table input)

-- add_steps
unfoldable pub add_steps_tool :
    Option Invocation → List PlanStepInput → ℕ → Store → Store × Answer ToolError PlanToolOutput
unfolding answered
add_steps_tool inv steps now s =
    let (s', a) = add_steps (goal_scope inv) (to_specs steps) now s in (s', answered a)
