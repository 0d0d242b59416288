-- ===== src/Enforcer/Examples.antt =====
-- Calls of the callbacks and tools on small inputs.
use multiagent.Base.{
  ℕ, ◌≤◌, ◌⊎◌, refl, Bool, true, false, none, some, List, [], ◌∷◌, Answer, ok, err,
}
use multiagent.Base.Text.{codes, text_eq}
use multiagent.Base.Assoc.{lookup}
use multiagent.Goal.Contract.{complete, Goal}
use multiagent.Goal.Store.{fresh_goal, patch_goal, new_store, create, update, get}
use multiagent.Goal.Store as Goals
use multiagent.Plan.Steps.{Step, Plan, done}
use multiagent.Plan.Store as Plans
use multiagent.Enforcer.Nudges.{Nudges, Invocation, Response, block_open, goal_scope, after_model}
use multiagent.Enforcer.Nudges.Bounded.{Callback, before, after, run_callbacks, nudges-bounded}
use multiagent.Enforcer.GoalRules.{
  GoalEnforcer, evaluate, after_goal_model, GoalToolOutput, CreateGoalInput, UpdateGoalInput,
  create_goal_tool, update_goal_tool, build_goal_patch,
}
use multiagent.Enforcer.GoalRules.Closing.{IsClosed, after_goal_model-passes}

abbrev never : Response → Bool
never rsp = false

abbrev always : Response → Bool
always rsp = true

abbrev final : Response
final = record { done = true; is_partial = false; choices = codes "done!" ∷ []; error = none }

abbrev fresh : Nudges
fresh = record { count = 0; remind_pending = false }

abbrev invocation : Invocation
invocation = record { session = some (codes "s"); invocation_id = codes "i" }

abbrev strict : GoalEnforcer
strict = record { max_nudges = 3; require_goal = true }

abbrev closed_goal : Goal
closed_goal = record (fresh_goal (codes "ship") [] [] 5 1) {
  status = complete;
  revision = 2;
  updated_at = 6;
}

abbrev closed_goals : Goals.Store
closed_goals = record { goals = (codes "sess:s", closed_goal) ∷ []; max_scopes = 1; seq = 1 }

abbrev open_goals : Goals.Store
open_goals = record {
  goals = (codes "sess:s", fresh_goal (codes "ship") [] [] 5 1) ∷ [];
  max_scopes = 1;
  seq = 1;
}

abbrev stubborn : List Callback
stubborn =
    after block_open none (some final)
    ∷ before block_open (λ n. codes "go on") (some (record { stream = true; messages = [] }))
    ∷ after block_open none (some final)
    ∷ after block_open none (some final)
    ∷ []

nudges-bounded_example :
    let (_, (held, told)) = run_callbacks never always 2 stubborn (some fresh) in
    (held ≤ 2) × (told ≤ held)
nudges-bounded_example = nudges-bounded never always 2 stubborn

after_goal_model-passes_example : IsClosed (goal_scope (some invocation)) closed_goals ⊎ (3 ≤ 0)
unfolding after_goal_model after_model evaluate get lookup goal_scope text_eq
after_goal_model-passes_example =
    after_goal_model-passes never always strict (some invocation) closed_goals final (some fresh)
      refl refl refl

abbrev closing : UpdateGoalInput
closing = record { status = codes "complete"; progress = []; blocker = [] }

abbrev created_input : CreateGoalInput
created_input = record { title = codes "ship"; description = []; acceptance_criteria = [] }

abbrev table : ℕ → ℕ
table n = n

abbrev output_of : Answer multiagent.Enforcer.GoalRules.ToolError GoalToolOutput → GoalToolOutput
output_of (ok out) = out
output_of (err x) = record { succeeded = false; goal = none; summary = []; hint = [] }

abbrev one_step : Step
one_step = record {
  id = codes "s1";
  title = codes "read";
  detail = [];
  status = done;
  note = [];
  updated_at = 5;
}

abbrev done_plan : Plan
done_plan = record {
  id = codes "p1";
  title = codes "ship";
  steps = one_step ∷ [];
  revision = 2;
  created_at = 5;
  updated_at = 6;
  step_seq = 1;
}

abbrev done_plans : Plans.Store
done_plans = record { plans = (codes "sess:s", done_plan) ∷ []; max_scopes = 1; seq = 1 }
