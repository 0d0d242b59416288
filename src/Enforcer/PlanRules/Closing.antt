-- ===== src/Enforcer/PlanRules/Closing.antt =====
-- server/internal/agent/plan.go: with a plan made, an agent ends only when every step is closed, or
-- its budget of nudges is used up.
use multiagent.Base.{◌≤◌, ◌≡◌, ◌⊎◌, Bool, true, false, Option, none, some, arith, inl, inr, All, ok}
use multiagent.Base.Text.{Text}
use multiagent.Plan.Steps.{status_open, Step, Plan, is_open}
use multiagent.Plan.Steps.Tallies.{is_open-All}
use multiagent.Plan.Store.{Store, get}
use multiagent.Enforcer.Nudges.{
  Nudges, Invocation, Response, goal_scope, block_none, nudge_count, should_consider,
}
use multiagent.Enforcer.Nudges.Passes.{after_model-passes}
use multiagent.Enforcer.PlanRules.{PlanEnforcer, evaluated, evaluate, after_plan_model}

evaluated-none :
    (e : PlanEnforcer) (p : Plan) → (evaluated e (ok p)).0 ≡ block_none → is_open p ≡ false
unfolding evaluated
evaluated-none e p b = ground arith

evaluate-none :
    (e : PlanEnforcer) (scope : Text) (s : Store) (p : Plan)
    → get scope s ≡ ok p
    → (evaluate e scope s).0 ≡ block_none
    → is_open p ≡ false
unfolding evaluate
evaluate-none e scope s p at b = evaluated-none e p (rw at at b)

module _ (is_tool_call is_final : Response → Bool) (e : PlanEnforcer)
    (inv : Option Invocation) where
  -- With a plan in the scope, a final answer reaches the user only if every step of the plan is
  -- done, skipped or failed, or the budget of nudges is used up.
  pub after_plan_model-passes :
      (s : Store) (p : Plan) (rsp : Response) (n : Option Nudges)
      → get (goal_scope inv) s ≡ ok p
      → should_consider is_tool_call is_final rsp ≡ true
      → (after_plan_model is_tool_call is_final e inv s none (some rsp) n).1 ≡ none
      → All (λ (st : Step). status_open st.status ≡ false) p.steps ⊎ (e.max_nudges ≤ nudge_count n)
  unfolding after_plan_model
  after_plan_model-passes s p rsp n at final passed =
      elim (after_model-passes is_tool_call is_final e.max_nudges (evaluate e (goal_scope inv) s).0
        rsp n final passed) [
          | inl free ↦ inl (is_open-All p (evaluate-none e (goal_scope inv) s p at free))
          | inr spent ↦ inr spent
        ]
