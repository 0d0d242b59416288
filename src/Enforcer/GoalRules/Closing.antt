-- ===== src/Enforcer/GoalRules/Closing.antt =====
-- server/internal/agent/goal.go: an agent ends only with its goal closed, or its budget of nudges
-- used up.
use multiagent.Base.{
  ℕ, ◌≤◌, ◌<◌, ◌≡◌, ◌≢◌, ◌⊎◌, refl, Bool, true, false, Option, none, some, arith, inl, inr, Answer,
  ok, err,
}
use multiagent.Base.Text.{Text, text_eq_iff}
use multiagent.Goal.Contract.{GoalError, not_found, Goal, is_open}
use multiagent.Goal.Store.{Patch, Store, create, get, update, scope_open}
use multiagent.Goal.Store.Validity.{StoreValid}
use multiagent.Goal.Store.Replies.{scope_open-create, AllBefore, update-ok}
use multiagent.Enforcer.Nudges.{
  Nudges, Invocation, Response, goal_scope, block_none, block_open, nudge_count, should_consider,
  blocked_response,
}
use multiagent.Enforcer.Nudges.Passes.{after_model-passes, after_model-held, after_model-free}
use multiagent.Enforcer.GoalRules.{
  GoalEnforcer, evaluated, evaluate, after_goal_model, GoalToolOutput, CreateGoalInput,
  UpdateGoalInput, create_goal_tool, update_goal_tool, update_with, updated, created,
  build_goal_patch,
}

-- The scope has a goal, and it is closed.
abbrev pub IsClosed : Text → Store → Type 0
IsClosed scope s = (g : Goal) × (get scope s ≡ ok g) × (is_open g ≡ false)

evaluated-none :
    (e : GoalEnforcer) (a : Answer GoalError Goal)
    → e.require_goal ≡ true
    → (evaluated e a).0 ≡ block_none
    → ((g : Goal) × (a ≡ ok g) × (is_open g ≡ false))
      ⊎ ((x : GoalError) × (a ≡ err x) × (x ≢ not_found))
unfolding evaluated
evaluated-none e (ok g) r b = inl (g, refl, ground arith)
evaluated-none e (err not_found) r b = absurd (ground arith)
evaluated-none e (err GoalError.empty_title) r b = inr (GoalError.empty_title, refl, ground arith)
evaluated-none e (err GoalError.blocked_no_reason) r b =
    inr (GoalError.blocked_no_reason, refl, ground arith)
evaluated-none e (err GoalError.invalid_status) r b =
    inr (GoalError.invalid_status, refl, ground arith)

get-err : (scope : Text) (s : Store) (x : GoalError) → get scope s ≡ err x → x ≡ not_found
unfolding get
get-err scope s x e = ground arith

evaluate-none :
    (e : GoalEnforcer) (scope : Text) (s : Store)
    → e.require_goal ≡ true
    → (evaluate e scope s).0 ≡ block_none
    → IsClosed scope s
unfolding evaluate
evaluate-none e scope s r b = elim (evaluated-none e (get scope s) r b) [
  | inl closed ↦ closed
  | inr (x, is, other) ↦ absurd (other (get-err scope s x is))
]

module _ (is_tool_call is_final : Response → Bool) (e : GoalEnforcer)
    (inv : Option Invocation) where
  -- Where goals are required, a final answer reaches the user only if the scope's goal is complete
  -- or blocked, or the budget of nudges is used up.
  pub after_goal_model-passes :
      (s : Store) (rsp : Response) (n : Option Nudges)
      → e.require_goal ≡ true
      → should_consider is_tool_call is_final rsp ≡ true
      → (after_goal_model is_tool_call is_final e inv s none (some rsp) n).1 ≡ none
      → IsClosed (goal_scope inv) s ⊎ (e.max_nudges ≤ nudge_count n)
  unfolding after_goal_model
  after_goal_model-passes s rsp n r final passed =
      elim (after_model-passes is_tool_call is_final e.max_nudges (evaluate e (goal_scope inv) s).0
        rsp n final passed) [
          | inl free ↦ inl (evaluate-none e (goal_scope inv) s r free)
          | inr spent ↦ inr spent
        ]

  evaluate-closed :
      (scope : Text) (s : Store) (g : Goal)
      → get scope s ≡ ok g
      → is_open g ≡ false
      → (evaluate e scope s).0 ≡ block_none
  unfolding evaluate
  evaluate-closed scope s g at closed = rw (at, evaluated) (ground arith)

  updated-goal :
      (a : Answer GoalError Goal) (out : GoalToolOutput) (g : Goal)
      → updated a ≡ ok out
      → out.goal ≡ some g
      → a ≡ ok g
  unfolding updated
  updated-goal (ok g') out g made is = ground arith
  updated-goal (err not_found) out g made is = absurd (ground arith)
  updated-goal (err GoalError.empty_title) out g made is = absurd (ground arith)
  updated-goal (err GoalError.blocked_no_reason) out g made is = absurd (ground arith)
  updated-goal (err GoalError.invalid_status) out g made is = absurd (ground arith)

  get-update :
      (scope : Text) (p : Patch) (now : ℕ) (s : Store) (g : Goal)
      → (update scope p now s).1 ≡ ok g
      → get scope (update scope p now s).0 ≡ ok g
  unfolding get
  get-update scope p now s g made =
      let (_, _, _, at) = update-ok scope p now s g scope made in
      ground (arith, text_eq_iff scope scope)

  update_with-get :
      (scope : Text) (now : ℕ) (s : Store) (a : Answer GoalError Patch) (out : GoalToolOutput)
      (g : Goal)
      → (update_with scope now s a).1 ≡ ok out
      → out.goal ≡ some g
      → get scope (update_with scope now s a).0 ≡ ok g
  unfolding update_with
  update_with-get scope now s (err x) out g made is = absurd (ground arith)
  update_with-get scope now s (ok p) out g made is =
      get-update scope p now s g (updated-goal (update scope p now s).1 out g made is)

  -- Once update_goal has answered with a goal that is closed, every response of the model passes
  -- as it is.
  pub update_goal-releases :
      (table : ℕ → ℕ) (input : UpdateGoalInput) (now : ℕ) (s : Store) (out : GoalToolOutput)
      (g : Goal) (error : Option Text) (rsp : Option Response) (n : Option Nudges)
      → (update_goal_tool table inv input now s).1 ≡ ok out
      → out.goal ≡ some g
      → is_open g ≡ false
      → after_goal_model is_tool_call is_final e inv
          (update_goal_tool table inv input now s).0
          error
          rsp
          n
        ≡ (n, none)
  unfolding after_goal_model update_goal_tool
  update_goal-releases table input now s out g error rsp n made is closed =
      rw
        (evaluate-closed (goal_scope inv) (update_goal_tool table inv input now s).0 g
          (update_with-get (goal_scope inv) now s (build_goal_patch table input) out g made is)
          closed)
        (after_model-free is_tool_call is_final e.max_nudges error rsp n)

  created-goal :
      (a : Answer GoalError Goal) (out : GoalToolOutput)
      → created a ≡ ok out
      → (g : Goal) × (a ≡ ok g)
  unfolding created
  created-goal (ok g) out made = (g, refl)
  created-goal (err x) out made = absurd (ground arith)

  open-evaluate :
      (scope : Text) (s : Store) (g : Goal)
      → get scope s ≡ ok g
      → is_open g ≡ true
      → (evaluate e scope s).0 ≡ block_open
  unfolding evaluate
  open-evaluate scope s g at still = rw (at, evaluated) (ground arith)

  scope_open-is_open :
      (scope : Text) (s : Store) (g : Goal)
      → get scope s ≡ ok g
      → scope_open scope s ≡ true
      → is_open g ≡ true
  unfolding get scope_open
  scope_open-is_open scope s g at still = ground arith

  -- Once create_goal has set a goal, at a time past those of all the goals in the store, a final
  -- answer is held back as long as there is budget left.
  pub create_goal-holds :
      (input : CreateGoalInput) (now : ℕ) (s : Store) (out : GoalToolOutput) (rsp : Response)
      (n : Nudges)
      → StoreValid s
      → AllBefore now s
      → (create_goal_tool inv input now s).1 ≡ ok out
      → rsp.error ≡ none
      → should_consider is_tool_call is_final rsp ≡ true
      → n.count < e.max_nudges
      → (after_goal_model is_tool_call is_final e inv
          (create_goal_tool inv input now s).0
          none
          (some rsp)
          (some n)).1
        ≡ some (blocked_response rsp)
  unfolding after_goal_model create_goal_tool
  create_goal-holds input now s out rsp n v before made fine final left_over =
      let scope = goal_scope inv in
      let s' : Store =
        (create scope input.title input.description input.acceptance_criteria now s).0 in
      let (g, ok_g) =
        created-goal (create scope input.title input.description input.acceptance_criteria now s).1
          out made in
      let (at, still) =
        scope_open-create scope input.title input.description input.acceptance_criteria now s g v
          before ok_g in
      rw (open-evaluate scope s' g at (scope_open-is_open scope s' g at still))
        (after_model-held is_tool_call is_final e.max_nudges rsp n fine final left_over)
