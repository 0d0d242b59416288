-- ===== src/Repo/Budget.antt =====
-- server/internal/repo/budget.go: the budget policies and their evaluation. The switch
-- BUDGET_ENABLED and the start of the day are arguments; a query's failure is not modelled.
pub mod Policies
pub mod Tokens
pub mod Isolation
use multiagent.Base.{
  ℕ, zero, suc, ◌+◌, Bool, true, false, ◌&&◌, ◌||◌, not, Option, none, some, List, [], ◌∷◌, ◌++◌,
  leb, ◌==◌, if◌then◌else◌, is_nil,
}
use multiagent.Base.Text.{Text, text_eq}
use multiagent.Base.Decimal.{decimal}
use multiagent.Repo.Usage.{UsageRecord, UserRow, UsageFilter, no_filter, sum_usage_records}

pub data BudgetScope : Type 0 where
  user session workspace tenant automation : BudgetScope

abbrev pub scope_eq : BudgetScope → BudgetScope → Bool
scope_eq user user = true
scope_eq session session = true
scope_eq workspace workspace = true
scope_eq tenant tenant = true
scope_eq automation automation = true
scope_eq _ _ = false

pub data BudgetWindow : Type 0 where
  daily total : BudgetWindow

pub record BudgetPolicy : Type 0 where
  pub scope : BudgetScope
  pub scope_key : Text
  pub max_tokens : ℕ
  pub window : BudgetWindow

pub record Database : Type 0 where
  pub policies : List BudgetPolicy
  pub users : List UserRow
  pub usage : List UsageRecord

abbrev has_key : BudgetScope → Text → BudgetPolicy → Bool
has_key scope key p = scope_eq p.scope scope && text_eq p.scope_key key

-- GetBudgetPolicy
unfoldable pub get_budget_policy : BudgetScope → Text → List BudgetPolicy → Option BudgetPolicy
get_budget_policy scope key [] = none
get_budget_policy scope key (p ∷ ps) =
    if has_key scope key p then some p else get_budget_policy scope key ps

-- GetEffectiveUserBudgetPolicy
unfoldable pub effective_user_policy : ℕ → List BudgetPolicy → Option BudgetPolicy
effective_user_policy uid ps = elim (get_budget_policy user (decimal uid) ps) [
  | some p ↦ some p
  | none ↦ get_budget_policy user [] ps
]

-- UpsertBudgetPolicy
unfoldable pub upsert_budget_policy : BudgetPolicy → List BudgetPolicy → List BudgetPolicy
upsert_budget_policy p [] = p ∷ []
upsert_budget_policy p (q ∷ ps) =
    if has_key p.scope p.scope_key q
    then record q { max_tokens = p.max_tokens; window = p.window } ∷ ps
    else q ∷ upsert_budget_policy p ps

-- The scope and the maximum that it reports are those of the policy.
pub record BudgetEvaluation : Type 0 where
  pub blocked : Bool
  pub policy : Option BudgetPolicy
  pub used : ℕ

abbrev pub not_blocked : BudgetEvaluation
not_blocked = record { blocked = false; policy = none; used = 0 }

-- windowStart; 0 is no start.
abbrev pub window_start : ℕ → BudgetWindow → ℕ
window_start today total = 0
window_start today daily = today

-- One level of EvaluateBudgets: a policy, if there is one, against the tokens that its filter sums.
unfoldable pub over_budget :
    ℕ → Database → UsageFilter → Option BudgetPolicy → Option BudgetEvaluation
over_budget today db f none = none
over_budget today db f (some p) =
    let used =
      (sum_usage_records db.users (record f { start = window_start today p.window })
        db.usage).total_tokens in
    if leb p.max_tokens used
    then some (record { blocked = true; policy = some p; used = used })
    else none

-- The tenant of a user, 0 if it has none or is not there.
unfoldable pub tenant_of : ℕ → List UserRow → ℕ
tenant_of uid [] = 0
tenant_of uid (u ∷ us) = if u.id == uid then u.tenant_id else tenant_of uid us

abbrev pub keyed_policy : BudgetScope → Text → List BudgetPolicy → Option BudgetPolicy
keyed_policy scope key ps = if is_nil key then none else get_budget_policy scope key ps

abbrev pub tenant_policy : ℕ → List BudgetPolicy → Option BudgetPolicy
tenant_policy t ps = if t == 0 then none else get_budget_policy tenant (decimal t) ps

abbrev or_next : Option BudgetEvaluation → BudgetEvaluation → BudgetEvaluation
or_next none next = next
or_next (some e) next = e

module _ (today uid : ℕ) (session_key workspace_key automation_id : Text) where
  -- EvaluateBudgets
  unfoldable pub evaluate_budgets : Bool → Database → BudgetEvaluation
  evaluate_budgets enabled db =
      let t = tenant_of uid db.users in
      if not enabled
      then not_blocked
      else or_next
          (over_budget today db (record no_filter { user_id = uid })
            (effective_user_policy uid db.policies))
          (or_next
            (over_budget today db (record no_filter { user_id = uid; session_key = session_key })
              (keyed_policy session session_key db.policies))
            (or_next
              (over_budget today db (record no_filter { workspace_key = workspace_key })
                (keyed_policy workspace workspace_key db.policies))
              (or_next
                (over_budget today db (record no_filter { tenant_id = t })
                  (tenant_policy t db.policies))
                (or_next
                  (over_budget today db (record no_filter { user_id = uid })
                    (keyed_policy automation automation_id db.policies))
                  not_blocked))))
