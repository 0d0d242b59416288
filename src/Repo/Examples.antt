-- ===== src/Repo/Examples.antt =====
-- Budgets on a small database.
use multiagent.Base.{◌&&◌, ℕ, ◌≡◌, ◌⊎◌, ◌↔◌, ◌≢◌, refl, true, false, [], ◌∷◌}
use multiagent.Base.Text.{codes, text_eq}
use multiagent.Base.Decimal.{decimal}
use multiagent.Repo.Usage.{UsageRecord, in_tenant, selects, sum_usage_records}
use multiagent.Repo.Budget.{
  user, session, workspace, tenant, automation, daily, total, Database, tenant_of,
  get_budget_policy, effective_user_policy, over_budget, evaluate_budgets,
}
use multiagent.Repo.Budget.Tokens.{of_user}
use multiagent.Repo.Budget.Policies.{IsFirst, IsOfUser}
use multiagent.Repo.Budget.Isolation.{UsedUp, evaluate_budgets-blocked}

abbrev usage_of : ℕ → ℕ → UsageRecord
usage_of uid tokens = record {
  user_id = uid;
  session_id = 1;
  session_key = codes "s";
  workspace_key = codes "w";
  provider_id = 1;
  model_id = 1;
  prompt_tokens = 0;
  completion_tokens = tokens;
  total_tokens = tokens;
  created_at = 50;
}

abbrev database : Database
database = record {
  policies =
      record { scope = user; scope_key = []; max_tokens = 100; window = daily }
      ∷ record { scope = tenant; scope_key = codes "3"; max_tokens = 150; window = total }
      ∷ [];
  users =
      record { id = 7; tenant_id = 3 }
      ∷ record { id = 8; tenant_id = 3 }
      ∷ record { id = 9; tenant_id = 4 }
      ∷ [];
  usage = usage_of 7 60 ∷ usage_of 8 80 ∷ [];
}

not_yet : (evaluate_budgets 40 7 (codes "s") [] [] true database).blocked ≡ false
unfolding evaluate_budgets sum_usage_records selects in_tenant tenant_of get_budget_policy
    effective_user_policy over_budget text_eq decimal
not_yet = refl

evaluate_budgets-blocked_example :
    let used = UsedUp 40 database.usage in
    ((evaluate_budgets 40 7 [] [] [] true database).blocked ≡ true) ↔ (
      (true ≡ true)
      × (used (of_user 7) (IsOfUser 7 database.policies)
          ⊎ (used
                (λ r. of_user 7 r && text_eq r.session_key [])
                (λ p. (codes "" ≢ []) × IsFirst session [] database.policies p)
              ⊎ (used
                    (λ r. text_eq r.workspace_key [])
                    (λ p. (codes "" ≢ []) × IsFirst workspace [] database.policies p)
                  ⊎ (used
                        (λ r. in_tenant database.users (tenant_of 7 database.users) r.user_id)
                        (λ p.
                          (tenant_of 7 database.users ≢ 0)
                          × IsFirst tenant
                              (decimal (tenant_of 7 database.users))
                              database.policies
                              p)
                      ⊎ used
                          (of_user 7)
                          (λ p. (codes "" ≢ []) × IsFirst automation [] database.policies p))))))
evaluate_budgets-blocked_example = evaluate_budgets-blocked 40 7 [] [] [] true database
