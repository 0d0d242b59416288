-- ===== src/Repo/Budget/Isolation.antt =====
-- budget.go: whose usage counts against a request, and when a request is blocked.
use multiagent.Base.{
  ◌&&◌, List, subst, ℕ, ◌≤◌, ◌≡◌, ◌≢◌, ◌⊎◌, ◌↔◌, refl, Bool, true, false, Option, none, some, [],
  ◌∷◌, arith, leb, ◌==◌, ==_iff, inl, inr, Bool-cases,
}
use multiagent.Base.Text.{Text, text_eq, text_eq_iff}
use multiagent.Base.Decimal.{decimal}
use multiagent.Repo.Usage.{
  UsageRecord, UsageFilter, no_filter, in_tenant, selects, sum_usage_records,
}
use multiagent.Repo.Budget.{
  session, workspace, tenant, automation, BudgetPolicy, Database, effective_user_policy,
  BudgetEvaluation, not_blocked, window_start, over_budget, tenant_of, or_next, keyed_policy,
  tenant_policy, evaluate_budgets,
}
use multiagent.Repo.Budget.Tokens.{
  IsStart, window_start-IsStart, IsStart-unique, tokens_of, sum_usage_records-tokens_of, of_user,
  selects-of_user, selects-session, selects-workspace, selects-tenant,
}
use multiagent.Repo.Budget.Policies.{
  IsFirst, IsOfUser, effective_user_policy-some, keyed_policy-some, tenant_policy-some,
}

-- The database after one more record of usage.
abbrev pub recorded : UsageRecord → Database → Database
recorded r db = record db { usage = r ∷ db.usage }

module _ (today : ℕ) (db : Database) (r : UsageRecord) (f : UsageFilter) where
  over_budget-recorded :
      (p : Option BudgetPolicy)
      → ((start : ℕ) → (p ≡ none) ⊎ (selects db.users (record f { start = start }) r ≡ false))
      → over_budget today (recorded r db) f p ≡ over_budget today db f p
  unfolding over_budget sum_usage_records
  over_budget-recorded none away = refl
  over_budget-recorded (some p) away = elim (away (window_start today p.window)) [
    | inl gone ↦ absurd (ground arith)
    | inr out ↦ rw out refl
  ]

module _ (db : Database) (r : UsageRecord) (uid : ℕ) where
  other_user :
      (key : Text) (start : ℕ)
      → uid ≢ 0
      → r.user_id ≢ uid
      → selects db.users (record no_filter { user_id = uid; session_key = key; start = start }) r
        ≡ false
  unfolding selects
  other_user key start known other = ground (arith, ==_iff uid 0, ==_iff r.user_id uid)

  other_workspace :
      (key : Text) (start : ℕ)
      → key ≢ r.workspace_key
      → (keyed_policy workspace key db.policies ≡ none)
        ⊎ (selects db.users (record no_filter { workspace_key = key; start = start }) r ≡ false)
  unfolding selects
  other_workspace [] start other = inl refl
  other_workspace (c ∷ key) start other =
      inr (ground (arith, text_eq_iff r.workspace_key (c ∷ key)))

  other_tenant :
      (t start : ℕ)
      → in_tenant db.users t r.user_id ≡ false
      → (tenant_policy t db.policies ≡ none)
        ⊎ (selects db.users (record no_filter { tenant_id = t; start = start }) r ≡ false)
  unfolding selects
  other_tenant t start away = elim (Bool-cases (t == 0)) [
    | inl none_there ↦ inl (ground arith)
    | inr there ↦ inr (ground arith)
  ]

-- A request is not affected by the usage of another user, outside the request's tenant and its
-- workspace: one more record of it leaves the evaluation as it was.
pub evaluate_budgets-isolated :
    (today uid : ℕ) (session_key workspace_key automation_id : Text) (enabled : Bool)
    (db : Database) (r : UsageRecord)
    → uid ≢ 0
    → r.user_id ≢ uid
    → workspace_key ≢ r.workspace_key
    → in_tenant db.users (tenant_of uid db.users) r.user_id ≡ false
    → evaluate_budgets today uid session_key workspace_key automation_id enabled (recorded r db)
      ≡ evaluate_budgets today uid session_key workspace_key automation_id enabled db
unfolding evaluate_budgets
evaluate_budgets-isolated today uid session_key workspace_key automation_id enabled db r known other
      away outside =
    let t = tenant_of uid db.users in
    rw
      (
        over_budget-recorded today db r (record no_filter { user_id = uid })
            (effective_user_policy uid db.policies)
            (λ start. inr (other_user db r uid [] start known other)),
        over_budget-recorded today db r
            (record no_filter { user_id = uid; session_key = session_key })
            (keyed_policy session session_key db.policies)
            (λ start. inr (other_user db r uid session_key start known other)),
        over_budget-recorded today db r (record no_filter { workspace_key = workspace_key })
            (keyed_policy workspace workspace_key db.policies)
            (λ start. other_workspace db r uid workspace_key start away),
        over_budget-recorded today db r (record no_filter { tenant_id = t })
            (tenant_policy t db.policies) (λ start. other_tenant db r uid t start outside),
        over_budget-recorded today db r (record no_filter { user_id = uid })
            (keyed_policy automation automation_id db.policies)
            (λ start. inr (other_user db r uid [] start known other)),
      )
      refl

-- A policy whose tokens are used up at a level.
abbrev IsSpent : ℕ → Database → UsageFilter → Option BudgetPolicy → Type 0
IsSpent today db f p =
    (q : BudgetPolicy) × (p ≡ some q)
    × (q.max_tokens
        ≤ (sum_usage_records db.users (record f { start = window_start today q.window })
            db.usage).total_tokens)

over_budget-cases :
    (today : ℕ) (db : Database) (f : UsageFilter) (p : Option BudgetPolicy)
    → ((over_budget today db f p ≡ none) × (IsSpent today db f p → ⊥))
      ⊎ ((e : BudgetEvaluation) × (over_budget today db f p ≡ some e)
          × (e.blocked ≡ true)
          × IsSpent today db f p)
unfolding over_budget
over_budget-cases today db f none = inl (refl, λ (q, is, le). absurd (ground arith))
over_budget-cases today db f (some p) =
    elim (Bool-cases (
      leb p.max_tokens (
        (sum_usage_records db.users (record f { start = window_start today p.window })
          db.usage).total_tokens))) [
            | inl spent ↦ inr (
              record {
                blocked = true;
                policy = some p;
                used =
                    (sum_usage_records db.users (record f { start = window_start today p.window })
                      db.usage).total_tokens;
              },
              ground arith,
              refl,
              (p, refl, ground arith),
            )
            | inr left_over ↦ inl (ground arith, λ (q, is, le). absurd (ground arith))
          ]

-- A policy of this kind has no tokens left: those of the records that count for it, from the start
-- of its window on, reach its maximum.
abbrev pub UsedUp : ℕ → List UsageRecord → (UsageRecord → Bool) → (BudgetPolicy → Type 0) → Type 0
UsedUp today usage counts P =
    (q : BudgetPolicy) × P q
    × (start : ℕ) × IsStart today q.window start
    × (q.max_tokens ≤ tokens_of (λ r. counts r && leb start r.created_at) usage)

module _ (today : ℕ) (db : Database) (f : UsageFilter) (p : Option BudgetPolicy)
    (P : BudgetPolicy → Type 0) (is_policy : (q : BudgetPolicy) → (p ≡ some q) ↔ P q)
    (counts : UsageRecord → Bool)
    (same : (q : BudgetPolicy)
      → P q
      → (start : ℕ) (r : UsageRecord)
      → selects db.users (record f { start = start }) r
        ≡ (counts r && leb start r.created_at)) where
  tokens :
      (q : BudgetPolicy)
      → P q
      → (start : ℕ)
      → (sum_usage_records db.users (record f { start = start }) db.usage).total_tokens
        ≡ tokens_of (λ r. counts r && leb start r.created_at) db.usage
  tokens q of_kind start =
      sum_usage_records-tokens_of db.users (record f { start = start })
        (λ r. counts r && leb start r.created_at) db.usage (same q of_kind start)

  UsedUp-of-spent : IsSpent today db f p → UsedUp today db.usage counts P
  UsedUp-of-spent (q, is, le) =
      let of_kind = (is_policy q).0 is in
      let start = window_start today q.window in
      (
        q,
        of_kind,
        start,
        window_start-IsStart today q.window,
        subst (λ n. q.max_tokens ≤ n) (tokens q of_kind start) le,
      )

  IsSpent-of-used : UsedUp today db.usage counts P → IsSpent today db f p
  IsSpent-of-used (q, of_kind, start, begins, le) = (
    q,
    (is_policy q).1 of_kind,
    rw (IsStart-unique today q.window start begins, tokens q of_kind start) le,
  )

  -- One level more in front of those that come after it.
  level :
      (next : BudgetEvaluation) (T : Type 0)
      → (next.blocked ≡ true) ↔ T
      → ((or_next (over_budget today db f p) next).blocked ≡ true)
        ↔ (UsedUp today db.usage counts P ⊎ T)
  level next T (there, back) = elim (over_budget-cases today db f p) [
    | inl (nothing, not_spent) ↦ (
      λ b. inr (there (rw nothing at b)),
      λ h. elim h [
        | inl used ↦ absurd (not_spent (IsSpent-of-used used))
        | inr t ↦ rw nothing (back t)
      ],
    )
    | inr (e, is, blocks, spent) ↦ (λ b. inl (UsedUp-of-spent spent), λ h. rw is blocks)
  ]

  last_level :
      ((or_next (over_budget today db f p) not_blocked).blocked ≡ true)
      ↔ UsedUp today db.usage counts P
  last_level = elim (over_budget-cases today db f p) [
    | inl (nothing, not_spent) ↦
        (λ b. absurd (ground arith), λ used. absurd (not_spent (IsSpent-of-used used)))
    | inr (e, is, blocks, spent) ↦ (λ b. UsedUp-of-spent spent, λ h. rw is blocks)
  ]

-- A request is blocked exactly where budgets are enabled and a policy of one of five levels is used
-- up: the first row under the user's number or, where there is none, the first user row without a
-- key, by the user's tokens; the first row of the session, if it has a key, by the user's tokens in
-- it; that of the workspace, if it has a key, by its tokens; that of the user's tenant, if it has
-- one, by the tokens of its users; that of the automation, if it has a key, by the user's tokens.
-- A daily policy counts from the start of the day, another one always.
pub evaluate_budgets-blocked :
    (today uid : ℕ) (session_key workspace_key automation_id : Text) (enabled : Bool)
    (db : Database)
    → let t = tenant_of uid db.users in
      let used = UsedUp today db.usage in
      ((evaluate_budgets today uid session_key workspace_key automation_id enabled db).blocked
        ≡ true)
      ↔ ((enabled ≡ true)
          × (used (of_user uid) (IsOfUser uid db.policies)
              ⊎ (used
                    (λ r. of_user uid r && text_eq r.session_key session_key)
                    (λ p. (session_key ≢ []) × IsFirst session session_key db.policies p)
                  ⊎ (used
                        (λ r. text_eq r.workspace_key workspace_key)
                        (λ p. (workspace_key ≢ []) × IsFirst workspace workspace_key db.policies p)
                      ⊎ (used
                            (λ r. in_tenant db.users t r.user_id)
                            (λ p. (t ≢ 0) × IsFirst tenant (decimal t) db.policies p)
                          ⊎ used (of_user uid) (λ p.
                            (automation_id ≢ [])
                            × IsFirst automation automation_id db.policies p))))))
unfolding evaluate_budgets
evaluate_budgets-blocked today uid session_key workspace_key automation_id false db =
    (λ b. absurd (ground arith), λ h. absurd (ground (arith, h.0)))
evaluate_budgets-blocked today uid session_key workspace_key automation_id true db =
    let t = tenant_of uid db.users in
    let ps = db.policies in
    let users = db.users in
    let (there, back) =
      level today db (record no_filter { user_id = uid }) (effective_user_policy uid ps)
        (IsOfUser uid ps) (effective_user_policy-some uid ps) (of_user uid)
        (λ q k start r. selects-of_user users uid start r) _ _
        (level today db (record no_filter { user_id = uid; session_key = session_key })
          (keyed_policy session session_key ps) _ (keyed_policy-some session session_key ps)
          (λ r. of_user uid r && text_eq r.session_key session_key)
          (λ q k start r. selects-session users uid start r session_key k.0) _ _
          (level today db (record no_filter { workspace_key = workspace_key })
            (keyed_policy workspace workspace_key ps) _
            (keyed_policy-some workspace workspace_key ps)
            (λ r. text_eq r.workspace_key workspace_key)
            (λ q k start r. selects-workspace users uid start r workspace_key k.0) _ _
            (level today db (record no_filter { tenant_id = t }) (tenant_policy t ps) _
              (tenant_policy-some t ps) (λ r. in_tenant users t r.user_id)
              (λ q k start r. selects-tenant users uid start r t k.0) _ _
              (last_level today db (record no_filter { user_id = uid })
                (keyed_policy automation automation_id ps) _
                (keyed_policy-some automation automation_id ps) (of_user uid)
                (λ q k start r. selects-of_user users uid start r))))) in
    (λ b. (refl, there b), λ h. back h.1)
