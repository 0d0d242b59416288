-- ===== src/Repo/Budget/Policies.antt =====
-- budget.go: which policy counts at a level, by the rows of the table.
use multiagent.Base.{
  ℕ, ◌≡◌, ◌≢◌, ◌⊎◌, ◌↔◌, refl, true, none, some, [], ◌∷◌, arith, ◌==◌, ==_iff, inl, inr, Bool-cases,
  Option-cases, List, All, sym, ◌∙◌,
}
use multiagent.Base.Text.{Text, text_eq_iff}
use multiagent.Base.Decimal.{decimal}
use multiagent.Repo.Budget.{
  BudgetScope, user, session, workspace, tenant, automation, scope_eq, has_key, get_budget_policy,
  BudgetPolicy, effective_user_policy, keyed_policy, tenant_policy,
}

-- The row is of this scope and has this key.
abbrev pub Has : BudgetScope → Text → BudgetPolicy → Type 0
Has scope key q = (q.scope ≡ scope) × (q.scope_key ≡ key)

-- Of the rows of this scope with this key, this is the first.
abbrev pub IsFirst : BudgetScope → Text → List BudgetPolicy → BudgetPolicy → Type 0
IsFirst scope key [] p = ⊥
IsFirst scope key (q ∷ ps) p =
    (Has scope key q × (q ≡ p)) ⊎ ((¬ Has scope key q) × IsFirst scope key ps p)

abbrev pub Lacks : BudgetScope → Text → List BudgetPolicy → Type 0
Lacks scope key ps = All (λ q. ¬ Has scope key q) ps

scope_eq-≡ : (c d : BudgetScope) → scope_eq c d ≡ true → c ≡ d
scope_eq-≡ c d e = ground arith

scope_eq_refl : (c : BudgetScope) → scope_eq c c ≡ true
scope_eq_refl user = refl
scope_eq_refl session = refl
scope_eq_refl workspace = refl
scope_eq_refl tenant = refl
scope_eq_refl automation = refl

module _ (scope : BudgetScope) (key : Text) where
  has_key-Has : (q : BudgetPolicy) → has_key scope key q ≡ true → Has scope key q
  has_key-Has q e =
      let same : scope_eq q.scope scope ≡ true = ground (arith, e) in
      (scope_eq-≡ q.scope scope same, (text_eq_iff q.scope_key key).0 (ground (arith, e)))

  Has-has_key : (q : BudgetPolicy) → Has scope key q → has_key scope key q ≡ true
  Has-has_key q (is, at) = rw (is, at, scope_eq_refl scope, (text_eq_iff key key).1 refl) refl

  get_budget_policy-some :
      (ps : List BudgetPolicy) (p : BudgetPolicy)
      → (get_budget_policy scope key ps ≡ some p) ↔ IsFirst scope key ps p
  unfolding get_budget_policy
  get_budget_policy-some [] p = (λ e. absurd (ground arith), λ h. absurd h)
  get_budget_policy-some (q ∷ ps) p = elim (Bool-cases (has_key scope key q)) [
    | inl here ↦ (
      λ e. inl (has_key-Has q here, ground (arith, e, here)),
      λ h. elim h [
        | inl (has, is) ↦ ground (arith, is, here)
        | inr (lacks, first) ↦ absurd (lacks (has_key-Has q here))
      ],
    )
    | inr other ↦
        let (there, back) = get_budget_policy-some ps p in
        let lacks : ¬ Has scope key q = λ has. ground (arith, Has-has_key q has, other) in
        (
          λ e. inr (lacks, there (ground (arith, e, other))),
          λ h. elim h [
            | inl (has, is) ↦ absurd (lacks has)
            | inr (lacking, first) ↦ ground (arith, back first, other)
          ],
        )
  ]

  get_budget_policy-none :
      (ps : List BudgetPolicy) → get_budget_policy scope key ps ≡ none → Lacks scope key ps
  unfolding get_budget_policy
  get_budget_policy-none [] e = tt
  get_budget_policy-none (q ∷ ps) e = elim (Bool-cases (has_key scope key q)) [
    | inl here ↦ absurd (ground (arith, e, here))
    | inr other ↦ (
      λ has. ground (arith, Has-has_key q has, other),
      get_budget_policy-none ps (ground (arith, e, other)),
    )
  ]

  Lacks-IsFirst :
      (ps : List BudgetPolicy) (p : BudgetPolicy) → Lacks scope key ps → ¬ IsFirst scope key ps p
  Lacks-IsFirst [] p h first = first
  Lacks-IsFirst (q ∷ ps) p (lacking, h) (inl (has, is)) = lacking has
  Lacks-IsFirst (q ∷ ps) p (lacking, h) (inr (other, first)) = Lacks-IsFirst ps p h first

-- The policy that counts for a user: the first under the user's number, or where there is none, the
-- first without a key.
abbrev pub IsOfUser : ℕ → List BudgetPolicy → BudgetPolicy → Type 0
IsOfUser uid ps p =
    IsFirst user (decimal uid) ps p ⊎ (Lacks user (decimal uid) ps × IsFirst user [] ps p)

pub effective_user_policy-some :
    (uid : ℕ) (ps : List BudgetPolicy) (p : BudgetPolicy)
    → (effective_user_policy uid ps ≡ some p) ↔ IsOfUser uid ps p
unfolding effective_user_policy
effective_user_policy-some uid ps p =
    elim (Option-cases (get_budget_policy user (decimal uid) ps)) [
      | inl nothing ↦
          let lacks = get_budget_policy-none user (decimal uid) ps nothing in
          let (there, back) = get_budget_policy-some user [] ps p in
          rw (nothing, effective_user_policy)
            (
              λ e. inr (lacks, there e),
              λ h. elim h [
                | inl first ↦ absurd (Lacks-IsFirst user (decimal uid) ps p lacks first)
                | inr (lacking, first) ↦ back first
              ],
            )
      | inr (own, is) ↦
          let (there, back) = get_budget_policy-some user (decimal uid) ps p in
          let first = (get_budget_policy-some user (decimal uid) ps own).0 is in
          rw (is, effective_user_policy)
            (
              λ e. inl (there (is ∙ e)),
              λ h. elim h [
                | inl mine ↦ sym is ∙ back mine
                | inr (lacking, other) ↦
                    absurd (Lacks-IsFirst user (decimal uid) ps own lacking first)
              ],
            )
    ]

pub keyed_policy-some :
    (scope : BudgetScope) (key : Text) (ps : List BudgetPolicy) (p : BudgetPolicy)
    → (keyed_policy scope key ps ≡ some p) ↔ ((key ≢ []) × IsFirst scope key ps p)
keyed_policy-some scope [] ps p = (λ e. absurd (ground arith), λ h. absurd (h.0 refl))
keyed_policy-some scope (c ∷ key) ps p =
    let (there, back) = get_budget_policy-some scope (c ∷ key) ps p in
    (λ e. (λ unset. ground arith, there e), λ h. back h.1)

pub tenant_policy-some :
    (t : ℕ) (ps : List BudgetPolicy) (p : BudgetPolicy)
    → (tenant_policy t ps ≡ some p) ↔ ((t ≢ 0) × IsFirst tenant (decimal t) ps p)
tenant_policy-some t ps p =
    let (there, back) = get_budget_policy-some tenant (decimal t) ps p in
    elim (Bool-cases (t == 0)) [
      | inl unset ↦
          (λ e. absurd (ground (arith, e, unset)), λ h. absurd (h.0 ((==_iff t 0).0 unset)))
      | inr set ↦ (
        λ e. (λ is. ground (arith, set, (==_iff t 0).1 is), there (ground (arith, e, set))),
        λ h. ground (arith, back h.1, set),
      )
    ]
