-- ===== src/Repo/Budget/Tokens.antt =====
-- budget.go: which records of usage count for a policy, and from when on.
use multiagent.Base.{
  ◌&&◌, ◌||◌, ◌+◌, List, sym, if◌then◌else◌, ℕ, ◌≡◌, ◌≢◌, refl, Bool, [], ◌∷◌, arith, leb, ◌==◌,
  ==_iff,
}
use multiagent.Base.Text.{Text, text_eq}
use multiagent.Repo.Usage.{
  UsageRecord, UserRow, UsageFilter, no_filter, in_tenant, selects, sum_usage_records,
}
use multiagent.Repo.Budget.{BudgetWindow, daily, total, window_start}

-- From when on a window counts: a daily one from the start of the day, the other one always.
abbrev pub IsStart : ℕ → BudgetWindow → ℕ → Type 0
IsStart today daily start = start ≡ today
IsStart today total start = start ≡ 0

pub window_start-IsStart : (today : ℕ) (w : BudgetWindow) → IsStart today w (window_start today w)
window_start-IsStart today daily = refl
window_start-IsStart today total = refl

pub IsStart-unique :
    (today : ℕ) (w : BudgetWindow) (start : ℕ)
    → IsStart today w start
    → window_start today w ≡ start
IsStart-unique today daily start is = sym is
IsStart-unique today total start is = sym is

-- The tokens of the records that count.
abbrev pub tokens_of : (UsageRecord → Bool) → List UsageRecord → ℕ
tokens_of counts [] = 0
tokens_of counts (r ∷ rs) =
    let rest = tokens_of counts rs in if counts r then r.total_tokens + rest else rest

pub sum_usage_records-tokens_of :
    (users : List UserRow) (f : UsageFilter) (counts : UsageRecord → Bool) (rs : List UsageRecord)
    → ((r : UsageRecord) → selects users f r ≡ counts r)
    → (sum_usage_records users f rs).total_tokens ≡ tokens_of counts rs
unfolding sum_usage_records
sum_usage_records-tokens_of users f counts [] same = refl
sum_usage_records-tokens_of users f counts (r ∷ rs) same =
    ground (arith, same r, sum_usage_records-tokens_of users f counts rs same)

-- Which records count at a level. The number 0 stands for every user.
abbrev pub of_user : ℕ → UsageRecord → Bool
of_user uid r = (uid == 0) || (r.user_id == uid)

module _ (users : List UserRow) (uid start : ℕ) (r : UsageRecord) where
  pub selects-of_user :
      selects users (record no_filter { user_id = uid; start = start }) r
      ≡ (of_user uid r && leb start r.created_at)
  unfolding selects
  selects-of_user = ground arith

  pub selects-session :
      (key : Text)
      → key ≢ []
      → selects users (record no_filter { user_id = uid; session_key = key; start = start }) r
        ≡ ((of_user uid r && text_eq r.session_key key) && leb start r.created_at)
  unfolding selects
  selects-session [] given = absurd (given refl)
  selects-session (c ∷ key) given = ground arith

  pub selects-workspace :
      (key : Text)
      → key ≢ []
      → selects users (record no_filter { workspace_key = key; start = start }) r
        ≡ (text_eq r.workspace_key key && leb start r.created_at)
  unfolding selects
  selects-workspace [] given = absurd (given refl)
  selects-workspace (c ∷ key) given = ground arith

  pub selects-tenant :
      (t : ℕ)
      → t ≢ 0
      → selects users (record no_filter { tenant_id = t; start = start }) r
        ≡ (in_tenant users t r.user_id && leb start r.created_at)
  unfolding selects
  selects-tenant t given = ground (arith, ==_iff t 0)
