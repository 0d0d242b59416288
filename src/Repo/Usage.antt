-- ===== src/Repo/Usage.antt =====
-- server/internal/repo/usage.go: records of token usage, filtered and summed. A table is the list of
-- its rows that are not deleted; a query's failure is not modelled. Tokens are not negative.
use multiagent.Base.{
  ℕ, zero, suc, ◌+◌, Bool, false, ◌&&◌, ◌||◌, List, [], ◌∷◌, leb, ltb, ◌==◌, if◌then◌else◌, is_nil,
}
use multiagent.Base.Text.{Text, text_eq}
use multiagent.Base.Int.{ℤ, pos, negsuc}

pub record UsageRecord : Type 0 where
  pub user_id : ℕ
  pub session_id : ℕ
  pub session_key : Text
  pub workspace_key : Text
  pub provider_id : ℕ
  pub model_id : ℕ
  pub prompt_tokens : ℕ
  pub completion_tokens : ℕ
  pub total_tokens : ℕ
  pub created_at : ℕ

-- A user's tenant; 0 is none.
pub record UserRow : Type 0 where
  pub id : ℕ
  pub tenant_id : ℕ

pub record UsageFilter : Type 0 where
  pub user_id : ℕ
  pub tenant_id : ℕ
  pub provider_id : ℕ
  pub model_id : ℕ
  pub session_id : ℕ
  pub session_key : Text
  pub workspace_key : Text
  pub start : ℕ
  pub end : ℕ

-- The zero UsageRecordFilter.
abbrev pub no_filter : UsageFilter
no_filter = record {
  user_id = 0;
  tenant_id = 0;
  provider_id = 0;
  model_id = 0;
  session_id = 0;
  session_key = [];
  workspace_key = [];
  start = 0;
  end = 0;
}

-- `user_id IN (SELECT id FROM users WHERE tenant_id = ?)`
unfoldable pub in_tenant : List UserRow → ℕ → ℕ → Bool
in_tenant [] tenant user = false
in_tenant (u ∷ us) tenant user = (u.id == user && u.tenant_id == tenant) || in_tenant us tenant user

abbrev number_matches : ℕ → ℕ → Bool
number_matches wanted n = (wanted == 0) || (n == wanted)

abbrev text_matches : Text → Text → Bool
text_matches wanted t = is_nil wanted || text_eq t wanted

-- The conditions of SumUsageRecords and ListUsageRecords on a record.
unfoldable pub selects : List UserRow → UsageFilter → UsageRecord → Bool
selects users f r =
    number_matches f.user_id r.user_id
    && ((f.tenant_id == 0) || in_tenant users f.tenant_id r.user_id)
    && number_matches f.provider_id r.provider_id
    && number_matches f.model_id r.model_id
    && number_matches f.session_id r.session_id
    && text_matches f.session_key r.session_key
    && text_matches f.workspace_key r.workspace_key
    && ((f.start == 0) || leb f.start r.created_at)
    && ((f.end == 0) || leb r.created_at f.end)

pub record UsageTotals : Type 0 where
  pub prompt_tokens : ℕ
  pub completion_tokens : ℕ
  pub total_tokens : ℕ
  pub records : ℕ

abbrev no_usage : UsageTotals
no_usage = record { prompt_tokens = 0; completion_tokens = 0; total_tokens = 0; records = 0 }

abbrev add_record : UsageRecord → UsageTotals → UsageTotals
add_record r t = record {
  prompt_tokens = r.prompt_tokens + t.prompt_tokens;
  completion_tokens = r.completion_tokens + t.completion_tokens;
  total_tokens = r.total_tokens + t.total_tokens;
  records = suc t.records;
}

-- SumUsageRecords
unfoldable pub sum_usage_records : List UserRow → UsageFilter → List UsageRecord → UsageTotals
sum_usage_records users f [] = no_usage
sum_usage_records users f (r ∷ rs) =
    let rest = sum_usage_records users f rs in if selects users f r then add_record r rest else rest

-- NormalizeUsagePageSize
abbrev pub normalize_usage_page_size : ℤ → ℕ
normalize_usage_page_size (pos zero) = 50
normalize_usage_page_size (pos (suc n)) = if ltb 200 (suc n) then 200 else suc n
normalize_usage_page_size (negsuc n) = 50
