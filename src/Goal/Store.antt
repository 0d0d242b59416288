-- ===== src/Goal/Store.antt =====
-- goal.go: the store of goals. `now` is the store's clock; a returned goal is a copy.
pub mod Validity
pub mod Histories
pub mod Replies
use multiagent.Base.{
  ℕ, zero, suc, ◌+◌, Bool, true, false, ◌&&◌, not, Option, none, some, List, length, if◌then◌else◌,
  is_nil, Answer, ok, err, ◌∷◌, [],
}
use multiagent.Base.Text.{Text, trim_space}
use multiagent.Base.Int.{ℤ, pos, negsuc}
use multiagent.Base.Decimal.{decimal}
use multiagent.Base.Assoc.{Assoc, lookup, put, remove}
use multiagent.Scopes.{evict}
use multiagent.Goal.Contract.{
  Status, in_progress, blocked, GoalError, not_found, empty_title, blocked_no_reason, Goal, is_open,
  normalize_criteria,
}

pub record Patch : Type 0 where
  pub status : Option Status
  pub progress : Option Text
  pub blocker : Option Text
  pub title : Option Text
  pub description : Option Text
  pub acceptance_criteria : Option (List Text)

pub record Store : Type 0 where
  pub goals : Assoc Goal
  pub max_scopes : ℕ
  pub seq : ℕ

abbrev pub default_max_scopes : ℕ
default_max_scopes = 512

abbrev scopes_of : ℤ → ℕ
scopes_of (pos zero) = default_max_scopes
scopes_of (pos (suc n)) = suc n
scopes_of (negsuc n) = default_max_scopes

-- NewStore
unfoldable pub new_store : ℤ → Store
new_store max_scopes = record { goals = []; max_scopes = scopes_of max_scopes; seq = 0 }

-- The goal that Create makes; its title is trimmed already.
unfoldable pub fresh_goal : Text → Text → List Text → ℕ → ℕ → Goal
fresh_goal title description criteria now seq = record {
  id = b'g' ∷ decimal seq;
  title = title;
  description = trim_space description;
  acceptance_criteria = normalize_criteria criteria;
  status = in_progress;
  progress = [];
  blocker = [];
  revision = 1;
  created_at = now;
  updated_at = now;
}

-- Create, past its check.
insert_goal : Text → Goal → Store → Store × Answer GoalError Goal
insert_goal scope g s = (
  record s {
    goals = evict (λ (g : Goal). g.updated_at) s.max_scopes (put scope g s.goals);
    seq = s.seq + 1;
  },
  ok g,
)

unfoldable pub create : Text → Text → Text → List Text → ℕ → Store → Store × Answer GoalError Goal
unfolding insert_goal
create scope title description criteria now s =
    if is_nil (trim_space title)
    then (s, err empty_title)
    else insert_goal scope (fresh_goal (trim_space title) description criteria now (s.seq + 1)) s

-- Get
unfoldable pub get : Text → Store → Answer GoalError Goal
get scope s = elim (lookup scope s.goals) [ none ↦ err not_found | some g ↦ ok g ]

-- Has
unfoldable pub has : Text → Store → Bool
has scope s = elim (lookup scope s.goals) [ none ↦ false | some g ↦ true ]

-- Store.IsOpen
unfoldable pub scope_open : Text → Store → Bool
scope_open scope s = elim (lookup scope s.goals) [ none ↦ false | some g ↦ is_open g ]

abbrev patched : Option Text → Text → Text
patched none old = old
patched (some t) old = trim_space t

abbrev patched_criteria : Option (List Text) → List Text → List Text
patched_criteria none old = old
patched_criteria (some cs) old = normalize_criteria cs

abbrev patched_status : Option Status → Status → Status
patched_status none old = old
patched_status (some st) old = st

abbrev is_blank : Option Text → Bool
is_blank none = false
is_blank (some t) = is_nil (trim_space t)

abbrev is_given : Option Text → Bool
is_given none = false
is_given (some t) = true

abbrev pub is_blocked : Status → Bool
is_blocked blocked = true
is_blocked _ = false

-- Update on a goal, with its two checks. A blocker is dropped where the goal is not blocked,
-- unless this very patch gave it.
unfoldable pub patch_goal : Patch → ℕ → Goal → Answer GoalError Goal
patch_goal p now g =
    let blocker = patched p.blocker g.blocker in
    let status = patched_status p.status g.status in
    if is_blank p.title
    then err empty_title
    else if is_blocked status && is_nil blocker
    then err blocked_no_reason
    else ok (record g {
      title = patched p.title g.title;
      description = patched p.description g.description;
      acceptance_criteria = patched_criteria p.acceptance_criteria g.acceptance_criteria;
      progress = patched p.progress g.progress;
      blocker = if not (is_blocked status) && not (is_given p.blocker) then [] else blocker;
      status = status;
      revision = g.revision + 1;
      updated_at = now;
    })

rewrite_goal : Text → Store → Answer GoalError Goal → Store × Answer GoalError Goal
rewrite_goal scope s (err e) = (s, err e)
rewrite_goal scope s (ok g) = (record s { goals = put scope g s.goals }, ok g)

unfoldable pub update : Text → Patch → ℕ → Store → Store × Answer GoalError Goal
unfolding rewrite_goal
update scope p now s = elim (lookup scope s.goals) [
  | none ↦ (s, err not_found)
  | some g ↦ rewrite_goal scope s (patch_goal p now g)
]

-- Delete
unfoldable pub delete : Text → Store → Store
delete scope s = record s { goals = remove scope s.goals }

-- Len
unfoldable pub store_length : Store → ℕ
store_length s = length s.goals
