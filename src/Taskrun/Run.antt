-- ===== src/Taskrun/Run.antt =====
-- The run record that queue.go and queue_service.go build and read. Its type is the agent
-- framework's; the fields and the statuses are those that this code names.
use multiagent.Base.{ℕ, ◌≡◌, ◌⊎◌, Bool, true, false, Option, List}
use multiagent.Base.Text.{Text}
use multiagent.Base.Assoc.{Assoc}

pub data Status : Type 0 where
  queued running canceling completed failed canceled : Status

abbrev pub status_eq : Status → Status → Bool
status_eq queued queued = true
status_eq running running = true
status_eq canceling canceling = true
status_eq completed completed = true
status_eq failed failed = true
status_eq canceled canceled = true
status_eq _ _ = false

-- An instant is a number of nanoseconds, with 0 for Go's zero time.
pub record Run : Type 0 where
  pub id : Text
  pub owner_user_id : Text
  pub parent_session_id : Text
  pub parent_app_name : Text
  pub app_name : Text
  pub agent_name : Text
  pub task : Text
  pub child_session_id : Text
  pub request_id : Text
  pub status : Status
  pub result : Text
  pub error : Text
  pub progress : List Text
  pub metadata : Assoc Text
  pub created_at : ℕ
  pub updated_at : ℕ
  pub finished_at : Option ℕ

-- The filter of `List`; an empty text and `none` do not filter.
pub record ListFilter : Type 0 where
  pub status : Option Status
  pub owner_user_id : Text
  pub parent_session_id : Text
  pub parent_app_name : Text

-- What the framework documents of `Status.IsTerminal`.
pub record TerminalLaws (is_terminal : Status → Bool) : Type 0 where
  pub queued_open : is_terminal queued ≡ false
  pub running_open : is_terminal running ≡ false
  pub canceling_open : is_terminal canceling ≡ false
  pub completed_terminal : is_terminal completed ≡ true
  pub failed_terminal : is_terminal failed ≡ true
  pub canceled_terminal : is_terminal canceled ≡ true

-- Nothing happens to a task after one of these.
abbrev pub IsFinal : Status → Type 0
IsFinal s = (s ≡ completed) ⊎ (s ≡ failed) ⊎ (s ≡ canceled)
