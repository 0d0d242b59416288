-- ===== src/Enforcer/Nudges.antt =====
-- server/internal/agent/goal.go: an invocation's state and the model callbacks, which plan.go
-- repeats. The response, its tests `IsToolCallResponse` and `IsFinalResponse`, and the invocation
-- are the agent framework's; the fields are those that this code names.
pub mod Passes
pub mod Bounded
use multiagent.Base.{
  ℕ, zero, suc, ◌+◌, Bool, true, false, ◌&&◌, ◌||◌, not, Option, none, some, List, [], ◌∷◌, ◌++◌,
  leb, ltb, if◌then◌else◌, is_nil,
}
use multiagent.Base.Text.{Text, codes}
use multiagent.Base.Decimal.{decimal}

-- The two values that an extension keeps on an invocation.
pub record Nudges : Type 0 where
  pub count : ℕ
  pub remind_pending : Bool

-- `session` is `none` where the invocation has no session.
pub record Invocation : Type 0 where
  pub session : Option Text
  pub invocation_id : Text

pub record Response : Type 0 where
  pub done : Bool
  pub is_partial : Bool
  pub choices : List Text
  pub error : Option Text

pub record Request : Type 0 where
  pub stream : Bool
  pub messages : List Text

by_invocation : Text → Text
by_invocation id = if is_nil id then codes "default" else codes "inv:" ++ id

-- goalScope
unfoldable pub goal_scope : Option Invocation → Text
unfolding by_invocation
goal_scope none = codes "default"
goal_scope (some inv) = elim inv.session [
  | none ↦ by_invocation inv.invocation_id
  | some id ↦ if is_nil id then by_invocation inv.invocation_id else codes "sess:" ++ id
]

-- goalNudgeCount; `none` is the state of no invocation, on which nothing is kept.
abbrev pub nudge_count : Option Nudges → ℕ
nudge_count none = 0
nudge_count (some n) = n.count

-- incGoalNudgeCount
abbrev inc_nudge_count : Option Nudges → Option Nudges
inc_nudge_count none = none
inc_nudge_count (some n) = some (record n { count = n.count + 1 })

-- goalRemindPending
abbrev pub remind_pending : Option Nudges → Bool
remind_pending none = false
remind_pending (some n) = n.remind_pending

-- setGoalRemindPending
abbrev set_remind_pending : Bool → Option Nudges → Option Nudges
set_remind_pending b none = none
set_remind_pending b (some n) = some (record n { remind_pending = b })

-- blockReason
pub data Block : Type 0 where
  block_none block_missing block_open : Block

-- goalBlockedResponse
abbrev pub blocked_response : Response → Response
blocked_response src = record src { done = false; is_partial = false; choices = []; error = none }

abbrev pub is_given : Option Text → Bool
is_given none = false
is_given (some t) = true

-- shouldConsiderGoalResponse
abbrev pub should_consider : (is_tool_call is_final : Response → Bool) → Response → Bool
should_consider is_tool_call is_final rsp =
    if rsp.is_partial || is_given rsp.error
    then false
    else if is_tool_call rsp
    then false
    else is_final rsp

-- afterModel where the answer is to be blocked: the state of the invocation, and the response in
-- place of the model's.
intercept : ℕ → Response → Option Nudges → Option Nudges × Option Response
intercept max_nudges rsp n =
    if leb max_nudges (nudge_count n)
    then (set_remind_pending false n, none)
    else (set_remind_pending true (inc_nudge_count n), some (blocked_response rsp))

after_response :
    (Response → Bool)
    → (Response → Bool)
    → Block
    → ℕ
    → Response
    → Option Nudges
    → Option Nudges × Option Response
unfolding intercept
after_response is_tool_call is_final block_none max_nudges rsp n = (n, none)
after_response is_tool_call is_final _ max_nudges rsp n =
    if should_consider is_tool_call is_final rsp then intercept max_nudges rsp n else (n, none)

-- afterModel, over what evaluate says of the scope; `error` is the error of the arguments.
unfoldable pub after_model :
    (Response → Bool)
    → (Response → Bool)
    → Block
    → ℕ
    → (error : Option Text) → Option Response
    → Option Nudges
    → Option Nudges × Option Response
unfolding after_response
after_model is_tool_call is_final block max_nudges error none n = (n, none)
after_model is_tool_call is_final block max_nudges error (some rsp) n =
    if is_given error || is_given rsp.error
    then (n, none)
    else after_response is_tool_call is_final block max_nudges rsp n

abbrev nudged : Bool → (ℕ → Text) → Option Nudges → Request → Request
nudged pending message n req =
    if pending && not (is_nil (message (nudge_count n)))
    then record req { stream = false; messages = req.messages ++ (message (nudge_count n) ∷ []) }
    else record req { stream = false }

before_request : Block → (ℕ → Text) → Option Nudges → Request → Option Nudges × Request
before_request block_none message n req = (set_remind_pending false n, req)
before_request _ message n req =
    (set_remind_pending false n, nudged (remind_pending n) message n req)

-- beforeModel, over what evaluate says of the scope and the nudge's text at a count.
unfoldable pub before_model :
    Block → (ℕ → Text) → Option Request → Option Nudges → Option Nudges × Option Request
unfolding before_request
before_model block message none n = (n, none)
before_model block message (some req) n =
    let (n', req') = before_request block message n req in (n', some req')

-- The end of a nudge's text.
unfoldable pub reminder_count : ℕ → ℕ → Text
reminder_count max_nudges attempt =
    if ltb 0 max_nudges
    then codes "（第 " ++ decimal attempt ++ codes "/" ++ decimal max_nudges ++ codes " 次提醒）"
    else []
