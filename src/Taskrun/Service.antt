-- ===== src/Taskrun/Service.antt =====
-- server/internal/taskrun/queue_service.go: the controller that every node runs over the shared
-- queue. An operation takes the queue and returns it with its answer and the runs of which it
-- tells the observer. What other nodes do between its read and its write is an argument.
pub mod Ended
pub mod Requests
use multiagent.Base.{
  ℕ, zero, suc, ◌+◌, ◌-◌, ◌*◌, ◌≤◌, Bool, true, false, ◌&&◌, ◌||◌, not, Option, none, some, List,
  [], ◌∷◌, ◌++◌, length, take, ltb, leb, if◌then◌else◌, is_nil, Answer, ok, err,
}
use multiagent.Base.Text.{Text, codes, text_eq, trim_space}
use multiagent.Base.Decimal.{decimal, atoi}
use multiagent.Base.Int.{ℤ, pos, negsuc}
use multiagent.Base.Assoc.{Assoc, lookup, put}
use multiagent.Taskrun.Run.{
  Status, queued, running, canceling, completed, failed, canceled, status_eq, Run,
}
use multiagent.Taskrun.Queue.{Row, MemoryQueue, QueueError, enqueue}

abbrev pub is_positive : ℤ → Bool
is_positive (pos zero) = false
is_positive (pos (suc n)) = true
is_positive (negsuc n) = false

pub record QueueOptions : Type 0 where
  pub poll_interval : ℤ
  pub lease_duration : ℤ
  pub max_attempts : ℤ

abbrev pub second : ℕ
second = 1_000_000_000

abbrev or_default : ℤ → ℕ → ℤ
or_default n d = if is_positive n then n else pos d

-- NewQueueService: the options in force, defaults put in.
unfoldable pub new_options : QueueOptions → QueueOptions
new_options opts = record {
  poll_interval = or_default opts.poll_interval second;
  lease_duration = or_default opts.lease_duration (30 * second);
  max_attempts = or_default opts.max_attempts 3;
}

pub record SpawnRequest : Type 0 where
  pub id : Text
  pub owner_user_id : Text
  pub parent_session_id : Text
  pub parent_app_name : Text
  pub run_options_app_name : Text
  pub app_name : Text
  pub agent_name : Text
  pub task : Text
  pub child_session_id : Text
  pub request_id : Text
  pub metadata : Assoc Text
  pub timeout : ℤ

pub data SpawnError : Type 0 where
  not_started empty_owner empty_parent empty_task already_exists : SpawnError

-- validateQueueSpawnRequest
unfoldable pub validate : SpawnRequest → Option SpawnError
validate req =
    if is_nil (trim_space req.owner_user_id)
    then some empty_owner
    else if is_nil (trim_space req.parent_session_id)
    then some empty_parent
    else if is_nil (trim_space req.task)
    then some empty_task
    else none

-- The nanoseconds from Go's zero time to 1970.
abbrev unix_epoch : ℕ
unix_epoch = 62_135_596_800 * second

abbrev or_else : Text → Text → Text
or_else s t = if is_nil s then t else s

-- queueChildSessionID, queueRequestID
unfoldable pub stamped_id : Text → ℕ → Text
stamped_id run_id now =
    codes "taskrun:" ++ (trim_space run_id ++ (codes ":" ++ decimal (now - unix_epoch)))

-- queueAppNameForSpawn
app_name_for : SpawnRequest → Text
app_name_for req = or_else (trim_space req.run_options_app_name) (trim_space req.app_name)

abbrev pub timeout_key : Text
timeout_key = codes "taskrun.queue.timeout_ns"

unfoldable pub with_timeout : ℤ → Assoc Text → Assoc Text
with_timeout (pos (suc n)) metadata = put timeout_key (decimal (suc n)) metadata
with_timeout _ metadata = metadata

-- queueRunTimeout: 0 for no timeout.
abbrev timeout_of : Option ℤ → ℕ
timeout_of none = 0
timeout_of (some (pos n)) = n
timeout_of (some (negsuc n)) = 0

unfoldable pub run_timeout : Run → ℕ
run_timeout run = elim (lookup timeout_key run.metadata) [ none ↦ 0 | some v ↦ timeout_of (atoi v) ]

-- The run that Spawn puts into the queue; `fresh` is the uuid that it draws.
unfoldable pub spawn_run : Text → ℕ → SpawnRequest → Run
unfolding app_name_for
spawn_run fresh now req =
    let run_id = or_else (trim_space req.id) fresh in
    record {
      id = run_id;
      owner_user_id = trim_space req.owner_user_id;
      parent_session_id = trim_space req.parent_session_id;
      parent_app_name = trim_space req.parent_app_name;
      app_name = app_name_for req;
      agent_name = trim_space req.agent_name;
      task = trim_space req.task;
      child_session_id = or_else (trim_space req.child_session_id) (stamped_id run_id now);
      request_id = or_else (trim_space req.request_id) (stamped_id run_id now);
      status = queued;
      result = [];
      error = [];
      progress = [];
      metadata = with_timeout req.timeout req.metadata;
      created_at = now;
      updated_at = now;
      finished_at = none;
    }

-- The state after an operation, and the runs of which the observer was told.
pub record Outcome (A : Type 0) : Type 0 where
  pub queue : MemoryQueue
  pub notified : List Run
  pub answer : A

spawned : Run → MemoryQueue × Option QueueError → Outcome (Answer SpawnError Run)
spawned run (q, none) = record { queue = q; notified = run ∷ []; answer = ok run }
spawned run (q, some e) = record { queue = q; notified = []; answer = err already_exists }

refused : SpawnError → MemoryQueue → Outcome (Answer SpawnError Run)
refused e q = record { queue = q; notified = []; answer = err e }

enqueue_run : Run → MemoryQueue → Outcome (Answer SpawnError Run)
unfolding spawned
enqueue_run run q =
    spawned run
      (enqueue (record { run = run; worker_id = []; lease_expires_at = 0; attempts = 0 }) q)

-- Spawn; `started` says whether Start has been called.
unfoldable pub spawn :
    Bool → Text → ℕ → SpawnRequest → MemoryQueue → Outcome (Answer SpawnError Run)
unfolding enqueue_run refused
spawn started fresh now req q =
    if started
    then elim (validate req) [
      | some e ↦ refused e q
      | none ↦ enqueue_run (spawn_run fresh now req) q
    ]
    else refused not_started q
