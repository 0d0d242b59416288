-- ===== src/Taskrun/Execute.antt =====
-- server/internal/taskrun/queue_service.go: the poller, the end of a task's execution, the renewal
-- of its lease and the watch for its cancellation.
pub mod Ended
pub mod Ends
pub mod Polls
use multiagent.Base.{
  ℕ, zero, suc, ◌+◌, ◌≤◌, Bool, true, false, Option, none, some, List, [], ◌∷◌, ◌++◌, length, take,
  leb, if◌then◌else◌,
}
use multiagent.Base.Text.{Text, codes, trim_space}
use multiagent.Base.Int.{ℤ}
use multiagent.Taskrun.Run.{
  Status, queued, running, canceling, completed, failed, canceled, status_eq, Run,
}
use multiagent.Taskrun.Queue.{
  Row, MemoryQueue, claim_next, update_status_if, requeue_expired, get, non_negative,
}
use multiagent.Taskrun.Service.{QueueOptions, Outcome}

-- What a poll has come to: the queue, the tasks that the node starts to execute, and whether the
-- poll has returned.
pub record Polled : Type 0 where
  pub queue : MemoryQueue
  pub started : List Row
  pub returned : Bool

abbrev starting : Row → Polled → Polled
starting row p = record p { started = row ∷ p.started }

-- The claims of one poll. `clock` gives the readings of the clock in turn. The queue is not locked
-- from one call to the next: `others` is what other nodes do before each ClaimNext, and where it
-- ends the poll is seen before its next call.
claim_loop : List (MemoryQueue → MemoryQueue) → Text → ℤ → (ℕ → ℕ) → ℕ → MemoryQueue → Polled
claim_loop [] node lease clock i q = record { queue = q; started = []; returned = false }
claim_loop (other ∷ others) node lease clock i q =
    let (q', row) = claim_next node (clock i + non_negative lease) (clock i) (other q) in
    let rest = claim_loop others node lease clock (i + 1) q' in
    elim row [
      | none ↦ record { queue = q'; started = []; returned = true }
      | some r ↦ starting r rest
    ]

-- pollOnce
unfoldable pub poll_once :
    Text → QueueOptions → (ℕ → ℕ) → List (MemoryQueue → MemoryQueue) → MemoryQueue → Polled
unfolding claim_loop
poll_once node opts clock others q =
    claim_loop others node opts.lease_duration clock 1
      (requeue_expired (clock 0) opts.max_attempts q).0

-- The error of the function that executes a task, by what `errors.Is` finds in it.
pub data RunError : Type 0 where
  context_canceled : RunError
  deadline_exceeded other_error : (message : Text) → RunError

-- queueTerminalStatus
unfoldable pub terminal_status : Option RunError → Status × Text
terminal_status none = (completed, [])
terminal_status (some context_canceled) = (canceled, [])
terminal_status (some (deadline_exceeded message)) = (failed, codes "run 超时: " ++ message)
terminal_status (some (other_error message)) = (failed, message)

abbrev pub default_result_runes : ℕ
default_result_runes = 20_000

-- queueTrimResult
unfoldable pub trim_result : Text → Text
trim_result text =
    let trimmed = trim_space text in
    if leb (length trimmed) default_result_runes then trimmed else take default_result_runes trimmed

-- The run as executeLeased writes it back.
abbrev pub finished_run : Text → Option RunError → ℕ → Run → Run
finished_run result run_err now run =
    let (status, error) = terminal_status run_err in
    record run {
      result = trim_result result;
      updated_at = now;
      finished_at = some now;
      status = status;
      error = error;
    }

abbrev pub final_row : Run → Row
final_row run = record { run = run; worker_id = []; lease_expires_at = 0; attempts = 0 }

abbrev told : Run → MemoryQueue × Bool → Outcome Bool
told run (q, true) = record { queue = q; notified = run ∷ []; answer = true }
told run (q, false) = record { queue = q; notified = []; answer = false }

-- The two writes of executeLeased: from running to the end that was reached, else from canceling
-- to canceled. The answer says whether the end was written. `other` is what other nodes do between
-- the two writes.
write_back : ℕ → (MemoryQueue → MemoryQueue) → Run → MemoryQueue × Bool → Outcome Bool
write_back now other run (q, true) = told run (q, true)
write_back now other run (q, false) =
    let run' = record run { status = canceled } in
    told run' (update_status_if run.id canceling canceled (some (final_row run')) now (other q))

-- The end of executeLeased, after the task's function has returned.
unfoldable pub finish :
    Text → Option RunError → ℕ → (MemoryQueue → MemoryQueue) → Run → MemoryQueue → Outcome Bool
unfolding write_back
finish result run_err now other run q =
    let run' = finished_run result run_err now run in
    write_back now other run'
      (update_status_if run.id running run'.status (some (final_row run')) now q)

-- What a tick of leaseKeepAlive does: go on, end quietly, or stop the execution.
pub data Renewal : Type 0 where
  renewed ended stopped : Renewal

renewal : MemoryQueue × Bool → MemoryQueue × Renewal
renewal (q, true) = (q, renewed)
renewal (q, false) = (q, stopped)

renew_row :
    Text → ℤ → ℕ → Text → (MemoryQueue → MemoryQueue) → MemoryQueue → Row → MemoryQueue × Renewal
unfolding renewal
renew_row node lease now run_id other q row =
    if status_eq row.run.status running
    then renewal (
        update_status_if run_id running running
          (some (record row { worker_id = node; lease_expires_at = now + non_negative lease })) now
          (other q))
    else (q, ended)

-- One tick of leaseKeepAlive; `other` is what other nodes do between its read and its write.
unfoldable pub renew :
    Text → ℤ → ℕ → Text → (MemoryQueue → MemoryQueue) → MemoryQueue → MemoryQueue × Renewal
unfolding renew_row
renew node lease now run_id other q = elim (get run_id q) [
  | none ↦ (q, stopped)
  | some row ↦ renew_row node lease now run_id other q row
]

-- One tick of cancelWatcher: whether it goes on, ends, or stops the execution.
pub data Watch : Type 0 where
  watching left stopping : Watch

unfoldable pub watch : (Status → Bool) → Text → MemoryQueue → Watch
watch is_terminal run_id q = elim (get run_id q) [
  | none ↦ left
  | some row ↦
      if status_eq row.run.status canceling
      then stopping
      else if is_terminal row.run.status
      then left
      else watching
]
