-- ===== src/Taskrun/Examples.antt =====
-- Runs of the queue and of the controller on small inputs.
use multiagent.Base.{
  ℕ, ◌≡◌, refl, Bool, true, false, none, some, List, [], ◌∷◌, arith, inl, if◌then◌else◌, sort_by,
  ◌+◌,
}
use multiagent.Base.Text.{Text, codes, text_eq, text_eq_iff, trim_space}
use multiagent.Base.Int.{pos}
use multiagent.Base.Assoc.{lookup, map_values, put, remove}
use multiagent.Taskrun.Run.{
  Status, queued, running, canceling, completed, failed, canceled, Run, TerminalLaws,
}
use multiagent.Taskrun.Queue.{Row, MemoryQueue, clone_row, claimed, claim_next, requeue_expired}
use multiagent.Taskrun.Queue.Claims.{
  Claim, claim_all, Distinct, KeysMatch, queued_at, IsClaim, claim_next-effect, claim_all-Distinct,
}
use multiagent.Taskrun.Service.{SpawnRequest, QueueOptions, Outcome}
use multiagent.Taskrun.Cancel.{Race, cancel}
use multiagent.Taskrun.Cancel.Answers.{Means, cancel-Means}
use multiagent.Taskrun.Cancel.{CancelAnswer}
use multiagent.Taskrun.Execute.{finish, poll_once}
use multiagent.Taskrun.Execute.Polls.{claim_next-AddsNone, poll_once-drained}
use multiagent.Taskrun.Execute.Ends.{late_finish_wins}
use multiagent.Taskrun.History.{
  Ops, polling, last, turn, nil, cons, spawning, cancelling, finishing, unraced, run_ops,
  ended_stays,
}

abbrev terminal : Status → Bool
terminal completed = true
terminal failed = true
terminal canceled = true
terminal _ = false

terminal_laws : TerminalLaws terminal
terminal_laws = record {
  queued_open = refl;
  running_open = refl;
  canceling_open = refl;
  completed_terminal = refl;
  failed_terminal = refl;
  canceled_terminal = refl;
}

abbrev task : Text → ℕ → Status → Run
task id created status = record {
  id = id;
  owner_user_id = codes "7";
  parent_session_id = codes "s";
  parent_app_name = [];
  app_name = [];
  agent_name = [];
  task = codes "build";
  child_session_id = [];
  request_id = [];
  status = status;
  result = [];
  error = [];
  progress = [];
  metadata = [];
  created_at = created;
  updated_at = created;
  finished_at = none;
}

abbrev row_of : Text → ℕ → Status → Text → ℕ → Row
row_of id created status worker lease = record {
  run = task id created status;
  worker_id = worker;
  lease_expires_at = lease;
  attempts = 0;
}

abbrev a : Text
a = codes "a"

abbrev b : Text
b = codes "b"

abbrev node_a : Text
node_a = codes "node-a"

abbrev node_b : Text
node_b = codes "node-b"

abbrev older : Row
older = row_of a 1 queued [] 0

abbrev newer : Row
newer = row_of b 2 queued [] 0

abbrev two_waiting : MemoryQueue
two_waiting = record { rows = (b, newer) ∷ (a, older) ∷ [] }

two_waiting-KeysMatch : KeysMatch two_waiting
unfolding lookup text_eq
two_waiting-KeysMatch j row e = ground (arith, text_eq_iff b j, text_eq_iff a j)

abbrev one_running : MemoryQueue
one_running = record { rows = (a, row_of a 1 running node_a 50) ∷ [] }

one_running-KeysMatch : KeysMatch one_running
unfolding lookup text_eq
one_running-KeysMatch j row e = ground (arith, text_eq_iff a j)

abbrev options : QueueOptions
options = record { poll_interval = pos 1; lease_duration = pos 30; max_attempts = pos 3 }

abbrev clock : ℕ → ℕ
clock i = 100 + i

abbrev request : SpawnRequest
request = record {
  id = a;
  owner_user_id = codes " 7 ";
  parent_session_id = codes "s";
  parent_app_name = [];
  run_options_app_name = [];
  app_name = [];
  agent_name = [];
  task = codes "build";
  child_session_id = [];
  request_id = [];
  metadata = [];
  timeout = pos 60;
}

abbrev quiet : MemoryQueue → MemoryQueue
quiet q = q

claim_next-effect_example :
    (id : Text) × (old : Row) × (new : Row) × (lookup id two_waiting.rows ≡ some old)
    × (old.run.status ≡ queued)
    × IsClaim node_a 90 60 old new
    × (clone_row (claimed node_a 90 60 older)
        ≡ record new { run = record new.run { progress = [] } })
    × (lookup b (claim_next node_a 90 60 two_waiting).0.rows
        ≡ (if text_eq id b then some new else lookup b two_waiting.rows))
unfolding claim_next lookup text_eq clone_row sort_by
claim_next-effect_example =
    claim_next-effect node_a 90 60 two_waiting (clone_row (claimed node_a 90 60 older)) b refl

abbrev three_calls : List Claim
three_calls =
    record { worker = node_a; lease = 90; now = 60 }
    ∷ record { worker = node_b; lease = 91; now = 61 }
    ∷ record { worker = node_a; lease = 92; now = 62 }
    ∷ []

claim_all-Distinct_example : Distinct (claim_all three_calls two_waiting)
claim_all-Distinct_example = claim_all-Distinct three_calls two_waiting two_waiting-KeysMatch

claim_all_two : claim_all three_calls two_waiting ≡ a ∷ b ∷ []
unfolding claim_all claim_next lookup text_eq sort_by put remove clone_row
claim_all_two = refl

abbrev race_lost : Race
race_lost = record { now = 70; interfere = λ q. (claim_next node_b 90 60 q).0 }

cancel-Means_example :
    (o : Outcome CancelAnswer) × (cancel terminal [] a (race_lost ∷ []) 71 two_waiting ≡ some o)
    × Means terminal (trim_space a) o.answer o.queue
cancel-Means_example = cancel-Means terminal [] a (race_lost ∷ []) 71 two_waiting terminal_laws

-- Another node claims a task before this one's first claim.
abbrev meanwhile : List (MemoryQueue → MemoryQueue)
meanwhile = (λ q. (claim_next node_b 90 60 q).0) ∷ quiet ∷ quiet ∷ []

poll_once-drained_example :
    ((poll_once node_a options clock meanwhile two_waiting).returned ≡ true)
    × (queued_at (poll_once node_a options clock meanwhile two_waiting).queue a ≡ false)
poll_once-drained_example =
    poll_once-drained node_a options clock meanwhile two_waiting a
      (claim_next-AddsNone node_b 90 60, (λ q. omega arith, (λ q. omega arith, tt))) (omega arith)

abbrev one_canceling : MemoryQueue
one_canceling = record { rows = (a, row_of a 1 canceling node_a 50) ∷ [] }

abbrev one_ended : MemoryQueue
one_ended = record { rows = (a, row_of a 1 completed [] 0) ∷ [] }

abbrev taken_over : Row
taken_over = record (row_of a 1 running node_b 90) {
  attempts = 1;
  run = record (task a 1 running) { updated_at = 60 };
}

late_finish_wins_example :
    ((finish
        (codes "old")
        none
        70
        quiet
        (task a 1 running)
        (claim_next node_b 90 60 (requeue_expired 60 (pos 3) one_running).0).0).answer
      ≡ true)
    × ((finish
          (codes "new")
          none
          80
          quiet
          taken_over.run
          (finish
            (codes "old")
            none
            70
            quiet
            (task a 1 running)
            (claim_next node_b 90 60 (requeue_expired 60 (pos 3) one_running).0).0).queue).answer
        ≡ false)
unfolding claim_next requeue_expired lookup text_eq clone_row sort_by map_values
late_finish_wins_example =
    late_finish_wins one_running (task a 1 running) taken_over 60 60 90 70 80 (pos 3) node_b
      (codes "old") (codes "new") none none quiet quiet one_running-KeysMatch refl refl
      (λ q id row at f. at)

-- The queue starts empty, a task is spawned, claimed, and then canceled while its end is written.
abbrev busy_history : Ops
busy_history =
    cons (polling node_a options clock (turn (cons (spawning true b 69 request) nil) last)) (
      cons (spawning true b 70 request) (
        cons (cancelling [] a unraced 71)
          (cons (finishing (codes "late") none 72 nil (task a 1 running)) nil)))

ended_stays_example :
    lookup a (run_ops terminal busy_history one_ended).rows ≡ some (row_of a 1 completed [] 0)
unfolding lookup text_eq
ended_stays_example =
    ended_stays terminal busy_history one_ended a (row_of a 1 completed [] 0) refl (inl refl)
