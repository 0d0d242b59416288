-- ===== src/Taskrun/Cancel.antt =====
-- server/internal/taskrun/queue_service.go: Cancel.
pub mod Ended
pub mod Answers
use multiagent.Base.{ℕ, Bool, true, false, ◌||◌, Option, none, some, List, [], ◌∷◌, if◌then◌else◌}
use multiagent.Base.Text.{Text, text_eq, trim_space}
use multiagent.Taskrun.Run.{Status, queued, running, canceling, canceled, status_eq, Run}
use multiagent.Taskrun.Queue.{Row, MemoryQueue, update_status_if, get}
use multiagent.Taskrun.Service.{Outcome}

-- The answer of Cancel. `stop` says that the node itself runs the task and stops it at once.
pub data CancelAnswer : Type 0 where
  not_found : CancelAnswer
  unchanged : Run → CancelAnswer
  changed : Run → (stop : Bool) → CancelAnswer

-- What other nodes do between the read and the write of one attempt, and the clock there.
pub record Race : Type 0 where
  pub now : ℕ
  pub interfere : MemoryQueue → MemoryQueue

abbrev pub is_member : Text → List Text → Bool
is_member t [] = false
is_member t (u ∷ us) = text_eq u t || is_member t us

abbrev bare : Run → Row
bare run = record { run = run; worker_id = []; lease_expires_at = 0; attempts = 0 }

abbrev canceled_run : ℕ → Run → Run
canceled_run now run = record run { status = canceled; updated_at = now; finished_at = some now }

abbrev canceling_run : ℕ → Run → Run
canceling_run now run = record run { status = canceling; updated_at = now }

abbrev written : Run → Bool → MemoryQueue × Bool → Option (Outcome CancelAnswer)
written run stop (q, true) =
    some (record { queue = q; notified = run ∷ []; answer = changed run stop })
written run stop (q, false) = none

-- The `switch` of Cancel, on a task that is neither ended nor being canceled: `none` is a write
-- that found another status than the one read.
attempt : List Text → Text → ℕ → Run → MemoryQueue → Option (Outcome CancelAnswer)
attempt own run_id now run q =
    if status_eq run.status queued
    then written (canceled_run now run) false
        (update_status_if run_id queued canceled (some (bare (canceled_run now run))) now q)
    else written (canceling_run now run) (is_member run_id own)
        (update_status_if run_id running canceling (some (bare (canceling_run now run))) now q)

module _ (is_terminal : Status → Bool) (own : List Text) (run_id : Text) where
  abbrev is_settled : Run → Bool
  is_settled run = is_terminal run.status || status_eq run.status canceling

  -- One turn of Cancel: it reads in `q` and writes in `q'`.
  turn : ℕ → MemoryQueue → MemoryQueue → Option (Outcome CancelAnswer)
  unfolding attempt
  turn now q q' = elim (get run_id q) [
    | none ↦ some (record { queue = q; notified = []; answer = not_found })
    | some row ↦
        if is_settled row.run
        then some (record { queue = q; notified = []; answer = unchanged row.run })
        else attempt own run_id now row.run q'
  ]

  -- Cancel calls itself again after a lost race; `last` is the clock of the turn with no race.
  turns : List Race → ℕ → MemoryQueue → Option (Outcome CancelAnswer)
  turns [] last q = turn last q q
  turns (race ∷ races) last q =
      let again = turns races last (race.interfere q) in
      elim (turn race.now q (race.interfere q)) [ some out ↦ some out | none ↦ again ]

-- Cancel, on a node that runs the tasks `own`.
unfoldable pub cancel :
    (Status → Bool) → List Text → Text → List Race → ℕ → MemoryQueue → Option (Outcome CancelAnswer)
unfolding turns turn
cancel is_terminal own run_id races last q = turns is_terminal own (trim_space run_id) races last q
