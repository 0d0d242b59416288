-- ===== src/Taskrun/History.antt =====
-- Histories of the shared queue: the nodes' operations of queue_service.go in any order, with any
-- operations of other nodes between the reads and the writes of one.
use multiagent.Base.{ℕ, ◌≡◌, Bool, Option, some, List, [], ◌∷◌, All}
use multiagent.Base.Text.{Text}
use multiagent.Base.Int.{ℤ}
use multiagent.Base.Assoc.{lookup}
use multiagent.Taskrun.Run.{Status, Run, IsFinal}
use multiagent.Taskrun.Queue.{Row, MemoryQueue}
use multiagent.Taskrun.Queue.Writes.{KeepsFinal}
use multiagent.Taskrun.Service.{SpawnRequest, QueueOptions, spawn}
use multiagent.Taskrun.Service.Ended.{spawn-KeepsFinal}
use multiagent.Taskrun.Cancel.{Race, cancel}
use multiagent.Taskrun.Cancel.Ended.{queue_of, cancel-KeepsFinal}
use multiagent.Taskrun.Execute.{RunError, poll_once, finish, renew}
use multiagent.Taskrun.Execute.Ended.{poll_once-KeepsFinal, finish-KeepsFinal, renew-KeepsFinal}

mutual
  pub data Op : Type 0 where
    spawning : Bool → Text → ℕ → SpawnRequest → Op
    polling : Text → QueueOptions → (ℕ → ℕ) → Turns → Op
    cancelling : List Text → Text → Races → ℕ → Op
    finishing : Text → Option RunError → ℕ → Ops → Run → Op
    renewing : Text → ℤ → ℕ → Text → Ops → Op

  pub data Ops : Type 0 where
    nil : Ops
    cons : Op → Ops → Ops

  -- What the others do between the calls of a poll.
  pub data Turns : Type 0 where
    last : Turns
    turn : Ops → Turns → Turns

  pub data Races : Type 0 where
    unraced : Races
    raced : ℕ → Ops → Races → Races

mutual
  -- The queue after an operation, over the framework's `IsTerminal`.
  pub run_op : (Status → Bool) → Op → MemoryQueue → MemoryQueue
  run_op is_terminal (spawning started fresh now req) q = (spawn started fresh now req q).queue
  run_op is_terminal (polling node opts clock turns) q =
      (poll_once node opts clock (turns_of is_terminal turns) q).queue
  run_op is_terminal (cancelling own run_id races final) q =
      queue_of (cancel is_terminal own run_id (races_of is_terminal races) final q) q
  run_op is_terminal (finishing result run_err now between run) q =
      (finish result run_err now (run_ops is_terminal between) run q).queue
  run_op is_terminal (renewing node lease now run_id between) q =
      (renew node lease now run_id (run_ops is_terminal between) q).0

  pub run_ops : (Status → Bool) → Ops → MemoryQueue → MemoryQueue
  run_ops is_terminal nil q = q
  run_ops is_terminal (cons op ops) q = run_ops is_terminal ops (run_op is_terminal op q)

  turns_of : (Status → Bool) → Turns → List (MemoryQueue → MemoryQueue)
  turns_of is_terminal last = []
  turns_of is_terminal (turn ops turns) = run_ops is_terminal ops ∷ turns_of is_terminal turns

  races_of : (Status → Bool) → Races → List Race
  races_of is_terminal unraced = []
  races_of is_terminal (raced now ops races) =
      record { now = now; interfere = run_ops is_terminal ops } ∷ races_of is_terminal races

mutual
  unfolding run_op run_ops turns_of races_of

  run_op-KeepsFinal : (is_terminal : Status → Bool) (op : Op) → KeepsFinal (run_op is_terminal op)
  run_op-KeepsFinal t (spawning started fresh now req) = spawn-KeepsFinal started fresh now req
  run_op-KeepsFinal t (polling node opts clock turns) =
      poll_once-KeepsFinal node opts clock (turns_of t turns) (turns_of-KeepsFinal t turns)
  run_op-KeepsFinal t (cancelling own run_id races final) =
      cancel-KeepsFinal t own run_id (races_of t races) final (races_of-KeepsFinal t races)
  run_op-KeepsFinal t (finishing result run_err now between run) =
      finish-KeepsFinal (run_ops t between) (run_ops-KeepsFinal t between) result run_err now run
  run_op-KeepsFinal t (renewing node lease now run_id between) =
      renew-KeepsFinal (run_ops t between) (run_ops-KeepsFinal t between) node lease now run_id

  run_ops-KeepsFinal :
      (is_terminal : Status → Bool) (ops : Ops) → KeepsFinal (run_ops is_terminal ops)
  run_ops-KeepsFinal t nil q j row at f = at
  run_ops-KeepsFinal t (cons op ops) q j row at f =
      run_ops-KeepsFinal t ops (run_op t op q) j row (run_op-KeepsFinal t op q j row at f) f

  turns_of-KeepsFinal :
      (is_terminal : Status → Bool) (turns : Turns) → All KeepsFinal (turns_of is_terminal turns)
  turns_of-KeepsFinal t last = tt
  turns_of-KeepsFinal t (turn ops turns) = (run_ops-KeepsFinal t ops, turns_of-KeepsFinal t turns)

  races_of-KeepsFinal :
      (is_terminal : Status → Bool) (races : Races)
      → All (λ race. KeepsFinal race.interfere) (races_of is_terminal races)
  races_of-KeepsFinal t unraced = tt
  races_of-KeepsFinal t (raced now ops races) =
      (run_ops-KeepsFinal t ops, races_of-KeepsFinal t races)

-- A task that has ended stays as it is, its result and error included, through every history of
-- the nodes' operations.
pub ended_stays :
    (is_terminal : Status → Bool) (history : Ops) (q : MemoryQueue) (id : Text) (row : Row)
    → lookup id q.rows ≡ some row
    → IsFinal row.run.status
    → lookup id (run_ops is_terminal history q).rows ≡ some row
ended_stays is_terminal history q id row at f = run_ops-KeepsFinal is_terminal history q id row at f
