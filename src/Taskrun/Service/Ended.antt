-- ===== src/Taskrun/Service/Ended.antt =====
-- queue_service.go: Spawn and the tasks that have ended.
use multiagent.Base.{ℕ, ◌≡◌, Bool, true, false, Option, [], arith, inl, inr, Option-cases}
use multiagent.Base.Text.{Text}
use multiagent.Taskrun.Run.{Run}
use multiagent.Taskrun.Queue.{Row, MemoryQueue, QueueError, enqueue}
use multiagent.Taskrun.Queue.Writes.{KeepsFinal, enqueue-KeepsFinal}
use multiagent.Taskrun.Service.{SpawnRequest, validate, spawn_run, spawned, enqueue_run, spawn}

queue-spawned : (run : Run) (e : MemoryQueue × Option QueueError) → (spawned run e).queue ≡ e.0
unfolding spawned
queue-spawned run e = ground arith

enqueue_run-KeepsFinal : (run : Run) → KeepsFinal (λ q. (enqueue_run run q).queue)
unfolding enqueue_run
enqueue_run-KeepsFinal run q j row at f =
    let fresh : Row = record { run = run; worker_id = []; lease_expires_at = 0; attempts = 0 } in
    rw (queue-spawned run (enqueue fresh q)) (enqueue-KeepsFinal fresh q j row at f)

pub spawn-KeepsFinal :
    (started : Bool) (fresh : Text) (now : ℕ) (req : SpawnRequest)
    → KeepsFinal (λ q. (spawn started fresh now req q).queue)
unfolding spawn
spawn-KeepsFinal false fresh now req q j row at f = at
spawn-KeepsFinal true fresh now req q j row at f = elim (Option-cases (validate req)) [
  | inl good ↦ rw good (enqueue_run-KeepsFinal (spawn_run fresh now req) q j row at f)
  | inr (e, bad) ↦ rw bad at
]
