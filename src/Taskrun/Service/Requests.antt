-- ===== src/Taskrun/Service/Requests.antt =====
-- queue_service.go: what Spawn accepts, what it puts into the queue, and the timeout that travels
-- with the run.
use multiagent.Base.{
  ℕ, suc, ◌<◌, ◌≡◌, ◌≢◌, refl, Bool, none, some, [], ◌∷◌, arith, if◌then◌else◌, Answer, ok, err,
}
use multiagent.Base.Text.{Text, text_eq, text_eq_iff, trim_space}
use multiagent.Base.Decimal.{decimal, atoi-decimal, int_limit}
use multiagent.Base.Int.{pos}
use multiagent.Base.Assoc.{lookup, lookup-put}
use multiagent.Taskrun.Run.{Run}
use multiagent.Taskrun.Queue.{Row, MemoryQueue, enqueue, clone_row}
use multiagent.Taskrun.Service.{
  SpawnRequest, SpawnError, Outcome, validate, spawn_run, spawned, enqueue_run, refused, spawn,
  run_timeout, timeout_key, with_timeout,
}

-- A positive timeout that an int64 holds comes back from the run's metadata, on whichever node
-- reads the run.
pub run_timeout-spawn_run :
    (fresh : Text) (now n : ℕ) (req : SpawnRequest)
    → req.timeout ≡ pos (suc n)
    → suc n < int_limit
    → run_timeout (spawn_run fresh now req) ≡ suc n
unfolding run_timeout spawn_run with_timeout
run_timeout-spawn_run fresh now n req e small =
    rw (e, with_timeout)
      (ground (
        arith,
        lookup-put timeout_key timeout_key (decimal (suc n)) req.metadata,
        text_eq_iff timeout_key timeout_key,
        atoi-decimal (suc n),
      ))

abbrev pub fresh_row : Run → Row
fresh_row run = record { run = run; worker_id = []; lease_expires_at = 0; attempts = 0 }

module _ (run : Run) (q : MemoryQueue) where
  enqueue_run-ok :
      (got : Run) (j : Text)
      → (enqueue_run run q).answer ≡ ok got
      → (got ≡ run)
        × (run.id ≢ [])
        × (lookup run.id q.rows ≡ none)
        × ((enqueue_run run q).notified ≡ run ∷ [])
        × (lookup j (enqueue_run run q).queue.rows
            ≡ (if text_eq run.id j then some (clone_row (fresh_row run)) else lookup j q.rows))
  unfolding enqueue_run spawned enqueue
  enqueue_run-ok got j e = (
    ground arith,
    ground arith,
    ground arith,
    ground arith,
    ground (arith, lookup-put run.id j (clone_row (fresh_row run)) q.rows),
  )

  enqueue_run-err :
      (x : SpawnError)
      → (enqueue_run run q).answer ≡ err x
      → ((enqueue_run run q).queue ≡ q) × ((enqueue_run run q).notified ≡ [])
  unfolding enqueue_run spawned enqueue
  enqueue_run-err x e = (ground arith, ground arith)

validate-none :
    (req : SpawnRequest)
    → validate req ≡ none
    → (trim_space req.owner_user_id ≢ [])
      × (trim_space req.parent_session_id ≢ [])
      × (trim_space req.task ≢ [])
unfolding validate
validate-none req e = (ground arith, ground arith, ground arith)

spawn_run-fields :
    (fresh : Text) (now : ℕ) (req : SpawnRequest)
    → ((spawn_run fresh now req).owner_user_id ≡ trim_space req.owner_user_id)
      × ((spawn_run fresh now req).parent_session_id ≡ trim_space req.parent_session_id)
      × ((spawn_run fresh now req).task ≡ trim_space req.task)
unfolding spawn_run
spawn_run-fields fresh now req = (refl, refl, refl)

module _ (started : Bool) (fresh : Text) (now : ℕ) (req : SpawnRequest) (q : MemoryQueue) where
  abbrev outcome : Outcome (Answer SpawnError Run)
  outcome = spawn started fresh now req q

  spawn_through :
      (run : Run)
      → outcome.answer ≡ ok run
      → (validate req ≡ none) × (outcome ≡ enqueue_run (spawn_run fresh now req) q)
  unfolding spawn refused
  spawn_through run e = ground arith

  -- A run that Spawn returns is the one made from the request, with an owner, a parent session and
  -- a task; it waits in the queue under an id that was free; no other row changes, and the
  -- observer is told.
  pub spawn-ok :
      (run : Run) (j : Text)
      → outcome.answer ≡ ok run
      → (run ≡ spawn_run fresh now req)
        × (run.owner_user_id ≢ [])
        × (run.parent_session_id ≢ [])
        × (run.task ≢ [])
        × (lookup run.id q.rows ≡ none)
        × (outcome.notified ≡ run ∷ [])
        × (lookup j outcome.queue.rows
            ≡ (if text_eq run.id j then some (clone_row (fresh_row run)) else lookup j q.rows))
  unfolding spawn refused
  spawn-ok run j e =
      let (valid, through) = spawn_through run e in
      let run' : Run = spawn_run fresh now req in
      let (is, has_id, free, told, row) = enqueue_run-ok run' q run j (rw through at e) in
      let (owner, parent, task) = validate-none req valid in
      let (o, p, t) = spawn_run-fields fresh now req in
      (
        is,
        rw (is, o) owner,
        rw (is, p) parent,
        rw (is, t) task,
        rw is free,
        rw (through, is) told,
        rw (through, is) row,
      )

  -- Where Spawn returns an error, the queue is as it was and nobody is told.
  pub spawn-err :
      (x : SpawnError) → outcome.answer ≡ err x → (outcome.queue ≡ q) × (outcome.notified ≡ [])
  unfolding spawn refused
  spawn-err x e = ground (arith, enqueue_run-err (spawn_run fresh now req) q x)
