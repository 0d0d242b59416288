-- ===== src/Taskrun/Execute/Ended.antt =====
-- queue_service.go: the poller, the end of an execution and the renewal, and the tasks that have
-- ended.
use multiagent.Base.{
  ℕ, ◌+◌, ◌≡◌, refl, Bool, true, false, Option, some, arith, inl, inr, Option-cases, All, List, [],
  ◌∷◌,
}
use multiagent.Base.Text.{Text}
use multiagent.Base.Int.{ℤ}
use multiagent.Base.Assoc.{lookup}
use multiagent.Taskrun.Run.{running, canceling, canceled, Run, IsFinal}
use multiagent.Taskrun.Queue.{Row, MemoryQueue, claim_next, requeue_expired, get, non_negative}
use multiagent.Taskrun.Queue.Writes.{
  KeepsFinal, claim_next-KeepsFinal, requeue_expired-KeepsFinal, update_status_if-KeepsFinal,
}
use multiagent.Taskrun.Service.{QueueOptions}
use multiagent.Taskrun.Execute.{
  RunError, claim_loop, poll_once, finished_run, final_row, write_back, finish, renew_row, renew,
}

claim_loop-KeepsFinal :
    (others : List (MemoryQueue → MemoryQueue)) (node : Text) (lease : ℤ) (clock : ℕ → ℕ) (i : ℕ)
    → All KeepsFinal others
    → KeepsFinal (λ q. (claim_loop others node lease clock i q).queue)
unfolding claim_loop
claim_loop-KeepsFinal [] node lease clock i keeps q j row at f = at
claim_loop-KeepsFinal (other ∷ others) node lease clock i (k, keeps) q j row at f =
    let now : ℕ = clock i in
    let q' : MemoryQueue = (claim_next node (now + non_negative lease) now (other q)).0 in
    let kept : lookup j q'.rows ≡ some row =
      claim_next-KeepsFinal node (now + non_negative lease) now (other q) j row (k q j row at f)
        f in
    ground (arith, claim_loop-KeepsFinal others node lease clock (i + 1) keeps q' j row kept f)

pub poll_once-KeepsFinal :
    (node : Text) (opts : QueueOptions) (clock : ℕ → ℕ) (others : List (MemoryQueue → MemoryQueue))
    → All KeepsFinal others
    → KeepsFinal (λ q. (poll_once node opts clock others q).queue)
unfolding poll_once
poll_once-KeepsFinal node opts clock others keeps q j row at f =
    claim_loop-KeepsFinal others node opts.lease_duration clock 1 keeps
      (requeue_expired (clock 0) opts.max_attempts q).0 j row
      (requeue_expired-KeepsFinal (clock 0) opts.max_attempts q j row at f) f

module _ (other : MemoryQueue → MemoryQueue) (keeps : KeepsFinal other) where
  write_back-KeepsFinal :
      (now : ℕ) (run : Run) (q : MemoryQueue) (done : Bool) (j : Text) (row : Row)
      → lookup j q.rows ≡ some row
      → IsFinal row.run.status
      → lookup j (write_back now other run (q, done)).queue.rows ≡ some row
  unfolding write_back
  write_back-KeepsFinal now run q true j row at f = at
  write_back-KeepsFinal now run q false j row at f = ground (
    arith,
    update_status_if-KeepsFinal run.id canceling canceled
        (some (final_row (record run { status = canceled }))) now (inr (inr refl)) (other q) j row
        (keeps q j row at f) f,
  )

  pub finish-KeepsFinal :
      (result : Text) (run_err : Option RunError) (now : ℕ) (run : Run)
      → KeepsFinal (λ q. (finish result run_err now other run q).queue)
  unfolding finish
  finish-KeepsFinal result run_err now run q j row at f =
      let run' : Run = finished_run result run_err now run in
      write_back-KeepsFinal now run' _ _ j row
        (update_status_if-KeepsFinal run.id running run'.status (some (final_row run')) now
          (inr (inl refl)) q j row at f)
        f

  renew_row-KeepsFinal :
      (node : Text) (lease : ℤ) (now : ℕ) (run_id : Text) (old : Row)
      → KeepsFinal (λ q. (renew_row node lease now run_id other q old).0)
  unfolding renew_row
  renew_row-KeepsFinal node lease now run_id old q j row at f = ground (
    arith,
    update_status_if-KeepsFinal run_id running running
        (some (record old { worker_id = node; lease_expires_at = now + non_negative lease })) now
        (inr (inl refl)) (other q) j row (keeps q j row at f) f,
  )

  pub renew-KeepsFinal :
      (node : Text) (lease : ℤ) (now : ℕ) (run_id : Text)
      → KeepsFinal (λ q. (renew node lease now run_id other q).0)
  unfolding renew
  renew-KeepsFinal node lease now run_id q j row at f = elim (Option-cases (get run_id q)) [
    | inl gone ↦ rw (gone, renew) at
    | inr (old, there) ↦
        rw (there, renew) (renew_row-KeepsFinal node lease now run_id old q j row at f)
  ]
