-- ===== src/Taskrun/Execute/Ends.antt =====
-- queue_service.go: how the end of an execution is written back.
use multiagent.Base.{
  ℕ, ◌≡◌, ◌≢◌, refl, ap, sym, subst, Bool, true, false, Option, some, [], ◌∷◌, arith, inl, inr,
  Option-cases, if◌then◌else◌,
}
use multiagent.Base.Text.{Text, text_eq, text_eq_iff}
use multiagent.Base.Int.{ℤ}
use multiagent.Base.Assoc.{lookup, lookup-map_values}
use multiagent.Taskrun.Run.{Status, running, canceling, canceled, Run, IsFinal}
use multiagent.Taskrun.Queue.{
  Row, MemoryQueue, clone_row, write_row, claimed, claim_next, expire_row, requeue_expired,
  non_negative,
}
use multiagent.Taskrun.Queue.Claims.{KeysMatch, claim_next-row}
use multiagent.Taskrun.Queue.Writes.{update_status_if-hit, update_status_if-miss, KeepsFinal}
use multiagent.Taskrun.Service.{Outcome}
use multiagent.Taskrun.Execute.{
  RunError, terminal_status, finished_run, final_row, write_back, finish,
}

pub terminal_status-IsFinal : (e : Option RunError) → IsFinal (terminal_status e).0
unfolding terminal_status
terminal_status-IsFinal e = ground arith

module _ (result : Text) (run_err : Option RunError) (now : ℕ) (other : MemoryQueue → MemoryQueue)
    (run : Run) (q : MemoryQueue) where
  abbrev ending : Run
  ending = finished_run result run_err now run

  -- The end of a task that is running is written: the row has the result, the error and the status
  -- that the error gives, with no worker and no lease; no other row changes, and the observer is
  -- told.
  pub finish-running :
      (cur : Row) (j : Text)
      → lookup run.id q.rows ≡ some cur
      → cur.run.status ≡ running
      → ((finish result run_err now other run q).answer ≡ true)
        × ((finish result run_err now other run q).notified ≡ ending ∷ [])
        × (lookup j (finish result run_err now other run q).queue.rows
            ≡ (if text_eq run.id j then some (clone_row (final_row ending)) else lookup j q.rows))
  unfolding finish write_back write_row
  finish-running cur j at is =
      let (wrote, rows) =
        update_status_if-hit run.id running ending.status (some (final_row ending)) now q cur j at
          (ground arith) in
      (ground arith, ground arith, ground arith)

  -- The first write passes over a task that is not running.
  finish-passed :
      (cur : Row)
      → lookup run.id q.rows ≡ some cur
      → cur.run.status ≢ running
      → finish result run_err now other run q ≡ write_back now other ending (q, false)
  unfolding finish
  finish-passed cur at is = rw (
      update_status_if-miss run.id running ending.status (some (final_row ending)) now q cur at
        (ground arith))

  -- A task that is being canceled ends as canceled, whatever its function returned.
  pub finish-canceling :
      (cur cur' : Row) (j : Text)
      → lookup run.id q.rows ≡ some cur
      → cur.run.status ≡ canceling
      → lookup run.id (other q).rows ≡ some cur'
      → cur'.run.status ≡ canceling
      → ((finish result run_err now other run q).answer ≡ true)
        × (lookup j (finish result run_err now other run q).queue.rows ≡ (
            if text_eq run.id j
            then some (clone_row (final_row (record ending { status = canceled })))
            else lookup j (other q).rows))
  unfolding write_back write_row
  finish-canceling cur cur' j at is at' is' =
      let (wrote, rows) =
        update_status_if-hit run.id canceling canceled
          (some (final_row (record ending { status = canceled }))) now (other q) cur' j at'
          (ground arith) in
      rw (finish-passed cur at (ground arith)) (ground arith, ground arith)

  -- The end of a task that others have dealt with is not written, and nobody is told.
  pub finish-overtaken :
      (cur cur' : Row)
      → lookup run.id q.rows ≡ some cur
      → cur.run.status ≢ running
      → lookup run.id (other q).rows ≡ some cur'
      → cur'.run.status ≢ canceling
      → finish result run_err now other run q
        ≡ record { queue = other q; notified = []; answer = false }
  unfolding write_back
  finish-overtaken cur cur' at is at' is' = rw (finish-passed cur at is) (
      rw (
        update_status_if-miss run.id canceling canceled
          (some (final_row (record ending { status = canceled }))) now (other q) cur' at'
          (ground arith)))

requeue_expired-KeysMatch :
    (now : ℕ) (max : ℤ) (q : MemoryQueue) → KeysMatch q → KeysMatch (requeue_expired now max q).0
unfolding requeue_expired
requeue_expired-KeysMatch now max q h j row at = elim (Option-cases (lookup j q.rows)) [
  | inl absent ↦
      absurd (ground (arith, lookup-map_values (expire_row now (non_negative max)) j q.rows))
  | inr (old, there) ↦
      ground (arith, lookup-map_values (expire_row now (non_negative max)) j q.rows, h j old)
]

module _ (worker : Text) (lease now : ℕ) (q : MemoryQueue) (match : KeysMatch q) (r : Row)
    (claim : (claim_next worker lease now q).1 ≡ some r) where
  -- The row of a task that was just handed out.
  handed_out :
      (cur : Row) × (lookup r.run.id (claim_next worker lease now q).0.rows ≡ some cur)
      × (cur.run.status ≡ running)
  unfolding clone_row
  handed_out =
      let (id, old, found, waits, is, at) = claim_next-row worker lease now q r r.run.id claim in
      let key : r.run.id ≡ id = ground (arith, match id old) in
      (claimed worker lease now old, ground (arith, text_eq_iff id r.run.id), refl)

-- The end that was written is there, and ended.
written_end :
    (result : Text) (run_err : Option RunError) (now : ℕ) (other : MemoryQueue → MemoryQueue)
    (run : Run) (q : MemoryQueue) (cur : Row)
    → lookup run.id q.rows ≡ some cur
    → cur.run.status ≡ running
    → (row : Row) × (lookup run.id (finish result run_err now other run q).queue.rows ≡ some row)
      × IsFinal row.run.status
unfolding clone_row
written_end result run_err now other run q cur at is = (
  clone_row (final_row (finished_run result run_err now run)),
  ground (
    arith,
    (finish-running result run_err now other run q cur run.id at is).2,
    text_eq_iff run.id run.id,
  ),
  terminal_status-IsFinal run_err,
)

final-ne-running : (s : Status) → IsFinal s → (s ≢ running) × (s ≢ canceling)
final-ne-running s f = (ground arith, ground arith)

-- The code does not ask whose lease it is. After a recovery of expired leases and a claim that
-- hands the task `run` out to another node, the node that has executed it until then writes its
-- end all the same, and the end that the other node reaches later is dropped.
pub late_finish_wins :
    (q : MemoryQueue) (run : Run) (r : Row) (expiry now lease t t' : ℕ) (max : ℤ) (worker : Text)
    (result result' : Text) (run_err run_err' : Option RunError)
    (other other' : MemoryQueue → MemoryQueue)
    → KeysMatch q
    → (claim_next worker lease now (requeue_expired expiry max q).0).1 ≡ some r
    → r.run.id ≡ run.id
    → KeepsFinal other'
    → let q' = (claim_next worker lease now (requeue_expired expiry max q).0).0 in
      let late = finish result run_err t other run q' in
      (late.answer ≡ true) × ((finish result' run_err' t' other' r.run late.queue).answer ≡ false)
late_finish_wins q run r expiry now lease t t' max worker result result' run_err run_err' other
      other' match claim same keeps =
    let q₁ : MemoryQueue = (requeue_expired expiry max q).0 in
    let q₂ : MemoryQueue = (claim_next worker lease now q₁).0 in
    let (cur, at, is) =
      handed_out worker lease now q₁ (requeue_expired-KeysMatch expiry max q match) r claim in
    let at' : lookup run.id q₂.rows ≡ some cur = rw (← same) at in
    let (row, there, ended) = written_end result run_err t other run q₂ cur at' is in
    let q₃ : MemoryQueue = (finish result run_err t other run q₂).queue in
    let there' : lookup r.run.id q₃.rows ≡ some row =
      subst (λ i. lookup i q₃.rows ≡ some row) (sym same) there in
    let (wrote, _, _) = finish-running result run_err t other run q₂ cur run.id at' is in
    (
      wrote,
      ap (λ (o : Outcome Bool). o.answer)
          (finish-overtaken result' run_err' t' other' r.run q₃ row row there'
            (final-ne-running row.run.status ended).0 (keeps q₃ r.run.id row there' ended)
            (final-ne-running row.run.status ended).1),
    )
