-- ===== src/Taskrun/Queue/Recovery.antt =====
-- memory.go: what RequeueExpired does to the rows of nodes that stopped renewing their lease.
use multiagent.Base.{ℕ, ◌+◌, ◌≡◌, some, arith, ltb, if◌then◌else◌}
use multiagent.Base.Text.{Text}
use multiagent.Base.Int.{ℤ}
use multiagent.Base.Assoc.{lookup, lookup-map_values, map_option}
use multiagent.Taskrun.Run.{queued, running, canceling, canceled, failed, status_eq}
use multiagent.Taskrun.Queue.{
  Row, MemoryQueue, released, is_expired, expire_row, non_negative, requeue_expired,
}

-- What becomes of one row whose lease has run out.
abbrev pub recovered : ℕ → ℕ → Row → Row
recovered now max row =
    if status_eq row.run.status canceling
    then released canceled now row
    else if status_eq row.run.status running
    then (if ltb row.attempts max
        then record (released queued now row) { attempts = row.attempts + 1 }
        else released failed now row)
    else row

expire_row-recovered :
    (now max : ℕ) (row : Row)
    → expire_row now max row ≡ (if is_expired now row then recovered now max row else row)
unfolding expire_row
expire_row-recovered now max row = ground arith

module _ (now : ℕ) (max_attempts : ℤ) (q : MemoryQueue) where
  abbrev after : MemoryQueue
  after = (requeue_expired now max_attempts q).0

  lookup-after :
      (id : Text)
      → lookup id after.rows
        ≡ map_option (expire_row now (non_negative max_attempts)) (lookup id q.rows)
  unfolding requeue_expired
  lookup-after id = lookup-map_values (expire_row now (non_negative max_attempts)) id q.rows

  -- RequeueExpired leaves a row whose lease still runs as it is; a row with no lease or a lease
  -- that has run out goes from canceling to canceled, and from running back to queued with one
  -- more attempt, or to failed if it has used its attempts up; it frees the row of its worker and
  -- lease. A row in any other status stays.
  pub requeue_expired-row :
      (id : Text) (row : Row)
      → lookup id q.rows ≡ some row
      → lookup id after.rows
        ≡ some (if is_expired now row then recovered now (non_negative max_attempts) row else row)
  requeue_expired-row id row at =
      ground (arith, lookup-after id, expire_row-recovered now (non_negative max_attempts) row)
