-- ===== src/Taskrun/Queue.antt =====
-- server/internal/taskrun/queue: queue.go (a row and the errors) and memory.go, the queue in
-- memory. The proofs are in the modules below.
pub mod Claims
pub mod Recovery
pub mod Writes
use multiagent.Base.{
  ℕ, zero, suc, ◌+◌, Bool, true, false, ◌&&◌, ◌||◌, not, Option, none, some, List, [], ◌∷◌, map,
  ltb, leb, ◌==◌, if◌then◌else◌, is_nil, sort_by, by_key,
}
use multiagent.Base.Text.{Text, text_eq}
use multiagent.Base.Int.{ℤ, pos, negsuc}
use multiagent.Base.Assoc.{Assoc, lookup, put, map_values}
use multiagent.Taskrun.Run.{
  Status, queued, running, canceling, canceled, failed, status_eq, Run, ListFilter,
}

pub data QueueError : Type 0 where
  run_already_exists run_not_found : QueueError

pub record Row : Type 0 where
  pub run : Run
  pub worker_id : Text
  pub lease_expires_at : ℕ
  pub attempts : ℕ

pub record MemoryQueue : Type 0 where
  pub rows : Assoc Row

abbrev pub empty : MemoryQueue
empty = record { rows = [] }

-- cloneRow
unfoldable pub clone_row : Row → Row
clone_row row = record row { run = record row.run { progress = [] } }

unfoldable pub enqueue : Row → MemoryQueue → MemoryQueue × Option QueueError
unfolding clone_row
enqueue row q =
    if is_nil row.run.id then (q, some run_already_exists) else elim (lookup row.run.id q.rows) [
      | some old ↦ (q, some run_already_exists)
      | none ↦ (record { rows = put row.run.id (clone_row row) q.rows }, none)
    ]

keys : Assoc Row → List Text
keys [] = []
keys ((k, row) ∷ rows) = k ∷ keys rows

abbrev created_of : Option Row → ℕ
created_of none = 0
created_of (some row) = row.run.created_at

-- The ids, those created first in front.
sorted_ids : Assoc Row → List Text
unfolding keys
sorted_ids rows = sort_by (by_key (λ id. created_of (lookup id rows))) (keys rows)

-- The loop of ClaimNext over the sorted ids.
first_queued : Assoc Row → List Text → Option (Text × Row)
first_queued rows [] = none
first_queued rows (id ∷ ids) =
    let rest = first_queued rows ids in
    elim (lookup id rows) [
      | none ↦ rest
      | some row ↦ if status_eq row.run.status queued then some (id, row) else rest
    ]

abbrev pub claimed : Text → ℕ → ℕ → Row → Row
claimed worker lease now row = record row {
  run = record row.run { status = running; updated_at = now };
  worker_id = worker;
  lease_expires_at = lease;
}

claim_found : Text → ℕ → ℕ → MemoryQueue → Option (Text × Row) → MemoryQueue × Option Row
unfolding clone_row
claim_found worker lease now q none = (q, none)
claim_found worker lease now q (some (id, row)) =
    let row' = claimed worker lease now row in
    (record { rows = put id row' q.rows }, some (clone_row row'))

-- ClaimNext: `now` is the queue's clock.
unfoldable pub claim_next : Text → ℕ → ℕ → MemoryQueue → MemoryQueue × Option Row
unfolding claim_found sorted_ids first_queued
claim_next worker lease now q =
    claim_found worker lease now q (first_queued q.rows (sorted_ids q.rows))

abbrev pub released : Status → ℕ → Row → Row
released status now row = record row {
  run = record row.run { status = status; updated_at = now };
  worker_id = [];
  lease_expires_at = 0;
}

unfoldable pub write_row : Status → Option Row → ℕ → Row → Row
unfolding clone_row
write_row new_status (some row) now cur = clone_row row
write_row new_status none now cur = released new_status now cur

-- UpdateStatusIf: the answer says whether the row was written.
unfoldable pub update_status_if :
    Text → Status → Status → Option Row → ℕ → MemoryQueue → MemoryQueue × Bool
unfolding write_row
update_status_if run_id expected new_status row now q = elim (lookup run_id q.rows) [
  | none ↦ (q, false)
  | some cur ↦
      if status_eq cur.run.status expected
      then (record { rows = put run_id (write_row new_status row now cur) q.rows }, true)
      else (q, false)
]

abbrev pub is_expired : ℕ → Row → Bool
is_expired now row = (row.lease_expires_at == 0) || ltb row.lease_expires_at now

-- The body of the loop of RequeueExpired, by the row's status.
expire_by : Status → ℕ → ℕ → Row → Row
expire_by canceling now max row = released canceled now row
expire_by running now max row =
    if leb max row.attempts
    then released failed now row
    else record (released queued now row) { attempts = row.attempts + 1 }
expire_by _ now max row = row

unfoldable pub expire_row : ℕ → ℕ → Row → Row
unfolding expire_by
expire_row now max row = if is_expired now row then expire_by row.run.status now max row else row

abbrev pub is_handled : ℕ → Row → Bool
is_handled now row =
    is_expired now row && (status_eq row.run.status canceling || status_eq row.run.status running)

count_handled : ℕ → Assoc Row → ℕ
count_handled now [] = 0
count_handled now ((k, row) ∷ rows) =
    let n = count_handled now rows in if is_handled now row then n + 1 else n

abbrev pub non_negative : ℤ → ℕ
non_negative (pos n) = n
non_negative (negsuc n) = 0

-- RequeueExpired
unfoldable pub requeue_expired : ℕ → ℤ → MemoryQueue → MemoryQueue × ℕ
unfolding expire_row count_handled
requeue_expired now max_attempts q = (
  record { rows = map_values (expire_row now (non_negative max_attempts)) q.rows },
  count_handled now q.rows,
)

unfoldable pub get : Text → MemoryQueue → Option Row
unfolding clone_row
get run_id q = elim (lookup run_id q.rows) [ none ↦ none | some row ↦ some (clone_row row) ]

abbrev matches_status : Option Status → Status → Bool
matches_status none s = true
matches_status (some want) s = status_eq s want

abbrev matches_text : Text → Text → Bool
matches_text want t = is_nil want || text_eq t want

abbrev pub matches : ListFilter → Run → Bool
matches filter run =
    matches_status filter.status run.status
    && matches_text filter.owner_user_id run.owner_user_id
    && matches_text filter.parent_session_id run.parent_session_id
    && matches_text filter.parent_app_name run.parent_app_name

matching : ListFilter → Assoc Row → List Run
matching filter [] = []
matching filter ((k, row) ∷ rows) =
    let rest = matching filter rows in if matches filter row.run then row.run ∷ rest else rest

-- List: those updated last in front.
unfoldable pub list : ListFilter → MemoryQueue → List Run
unfolding matching
list filter q = sort_by (λ a b. ltb b.updated_at a.updated_at) (matching filter q.rows)
