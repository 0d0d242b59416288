-- ===== src/Taskrun/Execute/Polls.antt =====
-- queue_service.go: what waits after a poll.
use multiagent.Base.{
  ℕ, length, ◌+◌, ◌≤◌, ◌<◌, ◌≡◌, true, false, some, List, All, [], ◌∷◌, arith, inl, inr,
  Option-cases, if◌then◌else◌,
}
use multiagent.Base.Text.{Text}
use multiagent.Base.Int.{ℤ}
use multiagent.Base.Assoc.{Assoc, lookup, remove, put, length-map_values}
use multiagent.Taskrun.Run.{queued, status_eq}
use multiagent.Taskrun.Queue.{
  Row, MemoryQueue, claim_next, requeue_expired, expire_row, non_negative,
}
use multiagent.Taskrun.Queue.Claims.{queued_at, claim_next-none, claim_next-put}
use multiagent.Taskrun.Service.{QueueOptions}
use multiagent.Taskrun.Execute.{claim_loop, poll_once}

-- How many tasks wait.
pub waiting : Assoc Row → ℕ
waiting [] = 0
waiting ((k, row) ∷ rows) =
    let n = waiting rows in if status_eq row.run.status queued then n + 1 else n

waiting-le-length : (rows : Assoc Row) → waiting rows ≤ length rows
unfolding waiting
waiting-le-length [] = omega arith
waiting-le-length ((k, row) ∷ rows) = ground (arith, waiting-le-length rows)

waiting-remove-le : (k : Text) (rows : Assoc Row) → waiting (remove k rows) ≤ waiting rows
unfolding waiting remove
waiting-remove-le k [] = omega arith
waiting-remove-le k ((j, row) ∷ rows) = ground (arith, waiting-remove-le k rows)

waiting-remove-lt :
    (k : Text) (rows : Assoc Row) (row : Row)
    → lookup k rows ≡ some row
    → row.run.status ≡ queued
    → waiting (remove k rows) < waiting rows
unfolding waiting remove lookup
waiting-remove-lt k [] row at w = absurd (ground arith)
waiting-remove-lt k ((j, r) ∷ rows) row at w =
    ground (arith, waiting-remove-lt k rows row, waiting-remove-le k rows)

waiting-claim_next :
    (worker : Text) (lease now : ℕ) (q : MemoryQueue) (row : Row)
    → (claim_next worker lease now q).1 ≡ some row
    → waiting (claim_next worker lease now q).0.rows < waiting q.rows
unfolding waiting put
waiting-claim_next worker lease now q row e =
    let (id, old, at, waits, after) = claim_next-put worker lease now q row e in
    rw after (waiting-remove-lt id q.rows old at waits)

-- The step makes no more tasks wait than waited before it.
abbrev pub AddsNone : (MemoryQueue → MemoryQueue) → Type 0
AddsNone step = (q : MemoryQueue) → waiting (step q).rows ≤ waiting q.rows

pub claim_next-AddsNone :
    (worker : Text) (lease now : ℕ) → AddsNone (λ q. (claim_next worker lease now q).0)
claim_next-AddsNone worker lease now q = elim (Option-cases (claim_next worker lease now q).1) [
  | inl e ↦ rw (claim_next-none worker lease now q [] e).0 (omega arith)
  | inr (row, e) ↦ omega (arith, waiting-claim_next worker lease now q row e)
]

claim_loop-returns :
    (others : List (MemoryQueue → MemoryQueue)) (node : Text) (lease : ℤ) (clock : ℕ → ℕ) (i : ℕ)
    (q : MemoryQueue)
    → All AddsNone others
    → waiting q.rows < length others
    → (claim_loop others node lease clock i q).returned ≡ true
unfolding claim_loop
claim_loop-returns [] node lease clock i q few h = absurd (omega arith)
claim_loop-returns (other ∷ others) node lease clock i q (adds, few) h =
    elim (Option-cases (claim_next node (clock i + non_negative lease) (clock i) (other q)).1) [
      | inl e ↦ ground arith
      | inr (row, e) ↦
          let now : ℕ = clock i in
          let q' : MemoryQueue = (claim_next node (now + non_negative lease) now (other q)).0 in
          let less : waiting q'.rows < waiting (other q).rows =
            waiting-claim_next node (now + non_negative lease) now (other q) row e in
          let enough : waiting q'.rows < length others = omega (arith, adds q) in
          ground (arith, claim_loop-returns others node lease clock (i + 1) q' few enough)
    ]

claim_loop-drained :
    (others : List (MemoryQueue → MemoryQueue)) (node : Text) (lease : ℤ) (clock : ℕ → ℕ) (i : ℕ)
    (q : MemoryQueue) (j : Text)
    → (claim_loop others node lease clock i q).returned ≡ true
    → queued_at (claim_loop others node lease clock i q).queue j ≡ false
unfolding claim_loop
claim_loop-drained [] node lease clock i q j h = absurd (ground arith)
claim_loop-drained (other ∷ others) node lease clock i q j h =
    let now : ℕ = clock i in
    elim (Option-cases (claim_next node (now + non_negative lease) now (other q)).1) [
      | inl e ↦
          let (same, free) = claim_next-none node (now + non_negative lease) now (other q) j e in
          ground arith
      | inr (row, e) ↦
          let q' : MemoryQueue = (claim_next node (now + non_negative lease) now (other q)).0 in
          ground (arith, claim_loop-drained others node lease clock (i + 1) q' j)
    ]

-- Whatever other nodes do before each of its claims, a poll that returns leaves no task waiting: its
-- last ClaimNext found none.
pub poll_once-last :
    (node : Text) (opts : QueueOptions) (clock : ℕ → ℕ) (others : List (MemoryQueue → MemoryQueue))
    (q : MemoryQueue) (j : Text)
    → (poll_once node opts clock others q).returned ≡ true
    → queued_at (poll_once node opts clock others q).queue j ≡ false
unfolding poll_once
poll_once-last node opts clock others q j =
    claim_loop-drained others node opts.lease_duration clock 1
      (requeue_expired (clock 0) opts.max_attempts q).0 j

-- Where what other nodes do before each of a poll's claims makes no more tasks wait than before, as
-- their own claims do not, and is given for more claims than the queue has tasks, the poll returns,
-- and then no task waits.
pub poll_once-drained :
    (node : Text) (opts : QueueOptions) (clock : ℕ → ℕ) (others : List (MemoryQueue → MemoryQueue))
    (q : MemoryQueue) (j : Text)
    → All AddsNone others
    → length q.rows < length others
    → ((poll_once node opts clock others q).returned ≡ true)
      × (queued_at (poll_once node opts clock others q).queue j ≡ false)
unfolding poll_once requeue_expired
poll_once-drained node opts clock others q j few enough =
    let max = non_negative opts.max_attempts in
    let q' : MemoryQueue = (requeue_expired (clock 0) opts.max_attempts q).0 in
    let same : length q'.rows ≡ length q.rows =
      length-map_values (expire_row (clock 0) max) q.rows in
    let ends : (poll_once node opts clock others q).returned ≡ true =
      claim_loop-returns others node opts.lease_duration clock 1 q' few
        (omega (arith, waiting-le-length q'.rows)) in
    (ends, poll_once-last node opts clock others q j ends)
