-- ===== src/Taskrun/Cancel/Ended.antt =====
-- queue_service.go: Cancel and the tasks that have ended.
use multiagent.Base.{
  ℕ, ◌≡◌, refl, Bool, true, false, Option, none, some, List, [], ◌∷◌, inl, inr, All, Option-cases,
  Bool-cases,
}
use multiagent.Base.Text.{Text, trim_space}
use multiagent.Base.Assoc.{lookup}
use multiagent.Taskrun.Run.{Status, queued, running, canceling, canceled, Run, IsFinal, status_eq}
use multiagent.Taskrun.Queue.{Row, MemoryQueue, get}
use multiagent.Taskrun.Queue.Writes.{KeepsFinal, update_status_if-KeepsFinal}
use multiagent.Taskrun.Service.{Outcome}
use multiagent.Taskrun.Cancel.{
  Race, CancelAnswer, is_member, bare, canceled_run, canceling_run, written, attempt, is_settled,
  turn, turns, cancel,
}

-- The queue that an attempt leaves, if it wrote, and `q` if not.
abbrev pub queue_of : Option (Outcome CancelAnswer) → MemoryQueue → MemoryQueue
queue_of none q = q
queue_of (some out) q = out.queue

module _ (j : Text) (row : Row) (f : IsFinal row.run.status) where
  -- Whatever an answer leaves behind holds the ended row.
  abbrev Holds : Option (Outcome CancelAnswer) → Type 0
  Holds none = Unit
  Holds (some out) = lookup j out.queue.rows ≡ some row

  written-Holds :
      (run : Run) (stop : Bool) (w : MemoryQueue × Bool)
      → lookup j w.0.rows ≡ some row
      → Holds (written run stop w)
  written-Holds run stop (q, true) at = at
  written-Holds run stop (q, false) at = tt

  attempt-Holds :
      (own : List Text) (run_id : Text) (now : ℕ) (run : Run) (q : MemoryQueue)
      → lookup j q.rows ≡ some row
      → Holds (attempt own run_id now run q)
  unfolding attempt
  attempt-Holds own run_id now run q at = elim (Bool-cases (status_eq run.status queued)) [
    | inl e ↦ rw e (
        written-Holds (canceled_run now run) false _ (
          update_status_if-KeepsFinal run_id queued canceled (some (bare (canceled_run now run)))
            now (inl refl) q j row at f))
    | inr e ↦ rw e (
        written-Holds (canceling_run now run) (is_member run_id own) _ (
          update_status_if-KeepsFinal run_id running canceling (some (bare (canceling_run now run)))
            now (inr (inl refl)) q j row at f))
  ]

  module _ (is_terminal : Status → Bool) (own : List Text) (run_id : Text) where
    turn-Holds :
        (now : ℕ) (q q' : MemoryQueue)
        → lookup j q.rows ≡ some row
        → lookup j q'.rows ≡ some row
        → Holds (turn is_terminal own run_id now q q')
    unfolding turn
    turn-Holds now q q' at at' = elim (Option-cases (get run_id q)) [
      | inl gone ↦ rw (gone, Holds, turn) at
      | inr (old, there) ↦ elim (Bool-cases (is_settled is_terminal own run_id old.run)) [
        | inl e ↦ rw (there, Holds, turn, e) at
        | inr e ↦ rw (there, Holds, turn, e) (attempt-Holds own run_id now old.run q' at')
      ]
    ]

    again-Holds :
        (out again : Option (Outcome CancelAnswer))
        → Holds out
        → Holds again
        → Holds (elim out [ some o ↦ some o | none ↦ again ])
    again-Holds none again h k = k
    again-Holds (some o) again h k = h

    turns-Holds :
        (races : List Race) (last : ℕ) (q : MemoryQueue)
        → All (λ race. KeepsFinal race.interfere) races
        → lookup j q.rows ≡ some row
        → Holds (turns is_terminal own run_id races last q)
    unfolding turns
    turns-Holds [] last q ks at = turn-Holds last q q at at
    turns-Holds (race ∷ races) last q ks at =
        let at' : lookup j (race.interfere q).rows ≡ some row = ks.0 q j row at f in
        again-Holds (turn is_terminal own run_id race.now q (race.interfere q)) _
          (turn-Holds race.now q (race.interfere q) at at')
          (turns-Holds races last (race.interfere q) ks.1 at')

of_Holds :
    (j : Text) (row : Row) (f : IsFinal row.run.status) (out : Option (Outcome CancelAnswer))
    (q : MemoryQueue)
    → lookup j q.rows ≡ some row
    → Holds j row f out
    → lookup j (queue_of out q).rows ≡ some row
of_Holds j row f none q at h = at
of_Holds j row f (some out) q at h = h

pub cancel-KeepsFinal :
    (is_terminal : Status → Bool) (own : List Text) (run_id : Text) (races : List Race) (last : ℕ)
    → All (λ race. KeepsFinal race.interfere) races
    → KeepsFinal (λ q. queue_of (cancel is_terminal own run_id races last q) q)
unfolding cancel
cancel-KeepsFinal is_terminal own run_id races last ks q j row at f =
    of_Holds j row f (turns is_terminal own (trim_space run_id) races last q) q at
      (turns-Holds j row f is_terminal own (trim_space run_id) races last q ks at)
