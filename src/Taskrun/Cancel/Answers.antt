-- ===== src/Taskrun/Cancel/Answers.antt =====
-- queue_service.go: Cancel always answers, and what its answers mean.
use multiagent.Base.{
  ℕ, ◌≡◌, refl, ap, subst, Bool, true, false, Option, none, some, List, [], ◌∷◌, arith, inl, inr,
  ◌⊎◌, Option-cases, Bool-cases,
}
use multiagent.Base.Text.{Text, trim_space, text_eq_iff}
use multiagent.Base.Assoc.{lookup, lookup-put}
use multiagent.Taskrun.Run.{
  Status, queued, running, canceling, canceled, completed, failed, Run, status_eq, TerminalLaws,
}
use multiagent.Taskrun.Queue.{Row, MemoryQueue, update_status_if, get, clone_row, write_row}
use multiagent.Taskrun.Queue.Writes.{get-lookup, update_status_if-hit}
use multiagent.Taskrun.Service.{Outcome}
use multiagent.Taskrun.Cancel.{
  Race, CancelAnswer, not_found, unchanged, changed, is_member, bare, canceled_run, canceling_run,
  written, attempt, is_settled, turn, turns, cancel,
}

abbrev Answers : Option (Outcome CancelAnswer) → Type 0
Answers none = ⊥
Answers (some out) = Unit

open_status :
    (is_terminal : Status → Bool) (s : Status)
    → TerminalLaws is_terminal
    → is_terminal s ≡ false
    → status_eq s canceling ≡ false
    → (s ≡ queued) ⊎ (s ≡ running)
open_status t queued laws h k = inl refl
open_status t running laws h k = inr refl
open_status t canceling laws h k = cc
open_status t completed laws h k = cc (laws.completed_terminal)
open_status t failed laws h k = cc (laws.failed_terminal)
open_status t canceled laws h k = cc (laws.canceled_terminal)

module _ (own : List Text) (run_id : Text) (now : ℕ) (run : Run) (q : MemoryQueue) (cur : Row) where
  -- An attempt whose read is still right writes.
  attempt-Answers :
      lookup run_id q.rows ≡ some cur
      → cur.run.status ≡ run.status
      → (run.status ≡ queued) ⊎ (run.status ≡ running)
      → Answers (attempt own run_id now run q)
  unfolding attempt
  attempt-Answers at same (inl is) = ground (
    arith,
    (update_status_if-hit run_id queued canceled (some (bare (canceled_run now run))) now q cur
        run_id at (ground arith)).0,
  )
  attempt-Answers at same (inr is) = ground (
    arith,
    (update_status_if-hit run_id running canceling (some (bare (canceling_run now run))) now q cur
        run_id at (ground arith)).0,
  )

-- What an answer says of the queue after it: the task is unknown; or it was settled already, being
-- ended or being canceled; or its row is now the run of the answer, with no worker and no lease,
-- canceled or being canceled.
abbrev pub Means : (Status → Bool) → Text → CancelAnswer → MemoryQueue → Type 0
Means t id not_found q = lookup id q.rows ≡ none
Means t id (unchanged run) q =
    (cur : Row) × (lookup id q.rows ≡ some cur)
    × (run ≡ (clone_row cur).run)
    × ((t run.status ≡ true) ⊎ (run.status ≡ canceling))
Means t id (changed run stop) q =
    (lookup id q.rows ≡ some (clone_row (bare run)))
    × ((run.status ≡ canceled) ⊎ (run.status ≡ canceling))

module _ (t : Status → Bool) (own : List Text) (run_id : Text) where
  abbrev Meant : Option (Outcome CancelAnswer) → Type 0
  Meant none = Unit
  Meant (some out) = Means t run_id out.answer out.queue

  written-Meant :
      (run : Run) (stop : Bool) (w : MemoryQueue × Bool)
      → (w.1 ≡ true → lookup run_id w.0.rows ≡ some (clone_row (bare run)))
      → (run.status ≡ canceled) ⊎ (run.status ≡ canceling)
      → Meant (written run stop w)
  written-Meant run stop (q, true) at is = (at refl, is)
  written-Meant run stop (q, false) at is = tt

  write_there :
      (expected new : Status) (row : Row) (now : ℕ) (q : MemoryQueue)
      → (update_status_if run_id expected new (some row) now q).1 ≡ true
      → lookup run_id (update_status_if run_id expected new (some row) now q).0.rows
        ≡ some (clone_row row)
  unfolding update_status_if write_row
  write_there expected new row now q done =
      ground (arith, text_eq_iff run_id run_id, lookup-put run_id run_id (clone_row row) q.rows)

  attempt-Meant : (now : ℕ) (run : Run) (q : MemoryQueue) → Meant (attempt own run_id now run q)
  unfolding attempt
  attempt-Meant now run q = elim (Bool-cases (status_eq run.status queued)) [
    | inl e ↦ rw e (
        written-Meant (canceled_run now run) false _
          (write_there queued canceled (bare (canceled_run now run)) now q) (inl refl))
    | inr e ↦ rw e (
        written-Meant (canceling_run now run) (is_member run_id own) _
          (write_there running canceling (bare (canceling_run now run)) now q) (inr refl))
  ]

  absent_of_get : (q : MemoryQueue) → get run_id q ≡ none → lookup run_id q.rows ≡ none
  unfolding get
  absent_of_get q e = ground arith

  turn-Meant : (now : ℕ) (q q' : MemoryQueue) → Meant (turn t own run_id now q q')
  unfolding turn
  turn-Meant now q q' = elim (Option-cases (get run_id q)) [
    | inl gone ↦ rw (gone, Meant, turn) (absent_of_get q gone)
    | inr (row, there) ↦ elim (Bool-cases (is_settled t own run_id row.run)) [
      | inl e ↦
          let (cur, at, is) = get-lookup run_id q row there in
          rw (there, Meant, turn, e) (cur, at, ap (λ (r : Row). r.run) is, ground arith)
      | inr e ↦ rw (there, Meant, turn, e) (attempt-Meant now row.run q')
    ]
  ]

  -- With nobody between its read and its write, a turn answers.
  turn-Answers : (now : ℕ) (q : MemoryQueue) → TerminalLaws t → Answers (turn t own run_id now q q)
  unfolding turn clone_row
  turn-Answers now q laws = elim (Option-cases (get run_id q)) [
    | inl gone ↦ rw (gone, Answers, turn) tt
    | inr (row, there) ↦ elim (Bool-cases (is_settled t own run_id row.run)) [
      | inl e ↦ rw (there, Answers, turn, e) tt
      | inr e ↦
          let (cur, at, is) = get-lookup run_id q row there in
          rw (there, Answers, turn, e)
            (attempt-Answers own run_id now row.run q cur at (ground arith)
              (open_status t row.run.status laws (ground arith) (ground arith)))
    ]
  ]

  turns-Meant :
      (races : List Race) (last : ℕ) (q : MemoryQueue) → Meant (turns t own run_id races last q)
  unfolding turns
  turns-Meant [] last q = turn-Meant last q q
  turns-Meant (race ∷ races) last q =
      again (turn t own run_id race.now q (race.interfere q)) _
        (turn-Meant race.now q (race.interfere q)) (turns-Meant races last (race.interfere q))
    where
      again :
          (out next : Option (Outcome CancelAnswer))
          → Meant out
          → Meant next
          → Meant (elim out [ some o ↦ some o | none ↦ next ])
      again none next h k = k
      again (some o) next h k = h

  turns-Answers :
      (races : List Race) (last : ℕ) (q : MemoryQueue)
      → TerminalLaws t
      → Answers (turns t own run_id races last q)
  unfolding turns
  turns-Answers [] last q laws = turn-Answers last q laws
  turns-Answers (race ∷ races) last q laws =
      again (turn t own run_id race.now q (race.interfere q)) _
        (turns-Answers races last (race.interfere q) laws)
    where
      again :
          (out next : Option (Outcome CancelAnswer))
          → Answers next
          → Answers (elim out [ some o ↦ some o | none ↦ next ])
      again none next k = k
      again (some o) next k = tt

answered :
    (out : Option (Outcome CancelAnswer))
    → Answers out
    → (o : Outcome CancelAnswer) × (out ≡ some o)
answered none h = absurd h
answered (some o) h = (o, refl)

-- Cancel answers, however many writes of its own lose a race with other nodes, and whatever they
-- do to the queue; and its answer says what the queue holds.
pub cancel-Means :
    (t : Status → Bool) (own : List Text) (id : Text) (races : List Race) (last : ℕ)
    (q : MemoryQueue)
    → TerminalLaws t
    → (o : Outcome CancelAnswer) × (cancel t own id races last q ≡ some o)
      × Means t (trim_space id) o.answer o.queue
unfolding cancel
cancel-Means t own id races last q laws =
    let (o, e) =
      answered (turns t own (trim_space id) races last q)
        (turns-Answers t own (trim_space id) races last q laws) in
    (o, e, subst (Meant t own (trim_space id)) e (turns-Meant t own (trim_space id) races last q))
