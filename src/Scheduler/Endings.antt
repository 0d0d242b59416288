-- ===== src/Scheduler/Endings.antt =====
-- scheduler/scheduler.go: what a run leaves in the tables.
use multiagent.Base.{
  ℕ, suc, ◌+◌, ◌*◌, ◌≡◌, ◌<◌, refl, inl, inr, Bool, true, Option, none, some, List, [], ◌∷◌, arith,
  Answer, ok, err, ◌==◌, ==_iff, Bool-cases,
}
use multiagent.Base.Text.{Text}
use multiagent.Cron.Fields.{CronError, Spec, parse}
use multiagent.Cron.Schedule.{Civil, minute_ns, next, matches}
use multiagent.Cron.Schedule.Times.{next_lem}
use multiagent.Scheduler.{
  Automation, AutomationRun, running, done, failed, Settings, Server, Outcome, abandoned, ended,
  update_automation, with_next, compute_next, next_of, minutes, advance_next, conclude,
  run_in_session, run_automation, retry, run_row,
}
use multiagent.Scheduler.Active.{found}

-- Saving a row makes it the row of its number.
found-update :
    (a : Automation) (rows : List Automation) → found a.id (update_automation a rows) ≡ some a
unfolding update_automation
found-update a [] = ground (arith, ==_iff a.id a.id)
found-update a (b ∷ rows) = elim (Bool-cases (b.id == a.id)) [
  | inl here ↦ rw here (ground (arith, ==_iff a.id a.id))
  | inr later ↦ rw later (ground (arith, later, found-update a rows))
]

module _ (table : ℕ → ℕ) (civil : ℕ → Civil) (five_years_on : ℕ → ℕ) {W : Type 0} (c : Settings)
    (run : Automation → Text → W → W × Option Text) (cancelled : ℕ → Bool) where
  found-advance :
      (now : ℕ) (o : Option ℕ) (a : Automation) (rows : List Automation)
      → found a.id (update_automation (with_next o a) rows) ≡ some (with_next o a)
  unfolding with_next
  found-advance now none a rows = found-update a rows
  found-advance now (some t) a rows = found-update (record a { next_run = some t }) rows

  -- The tables after a run that ended so: the automations and the runs before, and after.
  abbrev pub Concluded :
      ℕ
      → ℕ
      → Automation
      → Text
      → Outcome
      → List Automation
      → List AutomationRun
      → List Automation
      → List AutomationRun
      → Type 0
  Concluded ended_at now a key abandoned rows runs rows' runs' =
      (rows' ≡ rows) × (runs' ≡ run_row a key running [] ∷ runs)
  Concluded ended_at now a key (ended none) rows runs rows' runs' =
      (found a.id rows'
        ≡ some (
            with_next (compute_next table civil five_years_on a now)
              (record a { last_run = some ended_at })))
      × (runs' ≡ run_row a key done [] ∷ runs)
  Concluded ended_at now a key (ended (some m)) rows runs rows' runs' =
      (found a.id rows' ≡ some (record a { next_run = some (now + c.retry_delay) }))
      × (runs' ≡ run_row a key failed m ∷ runs)

  conclude-Concluded :
      (ended_at now : ℕ) (a : Automation) (key : Text) (out : Outcome) (s : Server W)
      → Concluded ended_at now a key out s.automations s.runs
          (conclude table civil five_years_on c run cancelled ended_at now a key out s).automations
          (conclude table civil five_years_on c run cancelled ended_at now a key out s).runs
  unfolding conclude advance_next compute_next with_next
  conclude-Concluded ended_at now a key abandoned s = (refl, refl)
  conclude-Concluded ended_at now a key (ended none) s = (
    found-advance now (compute_next table civil five_years_on a now)
        (record a { last_run = some ended_at }) s.automations,
    refl,
  )
  conclude-Concluded ended_at now a key (ended (some m)) s =
      (found-update (record a { next_run = some (now + c.retry_delay) }) s.automations, refl)

-- The end of a run in a session: a success leaves the automation with the time at which it ended as its last run and, if there is
-- one, the next time of its cron expression, a failure with a next time after the retry delay, and a
-- run whose context ended leaves it as it is; the run's row says which. What a success or a failure
-- leaves is the row that the scan had read with these times, whatever the table says by then: what an
-- owner has changed of it since, as having disabled it, is undone.
pub run_automation-Concluded :
    (table : ℕ → ℕ) (civil : ℕ → Civil) (five_years_on : ℕ → ℕ) {W : Type 0} (c : Settings)
    (run : Automation → Text → W → W × Option Text) (cancelled : ℕ → Bool) (ended_at now : ℕ)
    (a : Automation) (key : Text) (s : Server W)
    → Concluded table civil five_years_on c run cancelled ended_at now a key
        (retry c run cancelled a key
          (suc c.max_retries)
          0
          none
          (record { world = s.world; failures = []; count = 0 })).1
        s.automations
        s.runs
        (run_automation table civil five_years_on c run cancelled ended_at now a
          (ok key)
          s).automations
        (run_automation table civil five_years_on c run cancelled ended_at now a (ok key) s).runs
unfolding run_automation run_in_session
run_automation-Concluded table civil five_years_on c run cancelled ended_at now a key s =
    conclude-Concluded table civil five_years_on c run cancelled ended_at now a key _ _

minutes-some :
    (table : ℕ → ℕ) (civil : ℕ → Civil) (five_years_on : ℕ → ℕ) (o : Option ℕ) (t : ℕ)
    → minutes table civil five_years_on o ≡ some t
    → (u : ℕ) × (o ≡ some u) × (t ≡ u * minute_ns)
unfolding minutes
minutes-some table civil five_years_on none t e = absurd (ground arith)
minutes-some table civil five_years_on (some u) t e = (u, refl, ground arith)

next_of-due :
    (table : ℕ → ℕ) (civil : ℕ → Civil) (five_years_on : ℕ → ℕ) (from t : ℕ)
    (o : Answer CronError Spec)
    → next_of table civil five_years_on from o ≡ some t
    → (spec : Spec) × (u : ℕ) × (o ≡ ok spec)
      × (t ≡ u * minute_ns)
      × (from < t)
      × (matches spec (civil u) ≡ true)
unfolding next_of
next_of-due table civil five_years_on from t (err e) is = absurd (ground arith)
next_of-due table civil five_years_on from t (ok spec) is =
    let (u, found, at) =
      minutes-some table civil five_years_on (next civil five_years_on spec from) t is in
    let (after, before, due, first) = (next_lem civil spec five_years_on from 0).0 u found in
    (spec, u, refl, at, ground (arith, at, after), due)

-- A time that ComputeNext gives is after the time it was asked from, and it is a minute that the
-- automation's cron expression, which parses, matches.
pub compute_next-due :
    (table : ℕ → ℕ) (civil : ℕ → Civil) (five_years_on : ℕ → ℕ) (a : Automation) (from t : ℕ)
    → compute_next table civil five_years_on a from ≡ some t
    → (spec : Spec) × (u : ℕ) × (parse table a.cron_expr ≡ ok spec)
      × (t ≡ u * minute_ns)
      × (from < t)
      × (matches spec (civil u) ≡ true)
unfolding compute_next
compute_next-due table civil five_years_on a from t e = elim (Bool-cases a.is_cron) [
  | inl cron ↦
      next_of-due table civil five_years_on from t (parse table a.cron_expr)
        (ground (arith, e, cron))
  | inr other ↦ absurd (ground (arith, e, other))
]
