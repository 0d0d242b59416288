-- ===== src/Scheduler/Active.antt =====
-- scheduler/scheduler.go: which runs are active at the same time.
use multiagent.Base.{
  ℕ, ◌+◌, ◌≡◌, ◌⊎◌, ◌≤◌, ◌<◌, refl, inl, inr, Bool, true, false, Option, none, some, List, [], ◌∷◌,
  ◌++◌, arith, Answer, ok, err, ltb, ◌==◌, ==_iff, if◌then◌else◌, Bool-cases, Option-cases,
}
use multiagent.Base.Text.{Text}
use multiagent.Cron.Schedule.{Civil}
use multiagent.Scheduler.{
  Automation, Settings, Server, Outcome, abandoned, ended, is_member, without, scan, scan_rows,
  scan_row, schedule_first, compute_next, list_enabled_cron_automations, conclude, run_in_session,
  run_automation,
}

-- The server with the automations whose runs have begun and not ended, as scan has read them.
pub record System (W : Type 0) : Type 0 where
  pub server : Server W
  pub active : List Automation

-- A scan, the end of an active run, or a change of the table by an owner.
pub data Event : Type 0 where
  scans : (now : ℕ) → Event
  ends : (id ended_at now : ℕ) → (session : Answer Text Text) → Event
  edits : (List Automation → List Automation) → Event

abbrev pub found : ℕ → List Automation → Option Automation
found id [] = none
found id (a ∷ rows) = if a.id == id then some a else found id rows

abbrev dropped : ℕ → List Automation → List Automation
dropped id [] = []
dropped id (a ∷ rows) = if a.id == id then rows else a ∷ dropped id rows

-- How often a number stands in a list, and how many active runs an automation has.
abbrev times : ℕ → List ℕ → ℕ
times n [] = 0
times n (m ∷ ms) = (if n == m then 1 else 0) + times n ms

abbrev pub active_runs : ℕ → List Automation → ℕ
active_runs n [] = 0
active_runs n (a ∷ rows) = (if n == a.id then 1 else 0) + active_runs n rows

active_runs-append :
    (n : ℕ) (xs ys : List Automation)
    → active_runs n (xs ++ ys) ≡ active_runs n xs + active_runs n ys
active_runs-append n [] ys = omega arith
active_runs-append n (x ∷ xs) ys = ground (arith, active_runs-append n xs ys)

times-member : (n : ℕ) (ms : List ℕ) → is_member n ms ≡ false → times n ms ≡ 0
times-member n [] e = refl
times-member n (m ∷ ms) e = ground (arith, times-member n ms)

times-without :
    (n m : ℕ) (ms : List ℕ)
    → 0 < times m ms
    → times n (without m ms) + (if n == m then 1 else 0) ≡ times n ms
times-without n m [] h = absurd (omega arith)
times-without n m (k ∷ ms) h =
    ground (arith, ==_iff n m, ==_iff n k, ==_iff m k, times-without n m ms)

dropped-runs :
    (n id : ℕ) (rows : List Automation) (a : Automation)
    → found id rows ≡ some a
    → (a.id ≡ id)
      × (active_runs n (dropped id rows) + (if n == id then 1 else 0) ≡ active_runs n rows)
dropped-runs n id [] a e = absurd (ground arith)
dropped-runs n id (b ∷ rows) a e = elim (Bool-cases (b.id == id)) [
  | inl here ↦ (ground (arith, e, here, ==_iff b.id id), ground (arith, here, ==_iff b.id id))
  | inr later ↦
      let (is, rest) = dropped-runs n id rows a (ground (arith, e, later)) in
      (is, ground (arith, later, rest))
]

module _ (table : ℕ → ℕ) (civil : ℕ → Civil) (five_years_on : ℕ → ℕ) {W : Type 0} (c : Settings)
    (run : Automation → Text → W → W × Option Text) (cancelled : ℕ → Bool) where
  end_of : ℕ → ℕ → ℕ → Answer Text Text → Option Automation → System W → System W
  end_of id ended_at now session none y = y
  end_of id ended_at now session (some a) y = record {
    server =
        run_automation table civil five_years_on c run cancelled ended_at now a session y.server;
    active = dropped id y.active;
  }

  pub step : Event → System W → System W
  unfolding end_of
  step (scans now) y =
      let (s, begun) = scan table civil five_years_on now y.server in
      record { server = s; active = begun ++ y.active }
  step (ends id ended_at now session) y = end_of id ended_at now session (found id y.active) y
  step (edits f) y = record y { server = record y.server { automations = f y.server.automations } }

  pub steps : List Event → System W → System W
  unfolding step
  steps [] y = y
  steps (e ∷ es) y = steps es (step e y)

  -- The map of running automations holds one mark for every active run, and none twice.
  record IsMarked (running : List ℕ) (active : List Automation) : Type 0 where
    same : (n : ℕ) → times n running ≡ active_runs n active
    once : (n : ℕ) → times n running ≤ 1

  schedule_first-running :
      (now : ℕ) (a : Automation) (s : Server W)
      → (schedule_first table civil five_years_on now a s).running ≡ s.running
  unfolding schedule_first
  schedule_first-running now a s =
      elim (Option-cases (compute_next table civil five_years_on a now)) [
        | inl bad ↦ rw (schedule_first, bad) refl
        | inr (t, good) ↦ rw (schedule_first, good) refl
      ]

  -- A row of a scan: nothing, or a mark for a run that was not marked.
  scan_row-running :
      (now : ℕ) (a : Automation) (next : Option ℕ) (s : Server W)
      → (((scan_row table civil five_years_on now a next s).0.running ≡ s.running)
          × ((scan_row table civil five_years_on now a next s).1 ≡ false))
        ⊎ (((scan_row table civil five_years_on now a next s).0.running ≡ a.id ∷ s.running)
            × (((scan_row table civil five_years_on now a next s).1 ≡ true)
                × (is_member a.id s.running ≡ false)))
  unfolding scan_row
  scan_row-running now a none s = inl (schedule_first-running now a s, refl)
  scan_row-running now a (some t) s = elim (Bool-cases (ltb now t)) [
    | inl early ↦ rw early (inl (refl, refl))
    | inr due ↦ elim (Bool-cases (is_member a.id s.running)) [
      | inl runs ↦ rw (due, runs) (inl (refl, refl))
      | inr idle ↦ rw (due, idle) (inr (refl, (refl, refl)))
    ]
  ]

  conclude-running :
      (ended_at now : ℕ) (a : Automation) (key : Text) (out : Outcome) (s : Server W)
      → (conclude table civil five_years_on c run cancelled ended_at now a key out s).running
        ≡ s.running
  unfolding conclude
  conclude-running ended_at now a key abandoned s = refl
  conclude-running ended_at now a key (ended none) s = refl
  conclude-running ended_at now a key (ended (some m)) s = refl

  run_in_session-running :
      (ended_at now : ℕ) (a : Automation) (session : Answer Text Text) (s : Server W)
      → (run_in_session table civil five_years_on c run cancelled ended_at now a session s).running
        ≡ s.running
  unfolding run_in_session
  run_in_session-running ended_at now a (err m) s = refl
  run_in_session-running ended_at now a (ok key) s = conclude-running ended_at now a key _ _

  run_automation-running :
      (ended_at now : ℕ) (a : Automation) (session : Answer Text Text) (s : Server W)
      → (run_automation table civil five_years_on c run cancelled ended_at now a session s).running
        ≡ without a.id s.running
  unfolding run_automation
  run_automation-running ended_at now a session s =
      rw (run_in_session-running ended_at now a session s) refl

  marked :
      (running running' : List ℕ) (a : Automation) (active : List Automation)
      → IsMarked running active
      → running' ≡ a.id ∷ running
      → is_member a.id running ≡ false
      → IsMarked running' (a ∷ active)
  marked running running' a active m is idle = record {
    same = λ n. ground (arith, is, m.same n);
    once = λ n. elim (Bool-cases (n == a.id)) [
      | inl own ↦ ground (arith, is, own, ==_iff n a.id, times-member a.id running idle)
      | inr other ↦ ground (arith, is, other, m.once n)
    ];
  }

  abbrev begun : ℕ → Automation → Server W → Server W
  begun now a s = (scan_row table civil five_years_on now a a.next_run s).0

  end_of-IsMarked :
      (id ended_at now : ℕ) (session : Answer Text Text) (o : Option Automation) (y : System W)
      → found id y.active ≡ o
      → IsMarked y.server.running y.active
      → IsMarked
          (end_of id ended_at now session o y).server.running
          (end_of id ended_at now session o y).active
  unfolding end_of
  end_of-IsMarked id ended_at now session none y e m = m
  end_of-IsMarked id ended_at now session (some a) y e m =
      let after = run_automation-running ended_at now a session y.server in
      let own = dropped-runs a.id id y.active a e in
      record {
        same = λ n. ground (
          arith,
          after,
          dropped-runs n id y.active a e,
          own,
          m.same n,
          m.same a.id,
          ==_iff a.id id,
          times-without n a.id y.server.running,
        );
        once = λ n. ground (
          arith,
          after,
          own,
          m.once n,
          m.same a.id,
          ==_iff a.id id,
          times-without n a.id y.server.running,
        );
      }

  -- The scan of the rows: the marks, and the runs that begin before those that were active.
  scan_rows-IsMarked :
      (now : ℕ) (rows : List Automation) (s : Server W) (active : List Automation)
      → IsMarked s.running active
      → IsMarked
          (scan_rows table civil five_years_on now rows s).0.running
          ((scan_rows table civil five_years_on now rows s).1 ++ active)
  unfolding scan_rows
  scan_rows-IsMarked now [] s active m = m
  scan_rows-IsMarked now (a ∷ rows) s active m = elim (scan_row-running now a a.next_run s) [
    | inl (same, not_begun) ↦
        rw not_begun (scan_rows-IsMarked now rows (begun now a s) active (rw same m))
    | inr (marks, (begins, idle)) ↦
        let later =
          scan_rows-IsMarked now rows (begun now a s) (a ∷ active)
            (marked s.running (begun now a s).running a active m marks idle) in
        rw begins (record {
          same = λ n. ground (
            arith,
            later.same n,
            active_runs-append n (scan_rows table civil five_years_on now rows (begun now a s)).1
                active,
            active_runs-append n (scan_rows table civil five_years_on now rows (begun now a s)).1
                (a ∷ active),
          );
          once = later.once;
        })
  ]

  step-IsMarked :
      (e : Event) (y : System W)
      → IsMarked y.server.running y.active
      → IsMarked (step e y).server.running (step e y).active
  unfolding step scan
  step-IsMarked (scans now) y m =
      scan_rows-IsMarked now (list_enabled_cron_automations y.server.automations) y.server y.active
        m
  step-IsMarked (ends id ended_at now session) y m =
      end_of-IsMarked id ended_at now session (found id y.active) y refl m
  step-IsMarked (edits f) y m = m

  steps-IsMarked :
      (es : List Event) (y : System W)
      → IsMarked y.server.running y.active
      → IsMarked (steps es y).server.running (steps es y).active
  unfolding steps
  steps-IsMarked [] y m = m
  steps-IsMarked (e ∷ es) y m = steps-IsMarked es (step e y) (step-IsMarked e y m)

-- Whatever the order of one scheduler's scans, the ends of its runs and the owners' changes of the
-- table, from a start where nothing runs, no automation has two active runs at the same time.
pub steps-alone :
    (table : ℕ → ℕ) (civil : ℕ → Civil) (five_years_on : ℕ → ℕ) {W : Type 0} (c : Settings)
    (run : Automation → Text → W → W × Option Text) (cancelled : ℕ → Bool) (es : List Event)
    (s : Server W) (n : ℕ)
    → s.running ≡ []
    → active_runs n
        (steps table civil five_years_on c run cancelled es
          (record { server = s; active = [] })).active
      ≤ 1
steps-alone table civil five_years_on c run cancelled es s n idle =
    let m =
      steps-IsMarked table civil five_years_on c run cancelled es
        (record { server = s; active = [] })
        (rw idle (record { same = λ k. refl; once = λ k. omega arith })) in
    ground (arith, m.same n, m.once n)
