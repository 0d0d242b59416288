-- ===== src/Scheduler.antt =====
-- server/internal/scheduler/scheduler.go with model/automation.go and repo/automation.go: the runs
-- of automations at the times of their cron expressions. The runner and the context are parameters;
-- `W` is the state that the runner changes. Spans, metrics and logs are left out, and a query that
-- fails is not modelled. The number of retries and the durations are not negative.
pub mod Retries
pub mod Active
pub mod Endings
mod Examples
use multiagent.Base.{
  ℕ, zero, suc, ◌+◌, ◌-◌, ◌*◌, ◌^◌, ◌%◌, Bool, true, false, ◌&&◌, ◌||◌, not, Option, none, some,
  List, [], ◌∷◌, ◌++◌, Answer, ok, err, keep, ltb, ◌==◌, if◌then◌else◌, sort_by,
}
use multiagent.Base.Text.{Text}
use multiagent.Base.Int.{ℤ, pos, negsuc}
use multiagent.Cron.Fields.{CronError, Spec, parse}
use multiagent.Cron.Schedule.{Civil, minute_ns, next}

pub record Automation : Type 0 where
  pub id : ℕ
  pub user_id : ℕ
  pub name : Text
  pub is_cron : Bool
  pub cron_expr : Text
  pub enabled : Bool
  pub last_run : Option ℕ
  pub next_run : Option ℕ
  pub created_at : ℕ

pub data RunStatus : Type 0 where
  running done failed : RunStatus

pub record AutomationRun : Type 0 where
  pub automation_id : ℕ
  pub user_id : ℕ
  pub session_key : Text
  pub status : RunStatus
  pub error : Text

-- A failure in the audit log, and a notification of an end.
pub record Failure : Type 0 where
  pub automation_id : ℕ
  pub attempt : ℕ
  pub error : Text

pub record Notice : Type 0 where
  pub automation_id : ℕ
  pub failure : Option Text

pub record Settings : Type 0 where
  pub max_retries : ℕ
  pub retry_backoff : ℕ
  pub retry_backoff_max : ℕ
  pub retry_delay : ℕ

-- The server's state: `running` is the map of that name, `runs` the runs, the last in front.
pub record Server (W : Type 0) : Type 0 where
  pub automations : List Automation
  pub running : List ℕ
  pub runs : List AutomationRun
  pub audits : List Failure
  pub notices : List Notice
  pub world : W

-- UpdateAutomation: GORM's Save of every column, which inserts a row that is not there.
unfoldable pub update_automation : Automation → List Automation → List Automation
update_automation a [] = a ∷ []
update_automation a (b ∷ bs) = if b.id == a.id then a ∷ bs else b ∷ update_automation a bs

-- ListEnabledCronAutomations
unfoldable pub list_enabled_cron_automations : List Automation → List Automation
list_enabled_cron_automations rows =
    sort_by (λ a b. ltb a.created_at b.created_at) (keep (λ a. a.enabled && a.is_cron) rows)

abbrev pub is_member : ℕ → List ℕ → Bool
is_member n [] = false
is_member n (m ∷ ms) = (n == m) || is_member n ms

abbrev pub without : ℕ → List ℕ → List ℕ
without n [] = []
without n (m ∷ ms) = if n == m then ms else m ∷ without n ms

-- An int64 whose value is the number up to 2 ^ 64.
abbrev pub int64 : ℕ → ℤ
int64 n =
    let m = n % 18_446_744_073_709_551_616 in
    if ltb m 9_223_372_036_854_775_808 then pos m else negsuc (18_446_744_073_709_551_615 - m)

abbrev exceeds : ℤ → ℕ → Bool
exceeds (pos d) m = ltb m d
exceeds (negsuc d) m = false

-- 1 << uint(attempt-1). The unsigned number before 0 is larger than the width, so nothing is left.
abbrev shifted : ℕ → ℕ
shifted zero = 0
shifted (suc n) = 2 ^ n

-- backoffFor; the shift is of an int64, and so is the product.
unfoldable pub backoff_for : Settings → ℕ → ℤ
backoff_for c attempt =
    let d = int64 (c.retry_backoff * shifted attempt) in
    if c.retry_backoff == 0
    then pos 0
    else if ltb 0 c.retry_backoff_max && exceeds d c.retry_backoff_max
    then pos c.retry_backoff_max
    else d

-- What a run of an automation's attempts leaves.
pub record Tries (W : Type 0) : Type 0 where
  pub world : W
  pub failures : List Failure
  pub count : ℕ

pub data Outcome : Type 0 where
  -- The context ended during a wait.
  abandoned : Outcome
  ended : (error : Option Text) → Outcome

module _ {W : Type 0} (c : Settings) (run : Automation → Text → W → W × Option Text)
    (cancelled : ℕ → Bool) where
  -- Whether the context ends during the wait before an attempt.
  is_abandoned : ℕ → Bool
  is_abandoned attempt = ltb 0 attempt && (exceeds (backoff_for c attempt) 0 && cancelled attempt)

  -- The attempts of runAutomation, from one on; `left` are left.
  unfoldable pub retry :
      Automation → Text → (left attempt : ℕ) → Option Text → Tries W → Tries W × Outcome
  unfolding is_abandoned
  retry a key zero attempt error t = (t, ended error)
  retry a key (suc left) attempt error t =
      if is_abandoned attempt
      then (t, abandoned)
      else (let (w, e) = run a key t.world in
          elim e [
            | none ↦ (record t { world = w; count = suc t.count }, ended none)
            | some m ↦ retry a key left (suc attempt) (some m) (record {
              world = w;
              failures =
                  t.failures
                  ++ (record { automation_id = a.id; attempt = attempt; error = m } ∷ []);
              count = suc t.count;
            })
          ])

-- The row of a run.
abbrev pub run_row : Automation → Text → RunStatus → Text → AutomationRun
run_row a key status error = record {
  automation_id = a.id;
  user_id = a.user_id;
  session_key = key;
  status = status;
  error = error;
}

-- The time set, if there is one.
unfoldable pub with_next : Option ℕ → Automation → Automation
with_next none a = a
with_next (some t) a = record a { next_run = some t }

module _ (table : ℕ → ℕ) (civil : ℕ → Civil) (five_years_on : ℕ → ℕ) where
  unfoldable pub minutes : Option ℕ → Option ℕ
  minutes none = none
  minutes (some t) = some (t * minute_ns)

  unfoldable pub next_of : ℕ → Answer CronError Spec → Option ℕ
  unfolding minutes
  next_of from (err e) = none
  next_of from (ok spec) = minutes (next civil five_years_on spec from)

  -- ComputeNext
  unfoldable pub compute_next : Automation → ℕ → Option ℕ
  unfolding next_of
  compute_next a from = if a.is_cron then next_of from (parse table a.cron_expr) else none

  -- advanceNext
  unfoldable pub advance_next : Settings → ℕ → Bool → Automation → List Automation → List Automation
  unfolding with_next
  advance_next c now success a rows =
      update_automation
        (with_next (if success then compute_next a now else some (now + c.retry_delay)) a) rows

  module _ {W : Type 0} where
    -- A new automation: its first time is computed, and it is not run.
    unfoldable pub schedule_first : ℕ → Automation → Server W → Server W
    schedule_first now a s = elim (compute_next a now) [
      | none ↦ s
      | some t ↦ record s {
        automations = update_automation (record a { next_run = some t }) s.automations;
      }
    ]

    -- One row of scan: the server and whether the row's run begins.
    unfoldable pub scan_row : ℕ → Automation → Option ℕ → Server W → Server W × Bool
    unfolding schedule_first
    scan_row now a none s = (schedule_first now a s, false)
    scan_row now a (some t) s =
        if ltb now t
        then (s, false)
        else if is_member a.id s.running
        then (s, false)
        else (record s { running = a.id ∷ s.running }, true)

    unfoldable pub scan_rows : ℕ → List Automation → Server W → Server W × List Automation
    unfolding scan_row
    scan_rows now [] s = (s, [])
    scan_rows now (a ∷ rows) s =
        let (s₁, begins) = scan_row now a a.next_run s in
        let (s₂, rest) = scan_rows now rows s₁ in (s₂, if begins then a ∷ rest else rest)

    -- scan: the server and the rows, as read, whose runs begin.
    unfoldable pub scan : ℕ → Server W → Server W × List Automation
    unfolding scan_rows
    scan now s = scan_rows now (list_enabled_cron_automations s.automations) s

    module _ (c : Settings) (run : Automation → Text → W → W × Option Text)
        (cancelled : ℕ → Bool) where
      -- The end of runAutomation after its attempts. The clock is read twice: `ended_at` is
      -- when they ended, `now` what advanceNext reads after that.
      unfoldable pub conclude : ℕ → ℕ → Automation → Text → Outcome → Server W → Server W
      conclude ended_at now a key abandoned s = record s {
        runs = run_row a key running [] ∷ s.runs;
      }
      conclude ended_at now a key (ended none) s = record s {
        runs = run_row a key done [] ∷ s.runs;
        notices = record { automation_id = a.id; failure = none } ∷ s.notices;
        automations = advance_next c now true (record a { last_run = some ended_at }) s.automations;
      }
      conclude ended_at now a key (ended (some m)) s = record s {
        runs = run_row a key failed m ∷ s.runs;
        notices = record { automation_id = a.id; failure = some m } ∷ s.notices;
        automations = advance_next c now false a s.automations;
      }

      unfoldable pub run_in_session : ℕ → ℕ → Automation → Answer Text Text → Server W → Server W
      unfolding conclude
      run_in_session ended_at now a (err m) s = record s {
        audits = s.audits ++ (record { automation_id = a.id; attempt = 0; error = m } ∷ []);
        automations = advance_next c now false a s.automations;
      }
      run_in_session ended_at now a (ok key) s =
          let (t, out) =
            retry c run cancelled a key (suc c.max_retries) 0 none
              (record { world = s.world; failures = []; count = 0 }) in
          conclude ended_at now a key out
            (record s { world = t.world; audits = s.audits ++ t.failures })

      -- runAutomation on a row as scan has read it. `session` is the new session's key, or why there
      -- is none.
      unfoldable pub run_automation : ℕ → ℕ → Automation → Answer Text Text → Server W → Server W
      unfolding run_in_session
      run_automation ended_at now a session s =
          let s' = run_in_session ended_at now a session s in
          record s' { running = without a.id s'.running }
