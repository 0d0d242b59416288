-- ===== src/Scheduler/Examples.antt =====
-- An automation that runs every minute.
use multiagent.Base.{
  ℕ, suc, ◌+◌, ◌%◌, ◌≡◌, ◌≤◌, refl, Bool, true, false, Option, none, some, [], ◌∷◌, ok,
  if◌then◌else◌, ◌==◌,
}
use multiagent.Base.Text.{Text, codes}
use multiagent.Base.Int.{pos}
use multiagent.Cron.Schedule.{Civil}
use multiagent.Scheduler.{
  Automation, Settings, Server, Tries, ended, retry, run_automation, backoff_for,
}
use multiagent.Scheduler.Retries.{Retried, retry-Retried}
use multiagent.Scheduler.Active.{scans, ends, steps, active_runs, steps-alone}
use multiagent.Scheduler.Endings.{Concluded, run_automation-Concluded}

abbrev settings : Settings
settings = record {
  max_retries = 2;
  retry_backoff = 1000;
  retry_backoff_max = 1500;
  retry_delay = 60;
}

abbrev every_minute : Automation
every_minute = record {
  id = 4;
  user_id = 1;
  name = codes "tidy";
  is_cron = true;
  cron_expr = codes "* * * * *";
  enabled = true;
  last_run = none;
  next_run = some 5;
  created_at = 1;
}

-- The first run fails, the second succeeds; the world counts them.
abbrev runner : Automation → Text → ℕ → ℕ × Option Text
runner a key w = (suc w, if w == 0 then some (codes "busy") else none)

abbrev server : Server ℕ
server = record {
  automations = every_minute ∷ [];
  running = [];
  runs = [];
  audits = [];
  notices = [];
  world = 0;
}

abbrev ascii : ℕ → ℕ
ascii c = c

abbrev civil : ℕ → Civil
civil t = record { minute = t % 60; hour = 0; day = 1; month = 1; weekday = 0 }

abbrev limit : ℕ → ℕ
limit t = t + 3

abbrev never : ℕ → Bool
never attempt = false

abbrev tries : Tries ℕ
tries = record { world = 0; failures = []; count = 0 }

retry-Retried_example :
    Retried 3 tries
      (retry settings runner never every_minute (codes "k") 3 0 none tries).0
      (retry settings runner never every_minute (codes "k") 3 0 none tries).1
retry-Retried_example = retry-Retried settings runner never every_minute (codes "k") tries

-- The second retry waits for the bound, the base doubled being more.
waits : backoff_for settings 2 ≡ pos 1500
unfolding backoff_for
waits = refl

steps-alone_example :
    active_runs 4
      (steps ascii civil limit settings runner never
        (scans 7 ∷ scans 8 ∷ ends 4 8 9 (ok (codes "k")) ∷ scans 10 ∷ [])
        (record { server = server; active = [] })).active
    ≤ 1
steps-alone_example =
    steps-alone ascii civil limit settings runner never
      (scans 7 ∷ scans 8 ∷ ends 4 8 9 (ok (codes "k")) ∷ scans 10 ∷ []) server 4 refl

run_automation-Concluded_example :
    Concluded ascii civil limit settings runner never 8 9 every_minute
      (codes "k")
      (ended none)
      server.automations
      server.runs
      (run_automation ascii civil limit settings runner never 8 9 every_minute
        (ok (codes "k"))
        server).automations
      (run_automation ascii civil limit settings runner never 8 9 every_minute
        (ok (codes "k"))
        server).runs
unfolding retry backoff_for
run_automation-Concluded_example =
    run_automation-Concluded ascii civil limit settings runner never 8 9 every_minute (codes "k")
      server
