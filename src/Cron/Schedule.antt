-- ===== src/Cron/Schedule.antt =====
-- cron.go: the times that a schedule matches. Go's calendar, which gives a minute its fields in a
-- location and adds years, is a parameter; times are in nanoseconds, minutes are counted from the
-- same origin.
pub mod Times
use multiagent.Base.{
  ℕ, zero, suc, ◌+◌, ◌-◌, ◌*◌, ◌/◌, Bool, true, false, ◌&&◌, ◌||◌, Option, none, some,
  if◌then◌else◌,
}
use multiagent.Cron.Fields.{Matcher, match_value, Spec}

-- The fields of a time; Sunday is 0.
pub record Civil : Type 0 where
  pub minute : ℕ
  pub hour : ℕ
  pub day : ℕ
  pub month : ℕ
  pub weekday : ℕ

-- The `switch` at the end of matches.
abbrev day_matches : Spec → Civil → Bool
day_matches s t =
    let dom = match_value s.dom t.day in
    let dow = match_value s.dow t.weekday in
    if s.dom.every && s.dow.every
    then true
    else if s.dom.every
    then dow
    else if s.dow.every
    then dom
    else dom || dow

-- matches
unfoldable pub matches : Spec → Civil → Bool
matches s t =
    if match_value s.minute t.minute
    then (if match_value s.hour t.hour
        then (if match_value s.month t.month then day_matches s t else false)
        else false)
    else false

abbrev pub minute_ns : ℕ
minute_ns = 60_000_000_000

-- The loop of Next, from a minute on.
search : (ℕ → Civil) → ℕ → Spec → ℕ → Option ℕ
search civil zero s t = none
search civil (suc fuel) s t =
    let later = search civil fuel s (suc t) in if matches s (civil t) then some t else later

-- The first minute that Next looks at.
abbrev pub first_minute : ℕ → ℕ
first_minute from = suc (from / minute_ns)

-- Next: the minute that it returns.
unfoldable pub next : (civil : ℕ → Civil) (five_years_on : ℕ → ℕ) → Spec → ℕ → Option ℕ
unfolding search
next civil five_years_on s from =
    let t = first_minute from in search civil (five_years_on t - t) s t
