-- ===== src/Cron/Schedule/Times.antt =====
-- cron.go: Next finds the first time that matches.
use multiagent.Base.{
  ℕ, zero, suc, ◌+◌, ◌-◌, ◌*◌, ◌/◌, ◌≤◌, ◌<◌, ◌≡◌, true, false, ◌&&◌, ◌||◌, none, some, arith,
  if◌then◌else◌, inl, inr, Bool-cases, subst, ◌==◌, ==_iff,
}
use multiagent.Cron.Fields.{match_value, Spec}
use multiagent.Cron.Schedule.{Civil, matches, minute_ns, search, first_minute, next}

-- A time matches where its minute, hour and month do, and its day does: where both the day of the
-- month and the weekday are restricted, one of them is enough, and else both have to match.
pub matches_lem :
    (s : Spec) (t : Civil)
    → matches s t
      ≡ match_value s.minute t.minute
        && (match_value s.hour t.hour
            && (match_value s.month t.month
                && (if s.dom.every || s.dow.every
                    then match_value s.dom t.day && match_value s.dow t.weekday
                    else match_value s.dom t.day || match_value s.dow t.weekday)))
unfolding matches
matches_lem s t = ground arith

module _ (civil : ℕ → Civil) (s : Spec) where
  search-some :
      (fuel t u v : ℕ)
      → search civil fuel s t ≡ some u
      → (t ≤ u)
        × (u < t + fuel)
        × (matches s (civil u) ≡ true)
        × (t ≤ v → v < u → matches s (civil v) ≡ false)
  unfolding search
  search-some zero t u v e = absurd (ground arith)
  search-some (suc fuel) t u v e = elim (Bool-cases (matches s (civil t))) [
    | inl now ↦
        let is : t ≡ u = ground arith in
        (
          omega arith,
          omega arith,
          subst (λ w. matches s (civil w) ≡ true) is now,
          λ le lt. absurd (omega arith),
        )
    | inr not_now ↦
        let (le, lt, match, before) = search-some fuel (suc t) u v (ground arith) in
        (
          omega arith,
          omega arith,
          match,
          λ from_t before_u. elim (Bool-cases (t == v)) [
            | inl same ↦
                let is : t ≡ v = ground (arith, ==_iff t v) in
                subst (λ w. matches s (civil w) ≡ false) is not_now
            | inr other ↦ before (ground (arith, ==_iff t v)) before_u
          ],
        )
  ]

  search-none :
      (fuel t v : ℕ)
      → search civil fuel s t ≡ none
      → t ≤ v
      → v < t + fuel
      → matches s (civil v) ≡ false
  unfolding search
  search-none zero t v e le lt = absurd (omega arith)
  search-none (suc fuel) t v e le lt = elim (Bool-cases (matches s (civil t))) [
    | inl now ↦ absurd (ground arith)
    | inr not_now ↦ elim (Bool-cases (t == v)) [
      | inl same ↦
          let is : t ≡ v = ground (arith, ==_iff t v) in
          subst (λ w. matches s (civil w) ≡ false) is not_now
      | inr other ↦
          search-none fuel (suc t) v (ground arith) (ground (arith, ==_iff t v)) (omega arith)
    ]
  ]

  -- The minute that Next returns is after the time given and before the limit, it matches, and no
  -- minute between them does. Where Next gives an error, no minute after the time given matches, up
  -- to the limit, five years later.
  pub next_lem :
      (five_years_on : ℕ → ℕ) (from v : ℕ)
      → ((u : ℕ)
          → next civil five_years_on s from ≡ some u
          → (from < u * minute_ns)
            × (u < five_years_on (first_minute from))
            × (matches s (civil u) ≡ true)
            × (from < v * minute_ns → v < u → matches s (civil v) ≡ false))
        × (next civil five_years_on s from ≡ none
            → from < v * minute_ns
            → v < five_years_on (first_minute from)
            → matches s (civil v) ≡ false)
  unfolding next
  next_lem five_years_on from v =
      let t = suc (from / minute_ns) in
      (
        λ u e.
            let (le, lt, match, before) = search-some (five_years_on t - t) t u v e in
            (omega arith, omega arith, match, λ later. before (omega arith)),
        λ e later before. search-none (five_years_on t - t) t v e (omega arith) (omega arith),
      )
