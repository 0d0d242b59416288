-- ===== src/Cron/Examples.antt =====
-- Expressions parsed, and the next time of a schedule on a calendar of thirty-day months.
use multiagent.Base.{
  ℕ, ◌+◌, ◌*◌, ◌/◌, ◌%◌, ◌<◌, ◌≡◌, refl, true, false, none, some, List, [], ◌∷◌, err,
}
use multiagent.Base.Text.{codes, text_eq, trim_space, to_lower, fields, split, cut}
use multiagent.Base.Decimal.{atoi}
use multiagent.Base.Assoc.{lookup}
use multiagent.Cron.Fields.{
  Matcher, has, Spec, out_of_range, range_values, add_part, parse_field, parse_value, parse,
  sunday_zero, without,
}
use multiagent.Cron.Fields.Bounds.{SpecInRange, parse-SpecInRange}
use multiagent.Cron.Schedule.{Civil, matches, minute_ns, first_minute, next}
use multiagent.Cron.Schedule.Times.{next_lem}

abbrev table : ℕ → ℕ
table n = n

abbrev listed : List ℕ → Matcher
listed vs = record { every = false; values = vs }

abbrev any : Matcher
any = record { every = true; values = [] }

abbrev quarters : Spec
quarters = record {
  minute = listed (45 ∷ 30 ∷ 15 ∷ 0 ∷ []);
  hour = any;
  dom = any;
  month = any;
  dow = listed (0 ∷ 5 ∷ []);
}

parse-SpecInRange_example : SpecInRange quarters
unfolding parse fields trim_space text_eq parse_field split add_part cut atoi range_values has
    sunday_zero without parse_value lookup to_lower
parse-SpecInRange_example = parse-SpecInRange table (codes "*/15 * * * fri,7") quarters refl

-- A step so large that the next value does not fit an int is refused.
huge_step : parse_field table (codes "1-5/9223372036854775807") 0 59 [] ≡ err out_of_range
unfolding text_eq parse_field split add_part cut atoi range_values parse_value lookup to_lower
    trim_space
huge_step = refl

abbrev civil : ℕ → Civil
civil t = record {
  minute = t % 60;
  hour = t / 60 % 24;
  day = t / 1440 % 30 + 1;
  month = t / 43_200 % 12 + 1;
  weekday = t / 1440 % 7;
}

abbrev five_years : ℕ → ℕ
five_years t = t + 100

next_lem_example :
    ((u : ℕ)
      → next civil five_years quarters (16 * minute_ns) ≡ some u
      → (16 * minute_ns < u * minute_ns)
        × (u < five_years (first_minute (16 * minute_ns)))
        × (matches quarters (civil u) ≡ true)
        × (16 * minute_ns < 20 * minute_ns → 20 < u → matches quarters (civil 20) ≡ false))
    × (next civil five_years quarters (16 * minute_ns) ≡ none
        → 16 * minute_ns < 20 * minute_ns
        → 20 < five_years (first_minute (16 * minute_ns))
        → matches quarters (civil 20) ≡ false)
next_lem_example = next_lem civil quarters five_years (16 * minute_ns) 20

next_quarter : next civil five_years quarters (16 * minute_ns) ≡ some 30
unfolding next matches has
next_quarter = refl
