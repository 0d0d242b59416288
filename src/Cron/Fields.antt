-- ===== src/Cron/Fields.antt =====
-- cron.go: the fields of an expression, parsed.
pub mod Steps
pub mod Bounds
use multiagent.Base.{
  ℕ, zero, suc, ◌+◌, ◌-◌, ◌≤◌, Bool, true, false, ◌&&◌, ◌||◌, Option, none, some, List, [], ◌∷◌,
  ◌++◌, length, ltb, leb, ◌==◌, if◌then◌else◌, is_nil, Answer, ok, err,
}
use multiagent.Base.Text.{Text, codes, text_eq, trim_space, to_lower, fields, split, cut, contains}
use multiagent.Base.Int.{ℤ, pos, negsuc}
use multiagent.Base.Decimal.{atoi, int_limit}
use multiagent.Base.Assoc.{Assoc, lookup}

-- matcher; `values` is the keys of its set.
pub record Matcher : Type 0 where
  pub every : Bool
  pub values : List ℕ

unfoldable pub has : ℕ → List ℕ → Bool
has v [] = false
has v (u ∷ us) = (u == v) || has v us

-- matcher.match
abbrev pub match_value : Matcher → ℕ → Bool
match_value m v = if m.every then true else has v m.values

pub record Spec : Type 0 where
  pub minute : Matcher
  pub hour : Matcher
  pub dom : Matcher
  pub month : Matcher
  pub dow : Matcher

pub data CronError : Type 0 where
  field_count empty_part bad_step bad_range bad_value out_of_range : CronError

abbrev month_names : Assoc ℕ
month_names =
    (codes "jan", 1)
    ∷ (codes "feb", 2)
    ∷ (codes "mar", 3)
    ∷ (codes "apr", 4)
    ∷ (codes "may", 5)
    ∷ (codes "jun", 6)
    ∷ (codes "jul", 7)
    ∷ (codes "aug", 8)
    ∷ (codes "sep", 9)
    ∷ (codes "oct", 10)
    ∷ (codes "nov", 11)
    ∷ (codes "dec", 12)
    ∷ []

abbrev dow_names : Assoc ℕ
dow_names =
    (codes "sun", 0)
    ∷ (codes "mon", 1)
    ∷ (codes "tue", 2)
    ∷ (codes "wed", 3)
    ∷ (codes "thu", 4)
    ∷ (codes "fri", 5)
    ∷ (codes "sat", 6)
    ∷ []

bounded : ℕ → ℕ → Option ℤ → Answer CronError ℕ
bounded min max none = err bad_value
bounded min max (some (pos v)) = if ltb v min || ltb max v then err out_of_range else ok v
bounded min max (some (negsuc v)) = err out_of_range

-- parseValue; no names are an empty map.
unfoldable pub parse_value : (ℕ → ℕ) → Text → ℕ → ℕ → Assoc ℕ → Answer CronError ℕ
unfolding bounded
parse_value table s min max names = elim (lookup (to_lower table (trim_space s)) names) [
  | some v ↦ ok v
  | none ↦ bounded min max (atoi (trim_space s))
]

-- The loop of addPart, on an int: where `v + step` does not fit, it is below `min` next time. There
-- are at most as many rounds as values from `lo` to `hi`.
unfoldable pub range_values : ℕ → ℕ → ℕ → ℕ → ℕ → ℕ → List ℕ → Answer CronError (List ℕ)
range_values zero v hi step min max vs = ok vs
range_values (suc fuel) v hi step min max vs =
    let later = range_values fuel (v + step) hi step min max (v ∷ vs) in
    if ltb hi v
    then ok vs
    else if ltb v min || ltb max v
    then err out_of_range
    else if leb int_limit (v + step)
    then err out_of_range
    else later

add_range : ℕ → ℕ → ℕ → ℕ → ℕ → List ℕ → Answer CronError (List ℕ)
add_range lo hi step min max vs =
    if ltb hi lo then err bad_range else range_values (suc (hi - lo)) lo hi step min max vs

range_from : ℕ → Answer CronError ℕ → Answer CronError (ℕ × ℕ)
range_from lo (err e) = err e
range_from lo (ok hi) = ok (lo, hi)

range_between : Answer CronError ℕ → Answer CronError ℕ → Answer CronError (ℕ × ℕ)
unfolding range_from
range_between (err e) hi = err e
range_between (ok lo) hi = range_from lo hi

single_range : ℕ → Bool → Answer CronError ℕ → Answer CronError (ℕ × ℕ)
single_range max stepped (err e) = err e
single_range max stepped (ok v) = ok (v, if stepped then max else v)

-- The bounds that the text before a step gives.
base_range : (ℕ → ℕ) → Text → Bool → ℕ → ℕ → Assoc ℕ → Answer CronError (ℕ × ℕ)
unfolding range_between single_range
base_range table base stepped min max names =
    if text_eq base (codes "*") then ok (min, max) else elim (cut b'-' base) [
      | some (a, b) ↦
          range_between (parse_value table a min max names) (parse_value table b min max names)
      | none ↦ single_range max stepped (parse_value table base min max names)
    ]

add_between : ℕ → ℕ → ℕ → Answer CronError (ℕ × ℕ) → List ℕ → Answer CronError (List ℕ)
unfolding add_range
add_between step min max (err e) vs = err e
add_between step min max (ok (lo, hi)) vs = add_range lo hi step min max vs

stepped_part : (ℕ → ℕ) → Text → Option ℤ → ℕ → ℕ → Assoc ℕ → List ℕ → Answer CronError (List ℕ)
unfolding add_between
stepped_part table base none min max names vs = err bad_step
stepped_part table base (some (pos zero)) min max names vs = err bad_step
stepped_part table base (some (pos (suc n))) min max names vs =
    add_between (suc n) min max (base_range table base true min max names) vs
stepped_part table base (some (negsuc n)) min max names vs = err bad_step

-- addPart
unfoldable pub add_part : (ℕ → ℕ) → Text → ℕ → ℕ → Assoc ℕ → List ℕ → Answer CronError (List ℕ)
unfolding add_between stepped_part base_range
add_part table part min max names vs =
    if is_nil part then err empty_part else elim (cut b'/' part) [
      | some (base, step) ↦
          stepped_part table (trim_space base) (atoi (trim_space step)) min max names vs
      | none ↦ add_between 1 min max (base_range table part false min max names) vs
    ]

and_then :
    (List ℕ → Answer CronError (List ℕ)) → Answer CronError (List ℕ) → Answer CronError (List ℕ)
and_then f (err e) = err e
and_then f (ok vs) = f vs

add_parts : (ℕ → ℕ) → List Text → ℕ → ℕ → Assoc ℕ → List ℕ → Answer CronError (List ℕ)
unfolding and_then
add_parts table [] min max names vs = ok vs
add_parts table (p ∷ ps) min max names vs =
    and_then (add_parts table ps min max names) (add_part table (trim_space p) min max names vs)

matcher_of : Answer CronError (List ℕ) → Answer CronError Matcher
matcher_of (err e) = err e
matcher_of (ok vs) = ok (record { every = false; values = vs })

-- parseField
unfoldable pub parse_field : (ℕ → ℕ) → Text → ℕ → ℕ → Assoc ℕ → Answer CronError Matcher
unfolding matcher_of add_parts
parse_field table field min max names =
    if text_eq field (codes "*") || text_eq field (codes "?")
    then ok (record { every = true; values = [] })
    else matcher_of (add_parts table (split b',' field) min max names [])

unfoldable pub without : ℕ → List ℕ → List ℕ
without v [] = []
without v (u ∷ us) = let rest = without v us in if u == v then rest else u ∷ rest

-- Sunday may be 7.
unfoldable pub sunday_zero : Matcher → Matcher
sunday_zero m = if has 7 m.values then record m { values = 0 ∷ without 7 m.values } else m

-- The five fields in turn; the first error is the answer.
spec_of :
    Answer CronError Matcher
    → Answer CronError Matcher
    → Answer CronError Matcher
    → Answer CronError Matcher
    → Answer CronError Matcher
    → Answer CronError Spec
spec_of (ok minute) (ok hour) (ok dom) (ok month) (ok dow) =
    ok (record { minute = minute; hour = hour; dom = dom; month = month; dow = sunday_zero dow })
spec_of (err e) hour dom month dow = err e
spec_of (ok minute) (err e) dom month dow = err e
spec_of (ok minute) (ok hour) (err e) month dow = err e
spec_of (ok minute) (ok hour) (ok dom) (err e) dow = err e
spec_of (ok minute) (ok hour) (ok dom) (ok month) (err e) = err e

parse_five : (ℕ → ℕ) → List Text → Answer CronError Spec
unfolding spec_of
parse_five table (minute ∷ hour ∷ dom ∷ month ∷ dow ∷ []) =
    spec_of (parse_field table minute 0 59 []) (parse_field table hour 0 23 [])
      (parse_field table dom 1 31 []) (parse_field table month 1 12 month_names)
      (parse_field table dow 0 7 dow_names)
parse_five table _ = err field_count

-- Parse
unfoldable pub parse : (ℕ → ℕ) → Text → Answer CronError Spec
unfolding parse_five
parse table expr = parse_five table (fields (trim_space expr))
