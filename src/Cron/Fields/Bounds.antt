-- ===== src/Cron/Fields/Bounds.antt =====
-- cron.go: the values of a parsed expression lie within the bounds of their fields.
use multiagent.Base.{
  ℕ, zero, suc, ◌+◌, ◌-◌, ◌≤◌, ◌≡◌, refl, subst, true, false, ◌||◌, Option, none, some, List, [],
  ◌∷◌, arith, All, ltb, leb, ◌==◌, ==_iff, is_nil, inl, inr, Bool-cases, Option-cases, Answer, ok,
  err,
}
use multiagent.Base.Text.{Text, codes, text_eq, trim_space, split, cut, fields}
use multiagent.Base.Int.{ℤ, pos, negsuc}
use multiagent.Base.Decimal.{atoi, int_limit}
use multiagent.Base.Assoc.{Assoc}
use multiagent.Cron.Fields.{
  Matcher, has, Spec, CronError, range_values, add_range, base_range, add_between, stepped_part,
  add_part, and_then, add_parts, matcher_of, parse_field, without, sunday_zero, spec_of, parse_five,
  parse,
}

abbrev pub InRange : ℕ → ℕ → List ℕ → Type 0
InRange min max vs = All (λ v. (min ≤ v) × (v ≤ max)) vs

-- What an answer holds, if it is no error, lies within the bounds.
abbrev Ranged : ℕ → ℕ → Answer CronError (List ℕ) → Type 0
Ranged min max (err e) = Unit
Ranged min max (ok vs) = InRange min max vs

module _ (min max : ℕ) where
  range_values-Ranged :
      (fuel v hi step : ℕ) (vs : List ℕ)
      → InRange min max vs
      → Ranged min max (range_values fuel v hi step min max vs)
  unfolding range_values
  range_values-Ranged zero v hi step vs h = h
  range_values-Ranged (suc fuel) v hi step vs h = elim (Bool-cases (ltb hi v)) [
    | inl past ↦ rw (past, Ranged) h
    | inr going ↦ elim (Bool-cases (ltb v min || ltb max v)) [
      | inl out ↦ rw (going, out, Ranged) tt
      | inr inside ↦ elim (Bool-cases (leb int_limit (v + step))) [
        | inl wraps ↦ rw (going, inside, wraps, Ranged) tt
        | inr fits ↦
            rw (going, inside, fits)
              (range_values-Ranged fuel (v + step) hi step (v ∷ vs)
                ((ground arith, ground arith), h))
      ]
    ]
  ]

  add_range-Ranged :
      (lo hi step : ℕ) (vs : List ℕ)
      → InRange min max vs
      → Ranged min max (add_range lo hi step min max vs)
  unfolding add_range
  add_range-Ranged lo hi step vs h = elim (Bool-cases (ltb hi lo)) [
    | inl empty ↦ rw (empty, Ranged) tt
    | inr some_left ↦ rw some_left (range_values-Ranged (suc (hi - lo)) lo hi step vs h)
  ]

  add_between-Ranged :
      (step : ℕ) (r : Answer CronError (ℕ × ℕ)) (vs : List ℕ)
      → InRange min max vs
      → Ranged min max (add_between step min max r vs)
  unfolding add_between
  add_between-Ranged step (err e) vs h = tt
  add_between-Ranged step (ok (lo, hi)) vs h = add_range-Ranged lo hi step vs h

  module _ (table : ℕ → ℕ) (names : Assoc ℕ) where
    stepped_part-Ranged :
        (base : Text) (step : Option ℤ) (vs : List ℕ)
        → InRange min max vs
        → Ranged min max (stepped_part table base step min max names vs)
    unfolding stepped_part
    stepped_part-Ranged base none vs h = tt
    stepped_part-Ranged base (some (pos zero)) vs h = tt
    stepped_part-Ranged base (some (pos (suc n))) vs h =
        add_between-Ranged (suc n) (base_range table base true min max names) vs h
    stepped_part-Ranged base (some (negsuc n)) vs h = tt

    add_part-Ranged :
        (part : Text) (vs : List ℕ)
        → InRange min max vs
        → Ranged min max (add_part table part min max names vs)
    unfolding add_part
    add_part-Ranged part vs h = elim (Bool-cases (is_nil part)) [
      | inl empty ↦ rw (empty, Ranged) tt
      | inr full ↦ elim (Option-cases (cut b'/' part)) [
        | inl plain ↦
            rw (full, plain) (add_between-Ranged 1 (base_range table part false min max names) vs h)
        | inr ((base, step), at) ↦
            rw (full, at) (stepped_part-Ranged (trim_space base) (atoi (trim_space step)) vs h)
      ]
    ]

    and_then-Ranged :
        (f : List ℕ → Answer CronError (List ℕ)) (a : Answer CronError (List ℕ))
        → ((vs : List ℕ) → InRange min max vs → Ranged min max (f vs))
        → Ranged min max a
        → Ranged min max (and_then f a)
    unfolding and_then
    and_then-Ranged f (err e) keeps h = tt
    and_then-Ranged f (ok vs) keeps h = keeps vs h

    add_parts-Ranged :
        (ps : List Text) (vs : List ℕ)
        → InRange min max vs
        → Ranged min max (add_parts table ps min max names vs)
    unfolding add_parts
    add_parts-Ranged [] vs h = h
    add_parts-Ranged (p ∷ ps) vs h =
        and_then-Ranged (add_parts table ps min max names)
          (add_part table (trim_space p) min max names vs) (add_parts-Ranged ps)
          (add_part-Ranged (trim_space p) vs h)

    matcher_of-InRange :
        (a : Answer CronError (List ℕ)) (m : Matcher)
        → Ranged min max a
        → matcher_of a ≡ ok m
        → InRange min max m.values
    unfolding matcher_of
    matcher_of-InRange (err e) m h is = absurd (ground arith)
    matcher_of-InRange (ok vs) m h is =
        let same : vs ≡ m.values = ground arith in subst (InRange min max) same h

    parse_field-InRange :
        (field : Text) (m : Matcher)
        → parse_field table field min max names ≡ ok m
        → InRange min max m.values
    unfolding parse_field
    parse_field-InRange field m is =
        elim (Bool-cases (text_eq field (codes "*") || text_eq field (codes "?"))) [
          | inl every ↦ let same : [] ≡ m.values = ground arith in subst (InRange min max) same tt
          | inr listed ↦
              matcher_of-InRange (add_parts table (split b',' field) min max names []) m
                (add_parts-Ranged (split b',' field) [] tt) (rw listed at is)
        ]

without-below :
    (max : ℕ) (vs : List ℕ) → InRange 0 (suc max) vs → InRange 0 max (without (suc max) vs)
unfolding without
without-below max [] h = tt
without-below max (v ∷ vs) h = elim (Bool-cases (v == suc max)) [
  | inl top ↦ rw (top, InRange) (without-below max vs h.1)
  | inr below ↦
      rw (below, InRange)
        ((omega arith, ground (arith, ==_iff v (suc max), h.0.1)), without-below max vs h.1)
]

lacking-below :
    (max : ℕ) (vs : List ℕ) → has (suc max) vs ≡ false → InRange 0 (suc max) vs → InRange 0 max vs
unfolding has
lacking-below max [] lacks h = tt
lacking-below max (v ∷ vs) lacks h = (
  (omega arith, ground (arith, ==_iff v (suc max), h.0.1)),
  lacking-below max vs (ground arith) h.1,
)

sunday_zero-InRange : (m : Matcher) → InRange 0 7 m.values → InRange 0 6 (sunday_zero m).values
unfolding sunday_zero
sunday_zero-InRange m h = elim (Bool-cases (has 7 m.values)) [
  | inl seven ↦ rw seven ((omega arith, omega arith), without-below 6 m.values h)
  | inr lacks ↦ rw lacks (lacking-below 6 m.values lacks h)
]

-- The values of each field are among those that a time can have there.
pub record SpecInRange (s : Spec) : Type 0 where
  pub minutes : InRange 0 59 s.minute.values
  pub hours : InRange 0 23 s.hour.values
  pub days : InRange 1 31 s.dom.values
  pub months : InRange 1 12 s.month.values
  pub weekdays : InRange 0 6 s.dow.values

-- A field that was parsed holds values within the bounds.
abbrev Parsed : ℕ → ℕ → Answer CronError Matcher → Type 0
Parsed min max a = (m : Matcher) → a ≡ ok m → InRange min max m.values

spec_of-SpecInRange :
    (minute hour dom month dow : Answer CronError Matcher) (s : Spec)
    → Parsed 0 59 minute
    → Parsed 0 23 hour
    → Parsed 1 31 dom
    → Parsed 1 12 month
    → Parsed 0 7 dow
    → spec_of minute hour dom month dow ≡ ok s
    → SpecInRange s
unfolding spec_of
spec_of-SpecInRange (ok mi) (ok ho) (ok dm) (ok mo) (ok dw) s a b c d e is =
    let made : record { minute = mi; hour = ho; dom = dm; month = mo; dow = sunday_zero dw } ≡ s =
      ground arith in
    subst SpecInRange made (record {
      minutes = a mi refl;
      hours = b ho refl;
      days = c dm refl;
      months = d mo refl;
      weekdays = sunday_zero-InRange dw (e dw refl);
    })
spec_of-SpecInRange (err x) ho dm mo dw s a b c d e is = absurd (ground arith)
spec_of-SpecInRange (ok mi) (err x) dm mo dw s a b c d e is = absurd (ground arith)
spec_of-SpecInRange (ok mi) (ok ho) (err x) mo dw s a b c d e is = absurd (ground arith)
spec_of-SpecInRange (ok mi) (ok ho) (ok dm) (err x) dw s a b c d e is = absurd (ground arith)
spec_of-SpecInRange (ok mi) (ok ho) (ok dm) (ok mo) (err x) s a b c d e is = absurd (ground arith)

parse_five-SpecInRange :
    (table : ℕ → ℕ) (fs : List Text) (s : Spec) → parse_five table fs ≡ ok s → SpecInRange s
unfolding parse_five
parse_five-SpecInRange table (mi ∷ ho ∷ dm ∷ mo ∷ dw ∷ []) s is =
    spec_of-SpecInRange _ _ _ _ _ s (parse_field-InRange 0 59 table _ mi)
      (parse_field-InRange 0 23 table _ ho) (parse_field-InRange 1 31 table _ dm)
      (parse_field-InRange 1 12 table _ mo) (parse_field-InRange 0 7 table _ dw) is
parse_five-SpecInRange table [] s is = absurd (ground arith)
parse_five-SpecInRange table (a ∷ []) s is = absurd (ground arith)
parse_five-SpecInRange table (a ∷ b ∷ []) s is = absurd (ground arith)
parse_five-SpecInRange table (a ∷ b ∷ c ∷ []) s is = absurd (ground arith)
parse_five-SpecInRange table (a ∷ b ∷ c ∷ d ∷ []) s is = absurd (ground arith)
parse_five-SpecInRange table (a ∷ b ∷ c ∷ d ∷ e ∷ f ∷ fs) s is = absurd (ground arith)

-- Every value that Parse accepts is one that its field of a time can have: minutes from 0 to 59,
-- hours to 23, days of the month from 1 to 31, months from 1 to 12, weekdays from 0 to 6.
pub parse-SpecInRange :
    (table : ℕ → ℕ) (expr : Text) (s : Spec) → parse table expr ≡ ok s → SpecInRange s
unfolding parse
parse-SpecInRange table expr s is = parse_five-SpecInRange table (fields (trim_space expr)) s is
