-- ===== src/Base/Decimal.antt =====
-- Numbers in decimal: the `%d` of fmt, and strconv.Atoi.
use Prim.Native.Nat.{ℕ, zero, suc, ◌+◌, ◌-◌, ◌*◌, ◌/◌, ◌%◌, ◌^◌, ◌<◌}
use mathlib.Core.Path.{◌≡◌, refl, ◌∙◌}
use mathlib.Core.Logic.{inl, inr, ◌≢◌}
use mathlib.Core.Bool.{Bool, ◌&&◌}
use mathlib.Core.Option.{Option, none, some}
use mathlib.Core.List.{[], ◌∷◌}
use native.Mathlib.Omega.{arith}
use multiagent.Base.Tests.{◌==◌, ltb, leb, if◌then◌else◌, Bool-cases}
use multiagent.Base.Lists.{is_nil}
use multiagent.Base.Text.{Text, Digits}
use multiagent.Base.Int.{ℤ, pos, negsuc}

-- The digits of `n` in front of `rest`; `n < fuel` is enough.
decimal_from : ℕ → ℕ → Text → Text
decimal_from zero n rest = rest
decimal_from (suc fuel) n rest =
    let more = decimal_from fuel (n / 10) ((48 + n % 10) ∷ rest) in
    if ltb n 10 then (48 + n) ∷ rest else more

-- fmt.Sprintf("%d", n)
unfoldable pub decimal : ℕ → Text
unfolding decimal_from
decimal n = decimal_from (suc n) n []

abbrev pub is_digit : ℕ → Bool
is_digit c = leb 48 c && leb c 57

-- The value of the digits of a text, after digits of the value `v`.
unfoldable pub digits : ℕ → Text → Option ℕ
digits v [] = some v
digits v (c ∷ s) = let rest = digits (v * 10 + (c - 48)) s in if is_digit c then rest else none

abbrev pub int_limit : ℕ
int_limit = 2 ^ 63

abbrev unsigned : Text → Option ℕ
unsigned s = if is_nil s then none else digits 0 s

abbrev in_range_pos : Option ℕ → Option ℤ
in_range_pos none = none
in_range_pos (some v) = if ltb v int_limit then some (pos v) else none

abbrev in_range_neg : Option ℕ → Option ℤ
in_range_neg none = none
in_range_neg (some zero) = some (pos 0)
in_range_neg (some (suc n)) = if ltb n int_limit then some (negsuc n) else none

-- strconv.Atoi on 64-bit `int`: `none` is its error.
unfoldable pub atoi : Text → Option ℤ
unfolding digits
atoi [] = none
atoi (c ∷ s) =
    if c == b'+'
    then in_range_pos (unsigned s)
    else if c == b'-'
    then in_range_neg (unsigned s)
    else in_range_pos (digits 0 (c ∷ s))

digits-decimal_from :
    (fuel n : ℕ) (rest : Text) → n < fuel → digits 0 (decimal_from fuel n rest) ≡ digits n rest
unfolding decimal_from
digits-decimal_from zero n rest h = elim h [ ]
digits-decimal_from (suc fuel) n rest h = elim (Bool-cases (ltb n 10)) [
  | inl small ↦ rw small (unfold digits in ground arith)
  | inr large ↦ rw large (
      digits-decimal_from fuel (n / 10) ((48 + n % 10) ∷ rest) (ground arith)
      ∙ (unfold digits in ground arith))
]

pub digits-decimal : (n : ℕ) → digits 0 (decimal n) ≡ some n
unfolding decimal
digits-decimal n = digits-decimal_from (suc n) n [] (omega arith) ∙ (unfold digits in refl)

decimal_from-Digits : (fuel n : ℕ) (rest : Text) → Digits rest → Digits (decimal_from fuel n rest)
unfolding decimal_from
decimal_from-Digits zero n rest h = h
decimal_from-Digits (suc fuel) n rest h = elim (Bool-cases (ltb n 10)) [
  | inl small ↦ rw small (ground arith, h)
  | inr large ↦ rw large (
      decimal_from-Digits fuel (n / 10) ((48 + n % 10) ∷ rest)
        (let low : n % 10 < 10 = omega arith in ground arith, h))
]

pub decimal-Digits : (n : ℕ) → Digits (decimal n)
unfolding decimal
decimal-Digits n = decimal_from-Digits (suc n) n [] tt

pub decimal-injective : (m n : ℕ) → decimal m ≡ decimal n → m ≡ n
decimal-injective m n e = cc (digits-decimal m, digits-decimal n)

-- On the digits of a number below the limit, Atoi is the value of the digits.
atoi_of_digits :
    (s : Text) (n : ℕ)
    → s ≢ []
    → Digits s
    → digits 0 s ≡ some n
    → n < int_limit
    → atoi s ≡ some (pos n)
unfolding atoi
atoi_of_digits [] n h d e lt = absurd (h refl)
atoi_of_digits (c ∷ s) n h d e lt = ground arith

decimal_from-ne-nil : (fuel n : ℕ) (rest : Text) → rest ≢ [] → decimal_from fuel n rest ≢ []
unfolding decimal_from
decimal_from-ne-nil zero n rest h = h
decimal_from-ne-nil (suc fuel) n rest h =
    ground (arith, decimal_from-ne-nil fuel (n / 10) ((48 + n % 10) ∷ rest))

pub decimal-ne-nil : (n : ℕ) → decimal n ≢ []
unfolding decimal decimal_from
decimal-ne-nil n = ground (arith, decimal_from-ne-nil n (n / 10) ((48 + n % 10) ∷ []))

-- Atoi reads back what `%d` prints.
pub atoi-decimal : (n : ℕ) → n < int_limit → atoi (decimal n) ≡ some (pos n)
atoi-decimal n lt =
    atoi_of_digits (decimal n) n (decimal-ne-nil n) (decimal-Digits n) (digits-decimal n) lt

-- strconv.ParseUint in base 10 at 64 bits: `none` is its error.
unfoldable pub parse_uint : Text → Option ℕ
parse_uint s = elim (unsigned s) [ none ↦ none | some v ↦ if ltb v (2 ^ 64) then some v else none ]

-- The `%d` of an `int`.
abbrev pub decimal_int : ℤ → Text
decimal_int (pos n) = decimal n
decimal_int (negsuc n) = b'-' ∷ decimal (suc n)
