-- ===== src/Base/Text.antt =====
-- Go strings as the list of their runes, and the functions of the package `strings` that the
-- program calls.
pub mod Pieces
pub mod Blank
use Prim.Native.Char.{code}
use Prim.Native.String.{String}
use Prim.Native.Nat.{ℕ, suc, ◌+◌}
use mathlib.Core.Path.{◌≡◌, refl}
use mathlib.Core.Logic.{◌↔◌, ◌≢◌}
use mathlib.Core.Bool.{Bool, true, false, ◌&&◌, ◌||◌, not}
use mathlib.Core.Option.{Option, none, some}
use mathlib.Core.List.{List, [], ◌∷◌, ◌++◌, map, reverse}
use native.Mathlib.Omega.{arith}
use multiagent.Base.Tests.{◌==◌, leb, if◌then◌else◌, ==_iff}
use multiagent.Base.Lists.{is_nil, All}

abbrev pub Text : Type 0
Text = List ℕ

-- The runes of a literal.
abbrev pub codes : String → Text
codes String.[] = []
codes (String.◌∷◌ c s) = code c ∷ codes s

unfoldable pub text_eq : Text → Text → Bool
text_eq [] [] = true
text_eq [] (d ∷ t) = false
text_eq (c ∷ s) [] = false
text_eq (c ∷ s) (d ∷ t) = (c == d) && text_eq s t

pub text_eq_iff : (s t : Text) → (text_eq s t ≡ true) ↔ (s ≡ t)
unfolding text_eq
text_eq_iff [] [] = ground arith
text_eq_iff [] (d ∷ t) = ground arith
text_eq_iff (c ∷ s) [] = ground arith
text_eq_iff (c ∷ s) (d ∷ t) = ground (arith, text_eq_iff s t)

-- unicode.IsSpace
unfoldable pub is_space : ℕ → Bool
is_space c =
    (leb 9 c && leb c 13)
    || (c == 32)
    || (c == 0x85)
    || (c == 0xa0)
    || (c == 0x1680)
    || (leb 0x2000 c && leb c 0x200a)
    || (c == 0x2028)
    || (c == 0x2029)
    || (c == 0x202f)
    || (c == 0x205f)
    || (c == 0x3000)

trim_left : Text → Text
trim_left [] = []
trim_left (c ∷ s) = let rest = trim_left s in if is_space c then rest else c ∷ s

trim_right : Text → Text
trim_right [] = []
trim_right (c ∷ s) = let rest = trim_right s in if is_nil rest && is_space c then [] else c ∷ rest

-- strings.TrimSpace
unfoldable pub trim_space : Text → Text
unfolding is_space trim_left trim_right
trim_space s = trim_right (trim_left s)

-- A text with no space at either end.
abbrev starts_clean : Text → Bool
starts_clean [] = true
starts_clean (c ∷ s) = if is_space c then false else true

trim_left-starts_clean : (s : Text) → starts_clean (trim_left s) ≡ true
unfolding trim_left
trim_left-starts_clean [] = refl
trim_left-starts_clean (c ∷ s) = ground (arith, trim_left-starts_clean s)

trim_left_of_clean : (s : Text) → starts_clean s ≡ true → trim_left s ≡ s
unfolding trim_left
trim_left_of_clean [] h = refl
trim_left_of_clean (c ∷ s) h = ground arith

trim_right-starts_clean : (s : Text) → starts_clean s ≡ true → starts_clean (trim_right s) ≡ true
unfolding trim_right
trim_right-starts_clean [] h = refl
trim_right-starts_clean (c ∷ s) h = ground arith

trim_right-trim_right : (s : Text) → trim_right (trim_right s) ≡ trim_right s
unfolding trim_right
trim_right-trim_right [] = refl
trim_right-trim_right (c ∷ s) = ground (arith, trim_right-trim_right s)

-- Trimming a second time changes nothing.
pub trim_space-trim_space : (s : Text) → trim_space (trim_space s) ≡ trim_space s
unfolding trim_space
trim_space-trim_space s =
    rw
      (trim_left_of_clean (trim_right (trim_left s))
        (trim_right-starts_clean (trim_left s) (trim_left-starts_clean s)))
      (trim_right-trim_right (trim_left s))

-- unicode.ToLower; beyond ASCII it is Unicode's table, the parameter `table`.
pub lower_rune : (ℕ → ℕ) → ℕ → ℕ
lower_rune table c = if leb 0x80 c then table c else if leb b'A' c && leb c b'Z' then c + 32 else c

-- strings.ToLower
unfoldable pub to_lower : (ℕ → ℕ) → Text → Text
unfolding lower_rune
to_lower table s = map (lower_rune table) s

unfoldable pub starts_with : Text → Text → Bool
starts_with s [] = true
starts_with [] (d ∷ t) = false
starts_with (c ∷ s) (d ∷ t) = (c == d) && starts_with s t

-- strings.Contains s t
unfoldable pub contains : Text → Text → Bool
unfolding starts_with
contains [] t = is_nil t
contains (c ∷ s) t = starts_with (c ∷ s) t || contains s t

-- The words of a text so far: `word` is the one being read, reversed.
fields_from : Text → Text → List Text
fields_from word [] = if is_nil word then [] else reverse word ∷ []
fields_from word (c ∷ s) =
    let next = fields_from (if is_space c then [] else c ∷ word) s in
    if is_space c && not (is_nil word) then reverse word ∷ next else next

-- strings.Fields
unfoldable pub fields : Text → List Text
unfolding fields_from is_space
fields s = fields_from [] s

-- strings.Join
unfoldable pub join : Text → List Text → Text
join sep [] = []
join sep (s ∷ []) = s
join sep (s ∷ t ∷ ss) = s ++ (sep ++ join sep (t ∷ ss))

-- The pieces so far of a text that is split at the rune `sep`.
split_from : ℕ → Text → Text → List Text
split_from sep piece [] = reverse piece ∷ []
split_from sep piece (c ∷ s) =
    let next = split_from sep (if c == sep then [] else c ∷ piece) s in
    if c == sep then reverse piece ∷ next else next

-- strings.Split at one rune
unfoldable pub split : ℕ → Text → List Text
unfolding split_from
split sep s = split_from sep [] s

-- strings.Index of one rune, with the text before it and the text after it.
unfoldable pub cut : ℕ → Text → Option (Text × Text)
cut sep [] = none
cut sep (c ∷ s) =
    let rest = cut sep s in
    if c == sep then some ([], s) else elim rest [ none ↦ none | some (a, b) ↦ some (c ∷ a, b) ]

-- A text without spaces is trimmed to itself.
abbrev pub NoSpace : Text → Type 0
NoSpace s = All (λ c. is_space c ≡ false) s

trim_right_of_NoSpace : (s : Text) → NoSpace s → trim_right s ≡ s
unfolding trim_right
trim_right_of_NoSpace [] h = refl
trim_right_of_NoSpace (c ∷ s) h = ground (arith, trim_right_of_NoSpace s h.1)

trim_left_of_NoSpace : (s : Text) → NoSpace s → trim_left s ≡ s
unfolding trim_left
trim_left_of_NoSpace [] h = refl
trim_left_of_NoSpace (c ∷ s) h = ground arith

pub trim_space_of_NoSpace : (s : Text) → NoSpace s → trim_space s ≡ s
unfolding trim_space
trim_space_of_NoSpace s h = rw (trim_left_of_NoSpace s h) (trim_right_of_NoSpace s h)

abbrev pub Digits : Text → Type 0
Digits s = All (λ c. (leb 48 c && leb c 57) ≡ true) s

pub Digits-NoSpace : (s : Text) → Digits s → NoSpace s
unfolding is_space
Digits-NoSpace [] h = tt
Digits-NoSpace (c ∷ s) h = (ground arith, Digits-NoSpace s h.1)

pub to_lower_of_Digits : (table : ℕ → ℕ) (s : Text) → Digits s → to_lower table s ≡ s
unfolding to_lower
to_lower_of_Digits table [] h = refl
to_lower_of_Digits table (c ∷ s) h = ground (arith, to_lower_of_Digits table s h.1)
