-- ===== src/Base/Text/Pieces.antt =====
-- What strings.Contains finds.
use mathlib.Core.Path.{◌≡◌, refl, ap}
use mathlib.Core.Logic.{inl, inr}
use mathlib.Core.Bool.{true}
use mathlib.Core.List.{[], ◌∷◌, ◌++◌, append_assoc}
use native.Mathlib.Omega.{arith}
use multiagent.Base.Tests.{Bool-cases, ==_iff}
use multiagent.Base.Text.{Text, starts_with, contains}

starts_with-piece : (s t : Text) → starts_with s t ≡ true → (b : Text) × (s ≡ t ++ b)
unfolding starts_with
starts_with-piece s [] e = (s, refl)
starts_with-piece [] (d ∷ t) e = absurd (ground arith)
starts_with-piece (c ∷ s) (d ∷ t) e =
    let (b, is) = starts_with-piece s t (ground arith) in (b, ground (arith, ==_iff c d))

piece-starts_with : (t b : Text) → starts_with (t ++ b) t ≡ true
unfolding starts_with
piece-starts_with [] b = refl
piece-starts_with (c ∷ t) b = ground (arith, ==_iff c c, piece-starts_with t b)

-- What is contained is a piece.
pub contains-piece :
    (s t : Text) → contains s t ≡ true → (a : Text) × (b : Text) × (s ≡ a ++ (t ++ b))
unfolding contains
contains-piece [] [] e = ([], [], refl)
contains-piece [] (d ∷ t) e = absurd (ground arith)
contains-piece (c ∷ s) t e = elim (Bool-cases (starts_with (c ∷ s) t)) [
  | inl now ↦ let (b, is) = starts_with-piece (c ∷ s) t now in ([], b, is)
  | inr later ↦ let (a, b, is) = contains-piece s t (ground arith) in (c ∷ a, b, ap (λ x. c ∷ x) is)
]

-- A piece is contained.
pub piece-contains : (a t b : Text) → contains (a ++ (t ++ b)) t ≡ true
unfolding contains
piece-contains [] [] [] = refl
piece-contains [] [] (c ∷ b) = refl
piece-contains [] (d ∷ t) b = ground (arith, piece-starts_with (d ∷ t) b)
piece-contains (c ∷ a) t b = ground (arith, piece-contains a t b)

-- What a part contains, the whole contains.
pub contains_part : (x s y t : Text) → contains s t ≡ true → contains (x ++ (s ++ y)) t ≡ true
contains_part x s y t e =
    let (a, b, is) = contains-piece s t e in
    rw (is, append_assoc a (t ++ b) y, append_assoc t b y, ← (append_assoc x a (t ++ (b ++ y))))
      (piece-contains (x ++ a) t (b ++ y))
