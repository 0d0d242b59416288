-- ===== src/Base/Text/Blank.antt =====
-- Texts that trimming does not make empty.
use mathlib.Core.Path.{◌≡◌}
use mathlib.Core.Logic.{inl, inr}
use mathlib.Core.Bool.{false}
use mathlib.Core.List.{[], ◌∷◌, ◌++◌}
use native.Mathlib.Omega.{arith}
use Prim.Native.Nat.{ℕ}
use multiagent.Base.Tests.{Bool-cases}
use multiagent.Base.Lists.{is_nil}
use multiagent.Base.Text.{Text, is_space, trim_left, trim_right, trim_space}

trim_right-keeps :
    (a : Text) (c : ℕ) (b : Text) → is_space c ≡ false → is_nil (trim_right (a ++ (c ∷ b))) ≡ false
unfolding trim_right
trim_right-keeps [] c b h = ground arith
trim_right-keeps (d ∷ a) c b h = ground (arith, trim_right-keeps a c b h)

trim_left-keeps :
    (a : Text) (c : ℕ) (b : Text)
    → is_space c ≡ false
    → (a' : Text) × (trim_left (a ++ (c ∷ b)) ≡ a' ++ (c ∷ b))
unfolding trim_left
trim_left-keeps [] c b h = ([], ground arith)
trim_left-keeps (d ∷ a) c b h = elim (Bool-cases (is_space d)) [
  | inl space ↦ let (a', is) = trim_left-keeps a c b h in (a', ground arith)
  | inr other ↦ (d ∷ a, ground arith)
]

-- A text that holds something else than spaces.
pub trim_space-keeps :
    (a : Text) (c : ℕ) (b : Text) → is_space c ≡ false → is_nil (trim_space (a ++ (c ∷ b))) ≡ false
unfolding trim_space
trim_space-keeps a c b h =
    let (a', is) = trim_left-keeps a c b h in rw is (trim_right-keeps a' c b h)
