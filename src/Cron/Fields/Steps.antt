-- ===== src/Cron/Fields/Steps.antt =====
-- cron.go: the values that a range with a step stands for.
use multiagent.Base.{
  ℕ, zero, suc, ◌+◌, ◌-◌, ◌*◌, ◌≤◌, ◌<◌, ◌≡◌, ◌⊎◌, ◌↔◌, sym, ◌∙◌, subst, true, ◌||◌, List, ◌∷◌,
  arith, ltb, ◌==◌, ==_iff, inl, inr, Bool-cases, ok,
}
use multiagent.Cron.Fields.{has, range_values}

-- `u` is reached from `v` in steps, no later than `hi`.
abbrev pub Reached : ℕ → ℕ → ℕ → ℕ → Type 0
Reached v hi step u = (k : ℕ) × (u ≡ v + k * step) × (u ≤ hi)

suc-step : (v k step : ℕ) → v + step + k * step ≡ v + suc k * step
suc-step v k step = omega arith

-- A value from `v` on is `v`, or one from the next on.
Reached-next :
    (v hi step u : ℕ) → v ≤ hi → Reached v hi step u ↔ ((v ≡ u) ⊎ Reached (v + step) hi step u)
Reached-next v hi step u le = (
  λ (k, is, top). first k is top,
  λ h. elim h [
    | inl same ↦ (0, omega arith, omega arith)
    | inr (k, is, top) ↦ (suc k, is ∙ suc-step v k step, top)
  ],
)
  where
    first : (k : ℕ) → u ≡ v + k * step → u ≤ hi → (v ≡ u) ⊎ Reached (v + step) hi step u
    first zero is top = inl (omega arith)
    first (suc k) is top = inr (k, is ∙ sym (suc-step v k step), top)

module _ (min max hi step : ℕ) where
  -- What was there before the loop is there after it, and the values that it adds are those reached.
  abbrev Covers : ℕ → ℕ → List ℕ → List ℕ → Type 0
  Covers v u vs ws = (has u ws ≡ true) ↔ ((has u vs ≡ true) ⊎ Reached v hi step u)

  Covers-past : (v u : ℕ) (vs : List ℕ) → hi < v → Covers v u vs vs
  Covers-past v u vs past =
      (λ h. inl h, λ h. elim h [ inl there ↦ there | inr (k, is, top) ↦ absurd (omega arith) ])

  Covers-step :
      (v u : ℕ) (vs ws : List ℕ) → v ≤ hi → Covers (v + step) u (v ∷ vs) ws → Covers v u vs ws
  unfolding has
  Covers-step v u vs ws le (there, back) = (
    λ h. elim (there h) [
      | inl h' ↦ elim (Bool-cases (v == u)) [
        | inl same ↦ inr ((Reached-next v hi step u le).1 (inl (ground (arith, ==_iff v u))))
        | inr other ↦ inl (ground arith)
      ]
      | inr later ↦ inr ((Reached-next v hi step u le).1 (inr later))
    ],
    λ h. elim h [
      | inl h' ↦ back (inl (ground arith))
      | inr r ↦ elim ((Reached-next v hi step u le).0 r) [
        | inl same ↦ back (inl (ground (arith, ==_iff v u)))
        | inr later ↦ back (inr later)
      ]
    ],
  )

  range_values-Covers :
      (fuel v u : ℕ) (vs ws : List ℕ)
      → 0 < step
      → hi < v + fuel
      → range_values fuel v hi step min max vs ≡ ok ws
      → Covers v u vs ws
  unfolding range_values
  range_values-Covers zero v u vs ws steps enough is =
      subst (Covers v u vs) (ground arith) (Covers-past v u vs (omega arith))
  range_values-Covers (suc fuel) v u vs ws steps enough is = elim (Bool-cases (ltb hi v)) [
    | inl past ↦ subst (Covers v u vs) (ground arith) (Covers-past v u vs (ground arith))
    | inr going ↦ elim (Bool-cases (ltb v min || ltb max v)) [
      | inl out ↦ absurd (ground arith)
      | inr inside ↦
          Covers-step v u vs ws (ground arith)
            (range_values-Covers fuel (v + step) u (v ∷ vs) ws steps (omega arith) (ground arith))
    ]
  ]

-- A range with a step adds its first value and every further one at whole steps, up to its last,
-- and nothing else: the loop's fuel is enough.
pub range_values-Reached :
    (min max lo hi step u : ℕ) (vs ws : List ℕ)
    → 0 < step
    → lo ≤ hi
    → range_values (suc (hi - lo)) lo hi step min max vs ≡ ok ws
    → (has u ws ≡ true) ↔ ((has u vs ≡ true) ⊎ Reached lo hi step u)
range_values-Reached min max lo hi step u vs ws steps le is =
    range_values-Covers min max hi step (suc (hi - lo)) lo u vs ws steps (omega arith) is
