-- ===== src/Executor/Blacklist/Verdicts.antt =====
-- blacklist.go: what decides a command's verdict.
use multiagent.Base.{
  ℕ, zero, suc, ◌≡◌, ◌≢◌, ◌↔◌, refl, ◌∙◌, Bool, true, false, ◌||◌, Option, none, some, List, [],
  ◌∷◌, ◌++◌, arith, get_elem?, if◌then◌else◌, inl, inr, Bool-cases, Option-cases,
}
use mathlib.Core.List.{Permᴰ}
use multiagent.Base.Text.{Text}
use multiagent.Base.Text.Pieces.{contains-piece, piece-contains}
use multiagent.Executor.Blacklist.{
  Decision, allow, ask, deny, decision_eq, Rule, normalize_command, DangerousCommandPolicy, is_hit,
  scan, evaluate,
}

-- Some rule with this decision has a fragment that is a piece of the command.
abbrev pub Hits : Decision → Text → List Rule → Type 0
Hits d norm rules =
    (i : ℕ) × (r : Rule) × (a : Text) × (b : Text) × (get_elem? rules i ≡ some r)
    × (r.decision ≡ d)
    × (norm ≡ a ++ (r.fragment ++ b))

decision_eq-≡ : (c d : Decision) → decision_eq c d ≡ true → c ≡ d
decision_eq-≡ c d e = ground arith

decision_eq_refl : (d : Decision) → decision_eq d d ≡ true
decision_eq_refl allow = refl
decision_eq_refl ask = refl
decision_eq_refl deny = refl
decision_eq_refl (Decision.other n) = ground arith

scan-Hits :
    (d : Decision) (norm : Text) (rules : List Rule) (reason : Text)
    → scan d norm rules ≡ some reason
    → Hits d norm rules
unfolding scan
scan-Hits d norm [] reason e = absurd (ground arith)
scan-Hits d norm (r ∷ rules) reason e = elim (Bool-cases (is_hit d norm r)) [
  | inl hit ↦
      let (a, b, is) = contains-piece norm r.fragment (ground arith) in
      (0, r, a, b, refl, decision_eq-≡ r.decision d (ground arith), is)
  | inr miss ↦
      let (i, r', a, b, at, same, is) = scan-Hits d norm rules reason (ground arith) in
      (suc i, r', a, b, at, same, is)
]

Hits-scan :
    (d : Decision) (norm : Text) (rules : List Rule) (i : ℕ) (r : Rule) (a b : Text)
    → get_elem? rules i ≡ some r
    → r.decision ≡ d
    → norm ≡ a ++ (r.fragment ++ b)
    → scan d norm rules ≢ none
unfolding scan
Hits-scan d norm [] i r a b at same is = absurd (ground arith)
Hits-scan d norm (x ∷ rules) zero r a b at same is =
    ground (arith, decision_eq_refl d, piece-contains a r.fragment b)
Hits-scan d norm (x ∷ rules) (suc i) r a b at same is =
    ground (arith, Hits-scan d norm rules i r a b at same is)

-- What holds of the three named decisions holds of the policy's.
pub evaluate-All :
    (P : Decision → Type 0)
    → P allow
    → P ask
    → P deny
    → (table : ℕ → ℕ) (p : DangerousCommandPolicy) (command : Text) → P (evaluate table p command).0
unfolding evaluate
evaluate-All P free asks denied table p command =
    elim (Option-cases (scan deny (normalize_command table command) p.rules)) [
      | inl miss ↦ elim (Option-cases (scan ask (normalize_command table command) p.rules)) [
        | inl none_asks ↦ rw (miss, none_asks, evaluate) free
        | inr (reason, asked) ↦ rw (miss, asked, evaluate) asks
      ]
      | inr (reason, hit) ↦ rw (hit, evaluate) denied
    ]

module _ (table : ℕ → ℕ) (p : DangerousCommandPolicy) (command : Text) where
  abbrev verdict : Decision
  verdict = (evaluate table p command).0

  -- A command is denied where a denying rule's fragment is a piece of it, in its normal form, and
  -- only there; whatever the mode and whatever the asking rules say.
  pub evaluate-deny : (verdict ≡ deny) ↔ Hits deny (normalize_command table command) p.rules
  unfolding evaluate
  evaluate-deny = (
    λ e. elim (Option-cases (scan deny (normalize_command table command) p.rules)) [
      | inl miss ↦ elim (Option-cases (scan ask (normalize_command table command) p.rules)) [
        | inl free ↦ absurd (ground arith)
        | inr (reason, asked) ↦ absurd (ground arith)
      ]
      | inr (reason, hit) ↦ scan-Hits deny (normalize_command table command) p.rules reason hit
    ],
    λ (i, r, a, b, at, same, is).
        elim (Option-cases (scan deny (normalize_command table command) p.rules)) [
          | inl miss ↦
              absurd
                (Hits-scan deny (normalize_command table command) p.rules i r a b at same is miss)
          | inr (reason, hit) ↦ ground arith
        ],
  )

  -- A command is put to the question where it hits an asking rule and no denying one.
  pub evaluate-ask : (verdict ≡ ask) ↔ (
      Hits ask (normalize_command table command) p.rules
      × (Hits deny (normalize_command table command) p.rules → ⊥))
  unfolding evaluate
  evaluate-ask = (
    λ e. elim (Option-cases (scan deny (normalize_command table command) p.rules)) [
      | inl miss ↦ elim (Option-cases (scan ask (normalize_command table command) p.rules)) [
        | inl free ↦ absurd (ground arith)
        | inr (reason, asked) ↦ (
          scan-Hits ask (normalize_command table command) p.rules reason asked,
          λ (i, r, a, b, at, same, is).
              Hits-scan deny (normalize_command table command) p.rules i r a b at same is miss,
        )
      ]
      | inr (reason, hit) ↦ absurd (ground arith)
    ],
    λ ((i, r, a, b, at, same, is), none_denies).
        elim (Option-cases (scan deny (normalize_command table command) p.rules)) [
          | inr (reason, hit) ↦
              absurd
                (none_denies (scan-Hits deny (normalize_command table command) p.rules reason hit))
          | inl miss ↦ elim (Option-cases (scan ask (normalize_command table command) p.rules)) [
            | inl free ↦
                absurd
                  (Hits-scan ask (normalize_command table command) p.rules i r a b at same is free)
            | inr (reason, asked) ↦ ground arith
          ]
        ],
  )

abbrev is_found : Option Text → Bool
is_found none = false
is_found (some t) = true

scan_cons :
    (d : Decision) (norm : Text) (r : Rule) (rules : List Rule)
    → is_found (scan d norm (r ∷ rules)) ≡ is_hit d norm r || is_found (scan d norm rules)
unfolding scan
scan_cons d norm r rules = ground arith

scan-Perm :
    (d : Decision) (norm : Text) {rs rs' : List Rule}
    → Permᴰ rs rs'
    → is_found (scan d norm rs) ≡ is_found (scan d norm rs')
scan-Perm d norm Permᴰ.nil = refl
scan-Perm d norm (Permᴰ.cons {a} {b} {l₁} {l₂} e h) =
    ground (arith, scan_cons d norm a l₁, scan_cons d norm b l₂, scan-Perm d norm h)
scan-Perm d norm (Permᴰ.swap {a} {b} {a'} {b'} {l} e e') = ground (
  arith,
  scan_cons d norm a (b ∷ l),
  scan_cons d norm b l,
  scan_cons d norm a' (b' ∷ l),
  scan_cons d norm b' l,
)
scan-Perm d norm (Permᴰ.trans h h') = scan-Perm d norm h ∙ scan-Perm d norm h'

verdict_of :
    (table : ℕ → ℕ) (p : DangerousCommandPolicy) (command : Text)
    → (evaluate table p command).0 ≡ (
        if is_found (scan deny (normalize_command table command) p.rules)
        then deny
        else if is_found (scan ask (normalize_command table command) p.rules)
        then ask
        else allow)
unfolding evaluate
verdict_of table p command = ground arith

-- The order of the rules does not matter to the verdict, nor does the mode.
pub evaluate-Perm :
    (table : ℕ → ℕ) (p p' : DangerousCommandPolicy) (command : Text)
    → Permᴰ p.rules p'.rules
    → (evaluate table p command).0 ≡ (evaluate table p' command).0
evaluate-Perm table p p' command h = ground (
  arith,
  verdict_of table p command,
  verdict_of table p' command,
  scan-Perm deny (normalize_command table command) h,
  scan-Perm ask (normalize_command table command) h,
)
