-- ===== src/Goal/Store/Replies.antt =====
-- goal.go: what the operations of the store return, and what they change.
use multiagent.Base.{
  ℕ, ◌+◌, ◌<◌, ◌≡◌, ◌≢◌, ◌⊎◌, refl, true, false, Option, none, some, List, [], arith, if◌then◌else◌,
  is_nil, inl, inr, Bool-cases, Option-cases, Answer, ok, err,
}
use multiagent.Base.Text.{Text, trim_space, text_eq}
use multiagent.Base.Assoc.{lookup, lookup-put}
use multiagent.Scopes.Kept.{lookup-insert}
use multiagent.Goal.Contract.{
  Status, blocked, GoalError, not_found, empty_title, blocked_no_reason, Goal,
}
use multiagent.Goal.Store.{
  Patch, Store, fresh_goal, insert_goal, create, get, scope_open, patch_goal, rewrite_goal, update,
  is_blocked, is_blank, patched_status,
}
use multiagent.Goal.Store.Validity.{GoalValid, StoreValid}

-- The time of every goal in the store is before `now`.
abbrev pub AllBefore : ℕ → Store → Type 0
AllBefore now s = (j : Text) (g : Goal) → lookup j s.goals ≡ some g → g.updated_at < now

-- After a Create that succeeds, at a time past those of all the goals in the store, the scope has
-- a goal that is open, and Get returns it.
pub scope_open-create :
    (scope title description : Text) (criteria : List Text) (now : ℕ) (s : Store) (g : Goal)
    → StoreValid s
    → AllBefore now s
    → (create scope title description criteria now s).1 ≡ ok g
    → (get scope (create scope title description criteria now s).0 ≡ ok g)
      × (scope_open scope (create scope title description criteria now s).0 ≡ true)
unfolding create insert_goal get scope_open fresh_goal
scope_open-create scope title description criteria now s g v before e =
    elim (Bool-cases (is_nil (trim_space title))) [
      | inl blank ↦ absurd (ground arith)
      | inr titled ↦
          let made : Goal = fresh_goal (trim_space title) description criteria now (s.seq + 1) in
          let there =
            lookup-insert GoalValid (λ (x : Goal). x.updated_at) s.max_scopes scope made s.goals v
              (λ j w at. before j w at) in
          (ground arith, ground arith)
    ]

rewrite_goal-ok :
    (scope : Text) (s : Store) (a : Answer GoalError Goal) (g' : Goal) (j : Text)
    → (rewrite_goal scope s a).1 ≡ ok g'
    → (a ≡ ok g')
      × (lookup j (rewrite_goal scope s a).0.goals
          ≡ (if text_eq scope j then some g' else lookup j s.goals))
unfolding rewrite_goal
rewrite_goal-ok scope s (err x) g' j e = absurd (ground arith)
rewrite_goal-ok scope s (ok g) g' j e = (ground arith, ground (arith, lookup-put scope j g s.goals))

-- What a patch keeps of a goal and what it sets.
abbrev pub IsPatched : Patch → Goal → Goal → Type 0
IsPatched p g g' =
    (g'.id ≡ g.id)
    × (g'.created_at ≡ g.created_at)
    × (g'.revision ≡ g.revision + 1)
    × (g'.status ≡ patched_status p.status g.status)
    × (is_blocked g'.status ≡ true → g'.blocker ≢ [])
    × (is_blocked g'.status ≡ false → p.blocker ≡ none → g'.blocker ≡ [])

patch_goal-IsPatched :
    (p : Patch) (now : ℕ) (g g' : Goal) → patch_goal p now g ≡ ok g' → IsPatched p g g'
unfolding patch_goal
patch_goal-IsPatched p now g g' e =
    (ground arith, ground arith, ground arith, ground arith, λ b. ground arith, λ b n. ground arith)

-- An Update that succeeds changes only the goal of the scope: its number of revisions goes up by
-- one, its status is the one the patch gives or else the old one, its identifier and its time of
-- creation stay. If it is blocked then there is a reason, and else there is none, unless the patch
-- itself gave one.
pub update-ok :
    (scope : Text) (p : Patch) (now : ℕ) (s : Store) (g' : Goal) (j : Text)
    → (update scope p now s).1 ≡ ok g'
    → (g : Goal) × (lookup scope s.goals ≡ some g)
      × IsPatched p g g'
      × (lookup j (update scope p now s).0.goals
          ≡ (if text_eq scope j then some g' else lookup j s.goals))
unfolding update
update-ok scope p now s g' j e = elim (Option-cases (lookup scope s.goals)) [
  | inl absent ↦ absurd (ground arith)
  | inr (g, at) ↦
      let (made, rows) = rewrite_goal-ok scope s (patch_goal p now g) g' j (rw (at, update) at e) in
      (g, at, patch_goal-IsPatched p now g g' made, rw (at, update) rows)
]

rewrite_goal-err :
    (scope : Text) (s : Store) (a : Answer GoalError Goal) (x : GoalError)
    → (rewrite_goal scope s a).1 ≡ err x
    → ((rewrite_goal scope s a).0 ≡ s) × (a ≡ err x)
unfolding rewrite_goal
rewrite_goal-err scope s (err y) x e = (refl, ground arith)
rewrite_goal-err scope s (ok g) x e = absurd (ground arith)

-- Why a patch is refused.
abbrev pub IsRefused : GoalError → Patch → Goal → Type 0
IsRefused x p g =
    ((x ≡ empty_title) × (p.title ≢ none))
    ⊎ ((x ≡ blocked_no_reason) × (patched_status p.status g.status ≡ blocked))

is_blank-given : (t : Option Text) → is_blank t ≡ true → t ≢ none
is_blank-given none b = absurd (ground arith)
is_blank-given (some t) b = ground arith

is_blocked-blocked : (s : Status) → is_blocked s ≡ true → s ≡ blocked
is_blocked-blocked s b = ground arith

patch_goal-IsRefused :
    (p : Patch) (now : ℕ) (g : Goal) (x : GoalError) → patch_goal p now g ≡ err x → IsRefused x p g
unfolding patch_goal
patch_goal-IsRefused p now g x e = elim (Bool-cases (is_blank p.title)) [
  | inl blank ↦ inl (ground arith, is_blank-given p.title blank)
  | inr titled ↦ elim (Bool-cases (is_blocked (patched_status p.status g.status))) [
    | inl b ↦ inr (ground arith, is_blocked-blocked (patched_status p.status g.status) b)
    | inr free ↦ absurd (ground arith)
  ]
]

-- Where Update gives an error, the store stays as it was; the scope has no goal, or the patch
-- gives a title, or the goal would be blocked.
pub update-err :
    (scope : Text) (p : Patch) (now : ℕ) (s : Store) (x : GoalError)
    → (update scope p now s).1 ≡ err x
    → ((update scope p now s).0 ≡ s)
      × (((x ≡ not_found) × (lookup scope s.goals ≡ none))
          ⊎ ((g : Goal) × (lookup scope s.goals ≡ some g) × IsRefused x p g))
unfolding update
update-err scope p now s x e = elim (Option-cases (lookup scope s.goals)) [
  | inl absent ↦ (rw (absent, update) refl, inl (ground arith, absent))
  | inr (g, at) ↦
      let (same, refused) =
        rewrite_goal-err scope s (patch_goal p now g) x (rw (at, update) at e) in
      (rw (at, update) same, inr (g, at, patch_goal-IsRefused p now g x refused))
]
