-- ===== src/Goal/Store/Validity.antt =====
-- goal.go: what holds of every goal in the store, and that every operation keeps it.
use multiagent.Base.{
  ℕ, zero, suc, ◌+◌, ◌≡◌, ◌≢◌, refl, true, Option, none, some, List, [], ◌∷◌, arith, is_nil, All,
  inl, inr, Bool-cases, Option-cases, Answer, ok, err,
}
use multiagent.Base.Text.{Text, trim_space}
use multiagent.Base.Int.{ℤ, pos, negsuc}
use multiagent.Base.Assoc.{lookup}
use multiagent.Scopes.Kept.{Kept, Kept-empty, Kept-replace, Kept-remove, Kept-insert}
use multiagent.Goal.Contract.{GoalError, Goal, normalize_criteria}
use multiagent.Goal.Store.{
  Patch, Store, new_store, fresh_goal, insert_goal, create, is_blocked, patched_criteria,
  patch_goal, rewrite_goal, update, delete,
}

-- A goal has a title, a reason if it is blocked, and no empty criterion.
pub record GoalValid (g : Goal) : Type 0 where
  pub titled : g.title ≢ []
  pub reason : is_blocked g.status ≡ true → g.blocker ≢ []
  pub criteria : All (λ (c : Text). c ≢ []) g.acceptance_criteria

-- The store's goals are a map within its bound, and each is valid.
abbrev pub StoreValid : Store → Type 0
StoreValid s = Kept GoalValid s.max_scopes s.goals

normalize_criteria-full : (cs : List Text) → All (λ (c : Text). c ≢ []) (normalize_criteria cs)
unfolding normalize_criteria
normalize_criteria-full [] = tt
normalize_criteria-full (c ∷ cs) = elim (Bool-cases (is_nil (trim_space c))) [
  | inl blank ↦ rw (blank, All) (normalize_criteria-full cs)
  | inr full ↦ rw (full, All) (ground arith, normalize_criteria-full cs)
]

patched_criteria-full :
    (p : Option (List Text)) (old : List Text)
    → All (λ (c : Text). c ≢ []) old
    → All (λ (c : Text). c ≢ []) (patched_criteria p old)
patched_criteria-full none old h = h
patched_criteria-full (some cs) old h = normalize_criteria-full cs

fresh_goal-valid :
    (title description : Text) (criteria : List Text) (now seq : ℕ)
    → title ≢ []
    → GoalValid (fresh_goal title description criteria now seq)
unfolding fresh_goal
fresh_goal-valid title description criteria now seq titled = record {
  titled = titled;
  reason = λ e. absurd (ground arith);
  criteria = normalize_criteria-full criteria;
}

-- Whatever the patch, the goal that Update makes of a valid one is valid.
patch_goal-valid :
    (p : Patch) (now : ℕ) (g g' : Goal) → GoalValid g → patch_goal p now g ≡ ok g' → GoalValid g'
unfolding patch_goal
patch_goal-valid p now g g' v e = record {
  titled = ground (arith, v.titled);
  reason = λ b. ground (arith, v.reason);
  criteria = criteria_of;
}
  where
    criteria_of : All (λ (c : Text). c ≢ []) g'.acceptance_criteria
    criteria_of =
        let is : g'.acceptance_criteria
            ≡ patched_criteria p.acceptance_criteria g.acceptance_criteria =
          ground arith in
        rw (is, All) (patched_criteria-full p.acceptance_criteria g.acceptance_criteria v.criteria)

-- A new store is valid, whatever bound it is given.
pub new_store-valid : (max_scopes : ℤ) → StoreValid (new_store max_scopes)
unfolding new_store
new_store-valid (pos zero) = Kept-empty GoalValid 512 (omega arith)
new_store-valid (pos (suc n)) = Kept-empty GoalValid (suc n) (omega arith)
new_store-valid (negsuc n) = Kept-empty GoalValid 512 (omega arith)

pub create-valid :
    (scope title description : Text) (criteria : List Text) (now : ℕ) (s : Store)
    → StoreValid s
    → StoreValid (create scope title description criteria now s).0
unfolding create insert_goal
create-valid scope title description criteria now s v =
    elim (Bool-cases (is_nil (trim_space title))) [
      | inl blank ↦ rw (blank, create) v
      | inr titled ↦
          rw (titled, create)
            (Kept-insert GoalValid (λ (g : Goal). g.updated_at) s.max_scopes scope
              (fresh_goal (trim_space title) description criteria now (s.seq + 1)) s.goals
              (fresh_goal-valid (trim_space title) description criteria now (s.seq + 1)
                (ground arith))
              v)
    ]

rewrite_goal-valid :
    (scope : Text) (p : Patch) (now : ℕ) (g : Goal) (s : Store) (a : Answer GoalError Goal)
    → patch_goal p now g ≡ a
    → lookup scope s.goals ≡ some g
    → StoreValid s
    → StoreValid (rewrite_goal scope s a).0
unfolding rewrite_goal
rewrite_goal-valid scope p now g s (err e) is at v = v
rewrite_goal-valid scope p now g s (ok g') is at v =
    Kept-replace GoalValid s.max_scopes scope g g' s.goals at
      (patch_goal-valid p now g g' (v.each scope g at) is) v

pub update-valid :
    (scope : Text) (p : Patch) (now : ℕ) (s : Store)
    → StoreValid s
    → StoreValid (update scope p now s).0
unfolding update
update-valid scope p now s v = elim (Option-cases (lookup scope s.goals)) [
  | inl absent ↦ rw (absent, update) v
  | inr (g, at) ↦
      rw (at, update) (rewrite_goal-valid scope p now g s (patch_goal p now g) refl at v)
]

pub delete-valid : (scope : Text) (s : Store) → StoreValid s → StoreValid (delete scope s)
unfolding delete
delete-valid scope s v = Kept-remove GoalValid s.max_scopes scope s.goals v
