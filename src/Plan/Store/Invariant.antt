-- ===== src/Plan/Store/Invariant.antt =====
-- plan.go: every operation of the store keeps its plans valid.
use multiagent.Base.{
  ℕ, zero, suc, ◌+◌, ◌≡◌, refl, subst, Bool, true, false, Option, none, some, List, arith,
  get_elem?, is_nil, inl, inr, Bool-cases, Option-cases, Answer, ok, err,
}
use multiagent.Base.Text.{Text, trim_space, text_eq}
use multiagent.Base.Int.{ℤ, pos, negsuc}
use multiagent.Base.Assoc.{
  Assoc, lookup, put, lookup-put, lookup-remove, length-remove-le, length-remove-lt,
}
use multiagent.Scopes.{IsMap, put-IsMap, remove-IsMap, evict}
use multiagent.Scopes.Evictions.{evict-IsMap, evict-length-le, evict-lookup}
use multiagent.Plan.Steps.{
  PlanError, Step, StepSpec, Plan, index_of, normalize_specs, normalize_step_id,
}
use multiagent.Plan.Store.{
  StepPatch, Store, new_store, fresh_plan, insert_plan, create, grown, add_steps, patch_step,
  rewrite_step, patch_at, update_step, delete,
}
use multiagent.Plan.Store.Validity.{
  PlanValid, StoreValid, normalize_specs-titled, fresh_plan-valid, grown-valid, patch_step-valid,
  rewritten, rewritten-valid, All-get_elem?, StepValid,
}

-- A new store is valid, whatever bound it is given.
pub new_store-valid : (max_scopes : ℤ) → StoreValid (new_store max_scopes)
unfolding new_store lookup
new_store-valid (pos zero) = record {
  is_map = tt;
  room = omega arith;
  bounded = omega arith;
  plans_valid = λ j p e. absurd (ground arith);
}
new_store-valid (pos (suc n)) = record {
  is_map = tt;
  room = omega arith;
  bounded = omega arith;
  plans_valid = λ j p e. absurd (ground arith);
}
new_store-valid (negsuc n) = record {
  is_map = tt;
  room = omega arith;
  bounded = omega arith;
  plans_valid = λ j p e. absurd (ground arith);
}

-- A plan that takes another's place under its scope.
replaced-valid :
    (scope : Text) (old next : Plan) (s : Store)
    → lookup scope s.plans ≡ some old
    → PlanValid next
    → StoreValid s
    → StoreValid (record s { plans = put scope next s.plans })
replaced-valid scope old next s at valid v = record {
  is_map = put-IsMap scope next s.plans v.is_map;
  room = v.room;
  bounded = (unfold put in omega (arith, v.bounded, length-remove-lt scope s.plans old at));
  plans_valid = λ j p e. there j p (text_eq scope j) refl e;
}
  where
    there :
        (j : Text) (p : Plan) (b : Bool)
        → text_eq scope j ≡ b
        → lookup j (put scope next s.plans) ≡ some p
        → PlanValid p
    there j p true same e = subst PlanValid (ground (arith, lookup-put scope j next s.plans)) valid
    there j p false other e = v.plans_valid j p (ground (arith, lookup-put scope j next s.plans))

-- AddSteps keeps the store valid, on every branch.
pub add_steps-valid :
    (scope : Text) (steps : List StepSpec) (now : ℕ) (s : Store)
    → StoreValid s
    → StoreValid (add_steps scope steps now s).0
unfolding add_steps
add_steps-valid scope steps now s v = elim (Bool-cases (is_nil (normalize_specs steps))) [
  | inl blank ↦ rw (blank, add_steps) v
  | inr full ↦ elim (Option-cases (lookup scope s.plans)) [
    | inl absent ↦ rw (full, add_steps, absent) v
    | inr (p, at) ↦
        rw (full, add_steps, at)
          (replaced-valid scope p (grown (normalize_specs steps) now p) s at
            (grown-valid (normalize_specs steps) now p (normalize_specs-titled steps)
              (v.plans_valid scope p at))
            v)
  ]
]

rewrite_step-valid :
    (scope : Text) (p : Plan) (i now : ℕ) (s : Store) (old : Step) (patch : StepPatch)
    → lookup scope s.plans ≡ some p
    → get_elem? p.steps i ≡ some old
    → StoreValid s
    → StoreValid (rewrite_step scope p i now s (patch_step patch now old)).0
unfolding rewrite_step
rewrite_step-valid scope p i now s old patch at there v = go (patch_step patch now old) refl
  where
    go :
        (a : Answer PlanError Step)
        → patch_step patch now old ≡ a
        → StoreValid (rewrite_step scope p i now s a).0
    go (err e) is = v
    go (ok new) is =
        let old_valid : StepValid old =
          All-get_elem? StepValid p.steps i old (v.plans_valid scope p at).steps_valid there in
        let (new_valid, same) = patch_step-valid patch now old new old_valid is in
        replaced-valid scope p (rewritten p i now new) s at
          (rewritten-valid p i now old new (v.plans_valid scope p at) there new_valid same) v

patch_at-valid :
    (scope : Text) (patch : StepPatch) (now : ℕ) (p : Plan) (s : Store) (place : Option ℕ)
    → lookup scope s.plans ≡ some p
    → StoreValid s
    → StoreValid (patch_at scope patch now p s place).0
unfolding patch_at
patch_at-valid scope patch now p s none at v = v
patch_at-valid scope patch now p s (some i) at v = elim (Option-cases (get_elem? p.steps i)) [
  | inl absent ↦ rw (absent, patch_at) v
  | inr (old, there) ↦
      rw (there, patch_at) (rewrite_step-valid scope p i now s old patch at there v)
]

-- UpdateStep keeps the store valid, whatever the patch: a step is never left skipped or failed
-- without a reason, nor without a title.
pub update_step-valid :
    (table : ℕ → ℕ) (scope step_id : Text) (patch : StepPatch) (now : ℕ) (s : Store)
    → StoreValid s
    → StoreValid (update_step table scope step_id patch now s).0
unfolding update_step
update_step-valid table scope step_id patch now s v = elim (Option-cases (lookup scope s.plans)) [
  | inl absent ↦ rw (absent, update_step) v
  | inr (p, at) ↦ elim (Bool-cases (is_nil (normalize_step_id table step_id))) [
    | inl blank ↦ rw (at, update_step, blank) v
    | inr full ↦
        rw (at, update_step, full)
          (patch_at-valid scope patch now p s (index_of (normalize_step_id table step_id) p.steps)
            at v)
  ]
]

-- The map of plans after a plan was put under its scope and the oldest were evicted.
abbrev pub evicted : Text → Plan → Store → Assoc Plan
evicted scope p s = evict (λ (q : Plan). q.updated_at) s.max_scopes (put scope p s.plans)

insert_plan-valid :
    (scope title : Text) (specs : List StepSpec) (now : ℕ) (s : Store)
    → PlanValid (fresh_plan title specs now (s.seq + 1))
    → StoreValid s
    → StoreValid (insert_plan scope title specs now s).0
unfolding insert_plan
insert_plan-valid scope title specs now s valid v =
    let p : Plan = fresh_plan title specs now (s.seq + 1) in
    let map : IsMap (put scope p s.plans) = put-IsMap scope p s.plans v.is_map in
    let time = λ (q : Plan). q.updated_at in
    record {
      is_map = evict-IsMap time s.max_scopes (put scope p s.plans) map;
      room = v.room;
      bounded = evict-length-le time s.max_scopes (put scope p s.plans) map;
      plans_valid = λ j q e. kept j q map e;
    }
  where
    p : Plan
    p = fresh_plan title specs now (s.seq + 1)

    there :
        (j : Text) (q : Plan) (b : Bool)
        → text_eq scope j ≡ b
        → lookup j (put scope p s.plans) ≡ some q
        → PlanValid q
    there j q true same e = subst PlanValid (ground (arith, lookup-put scope j p s.plans)) valid
    there j q false other e = v.plans_valid j q (ground (arith, lookup-put scope j p s.plans))

    kept :
        (j : Text) (q : Plan)
        → IsMap (put scope p s.plans)
        → lookup j (evicted scope p s) ≡ some q
        → PlanValid q
    kept j q map e =
        elim (evict-lookup (λ (x : Plan). x.updated_at) s.max_scopes (put scope p s.plans) j map) [
          | inl gone ↦ absurd (ground arith)
          | inr same ↦ there j q (text_eq scope j) refl (ground arith)
        ]

-- Create keeps the store valid, and within its bound, on every branch.
pub create-valid :
    (scope title : Text) (steps : List StepSpec) (now : ℕ) (s : Store)
    → StoreValid s
    → StoreValid (create scope title steps now s).0
unfolding create
create-valid scope title steps now s v = elim (Bool-cases (is_nil (trim_space title))) [
  | inl blank ↦ rw (blank, create) v
  | inr titled ↦ elim (Bool-cases (is_nil (normalize_specs steps))) [
    | inl none_left ↦ rw (titled, create, none_left) v
    | inr some_left ↦
        rw (titled, create, some_left)
          (insert_plan-valid scope (trim_space title) (normalize_specs steps) now s
            (fresh_plan-valid (trim_space title) (normalize_specs steps) now (s.seq + 1)
              (ground arith) (ground arith) (normalize_specs-titled steps))
            v)
  ]
]

-- Delete keeps the store valid.
pub delete-valid : (scope : Text) (s : Store) → StoreValid s → StoreValid (delete scope s)
unfolding delete
delete-valid scope s v = record {
  is_map = remove-IsMap scope s.plans v.is_map;
  room = v.room;
  bounded = omega (arith, v.bounded, length-remove-le scope s.plans);
  plans_valid = λ j p e. v.plans_valid j p (ground (arith, lookup-remove scope j s.plans));
}
