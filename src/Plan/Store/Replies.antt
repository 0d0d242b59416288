-- ===== src/Plan/Store/Replies.antt =====
-- plan.go: what the operations of the store return, and what they change.
use multiagent.Base.{
  ℕ, zero, suc, ◌+◌, ◌<◌, ◌≡◌, refl, ap, ◌∙◌, some, List, [], ◌∷◌, arith, get_elem?, if◌then◌else◌,
  is_nil, inl, inr, Bool-cases, Option-cases, Answer, ok, err,
}
use multiagent.Base.Text.{Text, trim_space, text_eq, text_eq_iff}
use multiagent.Base.Assoc.{lookup, put, lookup-put}
use multiagent.Scopes.{put-IsMap}
use multiagent.Scopes.Evictions.{evict-newest, IsNewest}
use multiagent.Plan.Steps.{
  PlanError, Step, StepSpec, Plan, index_of, normalize_specs, normalize_step_id, append_steps,
}
use multiagent.Plan.Store.{
  StepPatch, Store, fresh_plan, insert_plan, create, get, patch_step, rewrite_step, update_step,
}
use multiagent.Plan.Store.Validity.{StoreValid, rewritten}

-- The time of every plan in the store is before `now`.
abbrev pub AllBefore : ℕ → Store → Type 0
AllBefore now s = (j : Text) (p : Plan) → lookup j s.plans ≡ some p → p.updated_at < now

updated-fresh_plan :
    (title : Text) (specs : List StepSpec) (now seq : ℕ)
    → (fresh_plan title specs now seq).updated_at ≡ now
unfolding fresh_plan append_steps
updated-fresh_plan title specs now seq = refl

insert_plan-get :
    (scope title : Text) (specs : List StepSpec) (now : ℕ) (s : Store)
    → StoreValid s
    → AllBefore now s
    → get scope (insert_plan scope title specs now s).0
      ≡ ok (fresh_plan title specs now (s.seq + 1))
unfolding insert_plan get
insert_plan-get scope title specs now s v before = ground (
  arith,
  evict-newest (λ (q : Plan). q.updated_at) s.max_scopes (put scope p s.plans) scope p
      (put-IsMap scope p s.plans v.is_map) v.room
      (ground (arith, lookup-put scope scope p s.plans, text_eq_iff scope scope)) newest,
)
  where
    p : Plan
    p = fresh_plan title specs now (s.seq + 1)

    newest : IsNewest (λ (q : Plan). q.updated_at) scope p (put scope p s.plans)
    newest j w e other =
        let past : w.updated_at < now =
          before j w (ground (arith, lookup-put scope j p s.plans, text_eq_iff scope j)) in
        omega (arith, updated-fresh_plan title specs now (s.seq + 1))

-- After a Create that succeeds, at a time past those of all the plans in the store, Get returns
-- the plan: the eviction in Create does not take it.
pub get-create :
    (scope title : Text) (steps : List StepSpec) (now : ℕ) (s : Store) (p : Plan)
    → StoreValid s
    → AllBefore now s
    → (create scope title steps now s).1 ≡ ok p
    → get scope (create scope title steps now s).0 ≡ ok p
unfolding create
get-create scope title steps now s p v before e = elim (Bool-cases (is_nil (trim_space title))) [
  | inl blank ↦ absurd (ground arith)
  | inr titled ↦ elim (Bool-cases (is_nil (normalize_specs steps))) [
    | inl none_left ↦ absurd (ground arith)
    | inr some_left ↦
        let made : fresh_plan (trim_space title) (normalize_specs steps) now (s.seq + 1) ≡ p =
          (unfold insert_plan in ground arith) in
        rw (titled, create, some_left)
          (insert_plan-get scope (trim_space title) (normalize_specs steps) now s v before
            ∙ ap ok made)
  ]
]

index_of-id :
    (want : Text) (steps : List Step) (i : ℕ) (s : Step)
    → index_of want steps ≡ some i
    → get_elem? steps i ≡ some s
    → s.id ≡ want
unfolding index_of
index_of-id want [] i s e at = absurd (ground arith)
index_of-id want (x ∷ steps) zero s e at = ground (arith, text_eq_iff x.id want)
index_of-id want (x ∷ steps) (suc i) s e at =
    ground (arith, index_of-id want steps i s, text_eq_iff x.id want)

rewrite_step-ok :
    (scope : Text) (p : Plan) (i now : ℕ) (s : Store) (a : Answer PlanError Step) (p' : Plan)
    (j : Text)
    → (rewrite_step scope p i now s a).1 ≡ ok p'
    → (new : Step) × (a ≡ ok new)
      × (p' ≡ rewritten p i now new)
      × (lookup j (rewrite_step scope p i now s a).0.plans
          ≡ (if text_eq scope j then some p' else lookup j s.plans))
unfolding rewrite_step
rewrite_step-ok scope p i now s (err x) p' j e = absurd (ground arith)
rewrite_step-ok scope p i now s (ok new) p' j e =
    (new, refl, ground arith, ground (arith, lookup-put scope j (rewritten p i now new) s.plans))

-- The plan that UpdateStep returns is the old one with one step, the one that the identifier names,
-- replaced by that step patched, its revision one up and its time now; it stands under the scope,
-- and no other scope changes.
pub update_step-ok :
    (table : ℕ → ℕ) (scope id : Text) (patch : StepPatch) (now : ℕ) (s : Store) (p' : Plan)
    (j : Text)
    → (update_step table scope id patch now s).1 ≡ ok p'
    → (p : Plan) × (i : ℕ) × (old : Step) × (new : Step) × (lookup scope s.plans ≡ some p)
      × (get_elem? p.steps i ≡ some old)
      × (old.id ≡ normalize_step_id table id)
      × (patch_step patch now old ≡ ok new)
      × (p' ≡ rewritten p i now new)
      × (lookup j (update_step table scope id patch now s).0.plans
          ≡ (if text_eq scope j then some p' else lookup j s.plans))
unfolding update_step
update_step-ok table scope id patch now s p' j e = elim (Option-cases (lookup scope s.plans)) [
  | inl absent ↦ absurd (ground arith)
  | inr (p, at) ↦ elim (Option-cases (index_of (normalize_step_id table id) p.steps)) [
    | inl unknown ↦ absurd (ground arith)
    | inr (i, place) ↦ elim (Option-cases (get_elem? p.steps i)) [
      | inl out ↦ absurd (ground arith)
      | inr (old, there) ↦
          let step : update_step table scope id patch now s
              ≡ rewrite_step scope p i now s (patch_step patch now old) =
            ground arith in
          let (new, is, same, rows) =
            rewrite_step-ok scope p i now s (patch_step patch now old) p' j (rw step at e) in
          (
            p,
            i,
            old,
            new,
            at,
            there,
            index_of-id (normalize_step_id table id) p.steps i old place there,
            is,
            same,
            rw step rows,
          )
    ]
  ]
]
