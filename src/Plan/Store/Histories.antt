-- ===== src/Plan/Store/Histories.antt =====
-- plan.go: sequences of the store's operations.
use multiagent.Base.{
  ℕ, ◌≡◌, refl, Option, none, some, List, [], ◌∷◌, arith, get_elem?, is_nil, inl, inr, Bool-cases,
  Option-cases, Answer, ok, err,
}
use multiagent.Base.Text.{Text}
use multiagent.Base.Int.{ℤ}
use multiagent.Base.Assoc.{lookup}
use multiagent.Plan.Steps.{PlanError, Step, StepSpec, Plan, index_of, normalize_step_id}
use multiagent.Plan.Store.{
  StepPatch, Store, new_store, create, insert_plan, add_steps, update_step, rewrite_step, patch_at,
  patch_step, delete,
}
use multiagent.Plan.Store.Validity.{StoreValid}
use multiagent.Plan.Store.Invariant.{
  new_store-valid, create-valid, add_steps-valid, update_step-valid, delete-valid,
}

-- An operation that changes plans, with the clock at it.
pub data StoreOp : Type 0 where
  creating : (scope title : Text) (steps : List StepSpec) (now : ℕ) → StoreOp
  adding : (scope : Text) (steps : List StepSpec) (now : ℕ) → StoreOp
  updating : (scope id : Text) (patch : StepPatch) (now : ℕ) → StoreOp

pub data Change : Type 0 where
  call : StoreOp → Change
  deleting : (scope : Text) → Change

unfoldable pub call_op : (ℕ → ℕ) → StoreOp → Store → Store × Answer PlanError Plan
call_op table (creating scope title steps now) s = create scope title steps now s
call_op table (adding scope steps now) s = add_steps scope steps now s
call_op table (updating scope id patch now) s = update_step table scope id patch now s

unfoldable pub run_changes : (ℕ → ℕ) → List Change → Store → Store
unfolding call_op
run_changes table [] s = s
run_changes table (call op ∷ cs) s = run_changes table cs (call_op table op s).0
run_changes table (deleting scope ∷ cs) s = run_changes table cs (delete scope s)

call_op-valid :
    (table : ℕ → ℕ) (op : StoreOp) (s : Store) → StoreValid s → StoreValid (call_op table op s).0
unfolding call_op
call_op-valid table (creating scope title steps now) s v = create-valid scope title steps now s v
call_op-valid table (adding scope steps now) s v = add_steps-valid scope steps now s v
call_op-valid table (updating scope id patch now) s v =
    update_step-valid table scope id patch now s v

run_changes-valid :
    (table : ℕ → ℕ) (cs : List Change) (s : Store)
    → StoreValid s
    → StoreValid (run_changes table cs s)
unfolding run_changes
run_changes-valid table [] s v = v
run_changes-valid table (call op ∷ cs) s v =
    run_changes-valid table cs (call_op table op s).0 (call_op-valid table op s v)
run_changes-valid table (deleting scope ∷ cs) s v =
    run_changes-valid table cs (delete scope s) (delete-valid scope s v)

-- After any sequence of operations on a new store, at whatever times, the store holds at most its
-- bound of plans, and every plan has a title and at least one step; its steps are s1, s2, … in
-- order, each with a title, and each that was skipped or failed with a reason.
pub history-valid :
    (table : ℕ → ℕ) (max_scopes : ℤ) (cs : List Change)
    → StoreValid (run_changes table cs (new_store max_scopes))
history-valid table max_scopes cs =
    run_changes-valid table cs (new_store max_scopes) (new_store-valid max_scopes)

rewrite_step-err :
    (scope : Text) (p : Plan) (i now : ℕ) (s : Store) (a : Answer PlanError Step) (x : PlanError)
    → (rewrite_step scope p i now s a).1 ≡ err x
    → (rewrite_step scope p i now s a).0 ≡ s
unfolding rewrite_step
rewrite_step-err scope p i now s (err y) x e = refl
rewrite_step-err scope p i now s (ok new) x e = absurd (ground arith)

patch_at-err :
    (scope : Text) (patch : StepPatch) (now : ℕ) (p : Plan) (s : Store) (place : Option ℕ)
    (x : PlanError)
    → (patch_at scope patch now p s place).1 ≡ err x
    → (patch_at scope patch now p s place).0 ≡ s
unfolding patch_at
patch_at-err scope patch now p s none x e = refl
patch_at-err scope patch now p s (some i) x e = elim (Option-cases (get_elem? p.steps i)) [
  | inl out ↦ rw (out, patch_at)
  | inr (old, there) ↦
      rw (there, patch_at)
        (rewrite_step-err scope p i now s (patch_step patch now old) x (rw (there, patch_at) at e))
]

update_step-err :
    (table : ℕ → ℕ) (scope id : Text) (patch : StepPatch) (now : ℕ) (s : Store) (x : PlanError)
    → (update_step table scope id patch now s).1 ≡ err x
    → (update_step table scope id patch now s).0 ≡ s
unfolding update_step
update_step-err table scope id patch now s x e = elim (Option-cases (lookup scope s.plans)) [
  | inl absent ↦ rw (absent, update_step)
  | inr (p, at) ↦ elim (Bool-cases (is_nil (normalize_step_id table id))) [
    | inl blank ↦ rw (at, update_step, blank)
    | inr full ↦
        rw (at, update_step, full)
          (patch_at-err scope patch now p s (index_of (normalize_step_id table id) p.steps) x
            (rw (at, update_step, full) at e))
  ]
]

-- A call that returns an error leaves the store as it was.
pub call_op-err :
    (table : ℕ → ℕ) (op : StoreOp) (s : Store) (x : PlanError)
    → (call_op table op s).1 ≡ err x
    → (call_op table op s).0 ≡ s
unfolding call_op
call_op-err table (creating scope title steps now) s x e = unfold create insert_plan in ground arith
call_op-err table (adding scope steps now) s x e = unfold add_steps in ground arith
call_op-err table (updating scope id patch now) s x e =
    update_step-err table scope id patch now s x e
