-- ===== src/Goal/Store/Histories.antt =====
-- goal.go: sequences of the store's operations.
use multiagent.Base.{ℕ, List, [], ◌∷◌}
use multiagent.Base.Text.{Text}
use multiagent.Base.Int.{ℤ}
use multiagent.Goal.Store.{Patch, Store, new_store, create, update, delete}
use multiagent.Goal.Store.Validity.{
  StoreValid, new_store-valid, create-valid, update-valid, delete-valid,
}

-- An operation that changes goals, with the clock at it.
pub data StoreOp : Type 0 where
  creating : (scope title description : Text) (criteria : List Text) (now : ℕ) → StoreOp
  updating : (scope : Text) (patch : Patch) (now : ℕ) → StoreOp
  deleting : (scope : Text) → StoreOp

unfoldable pub run_op : StoreOp → Store → Store
run_op (creating scope title description criteria now) s =
    (create scope title description criteria now s).0
run_op (updating scope patch now) s = (update scope patch now s).0
run_op (deleting scope) s = delete scope s

unfoldable pub run_ops : List StoreOp → Store → Store
run_ops [] s = s
run_ops (op ∷ ops) s = run_ops ops (run_op op s)

run_op-valid : (op : StoreOp) (s : Store) → StoreValid s → StoreValid (run_op op s)
unfolding run_op
run_op-valid (creating scope title description criteria now) s v =
    create-valid scope title description criteria now s v
run_op-valid (updating scope patch now) s v = update-valid scope patch now s v
run_op-valid (deleting scope) s v = delete-valid scope s v

run_ops-valid : (ops : List StoreOp) (s : Store) → StoreValid s → StoreValid (run_ops ops s)
unfolding run_ops
run_ops-valid [] s v = v
run_ops-valid (op ∷ ops) s v = run_ops-valid ops (run_op op s) (run_op-valid op s v)

-- After any sequence of operations on a new store, at whatever times, the store holds at most its
-- bound of goals, one per scope, and every goal has a title, no empty criterion, and a reason if
-- it is blocked.
pub goals_stay_valid :
    (max_scopes : ℤ) (ops : List StoreOp) → StoreValid (run_ops ops (new_store max_scopes))
goals_stay_valid max_scopes ops =
    run_ops-valid ops (new_store max_scopes) (new_store-valid max_scopes)
