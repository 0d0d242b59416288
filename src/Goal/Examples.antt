-- ===== src/Goal/Examples.antt =====
-- Runs of the store of goals on small inputs.
use multiagent.Base.{ℕ, none, some, List, [], ◌∷◌}
use multiagent.Base.Text.{Text, codes}
use multiagent.Base.Int.{pos}
use multiagent.Goal.Contract.{blocked, Goal}
use multiagent.Goal.Store.{Patch, Store, new_store, fresh_goal}
use multiagent.Goal.Store.Validity.{StoreValid}
use multiagent.Goal.Store.Histories.{
  StoreOp, creating, updating, deleting, run_ops, goals_stay_valid,
}

abbrev lower : ℕ → ℕ
lower n = n

abbrev chat : Text
chat = codes "chat"

abbrev blocking : Text → Patch
blocking reason = record {
  status = some blocked;
  progress = none;
  blocker = some reason;
  title = none;
  description = none;
  acceptance_criteria = none;
}

abbrev made : Goal
made = fresh_goal (codes "ship") [] (codes "tests pass" ∷ codes " " ∷ []) 5 1

abbrev one_goal : Store
one_goal = record { goals = (chat, made) ∷ []; max_scopes = 1; seq = 1 }

abbrev ops : List StoreOp
ops =
    creating chat (codes " ship ") [] (codes "tests pass" ∷ []) 5
    ∷ updating chat (blocking (codes "no key")) 6
    ∷ deleting (codes "other")
    ∷ []

goals_stay_valid_example : StoreValid (run_ops ops (new_store (pos 1)))
goals_stay_valid_example = goals_stay_valid (pos 1) ops

abbrev stuck : Goal
stuck = record made { status = blocked; blocker = codes "no key"; revision = 2; updated_at = 6 }
