-- ===== src/Plan/Examples.antt =====
-- Runs of the store of plans on small inputs, and the map it keeps within its bound.
use multiagent.Base.{ℕ, ◌+◌, none, some, List, [], ◌∷◌, leb, ◌&&◌, if◌then◌else◌}
use multiagent.Base.Text.{Text, codes}
use multiagent.Base.Int.{pos}
use multiagent.Plan.Steps.{in_progress, StepSpec, Plan}
use multiagent.Plan.Store.{StepPatch, Store, new_store, fresh_plan}
use multiagent.Plan.Store.Validity.{StoreValid}
use multiagent.Plan.Store.Histories.{
  creating, adding, updating, Change, call, deleting, run_changes, history-valid,
}

abbrev lower : ℕ → ℕ
lower n = if leb b'A' n && leb n b'Z' then n + 32 else n

abbrev chat : Text
chat = codes "chat"

abbrev two_specs : List StepSpec
two_specs =
    record { title = codes "read"; detail = [] }
    ∷ record { title = codes "write"; detail = [] }
    ∷ []

abbrev made : Plan
made = fresh_plan (codes "ship") two_specs 5 1

abbrev starting : StepPatch
starting = record { status = some in_progress; note = none; title = none; detail = none }

abbrev changes : List Change
changes =
    call (creating chat (codes "ship") two_specs 5)
    ∷ call (updating chat (codes "2") starting 6)
    ∷ call (adding chat two_specs 7)
    ∷ deleting (codes "other")
    ∷ []

abbrev stored : Store
stored =
    run_changes lower (call (creating chat (codes "ship") two_specs 5) ∷ []) (new_store (pos 1))

history-valid_example : StoreValid (run_changes lower changes (new_store (pos 1)))
history-valid_example = history-valid lower (pos 1) changes
