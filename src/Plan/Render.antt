-- ===== src/Plan/Render.antt =====
-- plan.go: the PLAN and PROGRESS views of a plan.
use multiagent.Base.{ℕ, List, [], ◌∷◌, ◌++◌, ltb, if◌then◌else◌, is_nil}
use multiagent.Base.Text.{Text, codes, join}
use multiagent.Base.Decimal.{decimal}
use multiagent.Plan.Steps.{
  StepStatus, pending, in_progress, done, skipped, failed, status_text, status_open, Step, Plan,
  counts, count_open,
}

-- statusMark
abbrev pub status_mark : StepStatus → Text
status_mark done = codes "[x]"
status_mark skipped = codes "[-]"
status_mark failed = codes "[!]"
status_mark in_progress = codes "[~]"
status_mark pending = codes "[ ]"

-- A count that Render leaves out where it is zero.
abbrev counted : ℕ → Text → Text
counted n label = if ltb 0 n then codes "，" ++ decimal n ++ label else []

abbrev noted : Text → Text
noted note = if is_nil note then [] else codes " — " ++ note

render_steps : List Step → Text
render_steps [] = []
render_steps (s ∷ steps) =
    codes "\n  "
    ++ status_mark s.status
    ++ codes " "
    ++ s.id
    ++ codes " "
    ++ s.title
    ++ (if is_nil s.detail then [] else codes "（" ++ s.detail ++ codes "）")
    ++ noted s.note
    ++ render_steps steps

-- Render
unfoldable pub render : Plan → Text
unfolding render_steps
render p =
    let c = counts p in
    codes "计划["
    ++ p.id
    ++ codes "] "
    ++ p.title
    ++ codes "\n进度: "
    ++ decimal c.done
    ++ codes "/"
    ++ decimal c.total
    ++ codes " 已完成"
    ++ counted c.skipped (codes " 跳过")
    ++ counted c.failed (codes " 失败")
    ++ counted (count_open c) (codes " 待办")
    ++ codes "\n步骤:"
    ++ render_steps p.steps

progress_lines : List Step → List Text
progress_lines [] = []
progress_lines (s ∷ steps) =
    let rest = progress_lines steps in
    if status_open s.status
    then rest
    else (codes "  "
        ++ status_mark s.status
        ++ codes " "
        ++ s.id
        ++ codes " "
        ++ s.title
        ++ codes " ["
        ++ status_text s.status
        ++ codes "]"
        ++ noted s.note)
      ∷ rest

-- RenderProgress
unfoldable pub render_progress : Plan → Text
unfolding progress_lines
render_progress p =
    if is_nil (progress_lines p.steps)
    then codes "进展: 尚无已完成的步骤。"
    else codes "进展:\n" ++ join (codes "\n") (progress_lines p.steps)
