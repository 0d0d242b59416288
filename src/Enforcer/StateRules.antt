-- ===== src/Enforcer/StateRules.antt =====
-- server/internal/agent/state.go: the working state of a run, kept in a store of artifacts. The
-- store is the interface of artifact/store.go; a time is printed by the framework's clock, and
-- its text is an argument.
pub mod Logs
pub mod Resumes
mod Examples
use multiagent.Base.{
  ℕ, ◌≡◌, Bool, true, false, Option, none, some, List, [], ◌∷◌, ◌++◌, Answer, ok, err,
  if◌then◌else◌, is_nil, not,
}
use multiagent.Base.Text.{Text, codes, trim_space, starts_with}
use multiagent.Artifact.Names.{StoreError}
use multiagent.Artifact.Store.{
  plan_artifact, progress_artifact, learnings_artifact, Snapshot, Store, snapshot,
}
use multiagent.Enforcer.Nudges.{Request}

abbrev blank_line : Text
blank_line = 10 ∷ 10 ∷ []

pub data ToolError : Type 0 where
  empty_text : (tool : Text) → ToolError
  store_error : StoreError → ToolError

pub record ToolOutput : Type 0 where
  pub is_ok : Bool
  pub artifact : Text
  pub content : Text
  pub summary : Text

pub record ReadOutput : Type 0 where
  pub exists : Bool
  pub plan : Text
  pub progress : Text
  pub learnings : Text
  pub summary : Text

section : Text → Text → Text
section title content = if is_nil (trim_space content) then [] else (10 ∷ title) ++ (10 ∷ content)

abbrev pub prompt_head : Text
prompt_head = codes "[系统·续跑上下文] 检测到上次 run 留下的工作状态，请基于它接着推进，不要从头开始。"

abbrev pub prompt_tail : Text
prompt_tail = codes "（如需回顾完整内容，可调用 read_state。）"

-- buildResumePrompt
unfoldable pub build_resume_prompt : Snapshot → Text
unfolding section
build_resume_prompt snap =
    prompt_head
    ++ (10
        ∷ (section (codes "## PLAN.md") snap.plan
            ++ (section (codes "## PROGRESS.md") snap.progress
                ++ (section (codes "## LEARNINGS.md") snap.learnings ++ (10 ∷ prompt_tail)))))

abbrev pub entry_line : Text → Text
entry_line body = codes "- " ++ (body ++ (10 ∷ []))

-- The content of a log with one more entry.
unfoldable pub with_entry : Text → Option Text → Text → Text
with_entry header none entry = codes "# " ++ (header ++ (blank_line ++ entry))
with_entry header (some existing) entry = existing ++ entry

-- A plan's text, with a heading.
abbrev pub plan_text : Text → Text
plan_text content =
    if starts_with content (codes "#") then content else codes "# 计划" ++ (blank_line ++ content)

abbrev said : Text → Text → Text → Option StoreError → Answer ToolError ToolOutput
said artifact content summary none =
    ok (record { is_ok = true; artifact = artifact; content = content; summary = summary })
said artifact content summary (some e) = err (store_error e)

module _ {S : Type 0} (store : Store S) where
  -- A write of a tool with its answer.
  unfoldable pub put_artifact : ℕ → Text → Text → Text → Text → S → S × Answer ToolError ToolOutput
  put_artifact now scope artifact content summary s =
      let (s', e) = store.write now scope artifact content s in
      (s', said artifact content summary e)

  pub append_to : ℕ → Text → Text → Text → Text → Text → S → S × Answer ToolError ToolOutput
  unfolding put_artifact
  append_to now scope artifact header entry summary s = elim (store.read scope artifact s) [
    | err e ↦ (s, err (store_error e))
    | ok existing ↦ put_artifact now scope artifact (with_entry header existing entry) summary s
  ]

  -- updatePlanTool
  unfoldable pub update_plan : ℕ → Text → Text → S → S × Answer ToolError ToolOutput
  unfolding put_artifact
  update_plan now scope text s =
      let content = trim_space text in
      if is_nil content
      then (s, err (empty_text (codes "update_plan")))
      else put_artifact now scope plan_artifact (plan_text content) (codes "计划已写入 PLAN.md。") s

  -- updateProgressTool; `stamp` is the time's text.
  unfoldable pub update_progress : ℕ → Text → Text → Text → S → S × Answer ToolError ToolOutput
  unfolding append_to
  update_progress now stamp scope text s =
      let body = trim_space text in
      if is_nil body
      then (s, err (empty_text (codes "update_progress")))
      else append_to now scope progress_artifact (codes "进展日志")
          (entry_line (stamp ++ (codes " " ++ body))) (codes "进展已追加到 PROGRESS.md。") s

  -- appendLearningTool
  unfoldable pub append_learning : ℕ → Text → Text → S → S × Answer ToolError ToolOutput
  unfolding append_to
  append_learning now scope text s =
      let body = trim_space text in
      if is_nil body
      then (s, err (empty_text (codes "append_learning")))
      else append_to now scope learnings_artifact (codes "踩坑与约定") (entry_line body)
          (codes "约定已沉淀到 LEARNINGS.md。") s

  -- readStateTool
  unfoldable pub read_state : Text → S → Answer StoreError ReadOutput
  read_state scope s = elim (snapshot store scope s) [
    | err e ↦ err e
    | ok snap ↦
        if snap.any
        then ok (record {
          exists = true;
          plan = snap.plan;
          progress = snap.progress;
          learnings = snap.learnings;
          summary = codes "已读取上次工作状态，可据此续跑。";
        })
        else ok (record {
          exists = false;
          plan = [];
          progress = [];
          learnings = [];
          summary = codes "当前没有可续跑的状态文件（PLAN/PROGRESS/LEARNINGS）。";
        })
  ]

  resumed : Answer StoreError Snapshot → Request → Request
  resumed (err e) req = req
  resumed (ok snap) req =
      let message = build_resume_prompt snap in
      if not snap.any
      then req
      else if is_nil message
      then req
      else record req { messages = req.messages ++ (message ∷ []) }

  abbrev is_checked : Option Bool → Bool
  is_checked none = false
  is_checked (some b) = b

  abbrev set_checked : Option Bool → Option Bool
  set_checked none = none
  set_checked (some b) = some true

  -- beforeModel; `checked` is the invocation's mark, `none` where there is no invocation.
  unfoldable pub before_model :
      Text → S → Option Request → (checked : Option Bool) → Option Bool × Option Request
  unfolding resumed
  before_model scope s none checked = (checked, none)
  before_model scope s (some req) checked =
      if is_checked checked
      then (checked, some req)
      else (set_checked checked, some (resumed (snapshot store scope s) req))
