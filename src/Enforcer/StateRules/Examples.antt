-- ===== src/Enforcer/StateRules/Examples.antt =====
-- The working state in files, over two runs.
use multiagent.Base.{◌≡◌, refl, inr, true, none, List, [], ◌∷◌, ◌++◌, err}
use multiagent.Base.Text.{Text, codes, text_eq, trim_space, is_space, starts_with}
use multiagent.Base.Assoc.{lookup, put, remove}
use multiagent.Artifact.Names.{sanitize_key, sanitize_name, check_name}
use multiagent.Artifact.Path.{path_join, within_root}
use multiagent.Artifact.Disk.{Disk, is_under, mkdir_all, write_file, read_file}
use multiagent.Artifact.Store.{progress_artifact, learnings_artifact}
use multiagent.Artifact.Files.{dir, safe_path, write, read, file_store}
use multiagent.Artifact.Files.Laws.{file-StoreLaws}
use multiagent.Artifact.Files.Refinement.{new_disk}
use multiagent.Enforcer.Nudges.{Request}
use multiagent.Enforcer.StateRules.{
  empty_text, put_artifact, append_to, with_entry, update_plan, update_progress, append_learning,
}
use multiagent.Enforcer.StateRules.Logs.{
  plans, learns, ToolCall, call_tools, Holds, call_tools-Holds,
}
use multiagent.Enforcer.StateRules.Resumes.{Resumed, progress_entry, update_progress-Resumed}

abbrev root : Text
root = codes "/state"

abbrev scope : Text
scope = codes "sess:a"

abbrev disk : Disk
disk = new_disk root

abbrev question : Request
question = record { stream = true; messages = codes "go on" ∷ [] }

tools : Unit {0}
unfolding update_plan update_progress append_learning put_artifact append_to with_entry write read
    dir safe_path sanitize_key sanitize_name check_name trim_space is_space text_eq starts_with
    path_join within_root is_under mkdir_all write_file read_file lookup put remove
tools = tt

blank_text :
    (update_progress (file_store root) 1 (codes "t") scope (codes "  ") disk).1
    ≡ err (empty_text (codes "update_progress"))
unfolding tools
blank_text = refl

update_progress-Resumed_example :
    Resumed
      (file_store root)
      scope
      (update_progress
        (file_store root)
        1
        (codes "2026-01-01 08:00:00")
        scope
        (codes "step 1 ")
        disk).0
      question
      (progress_entry (codes "2026-01-01 08:00:00") (codes "step 1 "))
unfolding tools
update_progress-Resumed_example =
    update_progress-Resumed (file_store root) 1 (codes "2026-01-01 08:00:00") scope
      (codes "step 1 ") disk
      (record {
        is_ok = true;
        artifact = progress_artifact;
        content = codes "# 进展日志" ++ (10 ∷ 10 ∷ (codes "- 2026-01-01 08:00:00 step 1" ++ (10 ∷ [])));
        summary = codes "进展已追加到 PROGRESS.md。";
      })
      none none question (file-StoreLaws root) refl refl refl

abbrev calls : List ToolCall
calls =
    learns 1 (codes "use tabs")
    ∷ plans 2 (codes "# all")
    ∷ learns 3 (codes "")
    ∷ learns 4 (codes "no tabs")
    ∷ []

call_tools-Holds_example : Holds (file_store root) scope learnings_artifact (codes "# 踩坑与约定") (
    call_tools
      (file_store root)
      scope
      calls
      (append_learning (file_store root) 0 scope (codes "x") disk).0)
unfolding tools
call_tools-Holds_example =
    call_tools-Holds (file_store root) scope calls learnings_artifact (codes "# 踩坑与约定")
      (append_learning (file_store root) 0 scope (codes "x") disk).0 (file-StoreLaws root)
      (inr refl) (10 ∷ 10 ∷ (codes "- x" ++ (10 ∷ [])), refl)
