-- ===== src/Artifact/Examples.antt =====
-- The stores on a few writes, and the names that are let through.
use multiagent.Base.{◌≡◌, ◌⊎◌, false, refl, none, some, List, [], ◌∷◌, ok, err}
use multiagent.Base.Text.{Text, codes, text_eq, trim_space}
use multiagent.Base.Assoc.{lookup, put, remove}
use multiagent.Artifact.Names.{
  illegal_name, illegal_rune, sanitize_key, sanitize_name, check_name, Words,
}
use multiagent.Artifact.Path.{below, path_join, within_root}
use multiagent.Artifact.Disk.{is_under, mkdir_all, write_file, read_file, remove_path, remove_tree}
use multiagent.Artifact.Store.{progress_artifact, plan_artifact}
use multiagent.Artifact.Memory
use multiagent.Artifact.Files.{dir, safe_path, write, read, remove_name, remove_all}
use multiagent.Artifact.Files.Confined.{step_files-confined}
use multiagent.Artifact.Files.Refinement.{
  Op, writes, removes, clears, step_files, run_files, new_disk,
}

abbrev root : Text
root = codes "/data/agent-state"

abbrev first : Text
first = codes "sess:a"

abbrev second : Text
second = codes "sess:b"

traversal : sanitize_name (codes "../plan") ≡ err (illegal_name (codes "../plan"))
unfolding sanitize_name check_name trim_space text_eq
traversal = refl

-- A join is cleaned, so that `..` does lead out, and the check of the path sees it.
leads_out :
    (path_join root (codes "x/./../../..") ≡ codes "/")
    × (within_root root (path_join root (codes "../agent-state-2/x")) ≡ false)
    × (path_join (codes ".") (codes "../x") ≡ codes "../x")
unfolding path_join within_root below text_eq
leads_out = (refl, refl, refl)

spaced : sanitize_name (codes "a b") ≡ err (illegal_rune (codes "a b"))
unfolding sanitize_name check_name trim_space text_eq
spaced = refl

-- The directory itself passes for a name.
dot : sanitize_name (codes ".") ≡ ok (codes ".")
unfolding sanitize_name check_name trim_space text_eq
dot = refl

abbrev history : List Op
history =
    writes 1 first progress_artifact (codes "one")
    ∷ writes 2 second progress_artifact (codes "two")
    ∷ writes 3 first plan_artifact (codes "plan")
    ∷ clears second
    ∷ removes first plan_artifact
    ∷ []

files : Unit {0}
unfolding write read remove_name remove_all dir safe_path sanitize_key sanitize_name check_name
    trim_space text_eq below path_join within_root is_under mkdir_all write_file read_file
    remove_path remove_tree lookup put remove
files = tt

after_history :
    (read root first progress_artifact (run_files root history (new_disk root))
      ≡ ok (some (codes "one")))
    × (read root second progress_artifact (run_files root history (new_disk root)) ≡ ok none)
unfolding files
after_history = (refl, refl)

abbrev Sessions : Text → Type 0
Sessions key = (key ≡ first) ⊎ (key ≡ second)

abbrev escape : Op
escape = writes 1 (codes "../..") (codes "../../passwd") (codes "x")

step_files-confined_example :
    Words (sanitize_key (codes "../.."))
    × (lookup (codes "/etc/passwd") (step_files root escape (new_disk root)).files
        ≡ lookup (codes "/etc/passwd") (new_disk root).files)
unfolding files
step_files-confined_example =
    step_files-confined root escape (new_disk root) (codes "/etc/passwd") refl
