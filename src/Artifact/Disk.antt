-- ===== src/Artifact/Disk.antt =====
-- What the store calls of os: files and directories by their paths, which are clean. The calls fail for these reasons only; a file's permissions
-- are not modelled.
use multiagent.Base.{
  ℕ, Bool, true, false, ◌&&◌, ◌||◌, Option, none, some, List, [], ◌∷◌, ◌++◌, Answer, ok, err,
  if◌then◌else◌, ◌==◌, ltb, sort_by,
}
use multiagent.Base.Text.{Text, text_eq, starts_with}
use multiagent.Base.Assoc.{Assoc, lookup, put, remove}
use multiagent.Artifact.Path.{has_separator, after_prefix}
use multiagent.Artifact.Names.{StoreError, is_directory, not_empty, not_a_directory}

pub record File : Type 0 where
  pub content : Text
  pub mod_time : ℕ

pub record Disk : Type 0 where
  pub files : Assoc File
  pub dirs : Assoc (Unit {0})

-- A path is a directory, which is neither `.` nor `/`, or below it.
unfoldable pub is_under : Text → Text → Bool
unfolding starts_with
is_under d p = text_eq p d || starts_with p (d ++ (b'/' ∷ []))

abbrev pub is_there {ℓ} : {A : Type ℓ} → Option A → Bool
is_there none = false
is_there (some a) = true

-- os.MkdirAll; the directories above are there.
unfoldable pub mkdir_all : Text → Disk → Answer StoreError Disk
mkdir_all d disk =
    if is_there (lookup d disk.files)
    then err not_a_directory
    else ok (record disk { dirs = put d tt disk.dirs })

-- os.WriteFile into a directory that is there.
unfoldable pub write_file : Text → File → Disk → Answer StoreError Disk
write_file p f disk =
    if is_there (lookup p disk.dirs)
    then err is_directory
    else ok (record disk { files = put p f disk.files })

-- os.ReadFile; `none` is os.IsNotExist.
unfoldable pub read_file : Text → Disk → Answer StoreError (Option File)
read_file p disk =
    if is_there (lookup p disk.dirs) then err is_directory else ok (lookup p disk.files)

-- os.Stat: a file is there, which is no directory.
unfoldable pub stat_file : Text → Disk → Bool
stat_file p disk = if is_there (lookup p disk.dirs) then false else is_there (lookup p disk.files)

any_under {ℓ} : {V : Type ℓ} → Text → Assoc V → Bool
any_under d [] = false
any_under d ((p, v) ∷ m) = starts_with p (d ++ (b'/' ∷ [])) || any_under d m

-- os.Remove; a path that is not there is no error of the store.
unfoldable pub remove_path : Text → Disk → Answer StoreError Disk
unfolding any_under
remove_path p disk =
    if is_there (lookup p disk.dirs)
    then (if any_under p disk.files || any_under p disk.dirs
        then err not_empty
        else ok (record disk { dirs = remove p disk.dirs }))
    else ok (record disk { files = remove p disk.files })

unfoldable pub drop_under {ℓ} : {V : Type ℓ} → Text → Assoc V → Assoc V
drop_under d [] = []
drop_under d ((p, v) ∷ m) =
    let rest = drop_under d m in if is_under d p then rest else (p, v) ∷ rest

-- os.RemoveAll
unfoldable pub remove_tree : Text → Disk → Disk
unfolding drop_under
remove_tree d disk = record { files = drop_under d disk.files; dirs = drop_under d disk.dirs }

-- The name in a directory of a path that lies directly in it.
unfoldable pub name_in : Text → Text → Option Text
unfolding has_separator
name_in d p = elim (after_prefix (d ++ (b'/' ∷ [])) p) [
  | none ↦ none
  | some n ↦ if has_separator n then none else some n
]

text_less : Text → Text → Bool
text_less s [] = false
text_less [] (d ∷ t) = true
text_less (c ∷ s) (d ∷ t) = ltb c d || ((c == d) && text_less s t)

-- `<` on strings
unfoldable pub less : Text → Text → Bool
unfolding text_less
less s t = text_less s t

files_in : Text → Assoc File → List (Text × File)
files_in d [] = []
files_in d ((p, f) ∷ m) =
    let rest = files_in d m in elim (name_in d p) [ none ↦ rest | some n ↦ (n, f) ∷ rest ]

-- os.ReadDir without the directories in it; a directory that is not there has no files.
unfoldable pub read_dir : Text → Disk → Answer StoreError (List (Text × File))
unfolding files_in
read_dir d disk =
    if is_there (lookup d disk.files)
    then err not_a_directory
    else ok (sort_by (λ a b. less a.0 b.0) (files_in d disk.files))
