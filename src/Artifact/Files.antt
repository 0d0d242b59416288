-- ===== src/Artifact/Files.antt =====
-- server/internal/artifact/store.go: FileStore, a directory `root` with one directory for each key.
-- `root` is a clean path.
pub mod Paths
pub mod Reads
pub mod Confined
pub mod Refinement
pub mod Laws
use multiagent.Base.{
  ℕ, ◌≡◌, Bool, true, false, Option, none, some, List, [], ◌∷◌, ◌++◌, Answer, ok, err, ◌>>=◌, map,
  if◌then◌else◌, is_nil,
}
use multiagent.Base.Text.{Text}
use multiagent.Artifact.Names.{
  StoreError, empty_root, bad_key, key_outside, name_outside, sanitize_key, sanitize_name,
}
use multiagent.Artifact.Path.{path_join, within_root}
use multiagent.Artifact.Disk.{
  File, Disk, mkdir_all, write_file, read_file, stat_file, remove_path, remove_tree, read_dir,
}
use multiagent.Artifact.Store.{Entry, sort_entries, entry_of, Store}

-- safePath
unfoldable pub safe_path : Text → Text → Answer StoreError Text
safe_path d name = do
  clean ← sanitize_name name
  if within_root d (path_join d clean) then ok (path_join d clean) else err name_outside

abbrev settle : Disk → Answer StoreError Disk → Disk × Option StoreError
settle disk (ok disk') = (disk', none)
settle disk (err e) = (disk, some e)

abbrev content_of : Option File → Option Text
content_of none = none
content_of (some f) = some f.content

-- Write past MkdirAll.
write_in : Text → Text → File → Disk → Disk × Option StoreError
write_in d name f disk = elim (safe_path d name) [
  | err e ↦ (disk, some e)
  | ok fp ↦ settle disk (write_file fp f disk)
]

write_dir : Text → Text → File → Disk → Disk × Option StoreError
unfolding write_in
write_dir d name f disk = elim (mkdir_all d disk) [
  | err e ↦ (disk, some e)
  | ok disk' ↦ write_in d name f disk'
]

-- NewFileStore: the disk with the root directory.
unfoldable pub new_file_store : Text → Disk → Answer StoreError Disk
new_file_store root disk = if is_nil root then err empty_root else mkdir_all root disk

module _ (root : Text) where
  -- dir
  unfoldable pub dir : Text → Answer StoreError Text
  dir key =
      let k = sanitize_key key in
      if is_nil k
      then err bad_key
      else if within_root root (path_join root k)
      then ok (path_join root k)
      else err key_outside

  -- Write
  unfoldable pub write : ℕ → Text → Text → Text → Disk → Disk × Option StoreError
  unfolding write_dir
  write now key name content disk = elim (dir key) [
    | err e ↦ (disk, some e)
    | ok d ↦ write_dir d name (record { content = content; mod_time = now }) disk
  ]

  -- Read
  unfoldable pub read : Text → Text → Disk → Answer StoreError (Option Text)
  read key name disk = do
    d ← dir key
    fp ← safe_path d name
    found ← read_file fp disk
    ok (content_of found)

  -- Exists
  unfoldable pub exists : Text → Text → Disk → Answer StoreError Bool
  exists key name disk = do d ← dir key; fp ← safe_path d name; ok (stat_file fp disk)

  -- Remove
  unfoldable pub remove_name : Text → Text → Disk → Disk × Option StoreError
  remove_name key name disk =
      settle disk (do d ← dir key; fp ← safe_path d name; remove_path fp disk)

  -- RemoveAll
  unfoldable pub remove_all : Text → Disk → Disk × Option StoreError
  remove_all key disk = settle disk (do d ← dir key; ok (remove_tree d disk))

  -- List
  unfoldable pub list : Text → Disk → Answer StoreError (List Text)
  list key disk = do d ← dir key; fs ← read_dir d disk; ok (map (λ e. e.0) fs)

  -- ListEntries
  unfoldable pub list_entries : Text → Disk → Answer StoreError (List Entry)
  list_entries key disk = do
    d ← dir key
    fs ← read_dir d disk
    ok (sort_entries (map (λ e. entry_of e.0 e.1) fs))

  -- FileStore as a Store.
  abbrev pub file_store : Store Disk
  file_store = record { write = write; read = read }
