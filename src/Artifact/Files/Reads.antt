-- ===== src/Artifact/Files/Reads.antt =====
-- store.go: what FileStore reads after it has written or removed.
use multiagent.Base.{
  ℕ, ◌≡◌, ◌⊎◌, refl, ◌∙◌, inl, inr, true, false, ◌&&◌, Option, none, some, arith, Answer, ok, err,
  if◌then◌else◌, is_nil, Option-cases,
}
use multiagent.Base.Text.{Text, codes, text_eq, text_eq_iff}
use multiagent.Base.Assoc.{Assoc, lookup, put, lookup-put}
use multiagent.Artifact.Names.{
  StoreError, bad_key, is_directory, not_a_directory, Words, sanitize_key, sanitize_name,
  sanitize_key-Words,
}
use multiagent.Artifact.Disk.{File, Disk, mkdir_all, write_file, read_file, is_there}
use multiagent.Artifact.Files.{dir, safe_path, content_of, write_in, write_dir, write, read}
use multiagent.Artifact.Files.Paths.{
  key_path, file_path, below-key_path, dir_lem, safe_path_lem, text_eq-file_path,
  text_eq-file_path-key_path,
}

-- A name that is let through and is not the directory itself.
pub record IsName (name m : Text) : Type 0 where
  pub sanitized : sanitize_name name ≡ ok m
  pub proper : text_eq m (codes ".") ≡ false

pub record IsKey (key : Text) : Type 0 where
  pub given : is_nil (sanitize_key key) ≡ false

module _ (root : Text) where
  abbrev pub path_of : Text → Text → Text
  path_of key m = file_path root (sanitize_key key) m

  -- A disk on which the directories and the files of the store do not stand in each other's way.
  pub record IsTidy (disk : Disk) : Type 0 where
    pub no_file : (k : Text) → Words k → lookup (key_path root k) disk.files ≡ none
    pub no_dir :
        (k m : Text)
        → Words k
        → text_eq m (codes ".") ≡ false
        → lookup (file_path root k m) disk.dirs ≡ none

  pub dir_of_key : (key : Text) → IsKey key → dir root key ≡ ok (key_path root (sanitize_key key))
  dir_of_key key h = ground (arith, dir_lem root key)

  pub safe_path_of_name :
      (key name m : Text)
      → IsKey key
      → IsName name m
      → safe_path (key_path root (sanitize_key key)) name ≡ ok (path_of key m)
  safe_path_of_name key name m h n =
      safe_path_lem (key_path root (sanitize_key key)) name
      ∙ rw (n.sanitized, n.proper, below-key_path root key m h.given) refl

  abbrev read_path : Text → Disk → Answer StoreError (Option Text)
  read_path p disk =
      if is_there (lookup p disk.dirs)
      then err is_directory
      else ok (content_of (lookup p disk.files))

  pub read_lem :
      (key name m : Text) (disk : Disk)
      → IsKey key
      → IsName name m
      → read root key name disk ≡ read_path (path_of key m) disk
  unfolding read read_file
  read_lem key name m disk h n = ground (arith, dir_of_key key h, safe_path_of_name key name m h n)

  abbrev pub written : ℕ → Text → Text → Text → Disk → Disk
  written now key m content disk = record {
    files = put (path_of key m) (record { content = content; mod_time = now }) disk.files;
    dirs = put (key_path root (sanitize_key key)) tt disk.dirs;
  }

  pub lookup_dirs :
      (key key' m : Text) (dirs : Assoc (Unit {0}))
      → lookup (path_of key' m) (put (key_path root (sanitize_key key)) tt dirs)
        ≡ lookup (path_of key' m) dirs
  lookup_dirs key key' m dirs = ground (
    arith,
    lookup-put (key_path root (sanitize_key key)) (path_of key' m) tt dirs,
    text_eq-file_path-key_path root (sanitize_key key') (sanitize_key key) m
        (sanitize_key-Words key),
    text_eq_iff (path_of key' m) (key_path root (sanitize_key key)),
    text_eq_iff (key_path root (sanitize_key key)) (path_of key' m),
  )

  -- On a tidy disk a write with a key and a name succeeds.
  pub write_lem :
      (now : ℕ) (key name m content : Text) (disk : Disk)
      → IsKey key
      → IsName name m
      → IsTidy disk
      → write root now key name content disk ≡ (written now key m content disk, none)
  unfolding write write_dir write_in mkdir_all write_file
  write_lem now key name m content disk h n t = ground (
    arith,
    dir_of_key key h,
    safe_path_of_name key name m h n,
    t.no_file (sanitize_key key) (sanitize_key-Words key),
    t.no_dir (sanitize_key key) m (sanitize_key-Words key) n.proper,
    lookup_dirs key key m disk.dirs,
  )

  pub lookup_files :
      (key key' m m' : Text) (f : File) (files : Assoc File)
      → lookup (path_of key' m') (put (path_of key m) f files) ≡ (
          if text_eq (sanitize_key key) (sanitize_key key') && text_eq m m'
          then some f
          else lookup (path_of key' m') files)
  lookup_files key key' m m' f files =
      rw
        (
          lookup-put (path_of key m) (path_of key' m') f files,
          text_eq-file_path root (sanitize_key key) (sanitize_key key') m m'
              (sanitize_key-Words key) (sanitize_key-Words key'),
        )
        refl

  -- What is read after a write that succeeded.
  pub read-written :
      (now : ℕ) (key key' m name' m' content : Text) (disk : Disk)
      → IsKey key'
      → IsName name' m'
      → lookup (path_of key m) disk.dirs ≡ none
      → read root key' name' (written now key m content disk) ≡ (
          if text_eq (sanitize_key key) (sanitize_key key') && text_eq m m'
          then ok (some content)
          else read root key' name' disk)
  read-written now key key' m name' m' content disk h n free =
      rw
        (
          read_lem key' name' m' (written now key m content disk) h n,
          read_lem key' name' m' disk h n,
          lookup_dirs key key' m' disk.dirs,
          lookup_files key key' m m' (record { content = content; mod_time = now }) disk.files,
        )
        (ground (
          arith,
          text_eq_iff (path_of key m) (path_of key' m'),
          text_eq-file_path root (sanitize_key key) (sanitize_key key') m m'
              (sanitize_key-Words key) (sanitize_key-Words key'),
        ))

  -- A write to a file's path goes through, or it fails and leaves every file as it was.
  pub write_cases :
      (now : ℕ) (key name m content : Text) (disk : Disk)
      → IsKey key
      → IsName name m
      → ((lookup (path_of key m) disk.dirs ≡ none)
          × (write root now key name content disk ≡ (written now key m content disk, none)))
        ⊎ ((disk' : Disk) × (e : StoreError) × (write root now key name content disk
              ≡ (disk', some e))
            × (disk'.files ≡ disk.files)
            × ((key' m' : Text)
                → lookup (path_of key' m') disk'.dirs ≡ lookup (path_of key' m') disk.dirs))
  unfolding write write_dir write_in mkdir_all write_file
  write_cases now key name m content disk h n =
      elim (Option-cases (lookup (key_path root (sanitize_key key)) disk.files)) [
        | inr (f, there) ↦
            inr (disk, not_a_directory, ground (arith, dir_of_key key h), refl, λ key' m'. refl)
        | inl clear ↦ elim (Option-cases (lookup (path_of key m) disk.dirs)) [
          | inl free ↦ inl (
            free,
            ground (
              arith,
              dir_of_key key h,
              safe_path_of_name key name m h n,
              lookup_dirs key key m disk.dirs,
            ),
          )
          | inr (u, taken) ↦ inr (
            record disk { dirs = put (key_path root (sanitize_key key)) tt disk.dirs },
            is_directory,
            ground (
              arith,
              dir_of_key key h,
              safe_path_of_name key name m h n,
              lookup_dirs key key m disk.dirs,
            ),
            refl,
            λ key' m'. lookup_dirs key key' m' disk.dirs,
          )
        ]
      ]

  pub blank_key : (key : Text) → is_nil (sanitize_key key) ≡ true → dir root key ≡ err bad_key
  blank_key key blank = ground (arith, dir_lem root key)

  -- What is read after a write that failed.
  pub read-write_failed :
      (now : ℕ) (key key' name m name' m' content : Text) (disk : Disk) (e : StoreError)
      → IsKey key
      → IsKey key'
      → IsName name m
      → IsName name' m'
      → (write root now key name content disk).1 ≡ some e
      → read root key' name' (write root now key name content disk).0 ≡ read root key' name' disk
  read-write_failed now key key' name m name' m' content disk e h h' n n' failed =
      elim (write_cases now key name m content disk h n) [
        | inl (free, is) ↦ absurd (ground arith)
        | inr (disk', e', is, files, dirs) ↦
            rw
              (
                is,
                read_lem key' name' m' disk' h' n',
                read_lem key' name' m' disk h' n',
                files,
                dirs key' m',
              )
              refl
      ]
