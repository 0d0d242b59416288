-- ===== src/Artifact/Files/Confined.antt =====
-- store.go: no key and no name, whatever they hold, leads out of a key's own directory.
use multiagent.Base.{
  ◌≡◌, inl, inr, true, false, Option, arith, ok, is_nil, Bool-cases, Answer-cases,
}
use multiagent.Base.Text.{Text, text_eq_iff}
use multiagent.Base.Assoc.{lookup, lookup-put, lookup-remove}
use multiagent.Artifact.Names.{StoreError, Words, sanitize_key, sanitize_name, sanitize_key-Words}
use multiagent.Artifact.Disk.{File, Disk, is_under, mkdir_all, write_file, remove_path, remove_tree}
use multiagent.Artifact.Files.{
  safe_path, settle, write_in, write_dir, write, remove_name, remove_all,
}
use multiagent.Artifact.Files.Paths.{key_path, dir_lem, is_under-safe_path, safe_path_lem}
use multiagent.Artifact.Files.Refinement.{
  Op, writes, removes, clears, step_files, lookup-drop_under,
}

abbrev pub key_of : Op → Text
key_of (writes now key name content) = key
key_of (removes key name) = key
key_of (clears key) = key

-- The path of a file that is let through is under its directory.
safe_path-is_under :
    (root key name fp : Text)
    → is_nil (sanitize_key key) ≡ false
    → safe_path (key_path root (sanitize_key key)) name ≡ ok fp
    → is_under (key_path root (sanitize_key key)) fp ≡ true
safe_path-is_under root key name fp given e =
    let d = key_path root (sanitize_key key) in
    elim (Answer-cases (sanitize_name name)) [
      | inl (m, is) ↦ ground (arith, safe_path_lem d name, is_under-safe_path root key m given)
      | inr (x, is) ↦ absurd (ground (arith, safe_path_lem d name))
    ]

module _ (p : Text) where
  -- A change of the disk that leaves the file at `p` as it was.
  abbrev Spares : Disk → Disk × Option StoreError → Type 0
  Spares disk r = lookup p r.0.files ≡ lookup p disk.files

  write_dir-Spares :
      (root key name : Text) (f : File) (disk : Disk)
      → is_nil (sanitize_key key) ≡ false
      → is_under (key_path root (sanitize_key key)) p ≡ false
      → Spares disk (write_dir (key_path root (sanitize_key key)) name f disk)
  unfolding write_dir write_in mkdir_all write_file
  write_dir-Spares root key name f disk given out =
      elim (Answer-cases (safe_path (key_path root (sanitize_key key)) name)) [
        | inl (fp, is) ↦ ground (
          arith,
          safe_path-is_under root key name fp given is,
          lookup-put fp p f disk.files,
          text_eq_iff fp p,
        )
        | inr (x, is) ↦ ground arith
      ]

  remove_path-Spares :
      (d fp : Text) (disk : Disk)
      → is_under d p ≡ false
      → is_under d fp ≡ true
      → Spares disk (settle disk (remove_path fp disk))
  unfolding remove_path
  remove_path-Spares d fp disk out in_it =
      ground (arith, lookup-remove fp p disk.files, text_eq_iff fp p)

-- Each change for a key is confined to the directory of that key, a segment of letters, digits, `-`
-- and `_` below the root: every file that is not under it stays as it was. Neither the key nor the
-- name is restricted, and the change may fail.
pub step_files-confined :
    (root : Text) (op : Op) (disk : Disk) (p : Text)
    → is_under (key_path root (sanitize_key (key_of op))) p ≡ false
    → Words (sanitize_key (key_of op))
      × (lookup p (step_files root op disk).files ≡ lookup p disk.files)
unfolding write remove_name remove_all remove_tree
step_files-confined root (writes now key name content) disk p out = (
  sanitize_key-Words key,
  elim (Bool-cases (is_nil (sanitize_key key))) [
    | inl blank ↦ ground (arith, dir_lem root key)
    | inr given ↦ ground (
      arith,
      dir_lem root key,
      write_dir-Spares p root key name (record { content = content; mod_time = now }) disk given
          out,
    )
  ],
)
step_files-confined root (removes key name) disk p out = (
  sanitize_key-Words key,
  elim (Bool-cases (is_nil (sanitize_key key))) [
    | inl blank ↦ ground (arith, dir_lem root key)
    | inr given ↦ elim (Answer-cases (safe_path (key_path root (sanitize_key key)) name)) [
      | inl (fp, is) ↦ ground (
        arith,
        dir_lem root key,
        remove_path-Spares p (key_path root (sanitize_key key)) fp disk out
            (safe_path-is_under root key name fp given is),
      )
      | inr (x, is) ↦ ground (arith, dir_lem root key)
    ]
  ],
)
step_files-confined root (clears key) disk p out = (
  sanitize_key-Words key,
  elim (Bool-cases (is_nil (sanitize_key key))) [
    | inl blank ↦ ground (arith, dir_lem root key)
    | inr given ↦
        ground (
          arith,
          dir_lem root key,
          lookup-drop_under (key_path root (sanitize_key key)) p disk.files,
        )
  ],
)
