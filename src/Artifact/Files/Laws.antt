-- ===== src/Artifact/Files/Laws.antt =====
-- store.go: FileStore as the Store of the state tools.
use multiagent.Base.{
  ℕ, ◌≡◌, refl, sym, inl, inr, true, none, some, arith, ok, if◌then◌else◌, is_nil, Bool-cases,
  subst,
}
use multiagent.Base.Text.{Text, text_eq, text_eq_iff, trim_space}
use multiagent.Artifact.Names.{StoreError, sanitize_key, sanitize_name, check_name}
use multiagent.Artifact.Disk.{Disk}
use multiagent.Artifact.Store.{
  plan_artifact, progress_artifact, learnings_artifact, is_state_artifact, StoreLaws,
}
use multiagent.Artifact.Files.{write, read, file_store}
use multiagent.Artifact.Files.Reads.{
  IsName, write_cases, read-written, read-write_failed, blank_key,
}

IsName-of-state : (name : Text) → is_state_artifact name ≡ true → IsName name name
unfolding is_state_artifact sanitize_name check_name trim_space text_eq
IsName-of-state name h = elim (Bool-cases (text_eq name plan_artifact)) [
  | inl p ↦
      subst (λ n. IsName n n) (sym ((text_eq_iff name plan_artifact).0 p))
        (record { sanitized = refl; proper = refl })
  | inr np ↦ elim (Bool-cases (text_eq name progress_artifact)) [
    | inl p ↦
        subst (λ n. IsName n n) (sym ((text_eq_iff name progress_artifact).0 p))
          (record { sanitized = refl; proper = refl })
    | inr ng ↦ elim (Bool-cases (text_eq name learnings_artifact)) [
      | inl p ↦
          subst (λ n. IsName n n) (sym ((text_eq_iff name learnings_artifact).0 p))
            (record { sanitized = refl; proper = refl })
      | inr nl ↦ absurd (ground arith)
    ]
  ]
]

-- FileStore keeps what the state tools rely on.
file-read-write :
    (root : Text) (now : ℕ) (key name name' content : Text) (disk : Disk)
    → is_state_artifact name ≡ true
    → is_state_artifact name' ≡ true
    → (write root now key name content disk).1 ≡ none
    → read root key name' (write root now key name content disk).0
      ≡ (if text_eq name name' then ok (some content) else read root key name' disk)
file-read-write root now key name name' content disk a b e =
    elim (Bool-cases (is_nil (sanitize_key key))) [
      | inl blank ↦ absurd (unfold write in ground (arith, blank_key root key blank))
      | inr given ↦
          elim (write_cases root now key name name content disk (record { given = given })
            (IsName-of-state name a)) [
              | inl (free, is) ↦ rw is (
                  ground (
                    arith,
                    read-written root now key key name name' name' content disk
                        (record { given = given }) (IsName-of-state name' b) free,
                    text_eq_iff (sanitize_key key) (sanitize_key key),
                  ))
              | inr (disk', e', is, files, dirs) ↦ absurd (ground arith)
            ]
    ]

file-read-write_failed :
    (root : Text) (now : ℕ) (key name name' content : Text) (disk : Disk) (e : StoreError)
    → is_state_artifact name ≡ true
    → is_state_artifact name' ≡ true
    → (write root now key name content disk).1 ≡ some e
    → read root key name' (write root now key name content disk).0 ≡ read root key name' disk
file-read-write_failed root now key name name' content disk e a b failed =
    elim (Bool-cases (is_nil (sanitize_key key))) [
      | inl blank ↦ unfold write in ground (arith, blank_key root key blank)
      | inr given ↦
          read-write_failed root now key key name name name' name' content disk e
            (record { given = given }) (record { given = given }) (IsName-of-state name a)
            (IsName-of-state name' b) failed
    ]

pub file-StoreLaws : (root : Text) → StoreLaws (file_store root)
file-StoreLaws root = record {
  read-write = file-read-write root;
  read-write_failed = file-read-write_failed root;
}
