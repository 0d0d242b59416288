-- ===== src/Artifact/Files/Refinement.antt =====
-- store.go: FileStore against MemoryStore.
use mathlib.Core.List.{append_assoc}
use multiagent.Base.{
  ℕ, ◌≡◌, refl, false, none, some, List, [], ◌∷◌, ◌++◌, arith, ok, if◌then◌else◌, is_nil, inl, inr,
  Bool-cases,
}
use multiagent.Base.Text.{Text, codes, text_eq, text_eq_iff}
use multiagent.Artifact.Path.{below}
use multiagent.Base.Assoc.{Assoc, lookup, remove}
use multiagent.Artifact.Names.{Words, sanitize_key, sanitize_key-Words}
use multiagent.Artifact.Disk.{Disk, is_under, drop_under}
use multiagent.Artifact.Memory.{MemoryStore}
use multiagent.Artifact.Memory
use multiagent.Artifact.Files.{write, read, remove_name, remove_all}
use multiagent.Artifact.Files.Paths.{file_path}
use multiagent.Artifact.Files.Reads.{IsName, IsKey, IsTidy, write_lem, read-written}

pub lookup-drop_under {ℓ} :
    {V : Type ℓ} (d p : Text) (m : Assoc V)
    → lookup p (drop_under d m) ≡ (if is_under d p then none else lookup p m)
unfolding drop_under lookup
lookup-drop_under d p [] = ground arith
lookup-drop_under d p ((q, v) ∷ m) = ground (arith, text_eq_iff q p, lookup-drop_under d p m)

-- A change of the store.
pub data Op : Type 0 where
  writes : (now : ℕ) (key name content : Text) → Op
  removes : (key name : Text) → Op
  clears : (key : Text) → Op

module _ (root : Text) where
  abbrev pub step_files : Op → Disk → Disk
  step_files (writes now key name content) disk = (write root now key name content disk).0
  step_files (removes key name) disk = (remove_name root key name disk).0
  step_files (clears key) disk = (remove_all root key disk).0

  abbrev pub run_files : List Op → Disk → Disk
  run_files [] disk = disk
  run_files (op ∷ ops) disk = run_files ops (step_files op disk)

  abbrev removed : Text → Disk → Disk
  removed p disk = record disk { files = remove p disk.files }

abbrev pub step_memory : Op → MemoryStore → MemoryStore
step_memory (writes now key name content) s = Memory.write now key name content s
step_memory (removes key name) s = Memory.remove_name key name s
step_memory (clears key) s = Memory.remove_all key s

abbrev pub run_memory : List Op → MemoryStore → MemoryStore
run_memory [] s = s
run_memory (op ∷ ops) s = run_memory ops (step_memory op s)

-- Keys that are not blank, and that no two of them become the same segment.
pub record AreApart (K : Text → Type 0) : Type 0 where
  pub keys : (key : Text) → K key → IsKey key
  pub apart : (key key' : Text) → K key → K key' → sanitize_key key ≡ sanitize_key key' → key ≡ key'

abbrev pub UsesKeys : (Text → Type 0) → Op → Type 0
UsesKeys K (writes now key name content) = K key × IsName name name
UsesKeys K (removes key name) = K key × IsName name name
UsesKeys K (clears key) = K key

-- The disk of NewFileStore.
abbrev pub new_disk : Text → Disk
new_disk root = record { files = []; dirs = (root, tt) ∷ [] }

module _ (root : Text) (K : Text → Type 0) (a : AreApart K) where
  pub record Agree (disk : Disk) (s : MemoryStore) : Type 0 where
    pub tidy : IsTidy root disk
    pub reads :
        (key name : Text)
        → K key
        → IsName name name
        → read root key name disk ≡ ok (Memory.read key name s)

longer_ne : (s t : Text) → is_nil t ≡ false → text_eq s (s ++ t) ≡ false
unfolding text_eq
longer_ne [] [] given = absurd (ground arith)
longer_ne [] (c ∷ t) given = refl
longer_ne (d ∷ s) t given = ground (arith, longer_ne s t given)

segment_given : (k m : Text) → is_nil (k ++ (b'/' ∷ m)) ≡ false
segment_given [] m = refl
segment_given (c ∷ k) m = refl

dot_ne : (k m : Text) → Words k → text_eq (codes ".") (k ++ (b'/' ∷ m)) ≡ false
unfolding text_eq
dot_ne [] m h = refl
dot_ne (c ∷ k) m h = ground arith

-- No file's path is the root.
root_ne : (root k m : Text) → Words k → text_eq root (file_path root k m) ≡ false
unfolding below
root_ne root k m h = elim (Bool-cases (text_eq root (codes "."))) [
  | inl dot ↦ rw dot (rw ((text_eq_iff root (codes ".")).0 dot) (dot_ne k m h))
  | inr other ↦ elim (Bool-cases (text_eq root (codes "/"))) [
    | inl slash ↦
        rw (other, slash, append_assoc root k (b'/' ∷ m))
          (longer_ne root (k ++ (b'/' ∷ m)) (segment_given k m))
    | inr named ↦
        rw
          (
            other,
            named,
            append_assoc (root ++ codes "/") k (b'/' ∷ m),
            append_assoc root (codes "/") (k ++ (b'/' ∷ m)),
          )
          (longer_ne root (b'/' ∷ (k ++ (b'/' ∷ m))) refl)
  ]
]

pub new-IsTidy : (root : Text) → IsTidy root (new_disk root)
unfolding lookup
new-IsTidy root = record {
  no_file = λ k h. refl;
  no_dir = λ k m h proper. ground (arith, root_ne root k m h);
}

-- Two keys that become the same segment share their files: what is written under one is read under
-- the other.
pub keys_collide :
    (root : Text) (now : ℕ) (key key' name m content : Text) (disk : Disk)
    → IsKey key
    → IsName name m
    → IsTidy root disk
    → sanitize_key key ≡ sanitize_key key'
    → read root key' name (write root now key name content disk).0 ≡ ok (some content)
keys_collide root now key key' name m content disk h n t e =
    rw (write_lem root now key name m content disk h n t) (
      ground (
        arith,
        read-written root now key key' m name m content disk (record { given = rw (← e) h.given }) n
            (t.no_dir (sanitize_key key) m (sanitize_key-Words key) n.proper),
        text_eq_iff (sanitize_key key) (sanitize_key key'),
        text_eq_iff m m,
      ))
