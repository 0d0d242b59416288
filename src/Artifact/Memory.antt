-- ===== src/Artifact/Memory.antt =====
-- server/internal/artifact/store.go: MemoryStore. A map of maps; an inner map that is nil is empty.
use multiagent.Base.{
  ℕ, ◌≡◌, Bool, Option, none, some, List, [], arith, ok, map, if◌then◌else◌, sort_by,
}
use multiagent.Base.Text.{Text, text_eq, text_eq_iff}
use multiagent.Base.Assoc.{Assoc, lookup, put, remove, lookup-put, lookup-remove}
use multiagent.Artifact.Disk.{File, is_there, less}
use multiagent.Artifact.Store.{Entry, sort_entries, entry_of, Store, StoreLaws}

pub record MemoryStore : Type 0 where
  pub scopes : Assoc (Assoc File)

-- NewMemoryStore
abbrev pub new_memory_store : MemoryStore
new_memory_store = record { scopes = [] }

abbrev or_empty : Option (Assoc File) → Assoc File
or_empty none = []
or_empty (some m) = m

abbrev pub names_of : Text → MemoryStore → Assoc File
names_of key s = or_empty (lookup key s.scopes)

-- Write
unfoldable pub write : ℕ → Text → Text → Text → MemoryStore → MemoryStore
write now key name content s = record {
  scopes =
      put key (put name (record { content = content; mod_time = now }) (names_of key s)) s.scopes;
}

abbrev pub content_of : Option File → Option Text
content_of none = none
content_of (some f) = some f.content

-- Read
unfoldable pub read : Text → Text → MemoryStore → Option Text
read key name s = content_of (lookup name (names_of key s))

-- Exists
unfoldable pub exists : Text → Text → MemoryStore → Bool
exists key name s = is_there (lookup name (names_of key s))

-- Remove
unfoldable pub remove_name : Text → Text → MemoryStore → MemoryStore
remove_name key name s = elim (lookup key s.scopes) [
  | none ↦ s
  | some m ↦ record { scopes = put key (remove name m) s.scopes }
]

-- RemoveAll
unfoldable pub remove_all : Text → MemoryStore → MemoryStore
remove_all key s = record { scopes = remove key s.scopes }

-- List
unfoldable pub list : Text → MemoryStore → List Text
list key s = sort_by less (map (λ e. e.0) (names_of key s))

-- ListEntries
unfoldable pub list_entries : Text → MemoryStore → List Entry
list_entries key s = sort_entries (map (λ e. entry_of e.0 e.1) (names_of key s))

pub read-write :
    (now : ℕ) (key key' name name' content : Text) (s : MemoryStore)
    → read key' name' (write now key name content s) ≡ (
        if text_eq key key'
        then (if text_eq name name' then some content else read key' name' s)
        else read key' name' s)
unfolding read write
read-write now key key' name name' content s = ground (
  arith,
  text_eq_iff key key',
  lookup-put key key' (put name (record { content = content; mod_time = now }) (names_of key s))
      s.scopes,
  lookup-put name name' (record { content = content; mod_time = now }) (names_of key s),
)

pub read-remove_name :
    (key key' name name' : Text) (s : MemoryStore)
    → read key' name' (remove_name key name s) ≡ (
        if text_eq key key'
        then (if text_eq name name' then none else read key' name' s)
        else read key' name' s)
unfolding read remove_name lookup
read-remove_name key key' name name' s = ground (
  arith,
  text_eq_iff key key',
  lookup-put key key' (remove name (names_of key s)) s.scopes,
  lookup-remove name name' (names_of key s),
)

pub read-remove_all :
    (key key' name : Text) (s : MemoryStore)
    → read key' name (remove_all key s) ≡ (if text_eq key key' then none else read key' name s)
unfolding read remove_all lookup
read-remove_all key key' name s = ground (arith, lookup-remove key key' s.scopes)

-- MemoryStore as a Store.
abbrev pub memory_store : Store MemoryStore
memory_store = record {
  write = λ now key name content s. (write now key name content s, none);
  read = λ key name s. ok (read key name s);
}

pub memory-StoreLaws : StoreLaws memory_store
memory-StoreLaws = record {
  read-write = λ now key name name' content s a b e.
      ground (arith, read-write now key key name name' content s, text_eq_iff key key);
  read-write_failed = λ now key name name' content s e a b failed. absurd (ground arith);
}
