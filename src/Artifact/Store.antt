-- ===== src/Artifact/Store.antt =====
-- server/internal/artifact/store.go: the interface Store, the order of the entries, and Snapshot,
-- which both backends write alike.
use multiagent.Base.{
  ℕ, suc, ◌+◌, ◌≡◌, Bool, true, false, ◌||◌, Option, none, some, List, [], ◌∷◌, Answer, ok, ◌>>=◌,
  if◌then◌else◌, ltb, ◌==◌, sort_by,
}
use multiagent.Base.Text.{Text, codes, text_eq}
use multiagent.Artifact.Names.{StoreError}
use multiagent.Artifact.Disk.{File, less}

abbrev pub plan_artifact : Text
plan_artifact = codes "PLAN.md"

abbrev pub progress_artifact : Text
progress_artifact = codes "PROGRESS.md"

abbrev pub learnings_artifact : Text
learnings_artifact = codes "LEARNINGS.md"

abbrev pub state_names : List Text
state_names = plan_artifact ∷ progress_artifact ∷ learnings_artifact ∷ []

pub record Entry : Type 0 where
  pub name : Text
  pub size : ℕ
  pub mod_time : ℕ

-- The place of a name among the state names, or their number.
abbrev pub rank_in : List Text → Text → ℕ
rank_in [] name = 0
rank_in (n ∷ ns) name = let rest = suc (rank_in ns name) in if text_eq name n then 0 else rest

-- IsStateArtifact
unfoldable pub is_state_artifact : Text → Bool
is_state_artifact name = ltb (rank_in state_names name) 3

abbrev entry_less : Entry → Entry → Bool
entry_less a b =
    let i = rank_in state_names a.name in
    let j = rank_in state_names b.name in if i == j then less a.name b.name else ltb i j

-- SortEntries
unfoldable pub sort_entries : List Entry → List Entry
sort_entries es = sort_by entry_less es

-- The bytes of a rune in UTF-8.
abbrev pub rune_bytes : ℕ → ℕ
rune_bytes c = if ltb c 0x80 then 1 else if ltb c 0x800 then 2 else if ltb c 0x1_0000 then 3 else 4

-- len of a string
abbrev pub bytes : Text → ℕ
bytes [] = 0
bytes (c ∷ s) = rune_bytes c + bytes s

abbrev pub entry_of : Text → File → Entry
entry_of name f = record { name = name; size = bytes f.content; mod_time = f.mod_time }

pub record Snapshot : Type 0 where
  pub plan : Text
  pub progress : Text
  pub learnings : Text
  pub any : Bool

-- Store, with the operations that the state tools call. `S` is what the backend keeps; the clock's
-- reading is an argument of a write, which answers an error or none.
pub record Store (S : Type 0) : Type 0 where
  pub write : (now : ℕ) → (key name content : Text) → S → S × Option StoreError
  pub read : (key name : Text) → S → Answer StoreError (Option Text)

abbrev pub text_of : Option Text → Text
text_of none = []
text_of (some c) = c

abbrev pub given : Option Text → Bool
given none = false
given (some c) = true

-- Snapshot
unfoldable pub snapshot : {S : Type 0} → Store S → Text → S → Answer StoreError Snapshot
snapshot store key s = do
  p ← store.read key plan_artifact s
  g ← store.read key progress_artifact s
  l ← store.read key learnings_artifact s
  ok (record {
    plan = text_of p;
    progress = text_of g;
    learnings = text_of l;
    any = given p || given g || given l;
  })

-- What the state tools rely on, for the three state files of a key: what is written is read back,
-- and nothing else of the key changes; a write that fails changes nothing that is read.
pub record StoreLaws {S : Type 0} (store : Store S) : Type 0 where
  pub read-write :
      (now : ℕ) (key name name' content : Text) (s : S)
      → is_state_artifact name ≡ true
      → is_state_artifact name' ≡ true
      → (store.write now key name content s).1 ≡ none
      → store.read key name' (store.write now key name content s).0
        ≡ (if text_eq name name' then ok (some content) else store.read key name' s)
  pub read-write_failed :
      (now : ℕ) (key name name' content : Text) (s : S) (e : StoreError)
      → is_state_artifact name ≡ true
      → is_state_artifact name' ≡ true
      → (store.write now key name content s).1 ≡ some e
      → store.read key name' (store.write now key name content s).0 ≡ store.read key name' s
