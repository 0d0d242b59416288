-- ===== src/Artifact/Path.antt =====
-- What the store calls of path/filepath, on clean paths: Join of a directory and a relative path, and
-- whether Rel leads out of a directory.
pub mod Segments
use multiagent.Base.{
  ℕ, Bool, true, false, not, ◌&&◌, ◌||◌, Option, none, some, List, [], ◌∷◌, ◌++◌, if◌then◌else◌,
  is_nil, ◌==◌,
}
use multiagent.Base.Text.{Text, codes, text_eq, starts_with}

unfoldable pub has_separator : Text → Bool
has_separator [] = false
has_separator (c ∷ s) = (c == b'/') || has_separator s

-- The text before the last separator, if there is one.
parent_part : Text → Option Text
parent_part [] = none
parent_part (c ∷ s) = elim (parent_part s) [
  | some p ↦ some (c ∷ p)
  | none ↦ if c == b'/' then some [] else none
]

-- The text behind the last separator.
last_part : Text → Text
unfolding has_separator
last_part [] = []
last_part (c ∷ s) =
    let rest = last_part s in if has_separator s then rest else if c == b'/' then s else c ∷ s

-- What stands in front of a segment that is added to a path: `.` gives way, `/` ends in a separator.
unfoldable pub below : Text → Text
below d = if text_eq d (codes ".") then [] else if text_eq d (codes "/") then d else d ++ codes "/"

or_root : Option Text → Text
or_root none = codes "."
or_root (some []) = codes "/"
or_root (some (c ∷ p)) = c ∷ p

-- A clean path with `..` behind it.
unfoldable pub parent : Text → Text
unfolding parent_part last_part or_root below
parent d =
    if text_eq d (codes "/")
    then d
    else if text_eq d (codes ".")
    then codes ".."
    else if text_eq (last_part d) (codes "..")
    then below d ++ codes ".."
    else or_root (parent_part d)

-- A clean path with one segment more.
unfoldable pub walk : Text → Text → Text
unfolding parent below
walk d s =
    if is_nil s || text_eq s (codes ".")
    then d
    else if text_eq s (codes "..")
    then parent d
    else below d ++ s

push : ℕ → List Text → List Text
push c [] = (c ∷ []) ∷ []
push c (s ∷ ss) = (c ∷ s) ∷ ss

segments : Text → List Text
unfolding push
segments [] = [] ∷ []
segments (c ∷ s) = let rest = segments s in if c == b'/' then [] ∷ rest else push c rest

walk_all : Text → List Text → Text
unfolding walk
walk_all d [] = d
walk_all d (s ∷ ss) = walk_all (walk d s) ss

-- filepath.Join of a clean path and any text: the result is clean.
unfoldable pub path_join : Text → Text → Text
unfolding walk_all segments
path_join d s = walk_all d (segments s)

-- What stands behind a prefix.
unfoldable pub after_prefix : Text → Text → Option Text
after_prefix [] p = some p
after_prefix (d ∷ ds) [] = none
after_prefix (d ∷ ds) (c ∷ p) = let rest = after_prefix ds p in if d == c then rest else none

-- A relative path that does not begin with `..`.
unfoldable pub is_local : Text → Bool
unfolding starts_with
is_local p =
    not (starts_with p (codes "/"))
    && (not (text_eq p (codes "..")) && not (starts_with p (codes "../")))

is_behind : Option Text → Bool
unfolding is_local
is_behind none = false
is_behind (some rest) = is_local rest

-- withinRoot, for clean paths: filepath.Rel finds a path from the root to the target, and it does not
-- begin with `..`.
unfoldable pub within_root : Text → Text → Bool
unfolding is_behind after_prefix below
within_root root target = text_eq target root || is_behind (after_prefix (below root) target)
