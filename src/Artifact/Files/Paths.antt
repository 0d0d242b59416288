-- ===== src/Artifact/Files/Paths.antt =====
-- store.go: the paths that FileStore builds, and when two of them are the same.
use mathlib.Core.List.{append_assoc}
use multiagent.Base.{
  ◌≡◌, refl, inl, inr, true, false, ◌&&◌, [], ◌∷◌, ◌++◌, arith, Answer, ok, err, if◌then◌else◌,
  is_nil, ==_iff, Bool-cases, Answer-cases,
}
use multiagent.Base.Text.{Text, codes, text_eq, text_eq_iff, starts_with, trim_space}
use multiagent.Artifact.Names.{
  StoreError, bad_key, Words, separators, any_rune, sanitize_key, check_name, sanitize_name,
  sanitize_key-Words,
}
use multiagent.Artifact.Path.{has_separator, below}
use multiagent.Artifact.Path.Segments.{IsSegment, path_join-segment, within_root-path_join}
use multiagent.Artifact.Disk.{is_under}
use multiagent.Artifact.Files.{dir, safe_path}

-- The path of a file under the root.
abbrev pub key_path : Text → Text → Text
key_path root k = below root ++ k

abbrev pub file_path : Text → Text → Text → Text
file_path root k n = key_path root k ++ (b'/' ∷ n)

text_eq_refl : (s : Text) → text_eq s s ≡ true
text_eq_refl s = (text_eq_iff s s).1 refl

text_eq-append : (a b c : Text) → text_eq (a ++ b) (a ++ c) ≡ text_eq b c
unfolding text_eq
text_eq-append [] b c = refl
text_eq-append (x ∷ a) b c = ground (arith, ==_iff x x, text_eq-append a b c)

starts_with-append : (a b c : Text) → starts_with (a ++ b) (a ++ c) ≡ starts_with b c
unfolding starts_with
starts_with-append [] b c = refl
starts_with-append (x ∷ a) b c = ground (arith, ==_iff x x, starts_with-append a b c)

-- Segments of letters, digits, `-` and `_` end at a separator.
text_eq-segments :
    (k k' n n' : Text)
    → Words k
    → Words k'
    → text_eq (k ++ (b'/' ∷ n)) (k' ++ (b'/' ∷ n')) ≡ (text_eq k k' && text_eq n n')
unfolding text_eq
text_eq-segments [] [] n n' h h' = refl
text_eq-segments [] (c ∷ k') n n' h h' = ground arith
text_eq-segments (c ∷ k) [] n n' h h' = ground arith
text_eq-segments (c ∷ k) (d ∷ k') n n' h h' = ground (arith, text_eq-segments k k' n n' h.1 h'.1)

text_eq_longer : (k k' n : Text) → Words k' → text_eq (k ++ (b'/' ∷ n)) k' ≡ false
unfolding text_eq
text_eq_longer [] [] n h = refl
text_eq_longer [] (c ∷ k') n h = ground arith
text_eq_longer (c ∷ k) [] n h = refl
text_eq_longer (c ∷ k) (d ∷ k') n h = ground (arith, text_eq_longer k k' n h.1)

starts_with-segment :
    (k k' n : Text)
    → Words k
    → Words k'
    → starts_with (k' ++ (b'/' ∷ n)) (k ++ (b'/' ∷ [])) ≡ text_eq k k'
unfolding text_eq starts_with
starts_with-segment [] [] n h h' = refl
starts_with-segment [] (c ∷ k') n h h' = ground arith
starts_with-segment (c ∷ k) [] n h h' = ground arith
starts_with-segment (c ∷ k) (d ∷ k') n h h' =
    ground (arith, starts_with-segment k k' n h.1 h'.1, ==_iff c d, ==_iff d c)

starts_with_self : (d n : Text) → starts_with (d ++ (b'/' ∷ n)) (d ++ (b'/' ∷ [])) ≡ true
unfolding starts_with
starts_with_self [] n = refl
starts_with_self (x ∷ d) n = ground (arith, ==_iff x x, starts_with_self d n)

module _ (root : Text) where
  -- Two files are the same where their keys and their names are.
  pub text_eq-file_path :
      (k k' n n' : Text)
      → Words k
      → Words k'
      → text_eq (file_path root k n) (file_path root k' n') ≡ (text_eq k k' && text_eq n n')
  unfolding text_eq
  text_eq-file_path k k' n n' h h' =
      rw
        (
          append_assoc (below root) k (b'/' ∷ n),
          append_assoc (below root) k' (b'/' ∷ n'),
          text_eq-append (below root) (k ++ (b'/' ∷ n)) (k' ++ (b'/' ∷ n')),
        )
        (text_eq-segments k k' n n' h h')

  -- A file's path is no directory's.
  pub text_eq-file_path-key_path :
      (k k' n : Text) → Words k' → text_eq (file_path root k n) (key_path root k') ≡ false
  unfolding text_eq
  text_eq-file_path-key_path k k' n h =
      rw (append_assoc (below root) k (b'/' ∷ n), text_eq-append (below root) (k ++ (b'/' ∷ n)) k')
        (text_eq_longer k k' n h)

  -- A file is below the directory of its own key only.
  pub is_under-file_path :
      (k k' n : Text)
      → Words k
      → Words k'
      → is_under (key_path root k) (file_path root k' n) ≡ text_eq k k'
  unfolding is_under starts_with
  is_under-file_path k k' n h h' =
      rw
        (
          text_eq-file_path-key_path k' k n h,
          append_assoc (below root) k' (b'/' ∷ n),
          append_assoc (below root) k (b'/' ∷ []),
          starts_with-append (below root) (k' ++ (b'/' ∷ n)) (k ++ (b'/' ∷ [])),
        )
        (starts_with-segment k k' n h h')

has_separator-Words : (k : Text) → Words k → has_separator k ≡ false
unfolding has_separator
has_separator-Words [] h = refl
has_separator-Words (c ∷ k) h = ground (arith, has_separator-Words k h.1)

-- Letters, digits, `-` and `_` are a segment.
Words-IsSegment : (k : Text) → is_nil k ≡ false → Words k → IsSegment k
unfolding text_eq
Words-IsSegment [] given h = absurd (ground arith)
Words-IsSegment (c ∷ k) given h = record {
  given = refl;
  whole = has_separator-Words (c ∷ k) h;
  inside = ground arith;
}

Words-ne-dot : (k : Text) → Words k → text_eq k (codes ".") ≡ false
unfolding text_eq
Words-ne-dot [] h = refl
Words-ne-dot (c ∷ k) h = ground arith

any_rune-separators : (s : Text) → any_rune separators s ≡ false → has_separator s ≡ false
unfolding any_rune has_separator
any_rune-separators [] h = refl
any_rune-separators (c ∷ s) h = ground (arith, h, any_rune-separators s)

-- So is a name that is let through.
pub sanitize_name-IsSegment : (n m : Text) → sanitize_name n ≡ ok m → IsSegment m
unfolding sanitize_name check_name
sanitize_name-IsSegment n m h = elim (Bool-cases (is_nil (trim_space n))) [
  | inl blank ↦ absurd (ground (arith, h, blank))
  | inr given ↦ elim (Bool-cases (any_rune separators (trim_space n))) [
    | inl cut ↦ absurd (ground (arith, h, given, cut))
    | inr whole ↦ elim (Bool-cases (text_eq (trim_space n) (codes ".."))) [
      | inl up ↦ absurd (ground (arith, h, given, whole, up))
      | inr inside ↦
          let is : trim_space n ≡ m = ground (arith, h, given, whole, inside) in
          rw (← is) (record {
            given = given;
            whole = any_rune-separators (trim_space n) whole;
            inside = inside;
          })
    ]
  ]
]

-- The directory of a key.
abbrev pub dir_of : Text → Text → Answer StoreError Text
dir_of root key =
    if is_nil (sanitize_key key) then err bad_key else ok (key_path root (sanitize_key key))

pub dir_lem : (root key : Text) → dir root key ≡ dir_of root key
unfolding dir
dir_lem root key = elim (Bool-cases (is_nil (sanitize_key key))) [
  | inl blank ↦ rw blank refl
  | inr given ↦
      let words = sanitize_key-Words key in
      let whole : IsSegment (sanitize_key key) = Words-IsSegment (sanitize_key key) given words in
      rw
        (
          given,
          within_root-path_join root (sanitize_key key) whole,
          path_join-segment root (sanitize_key key) whole,
          Words-ne-dot (sanitize_key key) words,
        )
        refl
]

-- The path of a file: the check that it stays inside the directory never fails.
abbrev pub safe_path_of : Text → Answer StoreError Text → Answer StoreError Text
safe_path_of d (ok m) = ok (if text_eq m (codes ".") then d else below d ++ m)
safe_path_of d (err e) = err e

pub safe_path_lem : (d name : Text) → safe_path d name ≡ safe_path_of d (sanitize_name name)
unfolding safe_path
safe_path_lem d name = elim (Answer-cases (sanitize_name name)) [
  | inl (m, is) ↦
      let whole : IsSegment m = sanitize_name-IsSegment name m is in
      rw (is, within_root-path_join d m whole, path_join-segment d m whole) refl
  | inr (e, is) ↦ rw is refl
]

-- The directory of a key is neither `.` nor `/`.
dir_path : (a k : Text) → is_nil k ≡ false → Words k → below (a ++ k) ≡ (a ++ k) ++ codes "/"
unfolding below text_eq
dir_path a [] given h = absurd (ground arith)
dir_path [] (x ∷ k) given h = ground arith
dir_path (c ∷ []) (x ∷ k) given h = ground arith
dir_path (c ∷ d ∷ a) (x ∷ k) given h = ground arith

pub below-key_path :
    (root key m : Text)
    → is_nil (sanitize_key key) ≡ false
    → below (key_path root (sanitize_key key)) ++ m ≡ file_path root (sanitize_key key) m
below-key_path root key m given =
    rw
      (
        dir_path (below root) (sanitize_key key) given (sanitize_key-Words key),
        append_assoc (key_path root (sanitize_key key)) (codes "/") m,
      )
      refl

-- The path of a file of a key is under the key's directory.
pub is_under-safe_path :
    (root key m : Text)
    → is_nil (sanitize_key key) ≡ false
    → let d = key_path root (sanitize_key key) in
      is_under d (if text_eq m (codes ".") then d else below d ++ m) ≡ true
unfolding is_under
is_under-safe_path root key m given = elim (Bool-cases (text_eq m (codes "."))) [
  | inl dot ↦ rw dot (ground (arith, text_eq_refl (key_path root (sanitize_key key))))
  | inr other ↦
      rw (other, below-key_path root key m given)
        (ground (arith, starts_with_self (key_path root (sanitize_key key)) m))
]
