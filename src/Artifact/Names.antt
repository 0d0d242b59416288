-- ===== src/Artifact/Names.antt =====
-- server/internal/artifact/store.go: the keys and names that become one segment of a path.
use multiagent.Base.{
  ℕ, ◌≡◌, Bool, true, false, ◌&&◌, ◌||◌, [], ◌∷◌, arith, All, Answer, ok, err, map, if◌then◌else◌,
  is_nil, leb, ◌==◌,
}
use multiagent.Base.Text.{Text, codes, text_eq, trim_space, starts_with}

pub data StoreError : Type 0 where
  empty_root bad_key key_outside empty_name name_outside : StoreError
  illegal_name illegal_rune : Text → StoreError
  is_directory not_empty not_a_directory : StoreError

abbrev pub is_word : ℕ → Bool
is_word c =
    (leb b'a' c && leb c b'z')
    || (leb b'A' c && leb c b'Z')
    || (leb b'0' c && leb c b'9')
    || (c == b'-')
    || (c == b'_')

abbrev pub key_rune : ℕ → ℕ
key_rune c = if is_word c then c else b'_'

-- sanitizeKey
unfoldable pub sanitize_key : Text → Text
sanitize_key k = map key_rune (trim_space k)

abbrev pub is_name_rune : ℕ → Bool
is_name_rune c = is_word c || (c == b'.')

abbrev pub separators : ℕ → Bool
separators c = (c == b'/') || (c == 92)

unfoldable pub any_rune : (ℕ → Bool) → Text → Bool
any_rune p [] = false
any_rune p (c ∷ s) = p c || any_rune p s

all_runes : (ℕ → Bool) → Text → Bool
all_runes p [] = true
all_runes p (c ∷ s) = p c && all_runes p s

-- sanitizeName past the trimming.
unfoldable pub check_name : Text → Answer StoreError Text
unfolding any_rune all_runes starts_with
check_name n =
    if is_nil n
    then err empty_name
    else if any_rune separators n || (text_eq n (codes "..") || starts_with n (codes ".."))
    then err (illegal_name n)
    else if all_runes is_name_rune n
    then ok n
    else err (illegal_rune n)

-- sanitizeName; ValidateName is its error.
unfoldable pub sanitize_name : Text → Answer StoreError Text
sanitize_name n = check_name (trim_space n)

abbrev pub Words : Text → Type 0
Words s = All (λ c. is_word c ≡ true) s

abbrev pub NameRunes : Text → Type 0
NameRunes s = All (λ c. is_name_rune c ≡ true) s

map-key_rune-Words : (s : Text) → Words (map key_rune s)
map-key_rune-Words [] = tt
map-key_rune-Words (c ∷ s) = (ground arith, map-key_rune-Words s)

-- A key becomes a text of letters, digits, `-` and `_`.
pub sanitize_key-Words : (k : Text) → Words (sanitize_key k)
unfolding sanitize_key
sanitize_key-Words k = map-key_rune-Words (trim_space k)

all_runes-NameRunes : (s : Text) → all_runes is_name_rune s ≡ true → NameRunes s
unfolding all_runes
all_runes-NameRunes [] h = tt
all_runes-NameRunes (c ∷ s) h = (ground arith, all_runes-NameRunes s (ground arith))

-- A name that is let through consists of letters, digits, `-`, `_` and `.`.
pub sanitize_name-NameRunes : (n m : Text) → sanitize_name n ≡ ok m → NameRunes m
unfolding sanitize_name check_name
sanitize_name-NameRunes n m h = ground (arith, all_runes-NameRunes (trim_space n))
