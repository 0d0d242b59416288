-- ===== src/Identity/Auth.antt =====
-- server/internal/middleware/auth.go: who a request comes from, and what its role may do. Hashing
-- and the parsing of a token are parameters.
pub mod Grants
pub mod Permissions
use multiagent.Base.{
  ℕ, Bool, true, false, ◌&&◌, ◌||◌, not, Option, none, some, List, [], ◌∷◌, ◌++◌, is_nil, ltb,
  if◌then◌else◌,
}
use multiagent.Base.Text.{Text, codes, text_eq, starts_with}
use multiagent.Identity.{
  ApiKey, User, RolePermission, Role, Tables, is_usable, role_name, get_api_key_by_hash,
  get_user_by_id, get_role_by_name,
}

-- The headers X-API-Key and Authorization, empty where they are absent.
pub record Headers : Type 0 where
  pub api_key : Text
  pub authorization : Text

-- What the context carries of the caller.
pub record Identity : Type 0 where
  pub user_id : ℕ
  pub role : Text

pub data Passage {ℓ} (A : Type ℓ) : Type ℓ where
  passes : A → Passage A
  aborts : (status : ℕ) (message : Text) → Passage A

-- strings.TrimPrefix of a prefix that is there
unfoldable pub after_prefix : Text → Text → Text
after_prefix [] s = s
after_prefix (d ∷ prefix) [] = []
after_prefix (d ∷ prefix) (c ∷ s) = after_prefix prefix s

abbrev pub is_over : ℕ → Option ℕ → Bool
is_over now none = false
is_over now (some t) = ltb t now

unfoldable pub identity_of : Tables → Option User → Option Identity
identity_of t none = none
identity_of t (some u) = some (record { user_id = u.id; role = role_name u t })

unfoldable pub key_identity : ℕ → Tables → Option ApiKey → Option Identity
unfolding identity_of
key_identity now t none = none
key_identity now t (some k) =
    if not (is_usable k.status)
    then none
    else if is_over now k.expires_at
    then none
    else identity_of t (get_user_by_id k.user_id t)

-- authenticateByAPIKey
unfoldable pub authenticate_by_api_key : (Text → Text) → ℕ → Tables → Text → Option Identity
unfolding key_identity
authenticate_by_api_key hash now t raw = key_identity now t (get_api_key_by_hash (hash raw) t)

abbrev pub answered : Text → Option Identity → Passage Identity
answered message (some i) = passes i
answered message none = aborts 401 message

-- AuthMiddleware
unfoldable pub auth_middleware :
    (Text → Text) → (Text → Option Identity) → ℕ → Tables → Headers → Passage Identity
auth_middleware hash parse_token now t h =
    if not (is_nil h.api_key)
    then answered (codes "invalid API key") (authenticate_by_api_key hash now t h.api_key)
    else if is_nil h.authorization || not (starts_with h.authorization (codes "Bearer "))
    then aborts 401 (codes "missing or invalid Authorization header")
    else answered (codes "invalid or expired token")
        (parse_token (after_prefix (codes "Bearer ") h.authorization))

abbrev pub is_member : Text → List Text → Bool
is_member x [] = false
is_member x (y ∷ ys) = text_eq x y || is_member x ys

-- RequireRole
unfoldable pub require_role : List Text → Option Identity → Passage Identity
require_role allowed none = aborts 401 (codes "not authenticated")
require_role allowed (some i) =
    if is_member i.role allowed then passes i else aborts 403 (codes "insufficient role")

-- A permission's resource or action covers the one that is asked for.
abbrev pub covers : Text → Text → Bool
covers pattern asked = text_eq pattern (codes "*") || text_eq pattern asked

-- hasPermission
unfoldable pub has_permission : List RolePermission → Text → Text → Bool
has_permission [] resource action = false
has_permission (p ∷ ps) resource action =
    (covers p.resource resource && covers p.action action) || has_permission ps resource action

permitted : Text → Text → Identity → Option Role → Passage Identity
permitted resource action i none = aborts 403 (codes "role not found")
permitted resource action i (some r) =
    if has_permission r.permissions resource action
    then passes i
    else aborts 403 (codes "permission denied")

-- RequirePermission
unfoldable pub require_permission : Tables → Text → Text → Option Identity → Passage Identity
unfolding permitted
require_permission t resource action none = aborts 401 (codes "not authenticated")
require_permission t resource action (some i) =
    permitted resource action i (get_role_by_name i.role t)
