-- ===== src/Identity.antt =====
-- server/internal/model/{user,role,apikey}.go and repo/{user,role,apikey}.go: the tables of users,
-- roles and API keys with their queries, apart from a query's failure.
pub mod Seeds
pub mod Auth
pub mod Accounts
pub mod Keys
pub mod Admin
mod Examples
use multiagent.Base.{
  ℕ, zero, suc, ◌+◌, Bool, true, false, ◌&&◌, ◌||◌, not, Option, none, some, List, [], ◌∷◌, ◌++◌,
  length, keep, ltb, ◌==◌, if◌then◌else◌, sort_by, map,
}
use multiagent.Base.Text.{Text, codes, text_eq}

pub data UserStatus : Type 0 where
  active disabled : UserStatus

pub data ApiKeyStatus : Type 0 where
  usable revoked : ApiKeyStatus

abbrev pub is_active : UserStatus → Bool
is_active active = true
is_active disabled = false

abbrev pub is_usable : ApiKeyStatus → Bool
is_usable usable = true
is_usable revoked = false

pub record RolePermission : Type 0 where
  pub resource : Text
  pub action : Text

-- A role with the permissions that refer to it.
pub record Role : Type 0 where
  pub id : ℕ
  pub name : Text
  pub description : Text
  pub permissions : List RolePermission

pub record User : Type 0 where
  pub id : ℕ
  pub username : Text
  pub email : Text
  pub password_hash : Text
  pub display_name : Text
  pub role_id : ℕ
  pub status : UserStatus
  pub tenant_id : Option ℕ
  pub created_at : ℕ

-- `is_deleted` stands for gorm.Model's DeletedAt: a deleted key keeps its row.
pub record ApiKey : Type 0 where
  pub id : ℕ
  pub user_id : ℕ
  pub name : Text
  pub key_hash : Text
  pub prefix : Text
  pub status : ApiKeyStatus
  pub expires_at : Option ℕ
  pub created_at : ℕ
  pub is_deleted : Bool

pub record Tenant : Type 0 where
  pub id : ℕ
  pub is_enabled : Bool

pub record Tables : Type 0 where
  pub users : List User
  pub roles : List Role
  pub api_keys : List ApiKey
  pub tenants : List Tenant

-- The first row that a condition selects.
abbrev pub first {ℓ} : {A : Type ℓ} → (A → Bool) → List A → Option A
first p [] = none
first p (x ∷ xs) = if p x then some x else first p xs

-- GetRoleByName
unfoldable pub get_role_by_name : Text → Tables → Option Role
get_role_by_name name t = first (λ r. text_eq r.name name) t.roles

abbrev pub id_of : Option Role → Option ℕ
id_of none = none
id_of (some r) = some r.id

-- GetRoleIDByName
unfoldable pub get_role_id_by_name : Text → Tables → Option ℕ
get_role_id_by_name name t = id_of (get_role_by_name name t)

-- The role that Preload("Role") loads with a user.
unfoldable pub role_of : User → Tables → Option Role
role_of u t = first (λ r. r.id == u.role_id) t.roles

abbrev name_of : Option Role → Text
name_of none = []
name_of (some r) = r.name

-- The loaded role's name, empty where there is no such role.
unfoldable pub role_name : User → Tables → Text
role_name u t = name_of (role_of u t)

-- GetUserByUsername
unfoldable pub get_user_by_username : Text → Tables → Option User
get_user_by_username username t = first (λ u. text_eq u.username username) t.users

-- GetUserByEmail
unfoldable pub get_user_by_email : Text → Tables → Option User
get_user_by_email email t = first (λ u. text_eq u.email email) t.users

-- GetUserByID
unfoldable pub get_user_by_id : ℕ → Tables → Option User
get_user_by_id id t = first (λ u. u.id == id) t.users

abbrev max : ℕ → ℕ → ℕ
max a b = if ltb a b then b else a

unfoldable pub last_user_id : List User → ℕ
last_user_id [] = 0
last_user_id (u ∷ us) = max u.id (last_user_id us)

unfoldable pub last_key_id : List ApiKey → ℕ
last_key_id [] = 0
last_key_id (k ∷ ks) = max k.id (last_key_id ks)

abbrev pub has_user : Text → Text → List User → Bool
has_user username email [] = false
has_user username email (u ∷ us) =
    text_eq u.username username || (text_eq u.email email || has_user username email us)

-- CreateUser, which numbers the row; `none` where a unique index refuses it.
unfoldable pub create_user : User → Tables → Option (Tables × User)
create_user u t =
    let row = record u { id = suc (last_user_id t.users) } in
    if has_user u.username u.email t.users
    then none
    else some (record t { users = row ∷ t.users }, row)

abbrev pub replace_user : User → List User → List User
replace_user u [] = []
replace_user u (v ∷ vs) = (if v.id == u.id then u else v) ∷ replace_user u vs

-- UpdateUser of a row that was loaded with a role. Which role's number GORM's Save then writes, by
-- the row's number and the loaded role's, is `saved_role`.
unfoldable pub update_user : (ℕ → Option ℕ → ℕ) → User → Option Role → Tables → Tables
update_user saved_role u loaded t = record t {
  users = replace_user (record u { role_id = saved_role u.role_id (id_of loaded) }) t.users;
}

-- CountAdmins, `none` where there is no role `admin`.
unfoldable pub count_admins : Tables → Option ℕ
count_admins t = elim (get_role_id_by_name (codes "admin") t) [
  | none ↦ none
  | some id ↦ some (length (keep (λ u. (u.role_id == id) && is_active u.status) t.users))
]

abbrev pub has_hash : Text → List ApiKey → Bool
has_hash hash [] = false
has_hash hash (k ∷ ks) = text_eq k.key_hash hash || has_hash hash ks

-- CreateAPIKey, which numbers the row; `none` where the unique index on the hash refuses it.
unfoldable pub create_api_key : ApiKey → Tables → Option (Tables × ApiKey)
create_api_key k t =
    let row = record k { id = suc (last_key_id t.api_keys) } in
    if has_hash k.key_hash t.api_keys
    then none
    else some (record t { api_keys = row ∷ t.api_keys }, row)

-- ListAPIKeysByUser, newest first.
unfoldable pub list_api_keys_by_user : ℕ → Tables → List ApiKey
list_api_keys_by_user uid t =
    sort_by (λ a b. ltb b.created_at a.created_at)
      (keep (λ k. not k.is_deleted && (k.user_id == uid)) t.api_keys)

-- GetAPIKeyByHash
unfoldable pub get_api_key_by_hash : Text → Tables → Option ApiKey
get_api_key_by_hash hash t = first (λ k. not k.is_deleted && text_eq k.key_hash hash) t.api_keys

-- GetAPIKeyByID
unfoldable pub get_api_key_by_id : ℕ → Tables → Option ApiKey
get_api_key_by_id id t = first (λ k. not k.is_deleted && (k.id == id)) t.api_keys

abbrev pub delete_key : ℕ → List ApiKey → List ApiKey
delete_key id [] = []
delete_key id (k ∷ ks) =
    (if k.id == id then record k { is_deleted = true } else k) ∷ delete_key id ks

-- RevokeAPIKey
unfoldable pub revoke_api_key : ℕ → Tables → Tables
revoke_api_key id t = record t { api_keys = delete_key id t.api_keys }

-- GetTenant
unfoldable pub get_tenant : ℕ → Tables → Option Tenant
get_tenant id t = first (λ n. n.id == id) t.tenants

abbrev pub is_some : Option User → Bool
is_some none = false
is_some (some u) = true
