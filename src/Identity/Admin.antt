-- ===== src/Identity/Admin.antt =====
-- server/internal/api/admin.go: the management of accounts. A handler is one step; the framework's
-- check of a request's body comes before, and `none` is a body that it refuses, with a message of
-- its own. The view's quota and its times are not modelled.
pub mod Kept
pub mod Callers
pub mod Updates
use multiagent.Base.{
  ℕ, Bool, true, false, ◌&&◌, ◌||◌, not, Option, none, some, List, [], ◌∷◌, ◌++◌, map, is_nil, leb,
  ◌==◌, if◌then◌else◌,
}
use multiagent.Base.Text.{Text, codes, text_eq}
use multiagent.Base.Decimal.{parse_uint}
use multiagent.Identity.{
  UserStatus, active, disabled, is_active, User, Tenant, Tables, role_of, role_name,
  get_role_id_by_name, get_user_by_username, get_user_by_email, get_user_by_id, create_user,
  update_user, count_admins, get_tenant, is_some,
}
use multiagent.Identity.Auth.{Identity}

pub record CreateUserRequest : Type 0 where
  pub username : Text
  pub email : Text
  pub password : Text
  pub display_name : Text
  pub role : Text
  pub tenant_id : Option ℕ

pub record UpdateUserRequest : Type 0 where
  pub display_name : Text
  pub role : Text
  pub status : Text
  pub tenant_id : Option ℕ

pub data Reply : Type 0 where
  refused : (status : ℕ) (message : Text) → Reply
  shown : (status : ℕ) → User → (role : Text) → Reply
  listed : List (User × Text) → Reply
  done : Reply

abbrev view : ℕ → User → Tables → Reply
view status u t = shown status u (role_name u t)

-- ListUsersHandler; the table's rows in the order of their numbers are `users`.
unfoldable pub list_users_handler : List User → Tables → Reply
list_users_handler users t = listed (map (λ u. (u, role_name u t)) users)

-- The roles that a request may name.
abbrev pub is_known_role : Text → Bool
is_known_role role =
    text_eq role (codes "admin")
    || text_eq role (codes "developer")
    || text_eq role (codes "viewer")

abbrev reloaded : ℕ → Tables → Option User → Reply
reloaded status t none = refused 500 (codes "failed to load user")
reloaded status t (some u) = view status u t

-- The answer with the account as it is now.
abbrev reload : ℕ → ℕ → Tables → Tables × Reply
reload status id t = (t, reloaded status t (get_user_by_id id t))

-- The tenant that a request names, none for 0 or no tenant.
tenant_for : Option ℕ → Tables → Option Text × Option ℕ
tenant_for none t = (none, none)
tenant_for (some id) t = if id == 0 then (none, none) else elim (get_tenant id t) [
  | none ↦ (some (codes "tenant not found"), none)
  | some n ↦ if n.is_enabled then (none, some id) else (some (codes "tenant disabled"), none)
]

-- A change of an account that is loaded: what is refused, or the account with the change.
pub data Change : Type 0 where
  stops : (status : ℕ) (message : Text) → Change
  goes : User → Change

abbrev and_then : Change → (User → Change) → Change
and_then (stops status message) f = stops status message
and_then (goes u) f = f u

given_role : Option ℕ → User → Change
given_role none u = stops 500 (codes "角色表未初始化")
given_role (some id) u = goes (record u { role_id = id })

unfoldable pub change_role : Bool → Text → Tables → User → Change
unfolding given_role
change_role is_self role t u =
    if is_nil role
    then goes u
    else if not (is_known_role role)
    then stops 400 (codes "role 仅支持 admin / developer / viewer")
    else if is_self && not (text_eq role (codes "admin"))
    then stops 400 (codes "不能修改自己的管理员角色")
    else given_role (get_role_id_by_name role t) u

unfoldable pub change_status : Bool → Text → User → Change
change_status is_self status u =
    if is_nil status
    then goes u
    else if text_eq status (codes "active")
    then goes (record u { status = active })
    else if not (text_eq status (codes "disabled"))
    then stops 400 (codes "status 仅支持 active / disabled")
    else if is_self
    then stops 400 (codes "不能禁用自己的账号")
    else goes (record u { status = disabled })

abbrev change_name : Text → User → Change
change_name name u = goes (record u { display_name = if is_nil name then u.display_name else name })

joined : Option Text × Option ℕ → User → Change
joined (some message, id) u = stops 400 message
joined (none, id) u = goes (record u { tenant_id = id })

unfoldable pub change_tenant : Option ℕ → Tables → User → Change
unfolding joined tenant_for
change_tenant none t u = goes u
change_tenant (some id) t u = joined (tenant_for (some id) t) u

-- The four changes of UpdateUserHandler in their order.
unfoldable pub changed : Bool → UpdateUserRequest → Tables → User → Change
changed is_self req t u = and_then (change_role is_self req.role t u) (λ u.
    and_then (change_status is_self req.status u)
      (λ u. and_then (change_name req.display_name u) (λ u. change_tenant req.tenant_id t u)))

module _ (hash_password : Text → Option Text) (saved_role : ℕ → Option ℕ → ℕ) where
  -- UpdateUser of a loaded account.
  abbrev save : User → User → Tables → Tables
  save new old t = update_user saved_role new (role_of old t) t

  created_reply : Option (Tables × User) → Tables → Tables × Reply
  created_reply none t = (t, refused 500 (codes "failed to create user"))
  created_reply (some (t', u)) t = reload 201 u.id t'

  abbrev new_user : ℕ → CreateUserRequest → ℕ → Text → Option ℕ → User
  new_user now req role_id hash tenant = record {
    id = 0;
    username = req.username;
    email = req.email;
    password_hash = hash;
    display_name = if is_nil req.display_name then req.username else req.display_name;
    role_id = role_id;
    status = active;
    tenant_id = tenant;
    created_at = now;
  }

  create_in_tenant :
      ℕ → CreateUserRequest → ℕ → Text → Tables → Option Text × Option ℕ → Tables × Reply
  unfolding created_reply
  create_in_tenant now req role_id hash t (some message, tenant) = (t, refused 400 message)
  create_in_tenant now req role_id hash t (none, tenant) =
      created_reply (create_user (new_user now req role_id hash tenant) t) t

  create_hashed : ℕ → CreateUserRequest → ℕ → Tables → Option Text → Tables × Reply
  unfolding create_in_tenant tenant_for
  create_hashed now req role_id t none = (t, refused 500 (codes "failed to hash password"))
  create_hashed now req role_id t (some hash) =
      create_in_tenant now req role_id hash t (tenant_for req.tenant_id t)

  create_with_role : ℕ → CreateUserRequest → Tables → Option ℕ → Tables × Reply
  unfolding create_hashed
  create_with_role now req t none = (t, refused 500 (codes "角色表未初始化"))
  create_with_role now req t (some role_id) =
      if is_some (get_user_by_username req.username t)
      then (t, refused 409 (codes "username already exists"))
      else if is_some (get_user_by_email req.email t)
      then (t, refused 409 (codes "email already exists"))
      else create_hashed now req role_id t (hash_password req.password)

  -- CreateUserHandler
  unfoldable pub create_user_handler : ℕ → Option CreateUserRequest → Tables → Tables × Reply
  unfolding create_with_role
  create_user_handler now none t = (t, refused 400 (codes "invalid request"))
  create_user_handler now (some req) t =
      let role = if is_nil req.role then codes "developer" else req.role in
      if not (is_known_role role)
      then (t, refused 400 (codes "role 仅支持 admin / developer / viewer"))
      else create_with_role now req t (get_role_id_by_name role t)

  get_loaded : Tables → Option User → Reply
  get_loaded t none = refused 404 (codes "user not found")
  get_loaded t (some u) = view 200 u t

  -- GetUserHandler
  unfoldable pub get_user_handler : Text → Tables → Reply
  unfolding get_loaded
  get_user_handler id t = elim (parse_uint id) [
    | none ↦ refused 400 (codes "invalid user id")
    | some id ↦ get_loaded t (get_user_by_id id t)
  ]

  -- Whether the caller is the account of that number.
  abbrev pub is_self : Option Identity → ℕ → Bool
  is_self none id = false
  is_self (some i) id = i.user_id == id

  unfoldable pub save_change : User → Tables → Change → Tables × Reply
  save_change old t (stops status message) = (t, refused status message)
  save_change old t (goes new) = reload 200 old.id (save new old t)

  unfoldable pub update_loaded :
      Option Identity → ℕ → UpdateUserRequest → Tables → Option User → Tables × Reply
  unfolding save_change
  update_loaded caller id req t none = (t, refused 404 (codes "user not found"))
  update_loaded caller id req t (some u) = save_change u t (changed (is_self caller id) req t u)

  unfoldable pub update_numbered :
      Option Identity → Option UpdateUserRequest → Tables → Option ℕ → Tables × Reply
  unfolding update_loaded
  update_numbered caller req t none = (t, refused 400 (codes "invalid user id"))
  update_numbered caller none t (some id) = (t, refused 400 (codes "invalid request"))
  update_numbered caller (some req) t (some id) =
      update_loaded caller id req t (get_user_by_id id t)

  -- UpdateUserHandler
  unfoldable pub update_user_handler :
      Option Identity → (id : Text) → Option UpdateUserRequest → Tables → Tables × Reply
  unfolding update_numbered
  update_user_handler caller id req t = update_numbered caller req t (parse_uint id)

  -- At most one active admin is left; the check passes where the count fails.
  abbrev pub is_last_admin : Option ℕ → Bool
  is_last_admin none = false
  is_last_admin (some n) = leb n 1

  unfoldable pub disable_loaded : Option Identity → ℕ → Tables → Option User → Tables × Reply
  disable_loaded caller id t none = (t, refused 404 (codes "user not found"))
  disable_loaded caller id t (some u) =
      if not (is_active u.status)
      then (t, view 200 u t)
      else if is_self caller id
      then (t, refused 400 (codes "不能禁用自己的账号"))
      else if text_eq (role_name u t) (codes "admin") && is_last_admin (count_admins t)
      then (t, refused 400 (codes "至少需保留一名活跃管理员"))
      else (save (record u { status = disabled }) u t, view 200 (record u { status = disabled }) t)

  unfoldable pub disable_numbered : Option Identity → Tables → Option ℕ → Tables × Reply
  unfolding disable_loaded
  disable_numbered caller t none = (t, refused 400 (codes "invalid user id"))
  disable_numbered caller t (some id) = disable_loaded caller id t (get_user_by_id id t)

  -- DisableUserHandler
  unfoldable pub disable_user_handler : Option Identity → (id : Text) → Tables → Tables × Reply
  unfolding disable_numbered
  disable_user_handler caller id t = disable_numbered caller t (parse_uint id)

  unfoldable pub enable_loaded : Tables → Option User → Tables × Reply
  enable_loaded t none = (t, refused 404 (codes "user not found"))
  enable_loaded t (some u) =
      if is_active u.status
      then (t, view 200 u t)
      else (save (record u { status = active }) u t, view 200 (record u { status = active }) t)

  unfoldable pub enable_numbered : Tables → Option ℕ → Tables × Reply
  unfolding enable_loaded
  enable_numbered t none = (t, refused 400 (codes "invalid user id"))
  enable_numbered t (some id) = enable_loaded t (get_user_by_id id t)

  -- EnableUserHandler
  unfoldable pub enable_user_handler : (id : Text) → Tables → Tables × Reply
  unfolding enable_numbered
  enable_user_handler id t = enable_numbered t (parse_uint id)

  unfoldable pub reset_hashed : User → Tables → Option Text → Tables × Reply
  reset_hashed u t none = (t, refused 500 (codes "failed to hash password"))
  reset_hashed u t (some hash) = (save (record u { password_hash = hash }) u t, done)

  unfoldable pub reset_loaded : Text → Tables → Option User → Tables × Reply
  unfolding reset_hashed
  reset_loaded password t none = (t, refused 404 (codes "user not found"))
  reset_loaded password t (some u) = reset_hashed u t (hash_password password)

  unfoldable pub reset_numbered : Option Text → Tables → Option ℕ → Tables × Reply
  unfolding reset_loaded
  reset_numbered password t none = (t, refused 400 (codes "invalid user id"))
  reset_numbered none t (some id) = (t, refused 400 (codes "invalid request"))
  reset_numbered (some password) t (some id) = reset_loaded password t (get_user_by_id id t)

  -- ResetPasswordHandler, by the password of its request.
  unfoldable pub reset_password_handler : (id : Text) → Option Text → Tables → Tables × Reply
  unfolding reset_numbered
  reset_password_handler id password t = reset_numbered password t (parse_uint id)
