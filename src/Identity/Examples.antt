-- ===== src/Identity/Examples.antt =====
-- Accounts, roles and keys on concrete tables.
use multiagent.Base.{ℕ, ◌+◌, ◌≡◌, ◌⊎◌, refl, false, Option, none, some, [], ◌∷◌, ◌++◌}
use multiagent.Base.Text.{Text, codes, text_eq}
use multiagent.Base.Int.{pos}
use multiagent.Base.Decimal.{parse_uint, digits}
use multiagent.Identity.{
  UserStatus, active, disabled, ApiKey, usable, User, Tables, role_of, role_name, get_user_by_id,
  get_role_id_by_name, get_role_by_name, get_user_by_username, get_user_by_email, create_user,
  count_admins, get_api_key_by_id, get_api_key_by_hash, create_api_key, revoke_api_key,
  last_user_id, last_key_id,
}
use multiagent.Identity.Seeds.{seed_roles, admin_role, developer_role, viewer_role}
use multiagent.Identity.Auth.{
  Headers, Identity, passes, aborts, auth_middleware, authenticate_by_api_key, key_identity,
  identity_of, require_permission, has_permission,
}
use multiagent.Identity.Auth.Grants.{
  Identified, auth_middleware-Identified, auth_middleware-any_status, with_statuses,
}
use multiagent.Identity.Auth.Permissions.{require_permission-seeded}
use multiagent.Identity.Accounts.{
  RegisterRequest, UserView, Secrets, authenticated, refused, register_handler, login_handler,
  hashed, registered, loaded_reply, default_role_id, account_of, to_user_view,
}
use multiagent.Identity.Accounts.Logins.{LoggedIn, login_handler-LoggedIn, login-shadowed}
use multiagent.Identity.Keys.{
  CreateApiKeyRequest, create_api_key_handler, created_reply, revoke_api_key_handler,
  revoke_numbered, revoke_found,
}
use multiagent.Identity.Keys.Lifetimes.{created_key-passes}
use multiagent.Identity.Keys.Revoked.{creates, calls, revoked_key-refused}
use multiagent.Identity.Admin.{update_user_handler, disable_user_handler}
use multiagent.Identity.Admin.Kept.{IsAdmin}
use multiagent.Identity.Admin.Callers.{updates, call, StillAdmin, call-StillAdmin}
use multiagent.Identity.Admin.Updates.{
  disabling, update_handler-locks_out, update_handler-role, role_id_of,
}

abbrev account : ℕ → Text → ℕ → UserStatus → User
account id name role_id status = record {
  id = id;
  username = name;
  email = name ++ codes "@x";
  password_hash = codes "h" ++ name;
  display_name = name;
  role_id = role_id;
  status = status;
  tenant_id = none;
  created_at = 1;
}

abbrev a_key : ApiKey
a_key = record {
  id = 5;
  user_id = 2;
  name = codes "ci";
  key_hash = codes "#km_a";
  prefix = codes "km_a";
  status = usable;
  expires_at = some 100;
  created_at = 1;
  is_deleted = false;
}

-- `ann` is the only active admin, `bob` is a disabled one with a key.
abbrev tables : Tables
tables = record {
  users =
      account 1 (codes "ann") 1 active
      ∷ account 2 (codes "bob") 1 disabled
      ∷ account 3 (codes "cyd") 3 active
      ∷ [];
  roles = seed_roles;
  api_keys = a_key ∷ [];
  tenants = [];
}

abbrev hash : Text → Text
hash raw = codes "#" ++ raw

abbrev no_tokens : Text → Option Identity
no_tokens token = none

abbrev add_days : ℕ → ℕ → ℕ
add_days now n = now + n

abbrev with_key : Text → Headers
with_key raw = record { api_key = raw; authorization = [] }

abbrev as_bob : Identity
as_bob = record { user_id = 2; role = codes "admin" }

abbrev as_ann : Identity
as_ann = record { user_id = 1; role = codes "admin" }

auth_middleware-Identified_example :
    Identified hash no_tokens 50 tables (with_key (codes "km_a")) as_bob
unfolding auth_middleware authenticate_by_api_key key_identity identity_of get_api_key_by_hash
    get_user_by_id text_eq role_name role_of seed_roles admin_role
auth_middleware-Identified_example =
    auth_middleware-Identified hash no_tokens 50 tables (with_key (codes "km_a")) as_bob refl

auth_middleware-any_status_example :
    auth_middleware hash no_tokens 50
      (record tables { users = with_statuses (λ id. active) tables.users })
      (with_key (codes "km_a"))
    ≡ auth_middleware hash no_tokens 50 tables (with_key (codes "km_a"))
auth_middleware-any_status_example =
    auth_middleware-any_status hash no_tokens 50 tables (with_key (codes "km_a")) (λ id. active)

abbrev as_cyd : Identity
as_cyd = record { user_id = 3; role = codes "viewer" }

require_permission-seeded_example :
    (as_cyd.role ≡ codes "admin")
    ⊎ ((as_cyd.role ≡ codes "developer")
        ⊎ ((as_cyd.role ≡ codes "viewer") × (codes "read" ≡ codes "read")))
unfolding require_permission get_role_by_name seed_roles admin_role developer_role viewer_role
    text_eq has_permission
require_permission-seeded_example =
    require_permission-seeded tables (codes "chat") (codes "read") as_cyd as_cyd refl refl

abbrev secrets : Secrets
secrets = record {
  hash_password = λ p. some (codes "h" ++ p);
  check_password = λ h p. text_eq h (codes "h" ++ p);
  sign = λ c. some (c.issued_at ∷ c.role);
}

abbrev logged_in : UserView
logged_in = to_user_view (account 1 (codes "ann") 1 active) tables

login_handler-LoggedIn_example :
    LoggedIn secrets 20
      (record { account = codes "ann@x"; password = codes "ann" })
      tables
      (20 ∷ codes "admin")
      logged_in
unfolding login_handler account_of get_user_by_username get_user_by_email text_eq role_name role_of
    seed_roles admin_role
login_handler-LoggedIn_example =
    login_handler-LoggedIn secrets 20 (record { account = codes "ann@x"; password = codes "ann" })
      tables 200 (20 ∷ codes "admin") logged_in refl

-- A registration whose username is an account's email.
abbrev new_account : RegisterRequest
new_account = record {
  username = codes "cyd@x";
  email = codes "eve@x";
  password = codes "eve";
  display_name = [];
}

abbrev new_row : User
new_row = record {
  id = 4;
  username = codes "cyd@x";
  email = codes "eve@x";
  password_hash = codes "heve";
  display_name = codes "cyd@x";
  role_id = 2;
  status = active;
  tenant_id = none;
  created_at = 9;
}

abbrev with_new : Tables
with_new = record tables { users = new_row ∷ tables.users }

abbrev registered_view : UserView
registered_view = to_user_view new_row with_new

registers :
    register_handler secrets 9 10 new_account tables
    ≡ (with_new, authenticated 201 (10 ∷ codes "developer") registered_view)
unfolding register_handler hashed registered loaded_reply get_user_by_username get_user_by_email
    get_user_by_id create_user last_user_id default_role_id get_role_id_by_name get_role_by_name
    text_eq role_name role_of seed_roles admin_role developer_role viewer_role
registers = refl

login-shadowed_example :
    login_handler secrets 20 (record { account = codes "cyd@x"; password = codes "cyd" }) with_new
    ≡ refused 401 (codes "invalid credentials")
unfolding text_eq
login-shadowed_example =
    login-shadowed secrets 9 10 20 new_account tables with_new 201 (10 ∷ codes "developer")
      registered_view (account 3 (codes "cyd") 3 active) (codes "heve") (codes "cyd") refl registers
      refl refl

abbrev key_request : CreateApiKeyRequest
key_request = record { name = codes "ci"; expires_in = some (pos 7) }

created_key-passes_example :
    auth_middleware hash no_tokens 40
      (create_api_key_handler hash add_days 35 (some as_cyd) key_request (codes "km_new") tables).0
      (with_key (codes "km_new"))
    ≡ passes as_cyd
unfolding create_api_key_handler create_api_key created_reply text_eq last_key_id get_user_by_id
    role_name role_of seed_roles viewer_role admin_role developer_role
created_key-passes_example =
    created_key-passes hash add_days no_tokens 35 40 as_cyd key_request (codes "km_new")
      (codes "km_new") tables _ _ (account 3 (codes "cyd") 3 active) [] refl refl refl refl

revoked_key-refused_example :
    (a_key.user_id ≡ as_bob.user_id)
    × (auth_middleware hash no_tokens 50
          (calls hash add_days
            (creates 51 (some as_cyd) key_request (codes "km_a") ∷ [])
            (revoke_api_key 5 tables))
          (with_key (codes "km_a"))
        ≡ aborts 401 (codes "invalid API key"))
unfolding parse_uint digits revoke_api_key_handler revoke_numbered revoke_found revoke_api_key
    get_api_key_by_id text_eq
revoked_key-refused_example =
    revoked_key-refused hash add_days no_tokens 50 as_bob (codes "5") 5 5 a_key tables
      (revoke_api_key 5 tables) (creates 51 (some as_cyd) key_request (codes "km_a") ∷ [])
      (codes "km_a") [] (refl, tt) refl refl refl refl refl

abbrev no_hash : Text → Option Text
no_hash p = none

-- Save keeps the row's own number.
abbrev own_role : ℕ → Option ℕ → ℕ
own_role n loaded = n

-- Save writes the number of the loaded role.
abbrev loaded_role : ℕ → Option ℕ → ℕ
loaded_role n none = n
loaded_role n (some m) = m

ann_IsAdmin : IsAdmin tables (account 1 (codes "ann") 1 active)
unfolding get_role_id_by_name get_role_by_name seed_roles admin_role text_eq
ann_IsAdmin = record { role = refl; status = refl }

call-StillAdmin_example :
    StillAdmin 1 (call no_hash own_role as_ann (updates (codes "1") (some disabling)) tables)
unfolding get_user_by_id
call-StillAdmin_example =
    call-StillAdmin no_hash own_role as_ann (updates (codes "1") (some disabling)) tables
      (account 1 (codes "ann") 1 active) ((λ n. refl), (λ n. refl)) refl ann_IsAdmin

update_handler-locks_out_example :
    ((disable_user_handler no_hash own_role (some as_bob) (codes "1") tables).0 ≡ tables)
    × (count_admins
          (update_user_handler no_hash own_role (some as_bob) (codes "1") (some disabling) tables).0
        ≡ some 0)
unfolding parse_uint digits get_user_by_id count_admins get_role_id_by_name get_role_by_name
    seed_roles admin_role text_eq role_name role_of
update_handler-locks_out_example =
    update_handler-locks_out no_hash own_role as_bob (codes "1") 1 tables
      (account 1 (codes "ann") 1 active) refl refl ann_IsAdmin refl refl refl

update_handler-role_example :
    role_id_of (
      get_user_by_id 3
        (update_user_handler no_hash loaded_role
          (some as_ann)
          (codes "3")
          (some (record disabling { role = codes "developer"; status = [] }))
          tables).0)
    ≡ some 3
unfolding get_user_by_id role_of seed_roles viewer_role admin_role developer_role
update_handler-role_example =
    update_handler-role no_hash loaded_role (some as_ann) (codes "3")
      (some (record disabling { role = codes "developer"; status = [] })) tables 3
      (account 3 (codes "cyd") 3 active) viewer_role (λ n m. refl) refl refl
