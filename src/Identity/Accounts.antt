-- ===== src/Identity/Accounts.antt =====
-- server/internal/api/auth.go, server/internal/auth/jwt.go: registration, login and the caller's own account. The framework's
-- check of a request's body comes before; hashing, checking and signing are parameters.
pub mod Logins
use multiagent.Base.{
  ℕ, Bool, true, false, not, Option, none, some, List, [], ◌∷◌, ◌++◌, ◌+◌, is_nil, ◌==◌,
  if◌then◌else◌,
}
use multiagent.Base.Text.{Text, codes}
use multiagent.Identity.{
  UserStatus, active, disabled, is_active, User, Tables, role_name, get_role_id_by_name,
  get_user_by_username, get_user_by_email, get_user_by_id, create_user, is_some,
}
use multiagent.Identity.Auth.{Identity}

pub record RegisterRequest : Type 0 where
  pub username : Text
  pub email : Text
  pub password : Text
  pub display_name : Text

pub record LoginRequest : Type 0 where
  pub account : Text
  pub password : Text

pub record UserView : Type 0 where
  pub id : ℕ
  pub username : Text
  pub email : Text
  pub display_name : Text
  pub role_id : ℕ
  pub role : Text
  pub status : UserStatus

-- toUserView
abbrev pub to_user_view : User → Tables → UserView
to_user_view u t = record {
  id = u.id;
  username = u.username;
  email = u.email;
  display_name = u.display_name;
  role_id = u.role_id;
  role = role_name u t;
  status = u.status;
}

pub data Reply : Type 0 where
  refused : (status : ℕ) (message : Text) → Reply
  authenticated : (status : ℕ) (token : Text) → UserView → Reply
  shown : UserView → Reply

-- auth/jwt.go: Claims, the fields of its RegisteredClaims among them.
pub record Claims : Type 0 where
  pub user_id : ℕ
  pub role : Text
  pub subject : Text
  pub issued_at : ℕ
  pub expires_at : ℕ

-- TokenTTL, in nanoseconds.
abbrev token_ttl : ℕ
token_ttl = 86_400_000_000_000

-- What the code takes from bcrypt and from the JWT library: a password's hash, the check of a hash
-- against a password, and claims signed with the server's secret; the first and the last may fail.
pub record Secrets : Type 0 where
  pub hash_password : Text → Option Text
  pub check_password : Text → Text → Bool
  pub sign : Claims → Option Text

-- The role of a new account: `developer`, `viewer` where there is no such role, 0 where there is
-- neither.
unfoldable pub default_role_id : Tables → ℕ
default_role_id t = elim (get_role_id_by_name (codes "developer") t) [
  | some id ↦ id
  | none ↦ elim (get_role_id_by_name (codes "viewer") t) [ some id ↦ id | none ↦ 0 ]
]

abbrev new_user : RegisterRequest → Text → ℕ → ℕ → User
new_user req hash role_id now = record {
  id = 0;
  username = req.username;
  email = req.email;
  password_hash = hash;
  display_name = if is_nil req.display_name then req.username else req.display_name;
  role_id = role_id;
  status = active;
  tenant_id = none;
  created_at = now;
}

-- The account that a login names: by its username, else by its email.
unfoldable pub account_of : Text → Tables → Option User
account_of account t = elim (get_user_by_username account t) [
  | some u ↦ some u
  | none ↦ get_user_by_email account t
]

module _ (secrets : Secrets) where
  token_reply : ℕ → User → Tables → Option Text → Reply
  token_reply status u t none = refused 500 (codes "failed to issue token")
  token_reply status u t (some token) = authenticated status token (to_user_view u t)

  -- GenerateToken: `now` is the clock when the token is made.
  abbrev pub generate_token : ℕ → Identity → Option Text
  generate_token now i = secrets.sign (record {
    user_id = i.user_id;
    role = i.role;
    subject = codes "user";
    issued_at = now;
    expires_at = now + token_ttl;
  })

  abbrev token_of : ℕ → User → Tables → Option Text
  token_of now u t = generate_token now (record { user_id = u.id; role = role_name u t })

  unfoldable pub loaded_reply : ℕ → Tables → Option User → Reply
  unfolding token_reply
  loaded_reply signed_at t none = refused 500 (codes "failed to load user")
  loaded_reply signed_at t (some u) = token_reply 201 u t (token_of signed_at u t)

  unfoldable pub registered : ℕ → Option (Tables × User) → Tables → Tables × Reply
  unfolding loaded_reply
  registered signed_at none t = (t, refused 500 (codes "failed to create user"))
  registered signed_at (some (t', u)) t = (t', loaded_reply signed_at t' (get_user_by_id u.id t'))

  unfoldable pub hashed : ℕ → ℕ → RegisterRequest → Tables → Option Text → Tables × Reply
  unfolding registered
  hashed now signed_at req t none = (t, refused 500 (codes "failed to hash password"))
  hashed now signed_at req t (some hash) =
      if default_role_id t == 0
      then (t, refused 500 (codes "角色表未初始化，无法注册用户"))
      else registered signed_at (create_user (new_user req hash (default_role_id t) now) t) t

  -- RegisterHandler: the clock is read for the row and, after that, for the token.
  unfoldable pub register_handler : ℕ → ℕ → RegisterRequest → Tables → Tables × Reply
  unfolding hashed
  register_handler now signed_at req t =
      if is_some (get_user_by_username req.username t)
      then (t, refused 409 (codes "username already exists"))
      else if is_some (get_user_by_email req.email t)
      then (t, refused 409 (codes "email already exists"))
      else hashed now signed_at req t (secrets.hash_password req.password)

  login_as : ℕ → LoginRequest → Tables → Option User → Reply
  unfolding token_reply
  login_as now req t none = refused 401 (codes "invalid credentials")
  login_as now req t (some u) =
      if not (secrets.check_password u.password_hash req.password)
      then refused 401 (codes "invalid credentials")
      else if not (is_active u.status)
      then refused 403 (codes "account disabled")
      else token_reply 200 u t (token_of now u t)

  -- LoginHandler
  unfoldable pub login_handler : ℕ → LoginRequest → Tables → Reply
  unfolding login_as
  login_handler now req t = login_as now req t (account_of req.account t)

me_of : Tables → Option User → Reply
me_of t none = refused 401 (codes "user not found")
me_of t (some u) = shown (to_user_view u t)

-- MeHandler
unfoldable pub me_handler : Option Identity → Tables → Reply
unfolding me_of
me_handler none t = refused 401 (codes "not authenticated")
me_handler (some i) t = me_of t (get_user_by_id i.user_id t)
