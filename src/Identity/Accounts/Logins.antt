-- ===== src/Identity/Accounts/Logins.antt =====
-- api/auth.go: who may log in.
use multiagent.Base.{
  ℕ, ◌≡◌, refl, inl, inr, true, false, not, Option, none, some, ◌∷◌, arith, ◌==◌, ==_iff,
  Bool-cases, subst,
}
use multiagent.Base.Text.{Text, codes, text_eq_iff}
use multiagent.Identity.{
  UserStatus, active, disabled, is_active, User, Tables, role_name, has_user, create_user,
  get_user_by_username, get_user_by_email, get_user_by_id, is_some,
}
use multiagent.Identity.Accounts.{
  RegisterRequest, LoginRequest, UserView, to_user_view, refused, authenticated, Secrets,
  token_reply, generate_token, token_of, account_of, default_role_id, new_user, loaded_reply,
  registered, hashed, register_handler, login_as, login_handler,
}

active_status : (s : UserStatus) → is_active s ≡ true → s ≡ active
active_status active e = refl
active_status disabled e = absurd (ground arith)

-- A creation that succeeds numbers the row and puts it in front.
create_user-made :
    (x u : User) (t t' : Tables)
    → create_user x t ≡ some (t', u)
    → (u ≡ record x { id = u.id }) × (t' ≡ record t { users = u ∷ t.users })
unfolding create_user
create_user-made x u t t' e = elim (Bool-cases (has_user x.username x.email t.users)) [
  | inl taken ↦ absurd (ground (arith, e))
  | inr free ↦ (ground (arith, e), ground (arith, e))
]

front :
    (t t' : Tables) (u : User)
    → t' ≡ record t { users = u ∷ t.users }
    → get_user_by_id u.id t' ≡ some u
unfolding get_user_by_id
front t t' u e = rw e (ground (arith, ==_iff u.id u.id))

module _ (secrets : Secrets) where
  token_reply-ok :
      (status code : ℕ) (u : User) (t : Tables) (o : Option Text) (token : Text) (view : UserView)
      → token_reply secrets status u t o ≡ authenticated code token view
      → (o ≡ some token) × ((code ≡ status) × (view ≡ to_user_view u t))
  unfolding token_reply
  token_reply-ok status code u t none token view e = absurd (ground arith)
  token_reply-ok status code u t (some token') token view e =
      (ground (arith, e), (ground (arith, e), ground (arith, e)))

  -- The account, the check and the status that a successful login rests on.
  pub record LoggedIn (now : ℕ) (req : LoginRequest) (t : Tables) (token : Text) (view : UserView)
      : Type 0 where
    pub user : User
    pub named : account_of req.account t ≡ some user
    pub checked : secrets.check_password user.password_hash req.password ≡ true
    pub enabled : user.status ≡ active
    pub signed :
        generate_token secrets now (record { user_id = user.id; role = role_name user t })
        ≡ some token
    pub viewed : view ≡ to_user_view user t

  login_as-LoggedIn :
      (now : ℕ) (req : LoginRequest) (t : Tables) (o : Option User) (code : ℕ) (token : Text)
      (view : UserView)
      → account_of req.account t ≡ o
      → login_as secrets now req t o ≡ authenticated code token view
      → LoggedIn now req t token view
  unfolding login_as
  login_as-LoggedIn now req t none code token view named e = absurd (ground arith)
  login_as-LoggedIn now req t (some u) code token view named e =
      elim (Bool-cases (not (secrets.check_password u.password_hash req.password))) [
        | inl wrong ↦ absurd (ground (arith, e))
        | inr right ↦ elim (Bool-cases (not (is_active u.status))) [
          | inl off ↦ absurd (ground (arith, e))
          | inr on ↦
              let (signed, (code_is, viewed)) =
                token_reply-ok 200 code u t (token_of secrets now u t) token view
                  (ground (arith, e)) in
              record {
                user = u;
                named = named;
                checked = ground (arith, right);
                enabled = active_status u.status (ground (arith, on));
                signed = signed;
                viewed = viewed;
              }
        ]
      ]

  -- What a registration that succeeds has done.
  record Registered (now signed_at : ℕ) (req : RegisterRequest) (t t' : Tables) (token : Text)
      (view : UserView) : Type 0 where
    hash : Text
    user : User
    made : secrets.hash_password req.password ≡ some hash
    row : user ≡ record (new_user req hash (default_role_id t) now) { id = user.id }
    stored : t' ≡ record t { users = user ∷ t.users }
    signed : token_of secrets signed_at user t' ≡ some token
    viewed : view ≡ to_user_view user t'

  registered-made :
      (signed_at : ℕ) (t t' : Tables) (o : Option (Tables × User)) (code : ℕ) (token : Text)
      (view : UserView)
      → registered secrets signed_at o t ≡ (t', authenticated code token view)
      → (u : User) × (o ≡ some (t', u))
        × (loaded_reply secrets signed_at t' (get_user_by_id u.id t')
            ≡ authenticated code token view)
  unfolding registered
  registered-made signed_at t t' none code token view e = absurd (ground arith)
  registered-made signed_at t t' (some (t₁, u)) code token view e =
      let is : t₁ ≡ t' = ground (arith, e) in
      (
        u,
        ground (arith, is),
        subst
            (λ x.
              loaded_reply secrets signed_at x (get_user_by_id u.id x)
              ≡ authenticated code token view)
            is (ground (arith, e)),
      )

  hashed-Registered :
      (now signed_at : ℕ) (req : RegisterRequest) (t t' : Tables) (o : Option Text) (code : ℕ)
      (token : Text) (view : UserView)
      → secrets.hash_password req.password ≡ o
      → hashed secrets now signed_at req t o ≡ (t', authenticated code token view)
      → Registered now signed_at req t t' token view
  unfolding hashed loaded_reply
  hashed-Registered now signed_at req t t' none code token view made e = absurd (ground arith)
  hashed-Registered now signed_at req t t' (some hash) code token view made e =
      elim (Bool-cases (default_role_id t == 0)) [
        | inl unset ↦ absurd (ground (arith, e))
        | inr set ↦
            let (u, created, loaded) =
              registered-made signed_at t t'
                (create_user (new_user req hash (default_role_id t) now) t) code token view
                (ground (arith, e)) in
            let (row, stored) =
              create_user-made (new_user req hash (default_role_id t) now) u t t' created in
            let (signed, (code_is, viewed)) =
              token_reply-ok 201 code u t' (token_of secrets signed_at u t') token view
                (ground (arith, loaded, front t t' u stored)) in
            record {
              hash = hash;
              user = u;
              made = made;
              row = row;
              stored = stored;
              signed = signed;
              viewed = viewed;
            }
      ]

  register-Registered :
      (now signed_at : ℕ) (req : RegisterRequest) (t t' : Tables) (code : ℕ) (token : Text)
      (view : UserView)
      → register_handler secrets now signed_at req t ≡ (t', authenticated code token view)
      → Registered now signed_at req t t' token view
  unfolding register_handler
  register-Registered now signed_at req t t' code token view e =
      elim (Bool-cases (is_some (get_user_by_username req.username t))) [
        | inl taken ↦ absurd (ground (arith, e))
        | inr free ↦ elim (Bool-cases (is_some (get_user_by_email req.email t))) [
          | inl taken ↦ absurd (ground (arith, e))
          | inr free_email ↦
              hashed-Registered now signed_at req t t' (secrets.hash_password req.password) code
                token view refl (ground (arith, e))
        ]
      ]

  -- The new account is the one that its username names.
  account_of-Registered :
      (now signed_at : ℕ) (req : RegisterRequest) (t t' : Tables) (token : Text) (view : UserView)
      (r : Registered now signed_at req t t' token view)
      → account_of req.username t' ≡ some r.user
  unfolding account_of get_user_by_username
  account_of-Registered now signed_at req t t' token view r =
      rw (r.stored) (ground (arith, r.row, text_eq_iff r.user.username req.username))

  login_as-wrong :
      (now signed_at later : ℕ) (req : RegisterRequest) (t t' : Tables) (token : Text)
      (view : UserView) (r : Registered now signed_at req t t' token view) (login : LoginRequest)
      → secrets.check_password r.hash login.password ≡ false
      → login_as secrets later login t' (some r.user) ≡ refused 401 (codes "invalid credentials")
  unfolding login_as
  login_as-wrong now signed_at later req t t' token view r login wrong =
      ground (arith, r.row, wrong)

-- A login that succeeds names an account by its username or, where no account has that username, by
-- its email; the password passes the check of the account's hash, the account is not disabled, and
-- the token is signed for its number and its role at that time.
pub login_handler-LoggedIn :
    (secrets : Secrets) (now : ℕ) (req : LoginRequest) (t : Tables) (code : ℕ) (token : Text)
    (view : UserView)
    → login_handler secrets now req t ≡ authenticated code token view
    → LoggedIn secrets now req t token view
unfolding login_handler
login_handler-LoggedIn secrets now req t code token view e =
    login_as-LoggedIn secrets now req t (account_of req.account t) code token view refl e

-- After a registration that succeeded with an email address of somebody else as its username, every
-- login by that address with a password that does not check against the new account's hash is
-- refused, so also the login of the address's owner.
pub login-shadowed :
    (secrets : Secrets) (now signed_at later : ℕ) (req : RegisterRequest) (t t' : Tables) (code : ℕ)
    (token : Text) (view : UserView) (owner : User) (hash password : Text)
    → owner.email ≡ req.username
    → register_handler secrets now signed_at req t ≡ (t', authenticated code token view)
    → secrets.hash_password req.password ≡ some hash
    → secrets.check_password hash password ≡ false
    → login_handler secrets later (record { account = owner.email; password = password }) t'
      ≡ refused 401 (codes "invalid credentials")
unfolding login_handler
login-shadowed secrets now signed_at later req t t' code token view owner hash password same e made
      wrong =
    let r = register-Registered secrets now signed_at req t t' code token view e in
    rw (same, account_of-Registered secrets now signed_at req t t' token view r)
      (login_as-wrong secrets now signed_at later req t t' token view r
        (record { account = owner.email; password = password })
        (ground (arith, wrong, made, r.made)))
