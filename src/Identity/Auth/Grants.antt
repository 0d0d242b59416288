-- ===== src/Identity/Auth/Grants.antt =====
-- middleware/auth.go: whom the authentication lets pass.
use multiagent.Base.{
  ℕ, ◌≡◌, ◌⊎◌, refl, inl, inr, Bool, true, false, ◌&&◌, ◌||◌, not, Option, none, some, List, [],
  ◌∷◌, arith, is_nil, ◌==◌, ==_iff, Bool-cases,
}
use multiagent.Base.Text.{Text, codes, text_eq, text_eq_iff, starts_with}
use multiagent.Identity.{
  ApiKeyStatus, usable, revoked, UserStatus, ApiKey, User, Tables, first, role_name, role_of,
  get_api_key_by_hash, get_user_by_id,
}
use multiagent.Identity.Auth.{
  Headers, Identity, passes, after_prefix, is_over, key_identity, identity_of,
  authenticate_by_api_key, auth_middleware, answered,
}

-- An element of a list.
abbrev pub In : {A : Type 0} → A → List A → Type 0
In x [] = ⊥
In x (y ∷ ys) = (x ≡ y) ⊎ In x ys

pub first-found :
    {A : Type 0} (p : A → Bool) (xs : List A) (x : A) → first p xs ≡ some x → In x xs × (p x ≡ true)
first-found p [] x e = absurd (ground arith)
first-found p (y ∷ xs) x e = elim (Bool-cases (p y)) [
  | inl here ↦ (inl (ground arith), ground (arith, e))
  | inr later ↦ let (at, is) = first-found p xs x (ground (arith, e)) in (inr at, is)
]

status-cases : (s : ApiKeyStatus) → (s ≡ usable) ⊎ (s ≡ revoked)
status-cases usable = inl refl
status-cases revoked = inr refl

-- The row, the user and the role that an API key's request is identified by.
pub record OwnsKey (hash : Text → Text) (now : ℕ) (t : Tables) (raw : Text) (i : Identity)
    : Type 0 where
  pub key : ApiKey
  pub owner : User
  pub stored : In key t.api_keys
  pub hashed : key.key_hash ≡ hash raw
  pub kept : key.is_deleted ≡ false
  pub in_use : key.status ≡ usable
  pub in_time : is_over now key.expires_at ≡ false
  pub known : In owner t.users
  pub owns : owner.id ≡ key.user_id
  pub named : i ≡ record { user_id = owner.id; role = role_name owner t }

abbrev pub Identified :
    (Text → Text) → (Text → Option Identity) → ℕ → Tables → Headers → Identity → Type 0
Identified hash parse_token now t h i =
    ((is_nil h.api_key ≡ false) × OwnsKey hash now t h.api_key i)
    ⊎ ((is_nil h.api_key ≡ true)
        × (starts_with h.authorization (codes "Bearer ") ≡ true)
        × (parse_token (after_prefix (codes "Bearer ") h.authorization) ≡ some i))

module _ (hash : Text → Text) (now : ℕ) (t : Tables) (raw : Text) (i : Identity) where
  owner-OwnsKey :
      (k : ApiKey) (u : Option User)
      → get_api_key_by_hash (hash raw) t ≡ some k
      → k.status ≡ usable
      → is_over now k.expires_at ≡ false
      → get_user_by_id k.user_id t ≡ u
      → identity_of t u ≡ some i
      → OwnsKey hash now t raw i
  unfolding get_api_key_by_hash get_user_by_id identity_of
  owner-OwnsKey k none ek es ee eu ei = absurd (ground arith)
  owner-OwnsKey k (some u) ek es ee eu ei =
      let (stored, is) = first-found _ t.api_keys k ek in
      let (known, owns) = first-found _ t.users u eu in
      record {
        key = k;
        owner = u;
        stored = stored;
        hashed = (text_eq_iff k.key_hash (hash raw)).0 (ground (arith, is));
        kept = ground (arith, is);
        in_use = es;
        in_time = ee;
        known = known;
        owns = (==_iff u.id k.user_id).0 owns;
        named = ground (arith, ei);
      }

  key-OwnsKey :
      (k : Option ApiKey)
      → get_api_key_by_hash (hash raw) t ≡ k
      → key_identity now t k ≡ some i
      → OwnsKey hash now t raw i
  unfolding key_identity
  key-OwnsKey none ek e = absurd (ground arith)
  key-OwnsKey (some k) ek e = elim (status-cases k.status) [
    | inl u ↦ elim (Bool-cases (is_over now k.expires_at)) [
      | inl over ↦ absurd (ground arith)
      | inr fresh ↦ owner-OwnsKey k (get_user_by_id k.user_id t) ek u fresh refl (ground (arith, e))
    ]
    | inr r ↦ absurd (ground (arith, e))
  ]

answered-passes :
    (message : Text) (o : Option Identity) (i : Identity)
    → answered message o ≡ passes i
    → o ≡ some i
answered-passes message none i e = absurd (ground arith)
answered-passes message (some j) i e = ground arith

-- A request that the authentication lets pass either has an API key, and then its hash is that of a
-- stored key that is not deleted, in use and in time, and it passes as the key's owner with the
-- role that the owner now has; or it has none, and then a bearer token that says who it is.
pub auth_middleware-Identified :
    (hash : Text → Text) (parse_token : Text → Option Identity) (now : ℕ) (t : Tables) (h : Headers)
    (i : Identity)
    → auth_middleware hash parse_token now t h ≡ passes i
    → Identified hash parse_token now t h i
unfolding auth_middleware authenticate_by_api_key
auth_middleware-Identified hash parse_token now t h i e = elim (Bool-cases (is_nil h.api_key)) [
  | inl without ↦
      elim (Bool-cases
        (is_nil h.authorization || not (starts_with h.authorization (codes "Bearer ")))) [
          | inl other ↦ absurd (ground (arith, e))
          | inr bearer ↦ inr (
            without,
            ground (arith, bearer),
            answered-passes (codes "invalid or expired token") _ i (ground (arith, e)),
          )
        ]
  | inr given ↦ inl (
    given,
    key-OwnsKey hash now t h.api_key i (get_api_key_by_hash (hash h.api_key) t) refl
        (answered-passes (codes "invalid API key") _ i (ground (arith, e))),
  )
]

-- The accounts with other statuses.
abbrev pub with_statuses : (ℕ → UserStatus) → List User → List User
with_statuses f [] = []
with_statuses f (u ∷ us) = record u { status = f u.id } ∷ with_statuses f us

abbrev restated : (ℕ → UserStatus) → Option User → Option User
restated f none = none
restated f (some u) = some (record u { status = f u.id })

get_user-with_statuses :
    (f : ℕ → UserStatus) (id : ℕ) (us : List User)
    → first (λ u. u.id == id) (with_statuses f us) ≡ restated f (first (λ u. u.id == id) us)
get_user-with_statuses f id [] = refl
get_user-with_statuses f id (u ∷ us) = elim (Bool-cases (u.id == id)) [
  | inl here ↦ rw here refl
  | inr later ↦ rw later (get_user-with_statuses f id us)
]

identity_of-with_statuses :
    (f : ℕ → UserStatus) (t : Tables) (o : Option User)
    → identity_of (record t { users = with_statuses f t.users }) (restated f o) ≡ identity_of t o
unfolding identity_of role_name role_of
identity_of-with_statuses f t none = refl
identity_of-with_statuses f t (some u) = refl

key_identity-with_statuses :
    (f : ℕ → UserStatus) (now : ℕ) (t : Tables) (k : Option ApiKey)
    → key_identity now (record t { users = with_statuses f t.users }) k ≡ key_identity now t k
unfolding key_identity get_user_by_id
key_identity-with_statuses f now t none = refl
key_identity-with_statuses f now t (some k) =
    rw
      (
        get_user-with_statuses f k.user_id t.users,
        identity_of-with_statuses f t (first (λ u. u.id == k.user_id) t.users),
      )
      refl

-- Whether an account is disabled plays no part in the authentication: with any other statuses of
-- the accounts every request passes or fails in the same way and as the same caller.
pub auth_middleware-any_status :
    (hash : Text → Text) (parse_token : Text → Option Identity) (now : ℕ) (t : Tables) (h : Headers)
    (f : ℕ → UserStatus)
    → auth_middleware hash parse_token now (record t { users = with_statuses f t.users }) h
      ≡ auth_middleware hash parse_token now t h
unfolding auth_middleware authenticate_by_api_key get_api_key_by_hash
auth_middleware-any_status hash parse_token now t h f =
    rw
      (key_identity-with_statuses f now t
        (first (λ k. not k.is_deleted && text_eq k.key_hash (hash h.api_key)) t.api_keys))
      refl
