-- ===== src/Identity/Keys/Lifetimes.antt =====
-- api/apikey.go with middleware/auth.go: the life of an API key that was created.
use multiagent.Base.{
  ℕ, suc, ◌≡◌, refl, inl, inr, false, Option, none, some, ◌∷◌, arith, is_nil, Bool-cases,
}
use multiagent.Base.Text.{Text, codes, text_eq_iff}
use multiagent.Identity.{
  ApiKey, usable, User, Tables, role_name, role_of, has_hash, create_api_key, get_api_key_by_hash,
  get_user_by_id, last_key_id,
}
use multiagent.Identity.Auth.{
  Identity, passes, is_over, key_identity, identity_of, authenticate_by_api_key, auth_middleware,
  answered,
}
use multiagent.Identity.Keys.{
  CreateApiKeyRequest, ApiKeyView, created, expiry, new_key, create_api_key_handler, created_reply,
}

-- A creation that answers with a key has put it in front.
created_reply-ok :
    (raw secret : Text) (t t' : Tables) (o : Option (Tables × ApiKey)) (view : ApiKeyView)
    → created_reply raw t o ≡ (t', created secret view)
    → (k : ApiKey) × (o ≡ some (t', k)) × (secret ≡ raw)
unfolding created_reply
created_reply-ok raw secret t t' none view e = absurd (ground arith)
created_reply-ok raw secret t t' (some (t₁, k)) view e = (k, ground (arith, e), ground (arith, e))

module _ (k : ApiKey) (t t' : Tables) (row : ApiKey) where
  create_api_key-found :
      create_api_key k t ≡ some (t', row)
      → k.is_deleted ≡ false
      → (get_api_key_by_hash k.key_hash t' ≡ some row)
        × (row ≡ record k { id = row.id })
        × ((t'.users ≡ t.users) × (t'.roles ≡ t.roles))
  unfolding create_api_key get_api_key_by_hash
  create_api_key-found e kept = elim (Bool-cases (has_hash k.key_hash t.api_keys)) [
    | inl taken ↦ absurd (ground (arith, e))
    | inr free ↦
        let new : ApiKey = record k { id = suc (last_key_id t.api_keys) } in
        let is_row : new ≡ row = ground (arith, e, free) in
        let is_t : record t { api_keys = new ∷ t.api_keys } ≡ t' = ground (arith, e, free) in
        (
          ground (arith, is_row, is_t, kept, text_eq_iff k.key_hash k.key_hash),
          ground (arith, is_row),
          (ground (arith, is_t), ground (arith, is_t)),
        )
  ]

-- What the authentication makes of a stored key that is in use and in time.
key_identity-passes :
    (now : ℕ) (t : Tables) (k : ApiKey) (u : User)
    → k.status ≡ usable
    → is_over now k.expires_at ≡ false
    → get_user_by_id k.user_id t ≡ some u
    → key_identity now t (some k) ≡ some (record { user_id = u.id; role = role_name u t })
unfolding key_identity identity_of
key_identity-passes now t k u es ee eu = rw (es, ee, eu) refl

same_user :
    (t t' : Tables) (id : ℕ) → t'.users ≡ t.users → get_user_by_id id t' ≡ get_user_by_id id t
unfolding get_user_by_id
same_user t t' id e = rw e refl

same_role : (t t' : Tables) (u : User) → t'.roles ≡ t.roles → role_name u t' ≡ role_name u t
unfolding role_name role_of
same_role t t' u e = rw e refl

pub auth_middleware-key :
    (hash : Text → Text) (parse_token : Text → Option Identity) (now : ℕ) (t : Tables)
    (raw authorization : Text)
    → is_nil raw ≡ false
    → auth_middleware hash parse_token now t
        (record { api_key = raw; authorization = authorization })
      ≡ answered (codes "invalid API key") (key_identity now t (get_api_key_by_hash (hash raw) t))
unfolding auth_middleware authenticate_by_api_key
auth_middleware-key hash parse_token now t raw authorization given = rw given refl

-- On the tables as CreateAPIKeyHandler has left them, a request that carries the new key, which is
-- not empty, passes as the caller who created it, with the role that the caller's account has,
-- whatever the request says in its Authorization header and at whatever time the key is in time.
pub created_key-passes :
    (hash : Text → Text) (add_days : ℕ → ℕ → ℕ) (parse_token : Text → Option Identity)
    (now later : ℕ) (i : Identity) (req : CreateApiKeyRequest) (raw secret : Text) (t t' : Tables)
    (view : ApiKeyView) (u : User) (authorization : Text)
    → create_api_key_handler hash add_days now (some i) req raw t ≡ (t', created secret view)
    → is_nil raw ≡ false
    → get_user_by_id i.user_id t ≡ some u
    → is_over later (expiry add_days now req.expires_in) ≡ false
    → auth_middleware hash parse_token later t'
        (record { api_key = secret; authorization = authorization })
      ≡ passes (record { user_id = u.id; role = role_name u t })
unfolding create_api_key_handler
created_key-passes hash add_days parse_token now later i req raw secret t t' view u authorization e
      given known in_time =
    let new = new_key hash add_days now req i.user_id raw in
    let (row, stored, is) = created_reply-ok raw secret t t' (create_api_key new t) view e in
    let (found, row_is, (users, roles)) = create_api_key-found new t t' row stored refl in
    let passed =
      key_identity-passes later t' row u (ground (arith, row_is)) (ground (arith, row_is, in_time))
        (ground (arith, row_is, same_user t t' i.user_id users, known)) in
    ground (
      arith,
      is,
      auth_middleware-key hash parse_token later t' raw authorization given,
      found,
      passed,
      same_role t t' u roles,
    )
