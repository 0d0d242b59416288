-- ===== src/Identity/Keys/Revoked.antt =====
-- api/apikey.go with middleware/auth.go: revoked API keys.
use multiagent.Base.{
  ℕ, suc, ◌≡◌, refl, inl, inr, Bool, true, false, ◌&&◌, not, Option, none, some, List, [], ◌∷◌,
  arith, is_nil, ◌==◌, ==_iff, Bool-cases,
}
use multiagent.Base.Text.{Text, codes, text_eq, text_eq_iff}
use multiagent.Base.Decimal.{parse_uint}
use multiagent.Identity.{
  ApiKey, Tables, first, has_hash, create_api_key, get_api_key_by_hash, get_api_key_by_id,
  delete_key, revoke_api_key, last_key_id,
}
use multiagent.Identity.Auth.{Identity, aborts, key_identity, auth_middleware}
use multiagent.Identity.Keys.Lifetimes.{auth_middleware-key}
use multiagent.Identity.Keys.{
  CreateApiKeyRequest, removed, new_key, create_api_key_handler, created_reply,
  revoke_api_key_handler, revoke_numbered, revoke_found,
}

-- No two keys have one hash.
abbrev pub UniqueHashes : List ApiKey → Type 0
UniqueHashes [] = Unit
UniqueHashes (k ∷ ks) = (has_hash k.key_hash ks ≡ false) × UniqueHashes ks

has_hash-delete :
    (hash : Text) (id : ℕ) (ks : List ApiKey) → has_hash hash (delete_key id ks) ≡ has_hash hash ks
has_hash-delete hash id [] = refl
has_hash-delete hash id (k ∷ ks) = ground (arith, has_hash-delete hash id ks)

abbrev by_hash : Text → ApiKey → Bool
by_hash hash k = not k.is_deleted && text_eq k.key_hash hash

abbrev by_id : ℕ → ApiKey → Bool
by_id id k = not k.is_deleted && (k.id == id)

no_hash-none :
    (hash : Text) (ks : List ApiKey) → has_hash hash ks ≡ false → first (by_hash hash) ks ≡ none
no_hash-none hash [] e = refl
no_hash-none hash (k ∷ ks) e = ground (arith, no_hash-none hash ks)

found-has_hash :
    (id : ℕ) (ks : List ApiKey) (k : ApiKey)
    → first (by_id id) ks ≡ some k
    → has_hash k.key_hash ks ≡ true
found-has_hash id [] k e = absurd (ground arith)
found-has_hash id (l ∷ ks) k e = elim (Bool-cases (by_id id l)) [
  | inl here ↦ ground (arith, e, text_eq_iff l.key_hash k.key_hash)
  | inr later ↦ ground (arith, found-has_hash id ks k (ground (arith, e)))
]

-- A deleted key is not found by its hash.
deleted-none :
    (id : ℕ) (ks : List ApiKey) (k : ApiKey)
    → UniqueHashes ks
    → first (by_id id) ks ≡ some k
    → first (by_hash k.key_hash) (delete_key id ks) ≡ none
deleted-none id [] k u e = refl
deleted-none id (l ∷ ks) k u e = elim (Bool-cases (by_id id l)) [
  | inl here ↦
      let is : l ≡ k = ground (arith, e) in
      let gone : first (by_hash k.key_hash) (delete_key id ks) ≡ none =
        no_hash-none k.key_hash (delete_key id ks)
          (ground (arith, has_hash-delete k.key_hash id ks, is, u.0)) in
      ground (arith, gone, ==_iff l.id id)
  | inr later ↦
      let rest = deleted-none id ks k u.1 (ground (arith, e)) in
      let differs : text_eq l.key_hash k.key_hash ≡ false = ground (
        arith,
        u.0,
        text_eq_iff l.key_hash k.key_hash,
        found-has_hash id ks k (ground (arith, e)),
      ) in
      elim (Bool-cases (l.id == id)) [
        | inl same ↦ rw same rest
        | inr other ↦ ground (arith, other, differs, rest)
      ]
]

revoke_found-ok :
    (uid id n : ℕ) (t t' : Tables) (k : Option ApiKey)
    → revoke_found uid id t k ≡ (t', removed n)
    → (key : ApiKey) × (k ≡ some key) × (key.user_id ≡ uid) × (t' ≡ revoke_api_key id t)
unfolding revoke_found
revoke_found-ok uid id n t t' none e = absurd (ground arith)
revoke_found-ok uid id n t t' (some k) e = elim (Bool-cases (k.user_id == uid)) [
  | inl own ↦ (k, refl, (==_iff k.user_id uid).0 own, ground (arith, e, own))
  | inr other ↦ absurd (ground (arith, e, other))
]

revoke_numbered-ok :
    (uid n : ℕ) (t t' : Tables) (id : Option ℕ)
    → revoke_numbered uid t id ≡ (t', removed n)
    → (m : ℕ) × (k : ApiKey) × (id ≡ some m)
      × (get_api_key_by_id m t ≡ some k)
      × (k.user_id ≡ uid)
      × (t' ≡ revoke_api_key m t)
unfolding revoke_numbered
revoke_numbered-ok uid n t t' none e = absurd (ground arith)
revoke_numbered-ok uid n t t' (some m) e =
    let (k, found, own, is) = revoke_found-ok uid m n t t' (get_api_key_by_id m t) e in
    (m, k, refl, found, own, is)

-- A key that is stored, but deleted in every row of its hash.
abbrev IsDead : Text → List ApiKey → Type 0
IsDead hash ks = (has_hash hash ks ≡ true) × (first (by_hash hash) ks ≡ none)

delete_key-none :
    (hash : Text) (id : ℕ) (ks : List ApiKey)
    → first (by_hash hash) ks ≡ none
    → first (by_hash hash) (delete_key id ks) ≡ none
delete_key-none hash id [] e = refl
delete_key-none hash id (k ∷ ks) e =
    let rest = delete_key-none hash id ks (ground (arith, e)) in
    elim (Bool-cases (k.id == id)) [
      | inl same ↦ rw same rest
      | inr other ↦ ground (arith, other, rest, e)
    ]

-- What callers do with keys.
pub data KeyCall : Type 0 where
  creates : (now : ℕ) → Option Identity → CreateApiKeyRequest → (raw : Text) → KeyCall
  revokes : Option Identity → (id : Text) → KeyCall

module _ (hash : Text → Text) (add_days : ℕ → ℕ → ℕ) where
  pub call : KeyCall → Tables → Tables
  call (creates now caller req raw) t =
      (create_api_key_handler hash add_days now caller req raw t).0
  call (revokes caller id) t = (revoke_api_key_handler caller id t).0

  pub calls : List KeyCall → Tables → Tables
  calls [] t = t
  calls (c ∷ cs) t = calls cs (call c t)

  module _ (P : List ApiKey → Type 0)
      (created_P : (k : ApiKey) (ks : List ApiKey)
        → has_hash k.key_hash ks ≡ false
        → P ks
        → P (k ∷ ks))
      (deleted_P : (id : ℕ) (ks : List ApiKey) → P ks → P (delete_key id ks)) where
    create-P :
        (raw : Text) (k : ApiKey) (t : Tables)
        → P t.api_keys
        → P (created_reply raw t (create_api_key k t)).0.api_keys
    unfolding create_api_key created_reply
    create-P raw k t p = elim (Bool-cases (has_hash k.key_hash t.api_keys)) [
      | inl taken ↦ rw taken p
      | inr free ↦
          rw free (created_P (record k { id = suc (last_key_id t.api_keys) }) t.api_keys free p)
    ]

    revoke_found-P :
        (uid id : ℕ) (t : Tables) (k : Option ApiKey)
        → P t.api_keys
        → P (revoke_found uid id t k).0.api_keys
    unfolding revoke_found revoke_api_key
    revoke_found-P uid id t none p = p
    revoke_found-P uid id t (some k) p = elim (Bool-cases (k.user_id == uid)) [
      | inl own ↦ rw own (deleted_P id t.api_keys p)
      | inr other ↦ rw other p
    ]

    revoke_numbered-P :
        (uid : ℕ) (t : Tables) (id : Option ℕ)
        → P t.api_keys
        → P (revoke_numbered uid t id).0.api_keys
    unfolding revoke_numbered
    revoke_numbered-P uid t none p = p
    revoke_numbered-P uid t (some id) p = revoke_found-P uid id t (get_api_key_by_id id t) p

    call-P : (c : KeyCall) (t : Tables) → P t.api_keys → P (call c t).api_keys
    unfolding call create_api_key_handler revoke_api_key_handler
    call-P (creates now none req raw) t p = p
    call-P (creates now (some i) req raw) t p =
        create-P raw (new_key hash add_days now req i.user_id raw) t p
    call-P (revokes none id) t p = p
    call-P (revokes (some i) id) t p = revoke_numbered-P i.user_id t (parse_uint id) p

    -- What new keys and deletions keep, every sequence of calls keeps.
    calls-P : (cs : List KeyCall) (t : Tables) → P t.api_keys → P (calls cs t).api_keys
    unfolding calls
    calls-P [] t p = p
    calls-P (c ∷ cs) t p = calls-P cs (call c t) (call-P c t p)

  delete_key-UniqueHashes :
      (id : ℕ) (ks : List ApiKey) → UniqueHashes ks → UniqueHashes (delete_key id ks)
  delete_key-UniqueHashes id [] u = tt
  delete_key-UniqueHashes id (k ∷ ks) u =
      (ground (arith, u.0, has_hash-delete k.key_hash id ks), delete_key-UniqueHashes id ks u.1)

  -- Whatever callers create and revoke, no two stored keys have one hash.
  pub calls-UniqueHashes :
      (cs : List KeyCall) (t : Tables)
      → UniqueHashes t.api_keys
      → UniqueHashes (calls cs t).api_keys
  calls-UniqueHashes = calls-P UniqueHashes (λ k ks free u. (free, u)) delete_key-UniqueHashes

  calls-IsDead :
      (h : Text) (cs : List KeyCall) (t : Tables)
      → IsDead h t.api_keys
      → IsDead h (calls cs t).api_keys
  calls-IsDead h =
      calls-P (IsDead h)
        (λ k ks free d.
          (ground (arith, d.0), ground (arith, d.0, d.1, free, text_eq_iff k.key_hash h)))
        (λ id ks d. (ground (arith, d.0, has_hash-delete h id ks), delete_key-none h id ks d.1))

IsDead-none : (h : Text) (t : Tables) → IsDead h t.api_keys → get_api_key_by_hash h t ≡ none
unfolding get_api_key_by_hash
IsDead-none h t d = d.1

revoked-IsDead :
    (id : ℕ) (t : Tables) (k : ApiKey)
    → UniqueHashes t.api_keys
    → get_api_key_by_id id t ≡ some k
    → IsDead k.key_hash (revoke_api_key id t).api_keys
unfolding get_api_key_by_id revoke_api_key
revoked-IsDead id t k unique found = (
  ground (arith, has_hash-delete k.key_hash id t.api_keys, found-has_hash id t.api_keys k found),
  deleted-none id t.api_keys k unique found,
)

-- A revocation that succeeds is of the caller's own key, and it is for ever: whatever keys anyone
-- creates and revokes afterwards, every request that carries a raw key, not empty, of the revoked
-- key's hash is refused, whatever else it carries, if no two stored keys had one hash before.
pub revoked_key-refused :
    (hash : Text → Text) (add_days : ℕ → ℕ → ℕ) (parse_token : Text → Option Identity) (later : ℕ)
    (i : Identity) (id : Text) (m n : ℕ) (k : ApiKey) (t t' : Tables) (cs : List KeyCall)
    (raw authorization : Text)
    → UniqueHashes t.api_keys
    → parse_uint id ≡ some m
    → get_api_key_by_id m t ≡ some k
    → revoke_api_key_handler (some i) id t ≡ (t', removed n)
    → hash raw ≡ k.key_hash
    → is_nil raw ≡ false
    → (k.user_id ≡ i.user_id)
      × (auth_middleware hash parse_token later
            (calls hash add_days cs t')
            (record { api_key = raw; authorization = authorization })
          ≡ aborts 401 (codes "invalid API key"))
unfolding revoke_api_key_handler key_identity
revoked_key-refused hash add_days parse_token later i id m n k t t' cs raw authorization unique
      parsed found e hashes given =
    let (m', k', parsed', found', own, is) =
      revoke_numbered-ok i.user_id n t t' (parse_uint id) e in
    let same : m' ≡ m = ground (arith, parsed, parsed') in
    let is_k : k' ≡ k = ground (arith, found, found', same) in
    let dead =
      calls-IsDead hash add_days k.key_hash cs t'
        (ground (arith, is, same, revoked-IsDead m t k unique found)) in
    (
      ground (arith, own, is_k),
      ground (
        arith,
        auth_middleware-key hash parse_token later (calls hash add_days cs t') raw authorization
            given,
        hashes,
        IsDead-none k.key_hash (calls hash add_days cs t') dead,
      ),
    )
