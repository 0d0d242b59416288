-- ===== src/Identity/Keys.antt =====
-- server/internal/api/apikey.go: a caller's API keys. GenerateAPIKey is a parameter of the raw key
-- that it draws.
pub mod Lifetimes
pub mod Revoked
use multiagent.Base.{
  ℕ, suc, ◌+◌, ◌*◌, Bool, true, false, not, Option, none, some, List, [], ◌∷◌, ◌++◌, map, take, ltb,
  ◌==◌, if◌then◌else◌,
}
use multiagent.Base.Text.{Text, codes}
use multiagent.Base.Int.{ℤ, pos, negsuc}
use multiagent.Base.Decimal.{parse_uint}
use multiagent.Identity.{
  ApiKeyStatus, usable, revoked, ApiKey, Tables, create_api_key, list_api_keys_by_user,
  get_api_key_by_id, revoke_api_key,
}
use multiagent.Identity.Auth.{Identity}

pub record CreateApiKeyRequest : Type 0 where
  pub name : Text
  pub expires_in : Option ℤ

pub record ApiKeyView : Type 0 where
  pub id : ℕ
  pub name : Text
  pub prefix : Text
  pub status : ApiKeyStatus
  pub expires_at : Option ℕ
  pub created_at : ℕ

-- toAPIKeyView
abbrev pub to_api_key_view : ApiKey → ApiKeyView
to_api_key_view k = record {
  id = k.id;
  name = k.name;
  prefix = k.prefix;
  status = k.status;
  expires_at = k.expires_at;
  created_at = k.created_at;
}

pub data KeyReply : Type 0 where
  refused : (status : ℕ) (message : Text) → KeyReply
  created : (api_key : Text) → ApiKeyView → KeyReply
  listed : List ApiKeyView → KeyReply
  removed : (id : ℕ) → KeyReply

-- AddDate of so many days, by the clock `add_days`; no end for a number that is not positive.
abbrev pub expiry : (ℕ → ℕ → ℕ) → ℕ → Option ℤ → Option ℕ
expiry add_days now none = none
expiry add_days now (some (pos n)) = if n == 0 then none else some (add_days now n)
expiry add_days now (some (negsuc n)) = none

-- The new row of a raw key.
abbrev pub new_key : (Text → Text) → (ℕ → ℕ → ℕ) → ℕ → CreateApiKeyRequest → ℕ → Text → ApiKey
new_key hash add_days now req uid raw = record {
  id = 0;
  user_id = uid;
  name = req.name;
  key_hash = hash raw;
  prefix = take 8 raw;
  status = usable;
  expires_at = expiry add_days now req.expires_in;
  created_at = now;
  is_deleted = false;
}

unfoldable pub created_reply : Text → Tables → Option (Tables × ApiKey) → Tables × KeyReply
created_reply raw t none = (t, refused 500 (codes "failed to create api key"))
created_reply raw t (some (t', k)) = (t', created raw (to_api_key_view k))

-- CreateAPIKeyHandler
unfoldable pub create_api_key_handler :
    (Text → Text)
    → (ℕ → ℕ → ℕ)
    → ℕ
    → Option Identity
    → CreateApiKeyRequest
    → (raw : Text) → Tables
    → Tables × KeyReply
unfolding created_reply
create_api_key_handler hash add_days now none req raw t =
    (t, refused 401 (codes "not authenticated"))
create_api_key_handler hash add_days now (some i) req raw t =
    created_reply raw t (create_api_key (new_key hash add_days now req i.user_id raw) t)

-- ListAPIKeysHandler
unfoldable pub list_api_keys_handler : Option Identity → Tables → KeyReply
list_api_keys_handler none t = refused 401 (codes "not authenticated")
list_api_keys_handler (some i) t = listed (map to_api_key_view (list_api_keys_by_user i.user_id t))

unfoldable pub revoke_found : ℕ → ℕ → Tables → Option ApiKey → Tables × KeyReply
revoke_found uid id t none = (t, refused 404 (codes "api key not found"))
revoke_found uid id t (some k) =
    if not (k.user_id == uid)
    then (t, refused 403 (codes "not allowed to revoke this api key"))
    else (revoke_api_key id t, removed id)

unfoldable pub revoke_numbered : ℕ → Tables → Option ℕ → Tables × KeyReply
unfolding revoke_found
revoke_numbered uid t none = (t, refused 400 (codes "invalid id"))
revoke_numbered uid t (some id) = revoke_found uid id t (get_api_key_by_id id t)

-- RevokeAPIKeyHandler
unfoldable pub revoke_api_key_handler : Option Identity → (id : Text) → Tables → Tables × KeyReply
unfolding revoke_numbered
revoke_api_key_handler none id t = (t, refused 401 (codes "not authenticated"))
revoke_api_key_handler (some i) id t = revoke_numbered i.user_id t (parse_uint id)
