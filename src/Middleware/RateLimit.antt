-- ===== src/Middleware/RateLimit.antt =====
-- server/internal/middleware/ratelimit.go: the limiter of requests per key. A window is not
-- negative. The client's address and the user's identity come from the web framework.
pub mod Reference
pub mod Window
use multiagent.Base.{
  ℕ, zero, suc, ◌+◌, ◌/◌, Bool, true, false, Option, none, some, List, [], ◌∷◌, ◌++◌, length, keep,
  ltb, leb, if◌then◌else◌,
}
use multiagent.Base.Text.{Text, codes}
use multiagent.Base.Int.{ℤ, pos, negsuc}
use multiagent.Base.Decimal.{decimal}
use multiagent.Base.Assoc.{Assoc, lookup, put}

pub record RateLimiter : Type 0 where
  pub limit : ℤ
  pub window : ℕ
  pub hits : Assoc (List ℕ)

-- NewRateLimiter
abbrev pub new_rate_limiter : ℤ → ℕ → RateLimiter
new_rate_limiter limit window = record { limit = limit; window = window; hits = [] }

abbrev pub hits_of : Text → RateLimiter → List ℕ
hits_of key l = elim (lookup key l.hits) [ none ↦ [] | some ts ↦ ts ]

-- A number reaches the limit: a limit below zero is reached by every number.
abbrev pub reaches : ℕ → ℤ → Bool
reaches n (pos limit) = leb limit n
reaches n (negsuc limit) = true

-- A hit is still in the window: it is after the time `now` less the window.
abbrev pub in_window : ℕ → ℕ → ℕ → Bool
in_window window now t = ltb now (t + window)

-- Allow
unfoldable pub allow : Text → ℕ → RateLimiter → RateLimiter × Bool
allow key now l =
    let valid = keep (in_window l.window now) (hits_of key l) in
    if reaches (length valid) l.limit
    then (record l { hits = put key valid l.hits }, false)
    else (record l { hits = put key (valid ++ (now ∷ [])) l.hits }, true)

pub data Passage : Type 0 where
  next : Passage
  too_many_requests : (retry_after : ℕ) → Passage

abbrev is_positive : ℤ → Bool
is_positive (pos zero) = false
is_positive (pos (suc n)) = true
is_positive (negsuc n) = false

answered : ℕ → RateLimiter × Bool → RateLimiter × Passage
answered window (l, true) = (l, next)
answered window (l, false) = (l, too_many_requests (window / 1_000_000_000))

-- RateLimit: the handler that it returns, on a request with a key.
unfoldable pub rate_limit : Text → ℕ → RateLimiter → RateLimiter × Passage
unfolding answered
rate_limit key now l =
    if is_positive l.limit then answered l.window (allow key now l) else (l, next)

-- ClientIPKey
abbrev pub client_ip_key : Text → Text
client_ip_key ip = codes "ip:" ++ ip

-- UserIDKey; `user` is the user's number, if the request has one.
abbrev pub user_id_key : Option ℕ → Text → Text
user_id_key (some id) ip = codes "u:" ++ decimal id
user_id_key none ip = codes "ip:" ++ ip
