-- ===== src/Middleware/Cors.antt =====
-- server/internal/middleware/cors.go: the answer to a request from another origin. The header Origin
-- is empty where it is absent.
pub mod Origins
use multiagent.Base.{Bool, true, false, ◌&&◌, ◌||◌, not, List, [], ◌∷◌, ◌++◌, is_nil, if◌then◌else◌}
use multiagent.Base.Text.{Text, codes, text_eq}

pub record CorsOptions : Type 0 where
  pub allowed_origins : List Text
  pub allow_credentials : Bool

abbrev pub is_listed : Text → List Text → Bool
is_listed o [] = false
is_listed o (p ∷ ps) = text_eq p o || is_listed o ps

pub record Header : Type 0 where
  pub name : Text
  pub value : Text

abbrev pub header : Text → Text → Header
header name value = record { name = name; value = value }

-- The headers that name an allowed origin.
unfoldable pub origin_headers : CorsOptions → Text → List Header
origin_headers opts origin =
    if is_listed (codes "*") opts.allowed_origins
    then header (codes "Access-Control-Allow-Origin") (codes "*") ∷ []
    else if not (is_listed origin opts.allowed_origins)
    then []
    else header (codes "Access-Control-Allow-Origin") origin
      ∷ header (codes "Vary") (codes "Origin")
      ∷ (if opts.allow_credentials
          then header (codes "Access-Control-Allow-Credentials") (codes "true") ∷ []
          else [])

abbrev method_headers : List Header
method_headers =
    header (codes "Access-Control-Allow-Methods") (codes "GET, POST, PUT, DELETE, PATCH, OPTIONS")
    ∷ header (codes "Access-Control-Allow-Headers")
        (codes "Authorization, X-API-Key, Content-Type, Accept, Origin")
    ∷ header (codes "Access-Control-Max-Age") (codes "600")
    ∷ []

pub record CorsAnswer : Type 0 where
  pub headers : List Header
  -- The request does not reach a handler: the answer is 204.
  pub aborted : Bool

-- CORS
unfoldable pub cors : CorsOptions → (origin method : Text) → CorsAnswer
unfolding origin_headers
cors opts origin method = record {
  headers = if is_nil origin then [] else origin_headers opts origin ++ method_headers;
  aborted = text_eq method (codes "OPTIONS") && not (is_nil origin);
}
