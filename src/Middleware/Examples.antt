-- ===== src/Middleware/Examples.antt =====
-- The limiter and the origins on a few requests.
use multiagent.Base.{◌≤◌, ◌≡◌, ◌⊎◌, inl, inr, refl, true, false, List, [], ◌∷◌, arith}
use multiagent.Base.Text.{Text, codes, text_eq}
use multiagent.Base.Int.{pos}
use multiagent.Base.Assoc.{lookup, put, remove}
use multiagent.Middleware.Cors.{CorsOptions, is_listed, cors, origin_headers}
use multiagent.Middleware.Cors.Origins.{has, cors-allowlist, cors-credentials}
use multiagent.Middleware.RateLimit.{new_rate_limiter, allow}
use multiagent.Middleware.RateLimit.Reference.{
  Call, count, decisions, by_rule, Forward, decisions-by_rule,
}
use multiagent.Middleware.RateLimit.Window.{passed, within, allow-window}

abbrev ip : Text
ip = codes "ip:10.0.0.1"

abbrev calls : List Call
calls =
    record { key = ip; now = 1 }
    ∷ record { key = ip; now = 2 }
    ∷ record { key = codes "u:7"; now = 3 }
    ∷ record { key = ip; now = 4 }
    ∷ record { key = ip; now = 12 }
    ∷ []

calls-Forward : Forward 0 calls
calls-Forward = (omega arith, (omega arith, (omega arith, (omega arith, (omega arith, tt)))))

calls_decided :
    decisions calls (new_rate_limiter (pos 2) 10) ≡ true ∷ true ∷ true ∷ false ∷ true ∷ []
unfolding decisions allow lookup put remove text_eq
calls_decided = refl

decisions-by_rule_example :
    decisions calls (new_rate_limiter (pos 2) 10) ≡ by_rule (pos 2) 10 calls []
decisions-by_rule_example = decisions-by_rule (pos 2) 10 calls calls-Forward

allow-window_example :
    count (within 10 ip 1) (passed calls (decisions calls (new_rate_limiter (pos 2) 10)) []) ≤ 2
allow-window_example = allow-window 2 10 ip 1 calls calls-Forward

abbrev site : CorsOptions
site = record {
  allowed_origins = codes "http://a" ∷ codes "http://b" ∷ [];
  allow_credentials = true;
}

cors-allowlist_example :
    ((codes "http://b" ≡ codes "*") × (is_listed (codes "*") site.allowed_origins ≡ true))
    ⊎ ((codes "http://b" ≡ codes "http://b")
        × (is_listed (codes "http://b") site.allowed_origins ≡ true))
unfolding cors origin_headers text_eq
cors-allowlist_example =
    cors-allowlist site (codes "http://b") (codes "GET") (codes "http://b") (inl (refl, refl))

cors-credentials_example :
    (site.allow_credentials ≡ true)
    × ((is_listed (codes "http://b") site.allowed_origins ≡ true)
        × ((is_listed (codes "*") site.allowed_origins ≡ false)
            × (has
                  (codes "Access-Control-Allow-Origin")
                  (codes "http://b")
                  (cors site (codes "http://b") (codes "GET")).headers
                ≡ true)))
unfolding cors origin_headers text_eq
cors-credentials_example =
    cors-credentials site (codes "http://b") (codes "GET") (codes "true")
      (inr (inr (inl (refl, refl))))
