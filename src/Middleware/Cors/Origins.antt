-- ===== src/Middleware/Cors/Origins.antt =====
-- middleware/cors.go: which origins are let in, and which with credentials.
use multiagent.Base.{
  ◌≡◌, ◌⊎◌, sym, inl, inr, Bool, true, false, ◌&&◌, ◌||◌, List, [], ◌∷◌, arith, is_nil, Bool-cases,
}
use multiagent.Base.Text.{Text, codes, text_eq, text_eq_iff}
use multiagent.Middleware.Cors.{CorsOptions, is_listed, Header, origin_headers, cors}

-- An answer has a header.
abbrev pub Has : Text → Text → List Header → Type 0
Has name value [] = ⊥
Has name value (h ∷ hs) = ((h.name ≡ name) × (h.value ≡ value)) ⊎ Has name value hs

abbrev pub has : Text → Text → List Header → Bool
has name value [] = false
has name value (h ∷ hs) = (text_eq h.name name && text_eq h.value value) || has name value hs

Has-has : (name value : Text) (hs : List Header) → Has name value hs → has name value hs ≡ true
Has-has name value [] h = absurd h
Has-has name value (k ∷ hs) (inl (n, v)) =
    ground (arith, text_eq_iff k.name name, text_eq_iff k.value value)
Has-has name value (k ∷ hs) (inr h) = ground (arith, Has-has name value hs h)

-- An answer names an origin only if it may: the wildcard if the wildcard is listed, and otherwise the
-- request's own origin, if that is listed.
pub cors-allowlist :
    (opts : CorsOptions) (origin method value : Text)
    → Has (codes "Access-Control-Allow-Origin") value (cors opts origin method).headers
    → ((value ≡ codes "*") × (is_listed (codes "*") opts.allowed_origins ≡ true))
      ⊎ ((value ≡ origin) × (is_listed origin opts.allowed_origins ≡ true))
unfolding cors origin_headers text_eq
cors-allowlist opts origin method value h =
    let q : has (codes "Access-Control-Allow-Origin") value (cors opts origin method).headers
        ≡ true =
      Has-has _ value _ h in
    elim (Bool-cases (is_nil origin)) [
      | inl none ↦ absurd (ground (arith, q))
      | inr given ↦ elim (Bool-cases (is_listed (codes "*") opts.allowed_origins)) [
        | inl all ↦ inl ((sym ((text_eq_iff (codes "*") value).0 (ground (arith, q)))), all)
        | inr exact ↦ elim (Bool-cases (is_listed origin opts.allowed_origins)) [
          | inl listed ↦ inr (sym ((text_eq_iff origin value).0 (ground (arith, q))), listed)
          | inr unlisted ↦ absurd (ground (arith, q))
        ]
      ]
    ]

-- An answer that allows credentials names the request's own origin, which is listed, never the
-- wildcard, and the options allow credentials.
pub cors-credentials :
    (opts : CorsOptions) (origin method value : Text)
    → Has (codes "Access-Control-Allow-Credentials") value (cors opts origin method).headers
    → (opts.allow_credentials ≡ true)
      × ((is_listed origin opts.allowed_origins ≡ true)
          × ((is_listed (codes "*") opts.allowed_origins ≡ false)
              × (has (codes "Access-Control-Allow-Origin") origin (cors opts origin method).headers
                  ≡ true)))
unfolding cors origin_headers text_eq
cors-credentials opts origin method value h =
    let q : has (codes "Access-Control-Allow-Credentials") value (cors opts origin method).headers
        ≡ true =
      Has-has _ value _ h in
    elim (Bool-cases (is_nil origin)) [
      | inl none ↦ absurd (ground (arith, q))
      | inr given ↦ elim (Bool-cases (is_listed (codes "*") opts.allowed_origins)) [
        | inl all ↦ absurd (ground (arith, q))
        | inr exact ↦ elim (Bool-cases (is_listed origin opts.allowed_origins)) [
          | inl listed ↦ elim (Bool-cases opts.allow_credentials) [
            | inl allowed ↦ (allowed, (listed, (exact, ground (arith, text_eq_iff origin origin))))
            | inr without ↦ absurd (ground (arith, q))
          ]
          | inr unlisted ↦ absurd (ground (arith, q))
        ]
      ]
    ]
