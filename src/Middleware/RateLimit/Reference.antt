-- ===== src/Middleware/RateLimit/Reference.antt =====
-- ratelimit.go: the limiter decides as if it kept every hit that it ever let pass.
use multiagent.Base.{
  ℕ, ◌+◌, ◌≤◌, ◌≡◌, refl, Bool, true, false, ◌&&◌, List, [], ◌∷◌, ◌++◌, arith, length, keep,
  if◌then◌else◌, inl, inr, Bool-cases, ap, ◌∙◌, subst,
}
use multiagent.Base.Text.{Text, text_eq, text_eq_iff}
use multiagent.Base.Int.{ℤ}
use multiagent.Base.Assoc.{lookup, put, lookup-put}
use multiagent.Middleware.RateLimit.{
  RateLimiter, new_rate_limiter, hits_of, reaches, in_window, allow,
}

-- A request with its key, at a time.
pub record Call : Type 0 where
  pub key : Text
  pub now : ℕ

abbrev pub count {ℓ} : {A : Type ℓ} → (A → Bool) → List A → ℕ
count p xs = length (keep p xs)

-- The hits of a key that a window ending at `now` holds.
abbrev pub recent : ℕ → Text → ℕ → Call → Bool
recent window key now c = text_eq c.key key && in_window window now c.now

-- The answers of the limiter to a sequence of requests.
unfoldable pub decisions : List Call → RateLimiter → List Bool
decisions [] l = []
decisions (c ∷ calls) l = let (l', ok) = allow c.key c.now l in ok ∷ decisions calls l'

-- The answers by the rule, over all the hits that passed until now.
unfoldable pub by_rule : ℤ → ℕ → List Call → List Call → List Bool
by_rule limit window [] hits = []
by_rule limit window (c ∷ calls) hits =
    let refused = by_rule limit window calls hits in
    let passed = by_rule limit window calls (c ∷ hits) in
    if reaches (count (recent window c.key c.now) hits) limit
    then false ∷ refused
    else true ∷ passed

-- The clock does not go back.
abbrev pub Forward : ℕ → List Call → Type 0
Forward t [] = Unit
Forward t (c ∷ calls) = (t ≤ c.now) × Forward c.now calls

module _ {ℓ} {A : Type ℓ} where
  count-append : (p : A → Bool) (xs ys : List A) → count p (xs ++ ys) ≡ count p xs + count p ys
  count-append p [] ys = omega arith
  count-append p (x ∷ xs) ys = ground (arith, count-append p xs ys)

  count-keep :
      (p q : A → Bool) (xs : List A)
      → ((x : A) → p x ≡ true → q x ≡ true)
      → count p (keep q xs) ≡ count p xs
  count-keep p q [] h = refl
  count-keep p q (x ∷ xs) h = ground (arith, count-keep p q xs h, h x)

-- From the time `t` on, the limiter's hits of a key count as those that passed.
abbrev Follows : ℕ → RateLimiter → List Call → Type 0
Follows t l hits =
    (key : Text) (now : ℕ)
    → t ≤ now
    → count (in_window l.window now) (hits_of key l) ≡ count (recent l.window key now) hits

hits_of-put :
    (key j : Text) (ts : List ℕ) (l : RateLimiter)
    → hits_of j (record l { hits = put key ts l.hits })
      ≡ (if text_eq key j then ts else hits_of j l)
hits_of-put key j ts l = ground (arith, lookup-put key j ts l.hits)

still_in : (w t now now' : ℕ) → t ≤ now → in_window w now now' ≡ true → in_window w t now' ≡ true
still_in w t now now' le h = ground arith

module _ (c : Call) (l : RateLimiter) (hits : List Call) (t : ℕ) where
  abbrev valid : List ℕ
  valid = keep (in_window l.window c.now) (hits_of c.key l)

  count_valid :
      (now : ℕ)
      → c.now ≤ now
      → count (in_window l.window now) valid ≡ count (in_window l.window now) (hits_of c.key l)
  count_valid now le =
      count-keep (in_window l.window now) (in_window l.window c.now) (hits_of c.key l)
        (λ x. still_in l.window c.now now x le)

  of_key :
      (key : Text) (now : ℕ)
      → text_eq c.key key ≡ true
      → t ≤ now
      → Follows t l hits
      → count (in_window l.window now) (hits_of c.key l) ≡ count (recent l.window key now) hits
  of_key key now same le h =
      let is : c.key ≡ key = ground (arith, text_eq_iff c.key key) in
      subst
        (λ k. count (in_window l.window now) (hits_of c.key l) ≡ count (recent l.window k now) hits)
        is (h c.key now le)

  refused-Follows :
      t ≤ c.now → Follows t l hits → Follows c.now (record l { hits = put c.key valid l.hits }) hits
  refused-Follows later h key now le = elim (Bool-cases (text_eq c.key key)) [
    | inl same ↦
        rw (hits_of-put c.key key valid l)
          (rw same (count_valid now le ∙ of_key key now same (omega arith) h))
    | inr other ↦ rw (hits_of-put c.key key valid l) (rw other (h key now (omega arith)))
  ]

  recent_cons :
      (key : Text) (now : ℕ)
      → count (recent l.window key now) (c ∷ hits)
        ≡ (if text_eq c.key key then count (in_window l.window now) (c.now ∷ []) else 0)
          + count (recent l.window key now) hits
  recent_cons key now = ground arith

  passed-Follows :
      t ≤ c.now
      → Follows t l hits
      → Follows c.now (record l { hits = put c.key (valid ++ (c.now ∷ [])) l.hits }) (c ∷ hits)
  passed-Follows later h key now le = elim (Bool-cases (text_eq c.key key)) [
    | inl same ↦
        let old : count (in_window l.window now) valid ≡ count (recent l.window key now) hits =
          count_valid now le ∙ of_key key now same (omega arith) h in
        rw (hits_of-put c.key key (valid ++ (c.now ∷ [])) l, recent_cons, same)
          (omega (arith, count-append (in_window l.window now) valid (c.now ∷ [])))
    | inr other ↦
        rw (hits_of-put c.key key (valid ++ (c.now ∷ [])) l, recent_cons, other)
          (omega (arith, h key now (omega arith)))
  ]

module _ (c : Call) (l : RateLimiter) (hits : List Call) (t : ℕ) where
  allow_full :
      reaches (length (valid c l hits t)) l.limit ≡ true
      → allow c.key c.now l ≡ (record l { hits = put c.key (valid c l hits t) l.hits }, false)
  unfolding allow
  allow_full full = rw full refl

  allow_room :
      reaches (length (valid c l hits t)) l.limit ≡ false
      → allow c.key c.now l
        ≡ (record l { hits = put c.key (valid c l hits t ++ (c.now ∷ [])) l.hits }, true)
  unfolding allow
  allow_room room = rw room refl

decisions-Follows :
    (calls : List Call) (l : RateLimiter) (hits : List Call) (t : ℕ)
    → Forward t calls
    → Follows t l hits
    → decisions calls l ≡ by_rule l.limit l.window calls hits
unfolding decisions by_rule
decisions-Follows [] l hits t forward h = refl
decisions-Follows (c ∷ calls) l hits t (later, forward) h =
    let same : length (valid c l hits t) ≡ count (recent l.window c.key c.now) hits =
      h c.key c.now later in
    let refused =
      decisions-Follows calls (record l { hits = put c.key (valid c l hits t) l.hits }) hits c.now
        forward (refused-Follows c l hits t later h) in
    let passed =
      decisions-Follows calls
        (record l { hits = put c.key (valid c l hits t ++ (c.now ∷ [])) l.hits }) (c ∷ hits) c.now
        forward (passed-Follows c l hits t later h) in
    elim (Bool-cases (reaches (length (valid c l hits t)) l.limit)) [
      | inl full ↦
          rw (allow_full c l hits t full, subst (λ n. reaches n l.limit ≡ true) same full)
            (ap (λ r. false ∷ r) refused)
      | inr room ↦
          rw (allow_room c l hits t room, subst (λ n. reaches n l.limit ≡ false) same room)
            (ap (λ r. true ∷ r) passed)
    ]

-- On a clock that does not go back, the limiter, which forgets the hits that leave the window,
-- answers every sequence of requests by the rule: a request passes exactly where fewer than
-- `limit` requests of its key have passed in the window that ends with it.
pub decisions-by_rule :
    (limit : ℤ) (window : ℕ) (calls : List Call)
    → Forward 0 calls
    → decisions calls (new_rate_limiter limit window) ≡ by_rule limit window calls []
unfolding lookup
decisions-by_rule limit window calls forward =
    decisions-Follows calls (new_rate_limiter limit window) [] 0 forward (λ key now le. refl)
