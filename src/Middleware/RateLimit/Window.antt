-- ===== src/Middleware/RateLimit/Window.antt =====
-- ratelimit.go: no window holds more requests of a key that passed than the limit.
use multiagent.Base.{
  ℕ, ◌+◌, ◌≤◌, ◌<◌, ◌≡◌, subst, Bool, true, false, ◌&&◌, List, [], ◌∷◌, arith, ltb, leb, inl, inr,
  Bool-cases,
}
use multiagent.Base.Text.{Text, text_eq, text_eq_iff}
use multiagent.Base.Int.{pos}
use multiagent.Middleware.RateLimit.{new_rate_limiter, reaches}
use multiagent.Middleware.RateLimit.Reference.{
  Call, count, recent, decisions, by_rule, Forward, decisions-by_rule,
}

-- The requests that were answered with `true`, the last one in front of `hits`.
unfoldable pub passed : List Call → List Bool → List Call → List Call
passed [] answers hits = hits
passed (c ∷ calls) [] hits = hits
passed (c ∷ calls) (true ∷ answers) hits = passed calls answers (c ∷ hits)
passed (c ∷ calls) (false ∷ answers) hits = passed calls answers hits

-- The requests of a key at or after `from`, less than a window later.
abbrev pub within : ℕ → Text → ℕ → Call → Bool
within window key from c = text_eq c.key key && (leb from c.now && ltb c.now (from + window))

module _ (limit window : ℕ) (key : Text) (from : ℕ) where
  -- What a window that `now` lies in holds is held by the window that ends at `now`.
  count-within :
      (hits : List Call) (now : ℕ)
      → now < from + window
      → count (within window key from) hits ≤ count (recent window key now) hits
  count-within [] now before = omega arith
  count-within (c ∷ hits) now before = ground (arith, count-within hits now before)

  -- One more request within the window passed only where there was room.
  one_more :
      (c : Call) (hits : List Call)
      → count (within window key from) hits ≤ limit
      → reaches (count (recent window c.key c.now) hits) (pos limit) ≡ false
      → count (within window key from) (c ∷ hits) ≤ limit
  one_more c hits h room = elim (Bool-cases (within window key from c)) [
    | inl there ↦
        let same : c.key ≡ key = ground (arith, text_eq_iff c.key key) in
        let le : count (within window key from) hits ≤ count (recent window key c.now) hits =
          count-within hits c.now (ground arith) in
        let some_left : count (recent window c.key c.now) hits < limit = ground arith in
        let left : count (recent window key c.now) hits < limit =
          subst (λ k. count (recent window k c.now) hits < limit) same some_left in
        ground arith
    | inr away ↦ ground arith
  ]

  passed-by_rule :
      (calls hits : List Call)
      → count (within window key from) hits ≤ limit
      → count (within window key from) (passed calls (by_rule (pos limit) window calls hits) hits)
        ≤ limit
  unfolding passed by_rule
  passed-by_rule [] hits h = h
  passed-by_rule (c ∷ calls) hits h =
      elim (Bool-cases (reaches (count (recent window c.key c.now) hits) (pos limit))) [
        | inl full ↦ rw (full, passed, by_rule) (passed-by_rule calls hits h)
        | inr room ↦
            rw (room, passed, by_rule) (passed-by_rule calls (c ∷ hits) (one_more c hits h room))
      ]

-- On a clock that does not go back, of the requests of one key that the limiter lets pass, no
-- window, wherever it begins, holds more than `limit`.
pub allow-window :
    (limit window : ℕ) (key : Text) (from : ℕ) (calls : List Call)
    → Forward 0 calls
    → count
        (within window key from)
        (passed calls (decisions calls (new_rate_limiter (pos limit) window)) [])
      ≤ limit
allow-window limit window key from calls forward =
    rw (decisions-by_rule (pos limit) window calls forward)
      (passed-by_rule limit window key from calls [] (omega arith))
