-- ===== src/Scheduler/Retries.antt =====
-- scheduler/scheduler.go: how often a run is tried.
use multiagent.Base.{
  ℕ, zero, suc, ◌+◌, ◌≡◌, ◌≤◌, ◌<◌, refl, inl, inr, Bool, Option, none, some, [], ◌∷◌, ◌++◌, arith,
  length, length-append, Bool-cases, Option-cases,
}
use multiagent.Base.Text.{Text}
use multiagent.Scheduler.{
  Automation, Settings, Failure, Tries, Outcome, abandoned, ended, retry, is_abandoned,
}

-- What attempts come to, with so many left.
abbrev pub Retried : {W : Type 0} → ℕ → Tries W → Tries W → Outcome → Type 0
Retried left t t' abandoned =
    (t'.count < t.count + left) × (length t'.failures + t.count ≡ length t.failures + t'.count)
Retried left t t' (ended none) =
    (t'.count ≤ t.count + left)
    × (suc (length t'.failures + t.count) ≡ length t.failures + t'.count)
Retried left t t' (ended (some m)) =
    (t'.count ≡ t.count + left) × (length t'.failures + t.count ≡ length t.failures + t'.count)

Retried-suc :
    {W : Type 0} (left : ℕ) (t t₁ t' : Tries W) (out : Outcome)
    → t₁.count ≡ suc t.count
    → length t₁.failures ≡ suc (length t.failures)
    → Retried left t₁ t' out
    → Retried (suc left) t t' out
Retried-suc left t t₁ t' abandoned ec ef r = (omega arith, omega arith)
Retried-suc left t t₁ t' (ended none) ec ef r = (omega arith, omega arith)
Retried-suc left t t₁ t' (ended (some m)) ec ef r = (omega arith, omega arith)

module _ {W : Type 0} (c : Settings) (run : Automation → Text → W → W × Option Text)
    (cancelled : ℕ → Bool) (a : Automation) (key : Text) where
  abbrev tries : ℕ → ℕ → Option Text → Tries W → Tries W × Outcome
  tries = retry c run cancelled a key

  abbrev Works : ℕ → ℕ → Option Text → Tries W → Type 0
  Works left attempt error t =
      Retried left t (tries left attempt error t).0 (tries left attempt error t).1

  abbrev failure : ℕ → Text → Failure
  failure attempt m = record { automation_id = a.id; attempt = attempt; error = m }

  abbrev after : ℕ → Text → Tries W → Tries W
  after attempt m t = record {
    world = (run a key t.world).0;
    failures = t.failures ++ (failure attempt m ∷ []);
    count = suc t.count;
  }

  tried :
      (left attempt : ℕ) (error : Option Text) (t : Tries W)
      → ((m : Text) (t₁ : Tries W) → Works left (suc attempt) (some m) t₁)
      → Works (suc left) attempt error t
  unfolding retry
  tried left attempt error t rest = elim (Bool-cases (is_abandoned c run cancelled attempt)) [
    | inl off ↦ rw off (omega arith, refl)
    | inr on ↦ elim (Option-cases (run a key t.world).1) [
      | inl good ↦ rw (on, good) (omega arith, omega arith)
      | inr (m, bad) ↦
          rw (on, bad)
            (Retried-suc left t (after attempt m t)
              (tries left (suc attempt) (some m) (after attempt m t)).0
              (tries left (suc attempt) (some m) (after attempt m t)).1 refl
              (ground (arith, length-append t.failures (failure attempt m ∷ [])))
              (rest m (after attempt m t)))
    ]
  ]

  failing : (left attempt : ℕ) (m : Text) (t : Tries W) → Works left attempt (some m) t
  unfolding retry
  failing zero attempt m t = (omega arith, refl)
  failing (suc left) attempt m t = tried left attempt (some m) t (failing left (suc attempt))

-- A run makes at most one attempt more than the retries that are set. Where it succeeds, every
-- attempt but the last has been recorded as a failure; where it fails, all attempts have been made
-- and recorded; where it is abandoned during a wait, an attempt is left, and all that were made are
-- recorded.
pub retry-Retried :
    {W : Type 0} (c : Settings) (run : Automation → Text → W → W × Option Text)
    (cancelled : ℕ → Bool) (a : Automation) (key : Text) (t : Tries W)
    → Retried
        (suc c.max_retries)
        t
        (retry c run cancelled a key (suc c.max_retries) 0 none t).0
        (retry c run cancelled a key (suc c.max_retries) 0 none t).1
retry-Retried c run cancelled a key t =
    tried c run cancelled a key c.max_retries 0 none t
      (failing c run cancelled a key c.max_retries 1)
