-- ===== src/Taskrun/Queue/Claims.antt =====
-- memory.go: who gets which task.
use multiagent.Base.{
  ℕ, ◌≤◌, ◌≡◌, ◌≢◌, ap, Bool, true, false, Option, none, some, List, [], ◌∷◌, arith, inl, inr,
  if◌then◌else◌, Bool-cases, Option-cases, All, Ascending, sort_by-Ascending, refl, All-of-sort_by,
  by_key, subst, All-mono,
}
use multiagent.Base.Text.{Text, text_eq, text_eq_iff}
use multiagent.Base.Assoc.{Assoc, lookup, put, lookup-put}
use multiagent.Taskrun.Run.{queued, running, status_eq}
use multiagent.Taskrun.Queue.{
  Row, MemoryQueue, clone_row, keys, created_of, sorted_ids, first_queued, claimed, claim_next,
}

abbrev pub row_queued : Option Row → Bool
row_queued none = false
row_queued (some row) = status_eq row.run.status queued

-- A task of this id waits in the queue.
abbrev pub queued_at : MemoryQueue → Text → Bool
queued_at q id = row_queued (lookup id q.rows)

All-keys {κ} :
    (P : Text → Type κ) (rows : Assoc Row) (k : Text) {row : Row}
    → All P (keys rows)
    → lookup k rows ≡ some row
    → P k
unfolding keys lookup
All-keys P [] k h e = absurd (ground arith)
All-keys P ((j, r) ∷ rows) k h e = elim (Bool-cases (text_eq j k)) [
  | inl same ↦ subst P ((text_eq_iff j k).0 same) h.0
  | inr other ↦ All-keys P rows k h.1 (rw other at e)
]

module _ (rows : Assoc Row) where
  first_queued-found :
      (ids : List Text) (id : Text) (row : Row)
      → first_queued rows ids ≡ some (id, row)
      → (lookup id rows ≡ some row) × (row.run.status ≡ queued)
  unfolding first_queued
  first_queued-found [] id row e = absurd (ground arith)
  first_queued-found (i ∷ ids) id row e = ground (arith, first_queued-found ids id row)

  first_queued-none :
      (ids : List Text)
      → first_queued rows ids ≡ none
      → All (λ j. row_queued (lookup j rows) ≡ false) ids
  unfolding first_queued
  first_queued-none [] e = tt
  first_queued-none (i ∷ ids) e = (ground arith, first_queued-none ids (ground arith))

  abbrev created : Text → ℕ
  created id = created_of (lookup id rows)

  first_queued-first :
      (ids : List Text) (id : Text) (row : Row)
      → Ascending created ids
      → first_queued rows ids ≡ some (id, row)
      → All (λ j. row_queued (lookup j rows) ≡ true → row.run.created_at ≤ created j) ids
  unfolding first_queued
  first_queued-first [] id row h e = tt
  first_queued-first (i ∷ ids) id row h e = elim (Bool-cases (row_queued (lookup i rows))) [
    | inl here ↦
        let at : row.run.created_at ≡ created i = ground arith in
        (λ _. omega arith, All-mono ids (λ j le _. omega arith) h.0)
    | inr there ↦ (λ q. cc, first_queued-first ids id row h.1 (ground arith))
  ]

module _ (q : MemoryQueue) where
  -- The task that the next ClaimNext takes.
  abbrev target : Option (Text × Row)
  target = first_queued q.rows (sorted_ids q.rows)

  target-first :
      (id : Text) (row : Row) (j : Text) (other : Row)
      → target ≡ some (id, row)
      → lookup j q.rows ≡ some other
      → other.run.status ≡ queued
      → row.run.created_at ≤ other.run.created_at
  unfolding sorted_ids
  target-first id row j other e at waits = ground (
    arith,
    All-keys (λ i. row_queued (lookup i q.rows) ≡ true → row.run.created_at ≤ created q.rows i)
        q.rows j
        (All-of-sort_by (by_key (created q.rows)) _ (keys q.rows) (
          first_queued-first q.rows (sorted_ids q.rows) id row
            (sort_by-Ascending (created q.rows) (keys q.rows)) e))
        at,
  )

  target-none : (j : Text) → target ≡ none → queued_at q j ≡ false
  unfolding sorted_ids
  target-none j e = elim (Option-cases (lookup j q.rows)) [
    | inl absent ↦ rw absent
    | inr (other, at) ↦
        All-keys (λ i. row_queued (lookup i q.rows) ≡ false) q.rows j
          (All-of-sort_by (by_key (created q.rows)) _ (keys q.rows)
            (first_queued-none q.rows (sorted_ids q.rows) e))
          at
  ]

-- The row is the old one, running for this worker with this lease, updated at this time.
abbrev pub IsClaim : Text → ℕ → ℕ → Row → Row → Type 0
IsClaim worker lease now old new =
    (new.run.status ≡ running)
    × (new.worker_id ≡ worker)
    × (new.lease_expires_at ≡ lease)
    × (new.run.updated_at ≡ now)
    × (new.attempts ≡ old.attempts)
    × (record new.run { status = old.run.status; updated_at = old.run.updated_at } ≡ old.run)

module _ (worker : Text) (lease now : ℕ) (q : MemoryQueue) where
  claim_next-target :
      (row : Row)
      → (claim_next worker lease now q).1 ≡ some row
      → (id : Text) × (old : Row) × (target q ≡ some (id, old))
        × (row ≡ clone_row (claimed worker lease now old))
        × ((claim_next worker lease now q).0.rows ≡ put id (claimed worker lease now old) q.rows)
  unfolding claim_next
  claim_next-target row e = elim (Option-cases (target q)) [
    | inl nothing ↦ absurd (ground arith)
    | inr ((id, old), found) ↦ (id, old, found, ground arith, ground arith)
  ]

  pub claim_next-put :
      (row : Row)
      → (claim_next worker lease now q).1 ≡ some row
      → (id : Text) × (old : Row) × (lookup id q.rows ≡ some old)
        × (old.run.status ≡ queued)
        × ((claim_next worker lease now q).0.rows ≡ put id (claimed worker lease now old) q.rows)
  claim_next-put row e =
      let (id, old, found, _, after) = claim_next-target row e in
      let (at, waits) = first_queued-found q.rows (sorted_ids q.rows) id old found in
      (id, old, at, waits, after)

  -- The task that ClaimNext hands out is as old as any that waits.
  pub claim_next-oldest :
      (row : Row) (j : Text) (other : Row)
      → (claim_next worker lease now q).1 ≡ some row
      → lookup j q.rows ≡ some other
      → other.run.status ≡ queued
      → row.run.created_at ≤ other.run.created_at
  unfolding clone_row
  claim_next-oldest row j other e at waits =
      let (id, old, found, is, _) = claim_next-target row e in
      ground (arith, target-first q id old j other found at waits)

  pub claim_next-row :
      (row : Row) (j : Text)
      → (claim_next worker lease now q).1 ≡ some row
      → (id : Text) × (old : Row) × (lookup id q.rows ≡ some old)
        × (old.run.status ≡ queued)
        × (row ≡ clone_row (claimed worker lease now old))
        × (lookup j (claim_next worker lease now q).0.rows
            ≡ (if text_eq id j then some (claimed worker lease now old) else lookup j q.rows))
  claim_next-row row j e =
      let (id, old, found, is, after) = claim_next-target row e in
      let (at, waited) = first_queued-found q.rows (sorted_ids q.rows) id old found in
      (id, old, at, waited, is, rw after (lookup-put id j (claimed worker lease now old) q.rows))

  -- The task that ClaimNext hands out had waited; its row becomes running, with the caller's name
  -- and lease, the queue's clock as the time of its update and all else as it was, and no other row
  -- changes. What is handed out is that row without the run's progress.
  pub claim_next-effect :
      (row : Row) (j : Text)
      → (claim_next worker lease now q).1 ≡ some row
      → (id : Text) × (old : Row) × (new : Row) × (lookup id q.rows ≡ some old)
        × (old.run.status ≡ queued)
        × IsClaim worker lease now old new
        × (row ≡ record new { run = record new.run { progress = [] } })
        × (lookup j (claim_next worker lease now q).0.rows
            ≡ (if text_eq id j then some new else lookup j q.rows))
  unfolding clone_row
  claim_next-effect row j e =
      let (id, old, at, waited, is, same) = claim_next-row row j e in
      let new = claimed worker lease now old in
      (id, old, new, at, waited, (refl, refl, refl, refl, refl, refl), is, same)

  -- Where ClaimNext hands out nothing, nothing waits, and the queue is as it was.
  pub claim_next-none :
      (j : Text)
      → (claim_next worker lease now q).1 ≡ none
      → ((claim_next worker lease now q).0 ≡ q) × (queued_at q j ≡ false)
  unfolding claim_next
  claim_next-none j e = (ground arith, target-none q j (ground arith))

-- One call of ClaimNext by some node.
pub record Claim : Type 0 where
  pub worker : Text
  pub lease : ℕ
  pub now : ℕ

-- The ids in the order in which a sequence of calls, by whatever nodes, hands them out.
unfoldable pub claim_all : List Claim → MemoryQueue → List Text
claim_all [] q = []
claim_all (c ∷ cs) q =
    let (q', row) = claim_next c.worker c.lease c.now q in
    let later = claim_all cs q' in elim row [ none ↦ later | some r ↦ r.run.id ∷ later ]

-- Every row stands under the id of its run.
abbrev pub KeysMatch : MemoryQueue → Type 0
KeysMatch q = (j : Text) (row : Row) → lookup j q.rows ≡ some row → row.run.id ≡ j

abbrev pub Distinct : List Text → Type 0
Distinct [] = Unit
Distinct (x ∷ xs) = All (λ y. x ≢ y) xs × Distinct xs

module _ (c : Claim) (q : MemoryQueue) where
  abbrev after : MemoryQueue
  after = (claim_next c.worker c.lease c.now q).0

  claim_next-KeysMatch : KeysMatch q → KeysMatch after
  claim_next-KeysMatch h j row at = elim (Option-cases (claim_next c.worker c.lease c.now q).1) [
    | inl e ↦ h j row (rw (claim_next-none c.worker c.lease c.now q j e).0 at at)
    | inr (r, e) ↦
        let (id, old, found, _, _, same) = claim_next-row c.worker c.lease c.now q r j e in
        ground (arith, h id old, h j row, text_eq_iff id j)
  ]

  -- What waits after a claim had waited before it.
  queued_at-claim_next : (j : Text) → queued_at after j ≡ true → queued_at q j ≡ true
  queued_at-claim_next j w = elim (Option-cases (claim_next c.worker c.lease c.now q).1) [
    | inl e ↦ rw (claim_next-none c.worker c.lease c.now q j e).0 at w
    | inr (r, e) ↦
        let (id, old, found, _, _, same) = claim_next-row c.worker c.lease c.now q r j e in
        ground (arith, text_eq_iff id j)
  ]

  -- What a claim hands out had waited, and waits no longer.
  claim_next-taken :
      (r : Row)
      → KeysMatch q
      → (claim_next c.worker c.lease c.now q).1 ≡ some r
      → (queued_at q r.run.id ≡ true) × (queued_at after r.run.id ≡ false)
  unfolding clone_row
  claim_next-taken r h e =
      let (id, old, found, waited, is, same) =
        claim_next-row c.worker c.lease c.now q r r.run.id e in
      let key : r.run.id ≡ id = ground (arith, h id old) in
      (rw key (ground arith), ground (arith, text_eq_iff id r.run.id))

claim_all-queued :
    (cs : List Claim) (q : MemoryQueue)
    → KeysMatch q
    → All (λ id. queued_at q id ≡ true) (claim_all cs q)
unfolding claim_all
claim_all-queued [] q h = tt
claim_all-queued (c ∷ cs) q h =
    let later : All (λ id. queued_at q id ≡ true) (claim_all cs (after c q)) =
      All-mono _ (queued_at-claim_next c q)
        (claim_all-queued cs (after c q) (claim_next-KeysMatch c q h)) in
    elim (Option-cases (claim_next c.worker c.lease c.now q).1) [
      | inl e ↦ rw (e, All) later
      | inr (r, e) ↦ rw (e, All) ((claim_next-taken c q r h e).0, later)
    ]

-- Whichever nodes call ClaimNext, in whatever order, no task is handed out twice.
pub claim_all-Distinct :
    (cs : List Claim) (q : MemoryQueue) → KeysMatch q → Distinct (claim_all cs q)
unfolding claim_all
claim_all-Distinct [] q h = tt
claim_all-Distinct (c ∷ cs) q h =
    let h' : KeysMatch (after c q) = claim_next-KeysMatch c q h in
    let later : Distinct (claim_all cs (after c q)) = claim_all-Distinct cs (after c q) h' in
    elim (Option-cases (claim_next c.worker c.lease c.now q).1) [
      | inl e ↦ rw (e, Distinct) later
      | inr (r, e) ↦
          let (_, gone) = claim_next-taken c q r h e in
          rw (e, Distinct)
            (
              All-mono _ (λ y waits same. cc (ap (queued_at (after c q)) same))
                  (claim_all-queued cs (after c q) h'),
              later,
            )
    ]
