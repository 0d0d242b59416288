-- ===== src/Taskrun/Queue/Writes.antt =====
-- memory.go: what an operation on the queue writes, and what it leaves alone.
use multiagent.Base.{
  ℕ, ◌≡◌, refl, Bool, true, false, Option, none, some, arith, inl, inr, if◌then◌else◌, ◌⊎◌,
  Option-cases,
}
use multiagent.Base.Text.{Text, text_eq, text_eq_iff}
use multiagent.Base.Int.{ℤ}
use multiagent.Base.Assoc.{lookup, lookup-put, lookup-map_values}
use multiagent.Taskrun.Run.{Status, queued, running, canceling, status_eq, IsFinal}
use multiagent.Taskrun.Queue.{
  Row, MemoryQueue, enqueue, claim_next, clone_row, write_row, update_status_if, expire_row,
  non_negative, requeue_expired, get,
}
use multiagent.Taskrun.Queue.Claims.{claim_next-row, claim_next-none}

module _ (id : Text) (expected new_status : Status) (row : Option Row) (now : ℕ)
    (q : MemoryQueue) where
  abbrev updated : MemoryQueue × Bool
  updated = update_status_if id expected new_status row now q

  pub update_status_if-hit :
      (cur : Row) (j : Text)
      → lookup id q.rows ≡ some cur
      → status_eq cur.run.status expected ≡ true
      → (updated.1 ≡ true)
        × (lookup j updated.0.rows
            ≡ (if text_eq id j then some (write_row new_status row now cur) else lookup j q.rows))
  unfolding update_status_if
  update_status_if-hit cur j at same =
      (ground arith, ground (arith, lookup-put id j (write_row new_status row now cur) q.rows))

  pub update_status_if-miss :
      (cur : Row)
      → lookup id q.rows ≡ some cur
      → status_eq cur.run.status expected ≡ false
      → updated ≡ (q, false)
  unfolding update_status_if
  update_status_if-miss cur at other = ground arith

  pub update_status_if-absent : lookup id q.rows ≡ none → updated ≡ (q, false)
  unfolding update_status_if
  update_status_if-absent at = ground arith

  -- A row of another status than the one expected is not touched.
  pub update_status_if-other :
      (j : Text) (cur : Row)
      → lookup j q.rows ≡ some cur
      → status_eq cur.run.status expected ≡ false
      → lookup j updated.0.rows ≡ some cur
  update_status_if-other j cur at differs = elim (Option-cases (lookup id q.rows)) [
    | inl absent ↦ rw (update_status_if-absent absent) at
    | inr (old, there) ↦ written old there (status_eq old.run.status expected) refl
  ]
    where
      written :
          (old : Row)
          → lookup id q.rows ≡ some old
          → (b : Bool) → status_eq old.run.status expected ≡ b
          → lookup j updated.0.rows ≡ some cur
      written old there true same =
          ground (arith, (update_status_if-hit old j there same).1, text_eq_iff id j)
      written old there false same = rw (update_status_if-miss old there same) at

-- The statuses at which an operation writes over a row.
abbrev pub IsOpen : Status → Type 0
IsOpen s = (s ≡ queued) ⊎ (s ≡ running) ⊎ (s ≡ canceling)

final-ne-open : (s e : Status) → IsFinal s → IsOpen e → status_eq s e ≡ false
final-ne-open s e f o = ground arith

-- An ended row stays as it is.
abbrev pub KeepsFinal : (MemoryQueue → MemoryQueue) → Type 0
KeepsFinal f =
    (q : MemoryQueue) (j : Text) (row : Row)
    → lookup j q.rows ≡ some row
    → IsFinal row.run.status
    → lookup j (f q).rows ≡ some row

pub update_status_if-KeepsFinal :
    (id : Text) (expected new_status : Status) (row : Option Row) (now : ℕ)
    → IsOpen expected
    → KeepsFinal (λ q. (update_status_if id expected new_status row now q).0)
update_status_if-KeepsFinal id expected new_status row now o q j cur at f =
    update_status_if-other id expected new_status row now q j cur at
      (final-ne-open cur.run.status expected f o)

pub enqueue-KeepsFinal : (row : Row) → KeepsFinal (λ q. (enqueue row q).0)
unfolding enqueue
enqueue-KeepsFinal row q j cur at f =
    ground (arith, lookup-put row.run.id j (clone_row row) q.rows, text_eq_iff row.run.id j)

pub claim_next-KeepsFinal :
    (worker : Text) (lease now : ℕ) → KeepsFinal (λ q. (claim_next worker lease now q).0)
claim_next-KeepsFinal worker lease now q j cur at f =
    elim (Option-cases (claim_next worker lease now q).1) [
      | inl e ↦ rw (claim_next-none worker lease now q j e).0 at
      | inr (r, e) ↦
          let (id, old, found, waited, _, same) = claim_next-row worker lease now q r j e in
          ground (arith, text_eq_iff id j)
    ]

pub requeue_expired-KeepsFinal :
    (now : ℕ) (max : ℤ) → KeepsFinal (λ q. (requeue_expired now max q).0)
unfolding requeue_expired
requeue_expired-KeepsFinal now max q j cur at f =
    ground (arith, lookup-map_values (expire_row now (non_negative max)) j q.rows)

-- The row that Get hands out.
pub get-lookup :
    (id : Text) (q : MemoryQueue) (row : Row)
    → get id q ≡ some row
    → (cur : Row) × (lookup id q.rows ≡ some cur) × (row ≡ clone_row cur)
unfolding get
get-lookup id q row e = elim (Option-cases (lookup id q.rows)) [
  | inl absent ↦ absurd (ground arith)
  | inr (cur, at) ↦ (cur, at, ground arith)
]
