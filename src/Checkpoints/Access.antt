-- ===== src/Checkpoints/Access.antt =====
-- api/checkpoint.go: who may see and resolve a checkpoint.
use multiagent.Base.{
  ℕ, zero, suc, ◌≡◌, ◌≢◌, ◌⊎◌, refl, inl, inr, Bool, true, false, ◌&&◌, not, Option, none, some,
  List, [], ◌∷◌, arith, All, All-sort_by, take, keep, is_nil, ◌==◌, ==_iff, Bool-cases,
  Option-cases,
}
use multiagent.Base.Text.{Text, codes, text_eq, text_eq_iff}
use multiagent.Base.Decimal.{parse_uint}
use multiagent.Executor.Host.{Ran, ExecError}
use multiagent.Checkpoints.{
  CheckpointStatus, pending, approved, rejected, status_eq, Checkpoint, get_checkpoint,
  CheckpointFilter, selects, list_checkpoints, drop, newer,
}
use multiagent.Checkpoints.Handlers.{
  Caller, can_see_all, ResolveRequest, Server, Ruling, replies, rejects, approves, decide,
  ruling_found, ruling_at, ruling_for, carry_out, list_status, refused, resolve_handler, ListReply,
  listed, list_handler, list_for, list_as, checkpoint_status,
}

-- A caller may resolve a checkpoint that waits: of its own, or any with a role that sees all.
pub record MayResolve (c : Caller) (rows : List Checkpoint) (id : ℕ) (cp : Checkpoint) (by : ℕ)
    : Type 0 where
  pub user : c.user ≡ some by
  pub read : get_checkpoint id rows ≡ some cp
  pub waits : cp.status ≡ pending
  pub permitted : (can_see_all c ≡ true) ⊎ (cp.user_id ≡ by)

-- What a ruling that changes something rests on.
abbrev pub Founded : Caller → ResolveRequest → List Checkpoint → Ruling → Type 0
Founded c req rows (replies r) = Unit
Founded c req rows (rejects cp comment by) =
    (id : ℕ) × (parse_uint req.id ≡ some id)
    × MayResolve c rows id cp by
    × (req.action ≡ codes "reject")
Founded c req rows (approves cp comment by) =
    (id : ℕ) × (parse_uint req.id ≡ some id)
    × MayResolve c rows id cp by
    × (req.action ≡ codes "approve")

status_eq-pending : (s : CheckpointStatus) → status_eq s pending ≡ true → s ≡ pending
status_eq-pending pending h = refl
status_eq-pending approved h = absurd (ground arith)
status_eq-pending rejected h = absurd (ground arith)

module _ (c : Caller) (req : ResolveRequest) (rows : List Checkpoint) (uid id : ℕ) where
  may_resolve :
      (cp : Checkpoint)
      → c.user ≡ some uid
      → get_checkpoint id rows ≡ some cp
      → (not (can_see_all c) && not (cp.user_id == uid)) ≡ false
      → not (status_eq cp.status pending) ≡ false
      → MayResolve c rows id cp uid
  may_resolve cp eu eg permitted waits = record {
    user = eu;
    read = eg;
    waits = status_eq-pending cp.status (ground arith);
    permitted = elim (Bool-cases (can_see_all c)) [
      | inl all ↦ inl all
      | inr own ↦ inr (ground (arith, ==_iff cp.user_id uid))
    ];
  }

  ruling-Founded :
      (cp : Checkpoint)
      → c.user ≡ some uid
      → parse_uint req.id ≡ some id
      → (not (text_eq req.action (codes "approve")) && not (text_eq req.action (codes "reject")))
        ≡ false
      → get_checkpoint id rows ≡ some cp
      → Founded c req rows (ruling_found c req uid (some cp))
  unfolding ruling_found
  ruling-Founded cp eu ei ea eg =
      elim (Bool-cases (not (can_see_all c) && not (cp.user_id == uid))) [
        | inl no_right ↦ rw no_right tt
        | inr right ↦ elim (Bool-cases (not (status_eq cp.status pending))) [
          | inl closed ↦ rw (right, closed) tt
          | inr open_row ↦ elim (Bool-cases (text_eq req.action (codes "reject"))) [
            | inl r ↦
                rw (right, open_row, r)
                  (
                    id,
                    ei,
                    may_resolve cp eu eg right open_row,
                    (text_eq_iff req.action (codes "reject")).0 r,
                  )
            | inr a ↦
                rw (right, open_row, a)
                  (
                    id,
                    ei,
                    may_resolve cp eu eg right open_row,
                    (text_eq_iff req.action (codes "approve")).0 (ground arith),
                  )
          ]
        ]
      ]

module _ (c : Caller) (req : ResolveRequest) (rows : List Checkpoint) where
  ruling_at-Founded :
      (uid : ℕ) (id : Option ℕ)
      → c.user ≡ some uid
      → parse_uint req.id ≡ id
      → Founded c req rows (ruling_at c req uid rows id)
  unfolding ruling_at
  ruling_at-Founded uid none eu ei = tt
  ruling_at-Founded uid (some id) eu ei = elim (Bool-cases (is_nil req.action)) [
    | inl blank ↦ rw blank tt
    | inr given ↦
        elim (Bool-cases (
          not (text_eq req.action (codes "approve"))
          && not (text_eq req.action (codes "reject")))) [
            | inl unknown ↦ rw (given, unknown) tt
            | inr known ↦ elim (Option-cases (get_checkpoint id rows)) [
              | inl gone ↦ rw (given, known, gone) (unfold ruling_found in tt)
              | inr (cp, eg) ↦
                  rw (given, known, eg) (ruling-Founded c req rows uid id cp eu ei known eg)
            ]
          ]
  ]

  ruling_for-Founded :
      (user : Option ℕ) → c.user ≡ user → Founded c req rows (ruling_for c req rows user)
  unfolding ruling_for
  ruling_for-Founded none eu = tt
  ruling_for-Founded (some uid) eu = ruling_at-Founded uid (parse_uint req.id) eu refl

  -- What the handler has decided to change, the caller may change.
  pub decide-Founded : Founded c req rows (decide c req rows)
  unfolding decide
  decide-Founded = ruling_for-Founded c.user refl

module _ {W : Type 0} (host : Text → Option Text) (run : Text → Text → W → W × Ran)
    (error_text : ExecError → Text) where
  carry_out-Founded :
      (now : ℕ) (c : Caller) (req : ResolveRequest) (ruling : Ruling) (s : Server W)
      → Founded c req s.checkpoints ruling
      → ((carry_out host run error_text now ruling s).0 ≡ s)
        ⊎ ((id : ℕ) × (cp : Checkpoint) × (by : ℕ) × (parse_uint req.id ≡ some id)
            × MayResolve c s.checkpoints id cp by)
  unfolding carry_out
  carry_out-Founded now c req (replies r) s f = inl refl
  carry_out-Founded now c req (rejects cp comment by) s (id, ei, may, is) =
      inr (id, cp, by, ei, may)
  carry_out-Founded now c req (approves cp comment by) s (id, ei, may, is) =
      inr (id, cp, by, ei, may)

-- A request that changes anything, a row, an audit or the world, comes from an authenticated caller,
-- who owns the checkpoint that it names or has a role that sees all, and the checkpoint waits.
pub resolve_handler-MayResolve :
    {W : Type 0} (host : Text → Option Text) (run : Text → Text → W → W × Ran)
    (error_text : ExecError → Text) (now : ℕ) (c : Caller) (req : ResolveRequest) (s : Server W)
    → ((resolve_handler host run error_text now c req s).0 ≡ s)
      ⊎ ((id : ℕ) × (cp : Checkpoint) × (by : ℕ) × (parse_uint req.id ≡ some id)
          × MayResolve c s.checkpoints id cp by)
unfolding resolve_handler
resolve_handler-MayResolve host run error_text now c req s =
    carry_out-Founded host run error_text now c req (decide c req s.checkpoints) s
      (decide-Founded c req s.checkpoints)

module _ (P : Checkpoint → Type 0) where
  All-take : (n : ℕ) (xs : List Checkpoint) → All P xs → All P (take n xs)
  All-take zero xs h = tt
  All-take (suc n) [] h = tt
  All-take (suc n) (x ∷ xs) h = (h.0, All-take n xs h.1)

  All-drop : (n : ℕ) (xs : List Checkpoint) → All P xs → All P (drop n xs)
  All-drop zero xs h = h
  All-drop (suc n) [] h = tt
  All-drop (suc n) (x ∷ xs) h = All-drop n xs h.1

  All-keep :
      (p : Checkpoint → Bool) (xs : List Checkpoint)
      → ((x : Checkpoint) → p x ≡ true → P x)
      → All P (keep p xs)
  All-keep p [] f = tt
  All-keep p (x ∷ xs) f = elim (Bool-cases (p x)) [
    | inl e ↦ rw e (f x e, All-keep p xs f)
    | inr e ↦ rw e (All-keep p xs f)
  ]

-- A page shows the checkpoints of the filter's user only.
list_checkpoints-own :
    (f : CheckpointFilter) (rows : List Checkpoint)
    → f.user_id ≢ 0
    → All (λ cp. cp.user_id ≡ f.user_id) (list_checkpoints f rows).0
unfolding list_checkpoints
list_checkpoints-own f rows known =
    All-take (λ cp. cp.user_id ≡ f.user_id) f.limit _
      (All-drop (λ cp. cp.user_id ≡ f.user_id) f.offset _
        (All-sort_by newer (λ cp. cp.user_id ≡ f.user_id) (keep (selects f) rows)
          (All-keep (λ cp. cp.user_id ≡ f.user_id) (selects f) rows
            (λ cp e. ground (arith, ==_iff cp.user_id f.user_id, ==_iff f.user_id 0)))))

abbrev pub Shows : ListReply → (Checkpoint → Type 0) → Type 0
Shows (refused r) P = Unit
Shows (listed page total limit offset own) P = All P page × (own ≡ true)

module _ (c : Caller) (uid : ℕ) (limit offset : Text) (rows : List Checkpoint) where
  list_for-own :
      (status : Option CheckpointStatus)
      → can_see_all c ≡ false
      → uid ≢ 0
      → Shows (list_for c uid status limit offset rows) (λ cp. cp.user_id ≡ uid)
  unfolding list_for
  list_for-own status own known =
      rw own (list_checkpoints-own _ rows known, ground (arith, ==_iff uid 0))

  list_status-own :
      (status : Option CheckpointStatus)
      → can_see_all c ≡ false
      → uid ≢ 0
      → Shows (list_status c uid status limit offset rows) (λ cp. cp.user_id ≡ uid)
  unfolding list_status
  list_status-own none own known = tt
  list_status-own (some s) own known = list_for-own (some s) own known

-- A caller whose role does not see all is shown its own checkpoints only, whatever it asks for.
pub list_handler-own :
    (c : Caller) (uid : ℕ) (status limit offset : Text) (rows : List Checkpoint)
    → c.user ≡ some uid
    → can_see_all c ≡ false
    → uid ≢ 0
    → Shows (list_handler c status limit offset rows) (λ cp. cp.user_id ≡ uid)
unfolding list_handler list_as
list_handler-own c uid status limit offset rows eu own known = elim (Bool-cases (is_nil status)) [
  | inl blank ↦ rw (eu, list_as, blank) (list_for-own c uid limit offset rows none own known)
  | inr given ↦
      rw (eu, list_as, given)
        (list_status-own c uid limit offset rows (checkpoint_status status) own known)
]
