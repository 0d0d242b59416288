-- ===== src/Checkpoints/Once.antt =====
-- api/checkpoint.go: how often a checkpoint's command runs.
use multiagent.Base.{
  ℕ, suc, ◌+◌, ◌≤◌, ◌<◌, ◌≡◌, ◌≢◌, refl, sym, inl, inr, true, Option, none, some, List, [], ◌∷◌,
  arith, if◌then◌else◌, ◌==◌, ==_iff, Bool-cases, Option-cases, subst,
}
use multiagent.Base.Text.{Text}
use multiagent.Executor.Host.{Ran, ExecError}
use multiagent.Checkpoints.{
  CheckpointStatus, pending, approved, rejected, Checkpoint, get_checkpoint, create_checkpoint,
  last_id, resolved, resolve_checkpoint,
}
use multiagent.Checkpoints.Handlers.{
  outcome_text, Caller, ResolveRequest, Server, Ruling, replies, rejects, approves, decide, reject,
  execute, record_approval, approve, carry_out, resolve_handler,
}
use multiagent.Checkpoints.Access.{Founded, decide-Founded}

abbrev pub count : ℕ → List ℕ → ℕ
count n [] = 0
count n (m ∷ ms) = (if m == n then 1 else 0) + count n ms

abbrev pub status_of : Option Checkpoint → Option CheckpointStatus
status_of none = none
status_of (some cp) = some cp.status

get_checkpoint-id :
    (id : ℕ) (rows : List Checkpoint) (cp : Checkpoint)
    → get_checkpoint id rows ≡ some cp
    → cp.id ≡ id
unfolding get_checkpoint
get_checkpoint-id id [] cp h = absurd (ground arith)
get_checkpoint-id id (r ∷ rows) cp h = ground (arith, ==_iff r.id id, get_checkpoint-id id rows cp)

abbrev apply : (Checkpoint → Checkpoint) → Option Checkpoint → Option Checkpoint
apply f none = none
apply f (some cp) = some (f cp)

get_checkpoint-resolve :
    (st : CheckpointStatus) (comment : Text) (by : ℕ) (result : Text) (now id id' : ℕ)
    (rows : List Checkpoint)
    → get_checkpoint id' (resolve_checkpoint id (resolved st comment by result now) rows) ≡ (
        if id == id'
        then apply (resolved st comment by result now) (get_checkpoint id' rows)
        else get_checkpoint id' rows)
unfolding get_checkpoint resolve_checkpoint
get_checkpoint-resolve st comment by result now id id' [] = ground arith
get_checkpoint-resolve st comment by result now id id' (cp ∷ rows) = ground (
  arith,
  get_checkpoint-resolve st comment by result now id id' rows,
  ==_iff cp.id id,
  ==_iff cp.id id',
  ==_iff id id',
)

get_checkpoint_beyond :
    (id : ℕ) (rows : List Checkpoint) → last_id rows < id → get_checkpoint id rows ≡ none
unfolding get_checkpoint last_id
get_checkpoint_beyond id [] h = refl
get_checkpoint_beyond id (cp ∷ rows) h = ground (arith, get_checkpoint_beyond id rows)

module _ {W : Type 0} where
  -- The command has run at most once, and only if the checkpoint is approved.
  pub record IsSettled (id : ℕ) (s : Server W) : Type 0 where
    pub once : count id s.ran ≤ 1
    pub only_approved :
        status_of (get_checkpoint id s.checkpoints) ≢ some approved → count id s.ran ≡ 0

  own_id :
      (n : ℕ) (cp : Checkpoint) (s : Server W)
      → get_checkpoint n s.checkpoints ≡ some cp
      → get_checkpoint cp.id s.checkpoints ≡ some cp
  own_id n cp s e =
      subst (λ (m : ℕ). get_checkpoint m s.checkpoints ≡ some cp)
        (sym (get_checkpoint-id n s.checkpoints cp e)) e

  not_yet :
      (id : ℕ) (cp : Checkpoint) (s : Server W)
      → get_checkpoint cp.id s.checkpoints ≡ some cp
      → cp.status ≡ pending
      → IsSettled id s
      → (cp.id == id) ≡ true
      → count id s.ran ≡ 0
  not_yet id cp s eg waits v same = v.only_approved (ground (arith, ==_iff cp.id id))

  reject-IsSettled :
      (now id : ℕ) (cp : Checkpoint) (comment : Text) (by : ℕ) (s : Server W)
      → get_checkpoint cp.id s.checkpoints ≡ some cp
      → cp.status ≡ pending
      → IsSettled id s
      → IsSettled id (reject now cp comment by s).0
  unfolding reject
  reject-IsSettled now id cp comment by s eg waits v = record {
    once = v.once;
    only_approved = λ h. elim (Bool-cases (cp.id == id)) [
      | inl same ↦ v.only_approved (ground (arith, ==_iff cp.id id))
      | inr other ↦
          v.only_approved (
            ground
              (arith, get_checkpoint-resolve rejected comment by [] now cp.id id s.checkpoints))
    ];
  }

-- What happens to the table: a new checkpoint, which waits, or a request.
pub data Event : Type 0 where
  creates : Checkpoint → Event
  asks : (now : ℕ) → Caller → ResolveRequest → Event

module _ {W : Type 0} (host : Text → Option Text) (run : Text → Text → W → W × Ran)
    (error_text : ExecError → Text) where
  approve-IsSettled :
      (now id : ℕ) (cp : Checkpoint) (comment : Text) (by : ℕ) (s : Server W)
      → get_checkpoint cp.id s.checkpoints ≡ some cp
      → cp.status ≡ pending
      → IsSettled id s
      → IsSettled id (approve host run error_text now cp comment by s).0
  unfolding approve execute record_approval
  approve-IsSettled now id cp comment by s eg waits v = elim (Option-cases (host cp.workdir)) [
    | inr (message, refused) ↦ rw (refused, approve) v
    | inl works ↦
        rw (works, approve)
          (elim (Bool-cases (cp.id == id)) [
            | inl same ↦ record {
              once = ground (arith, not_yet id cp s eg waits v same);
              only_approved = λ h. absurd (
                  h (
                    ground (
                      arith,
                      get_checkpoint-resolve approved comment by
                          (outcome_text error_text (run cp.workdir cp.command s.world).1) now cp.id
                          id s.checkpoints,
                      ==_iff cp.id id,
                    )));
            }
            | inr other ↦ record {
              once = ground (arith, v.once);
              only_approved = λ h. ground (
                arith,
                v.only_approved (
                    ground (
                      arith,
                      get_checkpoint-resolve approved comment by
                          (outcome_text error_text (run cp.workdir cp.command s.world).1) now cp.id
                          id s.checkpoints,
                    )),
              );
            }
          ])
  ]

  carry_out-IsSettled :
      (now id : ℕ) (c : Caller) (req : ResolveRequest) (ruling : Ruling) (s : Server W)
      → Founded c req s.checkpoints ruling
      → IsSettled id s
      → IsSettled id (carry_out host run error_text now ruling s).0
  unfolding carry_out
  carry_out-IsSettled now id c req (replies r) s f v = v
  carry_out-IsSettled now id c req (rejects cp comment by) s (n, ei, may, is) v =
      reject-IsSettled now id cp comment by s (own_id n cp s may.read) may.waits v
  carry_out-IsSettled now id c req (approves cp comment by) s (n, ei, may, is) v =
      approve-IsSettled now id cp comment by s (own_id n cp s may.read) may.waits v

  abbrev pub step : Event → Server W → Server W
  step (creates cp) s = record s {
    checkpoints = create_checkpoint (record cp { status = pending }) s.checkpoints;
  }
  step (asks now c req) s = (resolve_handler host run error_text now c req s).0

  abbrev pub history : List Event → Server W → Server W
  history [] s = s
  history (e ∷ es) s = history es (step e s)

  step-IsSettled : (e : Event) (id : ℕ) (s : Server W) → IsSettled id s → IsSettled id (step e s)
  unfolding create_checkpoint get_checkpoint resolve_handler
  step-IsSettled (creates cp) id s v = record {
    once = v.once;
    only_approved = λ h. elim (Bool-cases (suc (last_id s.checkpoints) == id)) [
      | inl new ↦ v.only_approved (
          ground (
            arith,
            ==_iff (suc (last_id s.checkpoints)) id,
            get_checkpoint_beyond id s.checkpoints,
          ))
      | inr old ↦ v.only_approved (ground (arith, h))
    ];
  }
  step-IsSettled (asks now c req) id s v =
      carry_out-IsSettled now id c req (decide c req s.checkpoints) s
        (decide-Founded c req s.checkpoints) v

  history-IsSettled :
      (es : List Event) (id : ℕ) (s : Server W) → IsSettled id s → IsSettled id (history es s)
  history-IsSettled [] id s v = v
  history-IsSettled (e ∷ es) id s v = history-IsSettled es id (step e s) (step-IsSettled e id s v)

-- Where each request is handled before the next, the command of a checkpoint is run at most once,
-- and never unless the checkpoint ends as approved: not while it waits, and not where it is
-- rejected. This holds through every history of new checkpoints and requests of any callers from a
-- server on that has run nothing.
pub history-once :
    {W : Type 0} (host : Text → Option Text) (run : Text → Text → W → W × Ran)
    (error_text : ExecError → Text) (es : List Event) (id : ℕ) (s : Server W)
    → s.ran ≡ []
    → IsSettled id (history host run error_text es s)
history-once host run error_text es id s idle =
    history-IsSettled host run error_text es id s
      (record { once = rw idle (omega arith); only_approved = λ h. rw idle refl })

-- Two requests that are decided on the same table, before either has written: a command that one
-- approves and the other rejects has run once more, and the checkpoint says that it is rejected.
pub approve_reject_race :
    {W : Type 0} (host : Text → Option Text) (run : Text → Text → W → W × Ran)
    (error_text : ExecError → Text) (now now' : ℕ) (c c' : Caller) (req req' : ResolveRequest)
    (cp : Checkpoint) (comment comment' : Text) (by by' : ℕ) (s : Server W)
    → decide c req s.checkpoints ≡ approves cp comment by
    → decide c' req' s.checkpoints ≡ rejects cp comment' by'
    → host cp.workdir ≡ none
    → (status_of (
          get_checkpoint cp.id
            (carry_out host run error_text now'
              (decide c' req' s.checkpoints)
              (carry_out host run error_text now (decide c req s.checkpoints) s).0).0.checkpoints)
        ≡ some rejected)
      × (count cp.id
            (carry_out host run error_text now'
              (decide c' req' s.checkpoints)
              (carry_out host run error_text now (decide c req s.checkpoints) s).0).0.ran
          ≡ suc (count cp.id s.ran))
unfolding carry_out approve reject execute record_approval
approve_reject_race host run error_text now now' c c' req req' cp comment comment' by by' s a r
      works =
    let founded : Founded c req s.checkpoints (approves cp comment by) =
      subst (Founded c req s.checkpoints) a (decide-Founded c req s.checkpoints) in
    let (n, ei, may, is) = founded in
    let result = outcome_text error_text (run cp.workdir cp.command s.world).1 in
    let rows = resolve_checkpoint cp.id (resolved approved comment by result now) s.checkpoints in
    (
      rw (a, r)
          (ground (
            arith,
            own_id n cp s may.read,
            get_checkpoint-resolve approved comment by result now cp.id cp.id s.checkpoints,
            get_checkpoint-resolve rejected comment' by' [] now' cp.id cp.id rows,
          )),
      rw (a, r) (ground arith),
    )
