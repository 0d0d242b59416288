-- ===== src/Checkpoints/Handlers.antt =====
-- server/internal/api/checkpoint.go: the handlers. ResolveCheckpointHandler is cut where other
-- requests may come between: what it reads and decides, the run of the command, and what it writes.
use multiagent.Base.{
  ℕ, Bool, true, false, ◌&&◌, ◌||◌, not, Option, none, some, List, [], ◌∷◌, ◌++◌, if◌then◌else◌,
  is_nil, ◌==◌,
}
use multiagent.Base.Text.{Text, codes, text_eq}
use multiagent.Base.Decimal.{decimal_int, parse_uint, atoi}
use multiagent.Base.Int.{ℤ, pos, negsuc}
use multiagent.Executor.Blacklist.{Decision, allow, deny}
use multiagent.Executor.Host.{Ran, Result, ExecError}
use multiagent.Checkpoints.{
  CheckpointStatus, pending, approved, rejected, status_eq, Checkpoint, display_id, get_checkpoint,
  resolved, resolve_checkpoint, CheckpointFilter, list_checkpoints, normalize_audit_page_size,
}

-- Who asks: the identity that the authentication has set.
pub record Caller : Type 0 where
  pub user : Option ℕ
  pub role : Text

-- checkpointCanSeeAll
abbrev pub can_see_all : Caller → Bool
can_see_all c = text_eq c.role (codes "admin") || text_eq c.role (codes "developer")

pub record ResolveRequest : Type 0 where
  pub id : Text
  pub action : Text
  pub comment : Text

pub record Audit : Type 0 where
  pub user_id : ℕ
  pub command : Text
  pub workdir : Text
  pub decision : Decision
  pub reason : Text
  pub allowed : Bool
  pub note : Text

-- `ran` lists the checkpoints whose commands the host was given, the last in front.
pub record Server (W : Type 0) : Type 0 where
  pub checkpoints : List Checkpoint
  pub audits : List Audit
  pub world : W
  pub ran : List ℕ

pub data Reply : Type 0 where
  unauthorized bad_id bad_body bad_action bad_status not_found forbidden : Reply
  conflict : CheckpointStatus → Reply
  no_host : Text → Reply
  done : CheckpointStatus → (display_id result : Text) → Reply

-- What the handler has decided before it changes anything. The copy of the row is the one read.
pub data Ruling : Type 0 where
  replies : Reply → Ruling
  rejects approves : Checkpoint → (comment : Text) → (by : ℕ) → Ruling

abbrev ruling_by : Text → Checkpoint → Text → ℕ → Ruling
ruling_by action cp comment by =
    if text_eq action (codes "reject") then rejects cp comment by else approves cp comment by

unfoldable pub ruling_found : Caller → ResolveRequest → ℕ → Option Checkpoint → Ruling
ruling_found c req uid none = replies not_found
ruling_found c req uid (some cp) =
    if not (can_see_all c) && not (cp.user_id == uid)
    then replies forbidden
    else if not (status_eq cp.status pending)
    then replies (conflict cp.status)
    else ruling_by req.action cp req.comment uid

unfoldable pub ruling_at : Caller → ResolveRequest → ℕ → List Checkpoint → Option ℕ → Ruling
unfolding ruling_found
ruling_at c req uid rows none = replies bad_id
ruling_at c req uid rows (some id) =
    if is_nil req.action
    then replies bad_body
    else if not (text_eq req.action (codes "approve")) && not (text_eq req.action (codes "reject"))
    then replies bad_action
    else ruling_found c req uid (get_checkpoint id rows)

unfoldable pub ruling_for : Caller → ResolveRequest → List Checkpoint → Option ℕ → Ruling
unfolding ruling_at
ruling_for c req rows none = replies unauthorized
ruling_for c req rows (some uid) = ruling_at c req uid rows (parse_uint req.id)

-- The reading part of ResolveCheckpointHandler.
unfoldable pub decide : Caller → ResolveRequest → List Checkpoint → Ruling
unfolding ruling_for
decide c req rows = ruling_for c req rows c.user

abbrev pub audit_of : Checkpoint → Decision → Bool → Text → Audit
audit_of cp decision allowed word = record {
  user_id = cp.user_id;
  command = cp.command;
  workdir = cp.workdir;
  decision = decision;
  reason = cp.reason;
  allowed = allowed;
  note = codes "checkpoint " ++ (word ++ (codes " id=" ++ display_id cp));
}

-- The rejection: the row and its audit.
unfoldable pub reject : {W : Type 0} → ℕ → Checkpoint → Text → ℕ → Server W → Server W × Reply
reject now cp comment by s = (
  record s {
    checkpoints = resolve_checkpoint cp.id (resolved rejected comment by [] now) s.checkpoints;
    audits = s.audits ++ (audit_of cp deny false (codes "rejected") ∷ []);
  },
  done rejected (display_id cp) [],
)

output_text : Option Result → Text
output_text none = []
output_text (some r) =
    codes "exit_code: "
    ++ (decimal_int r.exit_code
        ++ ((10 ∷ codes "--- stdout ---")
            ++ ((10 ∷ r.stdout) ++ ((10 ∷ codes "--- stderr ---") ++ (10 ∷ r.stderr)))))

-- The result that an approval records.
unfoldable pub outcome_text : (ExecError → Text) → Ran → Text
unfolding output_text
outcome_text error_text r = elim r.error [
  | some e ↦ codes "执行失败: " ++ error_text e
  | none ↦ output_text r.result
]

module _ {W : Type 0} (host : Text → Option Text) (run : Text → Text → W → W × Ran)
    (error_text : ExecError → Text) where
  -- The run of an approved command in its directory; `host` gives NewHostExecutor's error,
  -- `error_text` the text of an error of Run.
  unfoldable pub execute : Checkpoint → Server W → Server W × Text
  execute cp s =
      let (w, r) = run cp.workdir cp.command s.world in
      (record s { world = w; ran = cp.id ∷ s.ran }, outcome_text error_text r)

  -- The approval's row and audit.
  unfoldable pub record_approval : ℕ → Checkpoint → Text → ℕ → Text → Server W → Server W × Reply
  record_approval now cp comment by result s = (
    record s {
      checkpoints =
          resolve_checkpoint cp.id (resolved approved comment by result now) s.checkpoints;
      audits = s.audits ++ (audit_of cp allow true (codes "approved") ∷ []);
    },
    done approved (display_id cp) result,
  )

  unfoldable pub approve : ℕ → Checkpoint → Text → ℕ → Server W → Server W × Reply
  unfolding execute record_approval
  approve now cp comment by s = elim (host cp.workdir) [
    | some message ↦ (s, no_host message)
    | none ↦ let (s', result) = execute cp s in record_approval now cp comment by result s'
  ]

  unfoldable pub carry_out : ℕ → Ruling → Server W → Server W × Reply
  unfolding approve reject
  carry_out now (replies r) s = (s, r)
  carry_out now (rejects cp comment by) s = reject now cp comment by s
  carry_out now (approves cp comment by) s = approve now cp comment by s

  -- ResolveCheckpointHandler with no other request between.
  unfoldable pub resolve_handler : ℕ → Caller → ResolveRequest → Server W → Server W × Reply
  unfolding carry_out
  resolve_handler now c req s = carry_out now (decide c req s.checkpoints) s

-- atoiOrZero
abbrev natural : Option ℤ → ℕ
natural none = 0
natural (some (pos n)) = n
natural (some (negsuc n)) = 0

unfoldable pub atoi_or_zero : Text → ℕ
atoi_or_zero s = if is_nil s then 0 else natural (atoi s)

-- validCheckpointStatus, with the status that the text names.
unfoldable pub checkpoint_status : Text → Option CheckpointStatus
checkpoint_status s =
    if text_eq s (codes "pending")
    then some pending
    else if text_eq s (codes "approved")
    then some approved
    else if text_eq s (codes "rejected")
    then some rejected
    else none

pub data ListReply : Type 0 where
  refused : Reply → ListReply
  listed : (checkpoints : List Checkpoint) (total limit offset : ℕ) (own : Bool) → ListReply

-- The filter of a caller: its own checkpoints, unless it sees all.
abbrev pub filter_for : Caller → ℕ → Option CheckpointStatus → Text → Text → CheckpointFilter
filter_for c uid status limit offset = record {
  user_id = if can_see_all c then 0 else uid;
  status = status;
  limit = normalize_audit_page_size (atoi_or_zero limit);
  offset = atoi_or_zero offset;
}

unfoldable pub list_for :
    Caller → ℕ → Option CheckpointStatus → Text → Text → List Checkpoint → ListReply
list_for c uid status limit offset rows =
    let f = filter_for c uid status limit offset in
    let (page, total) = list_checkpoints f rows in
    listed page total f.limit f.offset (not (f.user_id == 0))

unfoldable pub list_status :
    Caller → ℕ → Option CheckpointStatus → Text → Text → List Checkpoint → ListReply
unfolding list_for
list_status c uid none limit offset rows = refused bad_status
list_status c uid (some status) limit offset rows = list_for c uid (some status) limit offset rows

unfoldable pub list_as :
    Caller → (status limit offset : Text) → List Checkpoint → Option ℕ → ListReply
unfolding list_for list_status
list_as c status limit offset rows none = refused unauthorized
list_as c status limit offset rows (some uid) =
    if is_nil status
    then list_for c uid none limit offset rows
    else list_status c uid (checkpoint_status status) limit offset rows

-- ListCheckpointsHandler, by the texts of its query.
unfoldable pub list_handler : Caller → (status limit offset : Text) → List Checkpoint → ListReply
unfolding list_as
list_handler c status limit offset rows = list_as c status limit offset rows c.user
