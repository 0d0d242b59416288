-- ===== src/Checkpoints.antt =====
-- server/internal/model/checkpoint.go, repo/checkpoint.go and api/checkpoint.go: dangerous commands
-- that wait for a person's approval. A query's failure is not modelled. The host, its check of a
-- working directory and its runs of commands are parameters; `W` is the state that commands change.
pub mod Handlers
pub mod Once
pub mod Access
mod Examples
use multiagent.Base.{
  ℕ, zero, suc, ◌+◌, Bool, true, false, ◌&&◌, ◌||◌, not, Option, none, some, List, [], ◌∷◌, ◌++◌,
  length, take, keep, if◌then◌else◌, is_nil, ltb, ◌==◌, sort_by,
}
use multiagent.Base.Text.{Text, codes}
use multiagent.Base.Int.{ℤ, pos, negsuc}
use multiagent.Base.Decimal.{decimal}

pub data CheckpointStatus : Type 0 where
  pending approved rejected : CheckpointStatus

abbrev pub status_eq : CheckpointStatus → CheckpointStatus → Bool
status_eq pending pending = true
status_eq approved approved = true
status_eq rejected rejected = true
status_eq _ _ = false

pub record Checkpoint : Type 0 where
  pub id : ℕ
  pub session_id : Text
  pub user_id : ℕ
  pub command : Text
  pub workdir : Text
  pub reason : Text
  pub context : Text
  pub status : CheckpointStatus
  pub comment : Text
  pub resolved_by : ℕ
  pub result : Text
  pub created_at : ℕ
  pub updated_at : ℕ

-- DisplayID
abbrev pub display_id : Checkpoint → Text
display_id cp = codes "CP-" ++ decimal cp.id

abbrev max : ℕ → ℕ → ℕ
max a b = if ltb a b then b else a

-- The largest number of the table, 0 if it is empty.
unfoldable pub last_id : List Checkpoint → ℕ
last_id [] = 0
last_id (cp ∷ rows) = max cp.id (last_id rows)

-- CreateCheckpoint, which numbers the row.
unfoldable pub create_checkpoint : Checkpoint → List Checkpoint → List Checkpoint
create_checkpoint cp rows = record cp { id = suc (last_id rows) } ∷ rows

-- GetCheckpoint
unfoldable pub get_checkpoint : ℕ → List Checkpoint → Option Checkpoint
get_checkpoint id [] = none
get_checkpoint id (cp ∷ rows) = if cp.id == id then some cp else get_checkpoint id rows

abbrev pub resolved : CheckpointStatus → Text → ℕ → Text → ℕ → Checkpoint → Checkpoint
resolved status comment by result now cp = record cp {
  status = status;
  comment = comment;
  resolved_by = by;
  result = result;
  updated_at = now;
}

-- ResolveCheckpoint, by what it writes into a row.
unfoldable pub resolve_checkpoint :
    ℕ → (Checkpoint → Checkpoint) → List Checkpoint → List Checkpoint
resolve_checkpoint id f [] = []
resolve_checkpoint id f (cp ∷ rows) =
    (if cp.id == id then f cp else cp) ∷ resolve_checkpoint id f rows

-- CountPendingCheckpoints
unfoldable pub count_pending_checkpoints : List Checkpoint → ℕ
count_pending_checkpoints rows = length (keep (λ cp. status_eq cp.status pending) rows)

-- The filter of a listing; 0 and `none` do not filter. The limit is normalized.
pub record CheckpointFilter : Type 0 where
  pub user_id : ℕ
  pub status : Option CheckpointStatus
  pub limit : ℕ
  pub offset : ℕ

abbrev wants_status : Option CheckpointStatus → CheckpointStatus → Bool
wants_status none s = true
wants_status (some want) s = status_eq s want

abbrev pub selects : CheckpointFilter → Checkpoint → Bool
selects f cp = ((f.user_id == 0) || (cp.user_id == f.user_id)) && wants_status f.status cp.status

abbrev drop {ℓ} : {A : Type ℓ} → ℕ → List A → List A
drop zero xs = xs
drop (suc n) [] = []
drop (suc n) (x ∷ xs) = drop n xs

abbrev newer : Checkpoint → Checkpoint → Bool
newer a b = ltb b.created_at a.created_at || ((a.created_at == b.created_at) && ltb b.id a.id)

-- ListCheckpoints: a page, newest first, and the number of all that the filter selects.
unfoldable pub list_checkpoints : CheckpointFilter → List Checkpoint → List Checkpoint × ℕ
list_checkpoints f rows =
    let found = keep (selects f) rows in
    (take f.limit (drop f.offset (sort_by newer found)), length found)

-- NormalizeAuditPageSize
abbrev pub normalize_audit_page_size : ℕ → ℕ
normalize_audit_page_size limit = if limit == 0 then 50 else if ltb 200 limit then 200 else limit
