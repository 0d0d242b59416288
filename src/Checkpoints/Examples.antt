-- ===== src/Checkpoints/Examples.antt =====
-- A checkpoint that is resolved.
use multiagent.Base.{ℕ, suc, ◌≡◌, ◌⊎◌, refl, Option, none, some, List, [], ◌∷◌}
use multiagent.Base.Text.{Text, codes, text_eq}
use multiagent.Base.Decimal.{parse_uint, digits}
use multiagent.Executor.Host.{Ran, ExecError}
use multiagent.Checkpoints.{
  pending, approved, rejected, Checkpoint, get_checkpoint, create_checkpoint, last_id,
  resolve_checkpoint,
}
use multiagent.Checkpoints.Handlers.{
  Caller, ResolveRequest, Server, conflict, forbidden, replies, decide, carry_out, resolve_handler,
}
use multiagent.Checkpoints.Once.{
  count, IsSettled, status_of, Event, creates, asks, history, history-once, approve_reject_race,
}
use multiagent.Checkpoints.Access.{MayResolve, resolve_handler-MayResolve}

abbrev waiting : Checkpoint
waiting = record {
  id = 1;
  session_id = codes "s";
  user_id = 7;
  command = codes "rm -r build";
  workdir = codes "/w";
  reason = codes "rm";
  context = [];
  status = pending;
  comment = [];
  resolved_by = 0;
  result = [];
  created_at = 5;
  updated_at = 5;
}

abbrev owner : Caller
owner = record { user = some 7; role = codes "viewer" }

abbrev stranger : Caller
stranger = record { user = some 8; role = codes "viewer" }

abbrev admin : Caller
admin = record { user = some 1; role = codes "admin" }

abbrev approval : ResolveRequest
approval = record { id = codes "1"; action = codes "approve"; comment = codes "fine" }

abbrev rejection : ResolveRequest
rejection = record { id = codes "1"; action = codes "reject"; comment = codes "no" }

-- The world counts the commands that it ran.
abbrev server : Server ℕ
server = record { checkpoints = waiting ∷ []; audits = []; world = 0; ran = [] }

abbrev host : Text → Option Text
host workdir = none

abbrev run : Text → Text → ℕ → ℕ × Ran
run workdir command w = (suc w, record { result = none; error = none })

abbrev error_text : ExecError → Text
error_text e = codes "failed"

handlers : Unit {0}
unfolding resolve_handler carry_out decide get_checkpoint resolve_checkpoint parse_uint digits
    text_eq create_checkpoint last_id
handlers = tt

others_checkpoint : decide stranger approval server.checkpoints ≡ replies forbidden
unfolding handlers
others_checkpoint = refl

approved_runs : (resolve_handler host run error_text 9 owner approval server).0.world ≡ 1
unfolding handlers
approved_runs = refl

second_time :
    (resolve_handler host run error_text 10 admin rejection
      (resolve_handler host run error_text 9 owner approval server).0).1
    ≡ conflict approved
unfolding handlers
second_time = refl

abbrev events : List Event
events =
    creates waiting ∷ asks 9 owner approval ∷ asks 10 admin approval ∷ asks 11 admin rejection ∷ []

history-once_example :
    IsSettled 1 (history host run error_text events (record server { checkpoints = [] }))
history-once_example =
    history-once host run error_text events 1 (record server { checkpoints = [] }) refl

approve_reject_race_example :
    (status_of (
        get_checkpoint 1
          (carry_out host run error_text 10
            (decide admin rejection server.checkpoints)
            (carry_out host run error_text 9
              (decide owner approval server.checkpoints)
              server).0).0.checkpoints)
      ≡ some rejected)
    × (count 1
          (carry_out host run error_text 10
            (decide admin rejection server.checkpoints)
            (carry_out host run error_text 9
              (decide owner approval server.checkpoints)
              server).0).0.ran
        ≡ 1)
unfolding handlers
approve_reject_race_example =
    approve_reject_race host run error_text 9 10 owner admin approval rejection waiting
      (codes "fine") (codes "no") 7 1 server refl refl refl

resolve_handler-MayResolve_example :
    ((resolve_handler host run error_text 9 owner approval server).0 ≡ server)
    ⊎ ((id : ℕ) × (cp : Checkpoint) × (by : ℕ) × (parse_uint approval.id ≡ some id)
        × MayResolve owner server.checkpoints id cp by)
resolve_handler-MayResolve_example =
    resolve_handler-MayResolve host run error_text 9 owner approval server
