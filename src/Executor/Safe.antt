-- ===== src/Executor/Safe.antt =====
-- server/internal/executor/policy.go: an executor under a policy. The policy, the asker, the
-- checkpointer and the executor inside are its parameters, as in the source; `W` is the state that
-- commands and checkpoints change. The auditor keeps its entries in memory; the spans and metrics
-- that Run records are not modelled, the reason that it reports to them is.
pub mod Outcomes
pub mod Audits
pub mod Unattended
use multiagent.Base.{
  ℕ, Bool, true, false, Option, none, some, List, [], ◌∷◌, ◌++◌, if◌then◌else◌, is_nil,
}
use multiagent.Base.Text.{Text, codes, join}
use multiagent.Executor.Blacklist.{Decision, allow, ask, deny}
use multiagent.Executor.Host.{
  ExecError, denied, checkpoint, deadline_exceeded, failed, Result, Ran, Executor,
}

pub record AuditEntry : Type 0 where
  pub timestamp : ℕ
  pub command : Text
  pub workdir : Text
  pub decision : Decision
  pub reason : Text
  pub allowed : Bool
  pub note : Text

pub record CheckpointRequest : Type 0 where
  pub command : Text
  pub workdir : Text
  pub reason : Text

module _ (W : Type 0) where
  -- SafeExecutor; its auditor is the list of entries in `State`.
  pub record SafeExecutor : Type 0 where
    pub inner : Executor W
    pub policy : Option (Text → Decision × Text)
    pub ask_handler : Option (Text → Text → Bool)
    pub checkpointer : Option (CheckpointRequest → W → W × (Text × Bool))

  pub record State : Type 0 where
    pub world : W
    pub entries : List AuditEntry

abbrev refusing : Text → Ran
refusing reason = record { result = none; error = some (denied reason) }

abbrev pub entry_of : ℕ → Text → Text → Decision → Text → Bool → Text → AuditEntry
entry_of now command workdir decision reason allowed note = record {
  timestamp = now;
  command = command;
  workdir = workdir;
  decision = decision;
  reason = reason;
  allowed = allowed;
  note = note;
}

-- askOutcome; a checkpoint has its number.
pub data AskOutcome : Type 0 where
  ask_deny ask_allow : AskOutcome
  ask_checkpoint : Text → AskOutcome

asked : Bool → AskOutcome
asked true = ask_allow
asked false = ask_deny

recorded : (Text × Bool) → AskOutcome
recorded (id, true) = ask_checkpoint id
recorded (id, false) = ask_deny

abbrev pub command_line : Text → List Text → Text
command_line name args = if is_nil args then name else name ++ (codes " " ++ join (codes " ") args)

module _ {W : Type 0} where
  -- MemoryAuditor.Record
  abbrev pub audit : AuditEntry → State W → State W
  audit e s = record s { entries = s.entries ++ (e ∷ []) }

  -- The command handed to the executor inside.
  abbrev pub executed : (W → W × Ran) → State W → State W × Ran
  executed exec s = let (w, ran) = exec s.world in (record s { world = w }, ran)

  -- classifyAsk. A checkpointer returns its number and whether it was stored.
  unfoldable pub classify_ask : SafeExecutor W → ℕ → Text → Text → State W → State W × AskOutcome
  unfolding asked recorded
  classify_ask e now command reason s = elim e.ask_handler [
    | some handler ↦
        let allowed = handler command reason in
        (
          audit (entry_of now command e.inner.workdir ask reason allowed (codes "交互模式确认")) s,
          asked allowed,
        )
    | none ↦ elim e.checkpointer [
      | some cp ↦
          let (w, (id, stored)) =
            cp (record { command = command; workdir = e.inner.workdir; reason = reason }) s.world in
          (
            audit
                (entry_of now command e.inner.workdir ask reason false
                  (codes "checkpoint created id=" ++ id))
                (record s { world = w }),
            recorded (id, stored),
          )
      | none ↦ (
        audit (entry_of now command e.inner.workdir ask reason false (codes "无人值守无确认机制，按 deny 处置"))
            s,
        ask_deny,
      )
    ]
  ]

  after_ask : (W → W × Ran) → Text → State W × AskOutcome → State W × Ran
  after_ask exec reason (s, ask_allow) = executed exec s
  after_ask exec reason (s, ask_checkpoint id) =
      (s, record { result = none; error = some (checkpoint id reason) })
  after_ask exec reason (s, ask_deny) = (s, refusing reason)

  decided : SafeExecutor W → ℕ → Text → (W → W × Ran) → Decision × Text → State W → State W × Ran
  unfolding after_ask
  decided e now command exec (allow, reason) s =
      executed exec (audit (entry_of now command e.inner.workdir allow (codes "策略放行") true []) s)
  decided e now command exec (deny, reason) s =
      (audit (entry_of now command e.inner.workdir deny reason false []) s, refusing reason)
  decided e now command exec (ask, reason) s =
      after_ask exec reason (classify_ask e now command reason s)
  decided e now command exec (Decision.other n, reason) s = executed exec s

  -- What Run and RunCommand share: `exec` is the call of the executor inside.
  unfoldable pub guarded : SafeExecutor W → ℕ → Text → (W → W × Ran) → State W → State W × Ran
  unfolding decided
  guarded e now command exec s = elim e.policy [
    | none ↦ executed exec s
    | some policy ↦ decided e now command exec (policy command) s
  ]

  -- Run
  unfoldable pub run : SafeExecutor W → ℕ → Text → State W → State W × Ran
  run e now command s = guarded e now command (e.inner.run command) s

  -- RunCommand
  unfoldable pub run_command : SafeExecutor W → ℕ → Text → List Text → State W → State W × Ran
  run_command e now name args s =
      guarded e now (command_line name args) (e.inner.run_command name args) s

  -- A SafeExecutor as an executor of its own, at a time.
  abbrev pub as_executor : SafeExecutor W → ℕ → Executor (State W)
  as_executor e now = record {
    run = run e now;
    run_command = run_command e now;
    workdir = e.inner.workdir;
  }

-- toolCallReason
abbrev pub tool_call_reason : Option ExecError → Text
tool_call_reason none = codes "allowed"
tool_call_reason (some (checkpoint id reason)) = codes "checkpoint"
tool_call_reason (some (denied reason)) = codes "denied"
tool_call_reason (some deadline_exceeded) = codes "failed"
tool_call_reason (some (failed message)) = codes "failed"
