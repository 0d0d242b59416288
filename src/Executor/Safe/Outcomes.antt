-- ===== src/Executor/Safe/Outcomes.antt =====
-- policy.go: what a guarded command can come to, told by its entry in the audit.
use multiagent.Base.{
  ◌≡◌, ◌≢◌, ◌⊎◌, Bool, true, false, Option, none, some, [], ◌∷◌, ◌++◌, if◌then◌else◌,
}
use multiagent.Base.Text.{Text}
use multiagent.Executor.Blacklist.{Decision, allow, ask, deny}
use multiagent.Executor.Host.{ExecError, denied, checkpoint, Ran}
use multiagent.Executor.Safe.{AuditEntry, SafeExecutor, State, CheckpointRequest}

-- The error of a command that was not run.
abbrev pub IsRefusal : Option ExecError → Type 0
IsRefusal none = ⊥
IsRefusal (some (denied reason)) = Unit
IsRefusal (some (checkpoint id reason)) = Unit
IsRefusal (some ExecError.deadline_exceeded) = ⊥
IsRefusal (some (ExecError.failed message)) = ⊥

abbrev pub consents : Option (Text → Text → Bool) → Text → Text → Bool
consents none command reason = false
consents (some handler) command reason = handler command reason

-- A decision that the switch of Run names.
abbrev pub IsKnown : Decision → Type 0
IsKnown allow = Unit
IsKnown ask = Unit
IsKnown deny = Unit
IsKnown (Decision.other n) = ⊥

module _ {W : Type 0} where
  -- The command was handed to the executor inside, once, and its answer handed back.
  abbrev pub WasRun : (W → W × Ran) → State W → State W × Ran → Type 0
  WasRun exec s out = (out.0.world ≡ (exec s.world).0) × (out.1 ≡ (exec s.world).1)

  -- The command was refused, and the world is as it was.
  abbrev pub WasDenied : Text → State W → State W × Ran → Type 0
  WasDenied reason s out =
      (out.0.world ≡ s.world) × (out.1.result ≡ none) × (out.1.error ≡ some (denied reason))

  -- The world is as the checkpointer left it, which was asked once, for this command. The error has
  -- the checkpoint's number where it was stored, and is a refusal where it was not.
  abbrev pub Waits :
      (CheckpointRequest → W → W × (Text × Bool))
      → CheckpointRequest
      → State W
      → State W × Ran
      → Type 0
  Waits cp request s out =
      let (w, (id, stored)) = cp request s.world in
      (out.0.world ≡ w)
      × (out.1.result ≡ none)
      × (out.1.error
          ≡ (if stored then some (checkpoint id request.reason) else some (denied request.reason)))

  abbrev pub request_of : SafeExecutor W → Text → Text → CheckpointRequest
  request_of e command reason = record {
    command = command;
    workdir = e.inner.workdir;
    reason = reason;
  }

  -- What holds of a guarded command on a known decision: one entry more, with its verdict. Either
  -- it was run, and the entry says so, and the policy allowed it or the asker consented; or the
  -- entry says that it was not, and it was refused, or waits for the checkpointer.
  pub record IsAudited (e : SafeExecutor W) (command : Text) (exec : W → W × Ran)
      (verdict : Decision × Text) (s : State W) (out : State W × Ran) : Type 0 where
    pub known : IsKnown verdict.0
    pub entry : AuditEntry
    pub kept : out.0.entries ≡ s.entries ++ (entry ∷ [])
    pub of_command : entry.command ≡ command
    pub of_decision : entry.decision ≡ verdict.0
    pub effect :
        ((entry.allowed ≡ true)
          × ((verdict.0 ≡ allow)
              ⊎ ((verdict.0 ≡ ask) × (consents e.ask_handler command verdict.1 ≡ true)))
          × WasRun exec s out)
        ⊎ ((entry.allowed ≡ false)
            × (((verdict.0 ≡ deny) × WasDenied verdict.1 s out)
                ⊎ ((verdict.0 ≡ ask)
                    × (e.ask_handler ≢ none)
                    × (consents e.ask_handler command verdict.1 ≡ false)
                    × WasDenied verdict.1 s out)
                ⊎ ((verdict.0 ≡ ask)
                    × (e.ask_handler ≡ none)
                    × (e.checkpointer ≡ none)
                    × WasDenied verdict.1 s out)
                ⊎ ((verdict.0 ≡ ask)
                    × (e.ask_handler ≡ none)
                    × (cp : CheckpointRequest → W → W × (Text × Bool)) × (e.checkpointer ≡ some cp)
                    × Waits cp (request_of e command verdict.1) s out)))

  -- On a decision that the switch does not name, the command was run, and the audit is as it was.
  abbrev pub IsUnaudited :
      (exec : W → W × Ran) (verdict : Decision × Text) (s : State W) (out : State W × Ran) → Type 0
  IsUnaudited exec verdict s out =
      (¬ IsKnown verdict.0) × (out.0.entries ≡ s.entries) × WasRun exec s out
