-- ===== src/Executor/Safe/Unattended.antt =====
-- policy.go: what a dangerous command comes to where nobody can be asked.
use multiagent.Base.{ℕ, ◌≡◌, ◌≢◌, ◌⊎◌, true, none, some, List, arith, inl, inr}
use multiagent.Base.Text.{Text}
use multiagent.Executor.Blacklist.{
  Decision, allow, ask, deny, DangerousCommandPolicy, normalize_command, evaluate,
}
use multiagent.Executor.Blacklist.Verdicts.{Hits, evaluate-deny, evaluate-ask, evaluate-All}
use multiagent.Executor.Host.{Ran}
use multiagent.Executor.Safe.{SafeExecutor, State, guarded, run, run_command, command_line}
use multiagent.Executor.Safe.Outcomes.{IsRefusal, IsKnown, consents}
use multiagent.Executor.Safe.Audits.{guarded-IsAudited}

module _ {W : Type 0} (table : ℕ → ℕ) (p : DangerousCommandPolicy) (e : SafeExecutor W) where
  allowed-Hits :
      (d : Decision) (command : Text)
      → (d ≡ deny) ⊎ (d ≡ ask)
      → Hits d (normalize_command table command) p.rules
      → (evaluate table p command).0 ≢ allow
  allowed-Hits d command (inl is) hit free =
      let denies : Hits deny (normalize_command table command) p.rules = rw is at hit in
      cc ((evaluate-deny table p command).1 denies)
  allowed-Hits d command (inr is) hit free =
      let asks : Hits ask (normalize_command table command) p.rules = rw is at hit in
      cc ((evaluate-ask table p command).1 (asks, λ h. cc ((evaluate-deny table p command).1 h)))

  evaluate-IsKnown : (command : Text) → IsKnown (evaluate table p command).0
  evaluate-IsKnown command = evaluate-All IsKnown tt tt tt table p command

  consents-none :
      (command reason : Text) → e.ask_handler ≡ none → consents e.ask_handler command reason ≢ true
  consents-none command reason none_asks consent = ground arith

  guarded-unattended :
      (now : ℕ) (command : Text) (exec : W → W × Ran) (d : Decision) (s : State W)
      → e.policy ≡ some (evaluate table p)
      → e.ask_handler ≡ none
      → e.checkpointer ≡ none
      → (d ≡ deny) ⊎ (d ≡ ask)
      → Hits d (normalize_command table command) p.rules
      → ((guarded e now command exec s).0.world ≡ s.world)
        × ((guarded e now command exec s).1.result ≡ none)
        × IsRefusal (guarded e now command exec s).1.error
  guarded-unattended now command exec d s policed none_asks none_stores bad hit =
      elim (guarded-IsAudited e now command exec (evaluate table p) s policed) [
        | inr (unknown, _, _) ↦ absurd (unknown (evaluate-IsKnown command))
        | inl h ↦ elim h.effect [
          | inl (_, inl free, _) ↦ absurd (allowed-Hits d command bad hit free)
          | inl (_, inr (_, consent), _) ↦
              absurd (consents-none command (evaluate table p command).1 none_asks consent)
          | inr (_, inl (_, (world, nothing, error))) ↦ (world, nothing, rw error tt)
          | inr (_, inr (inl (_, asks, _, _))) ↦ absurd (asks none_asks)
          | inr (_, inr (inr (inl (_, _, _, (world, nothing, error))))) ↦
              (world, nothing, rw error tt)
          | inr (_, inr (inr (inr (_, _, cp, stores, _)))) ↦ absurd (ground arith)
        ]
      ]

  -- With nobody to ask and no checkpointer, a command in which a denying or an asking rule finds its
  -- fragment is not run, whether it is given as one text or as a program with arguments: the world
  -- stays as it was, and the answer is a refusal without a result.
  pub run-unattended :
      (now : ℕ) (name : Text) (args : List Text) (d : Decision) (s : State W)
      → e.policy ≡ some (evaluate table p)
      → e.ask_handler ≡ none
      → e.checkpointer ≡ none
      → (d ≡ deny) ⊎ (d ≡ ask)
      → Hits d (normalize_command table (command_line name args)) p.rules
      → let out = run e now (command_line name args) s in
        let out' = run_command e now name args s in
        (out.0.world ≡ s.world)
        × (out.1.result ≡ none)
        × IsRefusal out.1.error
        × (out'.0.world ≡ s.world)
        × (out'.1.result ≡ none)
        × IsRefusal out'.1.error
  unfolding run run_command
  run-unattended now name args d s policed none_asks none_stores bad hit =
      let line = command_line name args in
      let (same, nothing, refusal) =
        guarded-unattended now line (e.inner.run line) d s policed none_asks none_stores bad hit in
      let (same', nothing', refusal') =
        guarded-unattended now line (e.inner.run_command name args) d s policed none_asks
          none_stores bad hit in
      (same, nothing, refusal, same', nothing', refusal')
