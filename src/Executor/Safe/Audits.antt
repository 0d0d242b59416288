-- ===== src/Executor/Safe/Audits.antt =====
-- policy.go: the entry that a guarded command leaves in the audit, and what the entry tells.
use multiagent.Base.{
  ℕ, ◌≡◌, ◌≢◌, ◌⊎◌, refl, sym, subst, Bool, true, false, none, some, [], ◌++◌, arith, inl, inr,
  Option-cases,
}
use multiagent.Base.Text.{Text, codes}
use multiagent.Executor.Blacklist.{Decision, allow, ask, deny}
use multiagent.Executor.Host.{Ran}
use multiagent.Executor.Safe.{
  SafeExecutor, State, audit, entry_of, AskOutcome, ask_deny, asked, recorded, CheckpointRequest,
  classify_ask, after_ask, decided, guarded,
}
use multiagent.Executor.Safe.Outcomes.{consents, request_of, IsAudited, IsUnaudited}

module _ {W : Type 0} where
  module _ (e : SafeExecutor W) (now : ℕ) (command : Text) (exec : W → W × Ran) where
    recorded-IsAudited :
        (reason id : Text) (stored : Bool) (w : W) (s : State W)
        (cp : CheckpointRequest → W → W × (Text × Bool))
        → e.ask_handler ≡ none
        → e.checkpointer ≡ some cp
        → cp (request_of e command reason) s.world ≡ (w, (id, stored))
        → IsAudited e command exec
            (ask, reason)
            s
            (after_ask exec reason (
              audit
                  (entry_of now command e.inner.workdir ask reason false
                    (codes "checkpoint created id=" ++ id))
                  (record s { world = w }),
              recorded (id, stored),
            ))
    unfolding after_ask recorded
    recorded-IsAudited reason id true w s cp none_asks has made = record {
      known = tt;
      entry =
          entry_of now command e.inner.workdir ask reason false
            (codes "checkpoint created id=" ++ id);
      kept = refl;
      of_command = refl;
      of_decision = refl;
      effect = inr (refl, inr (inr (inr (refl, none_asks, cp, has, rw made (refl, refl, refl)))));
    }
    recorded-IsAudited reason id false w s cp none_asks has made = record {
      known = tt;
      entry =
          entry_of now command e.inner.workdir ask reason false
            (codes "checkpoint created id=" ++ id);
      kept = refl;
      of_command = refl;
      of_decision = refl;
      effect = inr (refl, inr (inr (inr (refl, none_asks, cp, has, rw made (refl, refl, refl)))));
    }

    asked-IsAudited :
        (reason : Text) (allowed : Bool) (s : State W)
        → e.ask_handler ≢ none
        → consents e.ask_handler command reason ≡ allowed
        → IsAudited e command exec
            (ask, reason)
            s
            (after_ask exec reason (
              audit (entry_of now command e.inner.workdir ask reason allowed (codes "交互模式确认")) s,
              asked allowed,
            ))
    unfolding after_ask asked
    asked-IsAudited reason true s asks says = record {
      known = tt;
      entry = entry_of now command e.inner.workdir ask reason true (codes "交互模式确认");
      kept = refl;
      of_command = refl;
      of_decision = refl;
      effect = inl (refl, inr (refl, says), (refl, refl));
    }
    asked-IsAudited reason false s asks says = record {
      known = tt;
      entry = entry_of now command e.inner.workdir ask reason false (codes "交互模式确认");
      kept = refl;
      of_command = refl;
      of_decision = refl;
      effect = inr (refl, inr (inl (refl, asks, says, (refl, refl, refl))));
    }

    -- Nobody to ask and nowhere to store: the command is refused.
    unasked-IsAudited :
        (reason note : Text) (s : State W)
        → e.ask_handler ≡ none
        → e.checkpointer ≡ none
        → IsAudited e command exec
            (ask, reason)
            s
            (after_ask exec reason
              (audit (entry_of now command e.inner.workdir ask reason false note) s, ask_deny))
    unfolding after_ask
    unasked-IsAudited reason note s none_asks none_stores = record {
      known = tt;
      entry = entry_of now command e.inner.workdir ask reason false note;
      kept = refl;
      of_command = refl;
      of_decision = refl;
      effect = inr (refl, inr (inr (inl (refl, none_asks, none_stores, (refl, refl, refl)))));
    }

    -- It is enough to know what classifyAsk comes to.
    by_class :
        (reason : Text) (s : State W) (class : State W × AskOutcome)
        → classify_ask e now command reason s ≡ class
        → IsAudited e command exec (ask, reason) s (after_ask exec reason class)
        → IsAudited e command exec
            (ask, reason)
            s
            (after_ask exec reason (classify_ask e now command reason s))
    by_class reason s class is h =
        subst (λ a. IsAudited e command exec (ask, reason) s (after_ask exec reason a)) (sym is) h

    ask-IsAudited :
        (reason : Text) (s : State W)
        → IsAudited e command exec
            (ask, reason)
            s
            (after_ask exec reason (classify_ask e now command reason s))
    unfolding classify_ask
    ask-IsAudited reason s = elim (Option-cases e.ask_handler) [
      | inr (handler, has) ↦
          by_class reason s
            (
              audit
                  (entry_of now command e.inner.workdir ask reason (handler command reason)
                    (codes "交互模式确认"))
                  s,
              asked (handler command reason),
            )
            (rw has refl)
            (asked-IsAudited reason (handler command reason) s (ground arith) (rw has refl))
      | inl none_asks ↦ elim (Option-cases e.checkpointer) [
        | inr (cp, has) ↦
            let made : W × (Text × Bool) =
              cp (record { command = command; workdir = e.inner.workdir; reason = reason })
                s.world in
            by_class reason s
              (
                audit
                    (entry_of now command e.inner.workdir ask reason false
                      (codes "checkpoint created id=" ++ made.1.0))
                    (record s { world = made.0 }),
                recorded made.1,
              )
              (rw (none_asks, has) refl)
              (recorded-IsAudited reason made.1.0 made.1.1 made.0 s cp none_asks has refl)
        | inl none_stores ↦
            by_class reason s
              (
                audit
                    (entry_of now command e.inner.workdir ask reason false
                      (codes "无人值守无确认机制，按 deny 处置"))
                    s,
                ask_deny,
              )
              (rw (none_asks, none_stores) refl)
              (unasked-IsAudited reason (codes "无人值守无确认机制，按 deny 处置") s none_asks none_stores)
      ]
    ]

    decided-IsAudited :
        (verdict : Decision × Text) (s : State W)
        → IsAudited e command exec verdict s (decided e now command exec verdict s)
          ⊎ IsUnaudited exec verdict s (decided e now command exec verdict s)
    unfolding decided
    decided-IsAudited (allow, reason) s = inl (record {
      known = tt;
      entry = entry_of now command e.inner.workdir allow (codes "策略放行") true [];
      kept = refl;
      of_command = refl;
      of_decision = refl;
      effect = inl (refl, inl refl, (refl, refl));
    })
    decided-IsAudited (deny, reason) s = inl (record {
      known = tt;
      entry = entry_of now command e.inner.workdir deny reason false [];
      kept = refl;
      of_command = refl;
      of_decision = refl;
      effect = inr (refl, inl (refl, (refl, refl, refl)));
    })
    decided-IsAudited (ask, reason) s = inl (ask-IsAudited reason s)
    decided-IsAudited (Decision.other n, reason) s = inr (λ known. known, refl, (refl, refl))

    guarded_under :
        (policy : Text → Decision × Text) (s : State W)
        → e.policy ≡ some policy
        → guarded e now command exec s ≡ decided e now command exec (policy command) s
    unfolding guarded
    guarded_under policy s has = rw has refl

    -- Under a policy that decides allow, ask or deny, a call adds one entry to the audit, with the
    -- command and the decision. The entry says `allowed` exactly where the command was run by the
    -- executor inside, once, and its answer handed back; that is only where the policy allows it or
    -- the asker consents. Else there is no result. A command that is denied, that the asker refuses,
    -- or that nobody can be asked about and no checkpointer stores, leaves the world as it was and is
    -- answered by a refusal with the policy's reason; with a checkpointer and no asker, the world is
    -- what the checkpointer makes of it, and the error is the checkpoint's, or the refusal if it was
    -- not stored. On any other decision the command is run, and the audit gets no entry.
    pub guarded-IsAudited :
        (policy : Text → Decision × Text) (s : State W)
        → e.policy ≡ some policy
        → IsAudited e command exec (policy command) s (guarded e now command exec s)
          ⊎ IsUnaudited exec (policy command) s (guarded e now command exec s)
    unfolding guarded
    guarded-IsAudited policy s has =
        rw (guarded_under policy s has) (decided-IsAudited (policy command) s)
