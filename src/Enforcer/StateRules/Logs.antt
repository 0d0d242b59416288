-- ===== src/Enforcer/StateRules/Logs.antt =====
-- state.go: the tools that write, and what they keep of the logs.
use mathlib.Core.List.{append_assoc}
use multiagent.Base.{
  ℕ, ◌≡◌, ◌⊎◌, refl, sym, ◌∙◌, inl, inr, true, false, Option, some, List, [], ◌∷◌, ◌++◌, arith,
  Answer, ok, err, if◌then◌else◌, is_nil, Bool-cases, Answer-cases, Option-cases, subst,
}
use multiagent.Base.Text.{Text, codes, text_eq, text_eq_iff, trim_space}
use multiagent.Artifact.Names.{StoreError}
use multiagent.Artifact.Store.{
  plan_artifact, progress_artifact, learnings_artifact, is_state_artifact, Store, StoreLaws,
}
use multiagent.Enforcer.StateRules.{
  plan_text, ToolError, store_error, ToolOutput, with_entry, put_artifact, append_to, update_plan,
  update_progress, append_learning,
}

abbrev pub IsLog : Text → Type 0
IsLog name = (name ≡ progress_artifact) ⊎ (name ≡ learnings_artifact)

IsLog-state : (name : Text) → IsLog name → is_state_artifact name ≡ true
unfolding is_state_artifact text_eq
IsLog-state name (inl e) = rw e refl
IsLog-state name (inr e) = rw e refl

IsLog-ne-plan : (name : Text) → IsLog name → text_eq plan_artifact name ≡ false
unfolding text_eq
IsLog-ne-plan name (inl e) = rw e refl
IsLog-ne-plan name (inr e) = rw e refl

module _ {S : Type 0} (store : Store S) (laws : StoreLaws store) where
  -- What a tool leaves that appends an entry to a log, on every branch.
  abbrev pub Appended : Text → Text → Text → Text → S → S × Answer ToolError ToolOutput → Type 0
  Appended scope artifact header entry s r =
      ((e : ToolError) × (r.1 ≡ err e)
        × ((name : Text)
            → is_state_artifact name ≡ true
            → store.read scope name r.0 ≡ store.read scope name s))
      ⊎ ((existing : Option Text) × (out : ToolOutput) × (r.1 ≡ ok out)
          × (store.read scope artifact s ≡ ok existing)
          × ((name : Text)
              → is_state_artifact name ≡ true
              → store.read scope name r.0 ≡ (
                  if text_eq artifact name
                  then ok (some (with_entry header existing entry))
                  else store.read scope name s)))

  append_to_err :
      (now : ℕ) (scope artifact header entry summary : Text) (s : S) (e : StoreError)
      → store.read scope artifact s ≡ err e
      → append_to store now scope artifact header entry summary s ≡ (s, err (store_error e))
  unfolding append_to
  append_to_err now scope artifact header entry summary s e is = ground arith

  append_to_ok :
      (now : ℕ) (scope artifact header entry summary : Text) (existing : Option Text) (s : S)
      → store.read scope artifact s ≡ ok existing
      → append_to store now scope artifact header entry summary s
        ≡ put_artifact store now scope artifact (with_entry header existing entry) summary s
  unfolding append_to
  append_to_ok now scope artifact header entry summary existing s is = ground arith

  put_artifact-Appended :
      (now : ℕ) (scope artifact header entry summary : Text) (existing : Option Text) (s : S)
      → is_state_artifact artifact ≡ true
      → store.read scope artifact s ≡ ok existing
      → Appended scope artifact header entry s
          (put_artifact store now scope artifact (with_entry header existing entry) summary s)
  unfolding put_artifact
  put_artifact-Appended now scope artifact header entry summary existing s known is =
      elim (Option-cases (store.write now scope artifact (with_entry header existing entry) s).1) [
        | inl done ↦ inr (
          existing,
          record {
            is_ok = true;
            artifact = artifact;
            content = with_entry header existing entry;
            summary = summary;
          },
          rw done refl,
          is,
          λ name n.
              laws.read-write now scope artifact name (with_entry header existing entry) s known n
                done,
        )
        | inr (e, failed) ↦ inl (
          store_error e,
          rw failed refl,
          λ name n.
              laws.read-write_failed now scope artifact name (with_entry header existing entry) s e
                known n failed,
        )
      ]

  pub append_to-Appended :
      (now : ℕ) (scope artifact header entry summary : Text) (s : S)
      → is_state_artifact artifact ≡ true
      → Appended scope artifact header entry s
          (append_to store now scope artifact header entry summary s)
  append_to-Appended now scope artifact header entry summary s known =
      elim (Answer-cases (store.read scope artifact s)) [
        | inr (e, is) ↦
            subst (Appended scope artifact header entry s)
              (sym (append_to_err now scope artifact header entry summary s e is))
              (inl (store_error e, refl, λ name n. refl))
        | inl (existing, is) ↦
            subst (Appended scope artifact header entry s)
              (sym (append_to_ok now scope artifact header entry summary existing s is))
              (put_artifact-Appended now scope artifact header entry summary existing s known is)
      ]

-- A call of a tool that writes.
pub data ToolCall : Type 0 where
  plans : (now : ℕ) (text : Text) → ToolCall
  progresses : (now : ℕ) (stamp text : Text) → ToolCall
  learns : (now : ℕ) (text : Text) → ToolCall

module _ {S : Type 0} (store : Store S) where
  abbrev pub call_tool : Text → ToolCall → S → S × Answer ToolError ToolOutput
  call_tool scope (plans now text) s = update_plan store now scope text s
  call_tool scope (progresses now stamp text) s = update_progress store now stamp scope text s
  call_tool scope (learns now text) s = append_learning store now scope text s

  abbrev pub call_tools : Text → List ToolCall → S → S
  call_tools scope [] s = s
  call_tools scope (c ∷ cs) s = call_tools scope cs (call_tool scope c s).0

  -- The log holds the old text, and perhaps more behind it.
  abbrev pub Holds : Text → Text → Text → S → Type 0
  Holds scope name old s = (rest : Text) × (store.read scope name s ≡ ok (some (old ++ rest)))

module _ {S : Type 0} (store : Store S) (laws : StoreLaws store) (scope : Text) where
  Appended-Holds :
      (artifact name header entry old : Text) (s : S) (r : S × Answer ToolError ToolOutput)
      → is_state_artifact name ≡ true
      → Appended store laws scope artifact header entry s r
      → Holds store scope name old s
      → Holds store scope name old r.0
  unfolding with_entry
  Appended-Holds artifact name header entry old s r n a (rest, is) = elim a [
    | inl (e, failed, same) ↦ (rest, same name n ∙ is)
    | inr (existing, out, done, was, now_reads) ↦ elim (Bool-cases (text_eq artifact name)) [
      | inr other ↦ (rest, now_reads name n ∙ rw other is)
      | inl equal ↦ (
        rest ++ entry,
        ground (arith, now_reads name n, text_eq_iff artifact name, append_assoc old rest entry),
      )
    ]
  ]

  put_plan-Holds :
      (now : ℕ) (name content summary old : Text) (s : S)
      → IsLog name
      → Holds store scope name old s
      → Holds store scope name old (put_artifact store now scope plan_artifact content summary s).0
  unfolding put_artifact is_state_artifact text_eq
  put_plan-Holds now name content summary old s log (rest, is) =
      elim (Option-cases (store.write now scope plan_artifact content s).1) [
        | inl done ↦ (
          rest,
          laws.read-write now scope plan_artifact name content s refl (IsLog-state name log) done
              ∙ rw (IsLog-ne-plan name log) is,
        )
        | inr (e, failed) ↦ (
          rest,
          laws.read-write_failed now scope plan_artifact name content s e refl
                (IsLog-state name log) failed
              ∙ is,
        )
      ]

  call_tool-Holds :
      (c : ToolCall) (name old : Text) (s : S)
      → IsLog name
      → Holds store scope name old s
      → Holds store scope name old (call_tool store scope c s).0
  unfolding update_plan update_progress append_learning is_state_artifact text_eq
  call_tool-Holds (plans now text) name old s log h = elim (Bool-cases (is_nil (trim_space text))) [
    | inl blank ↦ rw blank h
    | inr given ↦
        rw given (
          put_plan-Holds now name (plan_text (trim_space text)) (codes "计划已写入 PLAN.md。") old s log
            h)
  ]
  call_tool-Holds (progresses now stamp text) name old s log h =
      elim (Bool-cases (is_nil (trim_space text))) [
        | inl blank ↦ rw blank h
        | inr given ↦ rw given (
            Appended-Holds progress_artifact name _ _ old s _ (IsLog-state name log)
              (append_to-Appended store laws now scope progress_artifact _ _ _ s refl) h)
      ]
  call_tool-Holds (learns now text) name old s log h =
      elim (Bool-cases (is_nil (trim_space text))) [
        | inl blank ↦ rw blank h
        | inr given ↦ rw given (
            Appended-Holds learnings_artifact name _ _ old s _ (IsLog-state name log)
              (append_to-Appended store laws now scope learnings_artifact _ _ _ s refl) h)
      ]

-- Nothing that a run has recorded is lost: after any calls of the tools that write, which may fail,
-- a log still begins with what it held, for every store that keeps the laws of a store.
pub call_tools-Holds :
    {S : Type 0} (store : Store S) (scope : Text) (cs : List ToolCall) (name old : Text) (s : S)
    → StoreLaws store
    → IsLog name
    → Holds store scope name old s
    → Holds store scope name old (call_tools store scope cs s)
call_tools-Holds store scope [] name old s laws log h = h
call_tools-Holds store scope (c ∷ cs) name old s laws log h =
    call_tools-Holds store scope cs name old (call_tool store scope c s).0 laws log
      (call_tool-Holds store laws scope c name old s log h)
