-- ===== src/Enforcer/StateRules/Resumes.antt =====
-- state.go: what a run records is handed to the next run.
use mathlib.Core.List.{append_assoc, append-nil}
use multiagent.Base.{
  ℕ, ◌≡◌, refl, sym, ap, ◌∙◌, inl, inr, true, false, ◌||◌, Option, none, some, [], ◌∷◌, ◌++◌, arith,
  Answer, ok, is_nil, Bool-cases, subst,
}
use multiagent.Base.Text.{Text, codes, text_eq, trim_space, contains, is_space}
use multiagent.Base.Text.Pieces.{piece-contains, contains_part}
use multiagent.Base.Text.Blank.{trim_space-keeps}
use multiagent.Artifact.Store.{
  plan_artifact, progress_artifact, learnings_artifact, is_state_artifact, Snapshot, Store,
  StoreLaws, snapshot, text_of, given,
}
use multiagent.Enforcer.StateRules.Logs.{Appended, append_to-Appended}
use multiagent.Enforcer.Nudges.{Request}
use multiagent.Enforcer.StateRules.{
  ToolError, ToolOutput, section, prompt_head, prompt_tail, build_resume_prompt, entry_line,
  with_entry, append_to, update_progress, before_model, resumed,
}

contains_cons : (c : ℕ) (s t : Text) → contains s t ≡ true → contains (c ∷ s) t ≡ true
unfolding contains
contains_cons c s t e = ground arith

contains_after : (x s t : Text) → contains s t ≡ true → contains (x ++ s) t ≡ true
contains_after x s t e =
    subst (λ (y : Text). contains (x ++ y) t ≡ true) (append-nil s) (contains_part x s [] t e)

contains_before : (s y t : Text) → contains s t ≡ true → contains (s ++ y) t ≡ true
contains_before s y t e = contains_part [] s y t e

section-contains :
    (title content t : Text)
    → is_nil (trim_space content) ≡ false
    → contains content t ≡ true
    → contains (section title content) t ≡ true
unfolding section
section-contains title content t filled e =
    rw filled (contains_after (10 ∷ title) (10 ∷ content) t (contains_cons 10 content t e))

-- The prompt holds all the progress that is not blank.
prompt-contains-progress :
    (snap : Snapshot) (t : Text)
    → is_nil (trim_space snap.progress) ≡ false
    → contains snap.progress t ≡ true
    → contains (build_resume_prompt snap) t ≡ true
unfolding build_resume_prompt
prompt-contains-progress snap t filled e =
    let after = section (codes "## LEARNINGS.md") snap.learnings ++ (10 ∷ prompt_tail) in
    let before = section (codes "## PLAN.md") snap.plan in
    let here = section (codes "## PROGRESS.md") snap.progress in
    contains_after prompt_head (10 ∷ (before ++ (here ++ after))) t (
      contains_cons 10 (before ++ (here ++ after)) t (
        contains_part before here after t
          (section-contains (codes "## PROGRESS.md") snap.progress t filled e)))

-- The entry is the end of the log.
with_entry-split :
    (header : Text) (existing : Option Text) (entry : Text)
    → (x : Text) × (with_entry header existing entry ≡ x ++ entry)
unfolding with_entry
with_entry-split header none entry =
    (codes "# " ++ (header ++ (10 ∷ 10 ∷ [])), rw (append_assoc header (10 ∷ 10 ∷ []) entry) refl)
with_entry-split header (some existing) entry = (existing, refl)

contains_self : (t : Text) → contains t t ≡ true
contains_self t = subst (λ (y : Text). contains y t ≡ true) (append-nil t) (piece-contains [] t [])

with_entry-filled :
    (header : Text) (existing : Option Text) (body : Text)
    → is_nil (trim_space (with_entry header existing (entry_line body))) ≡ false
unfolding is_space
with_entry-filled header existing body =
    let (x, is) = with_entry-split header existing (entry_line body) in
    rw is (trim_space-keeps x b'-' (32 ∷ (body ++ (10 ∷ []))) refl)

with_entry-contains :
    (header : Text) (existing : Option Text) (entry : Text)
    → contains (with_entry header existing entry) entry ≡ true
with_entry-contains header existing entry =
    let (x, is) = with_entry-split header existing entry in
    rw is (contains_after x entry entry (contains_self entry))

-- The entry of a call of update_progress.
abbrev pub progress_entry : Text → Text → Text
progress_entry stamp text = entry_line (stamp ++ (codes " " ++ trim_space text))

-- What the first model call of a run adds to its messages.
abbrev pub Resumed : {S : Type 0} → Store S → Text → S → Request → Text → Type 0
Resumed store scope s req entry =
    (message : Text) × (contains message entry ≡ true)
    × (before_model store scope s (some req) (some false)
        ≡ (some true, some (record req { messages = req.messages ++ (message ∷ []) })))

prompt-ne-nil : (snap : Snapshot) → is_nil (build_resume_prompt snap) ≡ false
unfolding build_resume_prompt
prompt-ne-nil snap = refl

module _ {S : Type 0} (store : Store S) (laws : StoreLaws store) where
  before_model-Resumed :
      (scope entry : Text) (s : S) (p l : Option Text) (g : Text) (req : Request)
      → store.read scope plan_artifact s ≡ ok p
      → store.read scope progress_artifact s ≡ ok (some g)
      → store.read scope learnings_artifact s ≡ ok l
      → is_nil (trim_space g) ≡ false
      → contains g entry ≡ true
      → Resumed store scope s req entry
  unfolding before_model resumed snapshot
  before_model-Resumed scope entry s p l g req ep eg el filled e =
      let snap : Snapshot = record {
        plan = text_of p;
        progress = g;
        learnings = text_of l;
        any = given p || true || given l;
      } in
      (
        build_resume_prompt snap,
        prompt-contains-progress snap entry filled e,
        ground (arith, prompt-ne-nil snap),
      )

  Appended-Resumed :
      (scope header body : Text) (s : S) (r : S × Answer ToolError ToolOutput) (out : ToolOutput)
      (p l : Option Text) (req : Request)
      → Appended store laws scope progress_artifact header (entry_line body) s r
      → r.1 ≡ ok out
      → store.read scope plan_artifact s ≡ ok p
      → store.read scope learnings_artifact s ≡ ok l
      → Resumed store scope r.0 req (entry_line body)
  unfolding is_state_artifact text_eq
  Appended-Resumed scope header body s r out p l req a done ep el = elim a [
    | inl (e, failed, same) ↦ absurd (ground arith)
    | inr (existing, out', done', was, now_reads) ↦
        before_model-Resumed scope (entry_line body) r.0 p l
          (with_entry header existing (entry_line body)) req (now_reads plan_artifact refl ∙ ep)
          (now_reads progress_artifact refl) (now_reads learnings_artifact refl ∙ el)
          (with_entry-filled header existing body)
          (with_entry-contains header existing (entry_line body))
  ]

given_text :
    {S : Type 0} (store : Store S) (laws : StoreLaws store) (now : ℕ) (stamp scope text : Text)
    (s : S)
    → is_nil (trim_space text) ≡ false
    → (r : S × Answer ToolError ToolOutput) × (update_progress store now stamp scope text s ≡ r)
      × Appended store laws scope progress_artifact (codes "进展日志") (progress_entry stamp text) s r
unfolding update_progress is_state_artifact text_eq
given_text store laws now stamp scope text s given = (
  append_to store now scope progress_artifact (codes "进展日志") (progress_entry stamp text)
      (codes "进展已追加到 PROGRESS.md。") s,
  rw given refl,
  append_to-Appended store laws now scope progress_artifact (codes "进展日志")
      (progress_entry stamp text) (codes "进展已追加到 PROGRESS.md。") s refl,
)

-- What update_progress records is handed to the next run: on a store that keeps the laws of a
-- store, after a call that succeeds, the first model call of a run in the same scope, if the store
-- can read the plan and the learnings, gets one more message, and that message holds the whole
-- entry; and the mark that keeps later calls of the run from doing so again is set.
pub update_progress-Resumed :
    {S : Type 0} (store : Store S) (now : ℕ) (stamp scope text : Text) (s : S) (out : ToolOutput)
    (p l : Option Text) (req : Request)
    → StoreLaws store
    → (update_progress store now stamp scope text s).1 ≡ ok out
    → store.read scope plan_artifact s ≡ ok p
    → store.read scope learnings_artifact s ≡ ok l
    → Resumed store scope
        (update_progress store now stamp scope text s).0
        req
        (progress_entry stamp text)
unfolding update_progress
update_progress-Resumed store now stamp scope text s out p l req laws done ep el =
    elim (Bool-cases (is_nil (trim_space text))) [
      | inl blank ↦ absurd (ground arith)
      | inr filled ↦
          let (r, is, a) = given_text store laws now stamp scope text s filled in
          subst (λ x. Resumed store scope x.0 req (progress_entry stamp text)) (sym is)
            (Appended-Resumed store laws scope (codes "进展日志")
              (stamp ++ (codes " " ++ trim_space text)) s r out p l req a
              (sym (ap (λ x. x.1) is) ∙ done) ep el)
    ]
