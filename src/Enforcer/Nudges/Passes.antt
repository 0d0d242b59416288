-- ===== src/Enforcer/Nudges/Passes.antt =====
-- goal.go, plan.go: which answers pass, and what replaces one that does not.
use multiagent.Base.{
  ℕ, ◌+◌, ◌≤◌, ◌<◌, ◌≡◌, ◌≢◌, ◌⊎◌, refl, Bool, true, false, Option, none, some, [], arith, inl, inr,
}
use multiagent.Base.Text.{Text}
use multiagent.Enforcer.Nudges.{
  Nudges, Response, nudge_count, Block, block_none, block_missing, block_open, blocked_response,
  should_consider, intercept, after_model,
}

module _ (is_tool_call is_final : Response → Bool) (max_nudges : ℕ) where
  -- A final answer passes only where nothing is to be blocked or the budget is used up.
  pub after_model-passes :
      (block : Block) (rsp : Response) (n : Option Nudges)
      → should_consider is_tool_call is_final rsp ≡ true
      → (after_model is_tool_call is_final block max_nudges none (some rsp) n).1 ≡ none
      → (block ≡ block_none) ⊎ (max_nudges ≤ nudge_count n)
  unfolding after_model intercept
  after_model-passes block_none rsp n final e = inl refl
  after_model-passes block_missing rsp n final e = inr (ground arith)
  after_model-passes block_open rsp n final e = inr (ground arith)

  -- A response that replaces the model's has no content and asks for another round; it stands in
  -- for a final answer, something is to be blocked, the budget was not used up, and one more nudge
  -- is counted and pending.
  pub after_model-blocks :
      (block : Block) (error : Option Text) (given : Option Response) (n : Nudges) (rsp' : Response)
      → (after_model is_tool_call is_final block max_nudges error given (some n)).1 ≡ some rsp'
      → (rsp'.done ≡ false)
        × (rsp'.choices ≡ [])
        × (rsp'.error ≡ none)
        × (block ≢ block_none)
        × (n.count < max_nudges)
        × ((after_model is_tool_call is_final block max_nudges error given (some n)).0
            ≡ some (record { count = n.count + 1; remind_pending = true }))
  unfolding after_model intercept
  after_model-blocks block error none n rsp' e = absurd (ground arith)
  after_model-blocks block_none error (some rsp) n rsp' e = absurd (ground arith)
  after_model-blocks block_missing error (some rsp) n rsp' e =
      (ground arith, ground arith, ground arith, ground arith, ground arith, ground arith)
  after_model-blocks block_open error (some rsp) n rsp' e =
      (ground arith, ground arith, ground arith, ground arith, ground arith, ground arith)

  pub after_model-free :
      (error : Option Text) (rsp : Option Response) (n : Option Nudges)
      → after_model is_tool_call is_final block_none max_nudges error rsp n ≡ (n, none)
  unfolding after_model
  after_model-free error none n = refl
  after_model-free error (some rsp) n = ground arith

  pub after_model-held :
      (rsp : Response) (n : Nudges)
      → rsp.error ≡ none
      → should_consider is_tool_call is_final rsp ≡ true
      → n.count < max_nudges
      → (after_model is_tool_call is_final block_open max_nudges none (some rsp) (some n)).1
        ≡ some (blocked_response rsp)
  unfolding after_model intercept
  after_model-held rsp n fine final left_over = ground arith
