-- ===== src/Enforcer/Nudges/Bounded.antt =====
-- goal.go, plan.go: how often an invocation is held up.
use multiagent.Base.{
  ℕ, ◌+◌, ◌-◌, ◌≤◌, ◌<◌, ◌≡◌, ◌⊎◌, refl, Bool, true, false, ◌||◌, Option, none, some, List, [], ◌∷◌,
  arith, length, length-append, leb, if◌then◌else◌, inl, inr, Bool-cases,
}
use multiagent.Base.Text.{Text}
use multiagent.Enforcer.Nudges.{
  Nudges, Response, Request, Block, block_none, block_missing, block_open, blocked_response,
  is_given, should_consider, intercept, after_response, after_model, before_model,
}

-- A call of one of the two callbacks, with what evaluate says at it.
pub data Callback : Type 0 where
  before : Block → (ℕ → Text) → Option Request → Callback
  after : Block → (error : Option Text) → Option Response → Callback

abbrev is_replaced : Option Response → ℕ
is_replaced none = 0
is_replaced (some rsp) = 1

abbrev messages_of : Option Request → ℕ
messages_of none = 0
messages_of (some req) = length req.messages

module _ (is_tool_call is_final : Response → Bool) (max_nudges : ℕ) where
  -- The state after a sequence of calls, with the number of answers that were blocked and the
  -- number of messages that were added to requests.
  unfoldable pub run_callbacks : List Callback → Option Nudges → Option Nudges × (ℕ × ℕ)
  run_callbacks [] n = (n, (0, 0))
  run_callbacks (before block message req ∷ calls) n =
      let (n', req') = before_model block message req n in
      let (last, (held, told)) = run_callbacks calls n' in
      (last, (held, told + (messages_of req' - messages_of req)))
  run_callbacks (after block error rsp ∷ calls) n =
      let (n', replaced) = after_model is_tool_call is_final block max_nudges error rsp n in
      let (last, (held, told)) = run_callbacks calls n' in
      (last, (held + is_replaced replaced, told))

  abbrev pending_of : Bool → ℕ
  pending_of false = 0
  pending_of true = 1

  -- A call on a request adds a message only where one is due, and then none is due.
  before_model-due :
      (block : Block) (message : ℕ → Text) (req : Option Request) (n : Nudges)
      → (n' : Nudges) × ((before_model block message req (some n)).0 ≡ some n')
        × (n'.count ≡ n.count)
        × ((messages_of (before_model block message req (some n)).1 - messages_of req)
              + pending_of n'.remind_pending
            ≤ pending_of n.remind_pending)
  unfolding before_model
  before_model-due block message none n = (n, refl, refl, ground arith)
  before_model-due block_none message (some req) n =
      (record n { remind_pending = false }, refl, refl, ground arith)
  before_model-due block_missing message (some req) n = (
    record n { remind_pending = false },
    refl,
    refl,
    ground (arith, length-append {0} req.messages (message n.count ∷ [])),
  )
  before_model-due block_open message (some req) n = (
    record n { remind_pending = false },
    refl,
    refl,
    ground (arith, length-append {0} req.messages (message n.count ∷ [])),
  )

  -- What a call on a response does to the state: nothing, or it drops the message that is due, or
  -- it blocks, counts that and makes a message due.
  abbrev Does : Nudges → Option Nudges × Option Response → Type 0
  Does n o =
      (o ≡ (some n, none))
      ⊎ (o ≡ (some (record n { remind_pending = false }), none))
      ⊎ ((r : Response) × (n.count < max_nudges)
          × (o ≡ (some (record { count = n.count + 1; remind_pending = true }), some r)))

  intercept-Does : (rsp : Response) (n : Nudges) → Does n (intercept max_nudges rsp (some n))
  unfolding intercept
  intercept-Does rsp n = elim (Bool-cases (leb max_nudges n.count)) [
    | inl spent ↦ inr (inl (ground arith))
    | inr left_over ↦ inr (inr (blocked_response rsp, ground arith, ground arith))
  ]

  considered-Does :
      (b : Bool) (rsp : Response) (n : Nudges)
      → Does n (if b then intercept max_nudges rsp (some n) else (some n, none))
  considered-Does true rsp n = intercept-Does rsp n
  considered-Does false rsp n = inl refl

  after_response-Does :
      (block : Block) (rsp : Response) (n : Nudges)
      → Does n (after_response is_tool_call is_final block max_nudges rsp (some n))
  unfolding after_response
  after_response-Does block_none rsp n = inl refl
  after_response-Does block_missing rsp n =
      considered-Does (should_consider is_tool_call is_final rsp) rsp n
  after_response-Does block_open rsp n =
      considered-Does (should_consider is_tool_call is_final rsp) rsp n

  failed-Does :
      (b : Bool) (block : Block) (rsp : Response) (n : Nudges)
      → Does n (
          if b
          then (some n, none)
          else after_response is_tool_call is_final block max_nudges rsp (some n))
  failed-Does true block rsp n = inl refl
  failed-Does false block rsp n = after_response-Does block rsp n

  after_model-Does :
      (block : Block) (error : Option Text) (rsp : Option Response) (n : Nudges)
      → Does n (after_model is_tool_call is_final block max_nudges error rsp (some n))
  unfolding after_model
  after_model-Does block error none n = inl refl
  after_model-Does block error (some rsp) n =
      failed-Does (is_given error || is_given rsp.error) block rsp n

  abbrev held : List Callback → Nudges → ℕ
  held calls n = (run_callbacks calls (some n)).1.0

  abbrev told : List Callback → Nudges → ℕ
  told calls n = (run_callbacks calls (some n)).1.1

  -- From a state within the budget, the calls block no more answers than are left of the budget,
  -- and add no more messages than answers are blocked or were due.
  run_callbacks-bounded :
      (calls : List Callback) (n : Nudges)
      → n.count ≤ max_nudges
      → (held calls n + n.count ≤ max_nudges)
        × (told calls n ≤ held calls n + pending_of n.remind_pending)
  unfolding run_callbacks
  run_callbacks-bounded [] n h = (omega arith, ground arith)
  run_callbacks-bounded (before block message req ∷ calls) n h =
      let (n', is, same, due) = before_model-due block message req n in
      let (ih_held, ih_told) = run_callbacks-bounded calls n' (omega arith) in
      rw is (omega arith, omega arith)
  run_callbacks-bounded (after block error rsp ∷ calls) n h =
      elim (after_model-Does block error rsp n) [
        | inl is ↦
            let (ih_held, ih_told) = run_callbacks-bounded calls n h in
            rw is (omega arith, omega arith)
        | inr (inl is) ↦
            let (ih_held, ih_told) =
              run_callbacks-bounded calls (record n { remind_pending = false }) h in
            rw is (omega arith, omega arith)
        | inr (inr (r, room, is)) ↦
            let (ih_held, ih_told) =
              run_callbacks-bounded calls (record { count = n.count + 1; remind_pending = true })
                (omega arith) in
            rw is (omega arith, omega arith)
      ]

  -- In one invocation, whatever the model answers and whatever happens to the goals and plans
  -- between the calls, at most `max_nudges` answers are blocked; each puts at most one message into
  -- a request.
  pub nudges-bounded :
      (calls : List Callback)
      → let (_, (held, told)) =
          run_callbacks calls (some (record { count = 0; remind_pending = false })) in
        (held ≤ max_nudges) × (told ≤ held)
  nudges-bounded calls =
      let (h, t) =
        run_callbacks-bounded calls (record { count = 0; remind_pending = false }) (omega arith) in
      (omega arith, omega arith)
