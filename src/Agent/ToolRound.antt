-- ===== src/Agent/ToolRound.antt =====
-- A round with tool calls of exoclaw/agent/loop.go: the buffer after it, and where errors go.
use exoclaw_go.Prelude.{
  arith, ◌≡◌, refl, ap, ◌∙◌, String, true, Option, none, List, [], ◌∷◌, ◌++◌, append_assoc, map,
  ◌⊎◌, inl, inr, str_eq, when_set, when_set-ind, if◌then◌else◌,
}
use exoclaw_go.Prelude.Effects.{Result, ok, err, Exec, pure, continue, ◌>>=◌}
use exoclaw_go.Json.{Fields}
use exoclaw_go.Providers.{ToolCallRequest, LlmResponse}
use exoclaw_go.Executor.{MessageBuffer}
use exoclaw_go.Agent.Env.{Env, Progress, hint}
use exoclaw_go.Agent.State.{LoopState, lift, flush, push_messages, load}
use exoclaw_go.Agent.ToolCall.{record_result, run_tool_call, run_tool_calls}
use exoclaw_go.Agent.Pass.{Next, again, tool_call_turn, emit, tool_round}
use exoclaw_go.Agent.World.{flush-Keeps, tell-Keeps, tell_thought-Keeps, on_tool_calls-Keeps}
use exoclaw_go.Agent.Transcript.{
  Answers, Holds, Holds-IsWorldLocal, Answered, run_tool_calls-Answered,
}

module _ {W X : Type 0} (env : Env W) (buf : MessageBuffer X) where
  -- The conversation is not told of messages: it is not appendable, or there is no session.
  abbrev pub Silent : String → Type 0
  Silent session_id = (env.append ≡ none) ⊎ (str_eq session_id "" ≡ true)

  flush-Silent :
      (session_id : String) (m : Fields) (s : LoopState W X)
      → Silent session_id
      → flush env session_id m s ≡ (ok tt, s)
  unfolding flush
  flush-Silent session_id m s (inl e) =
      ap
        (λ o.
          when_set o (pure tt)
            (λ append. if str_eq session_id "" then pure tt else lift (append session_id m)) s)
        e
  flush-Silent session_id m s (inr e) =
      when_set-ind (λ (f : Exec (LoopState W X) (Unit {0})). f s ≡ (ok tt, s)) env.append _ _ refl
        (λ append. rw e refl)

  calls_never_fail :
      (session_id : String) (cs : List ToolCallRequest) (s : LoopState W X)
      → Silent session_id
      → (run_tool_calls env buf session_id cs s).0 ≡ ok tt
  unfolding run_tool_calls run_tool_call record_result push_messages
  calls_never_fail session_id [] s q = refl
  calls_never_fail session_id (c ∷ cs) s q =
      rw (flush-Silent session_id _ _ q) (calls_never_fail session_id cs _ q)

  -- The calls ended without an error, and each is answered.
  abbrev pub AllAnswered :
      List ToolCallRequest → LoopState W X → Result (Unit {0}) × LoopState W X → Type 0
  AllAnswered cs s o =
      (o.0 ≡ ok tt)
      × ((ms : List Fields) × Answers cs ms
          × (load buf o.1 ≡ load buf s ++ ms)
          × (o.1.tools_used ≡ s.tools_used ++ map (λ c. c.name) cs))

  Answered-ok :
      (cs : List ToolCallRequest) (s : LoopState W X) (o : Result (Unit {0}) × LoopState W X)
      → o.0 ≡ ok tt
      → Answered env buf cs s o
      → AllAnswered cs s o
  Answered-ok cs s (ok u, s') h a = (h, a)
  Answered-ok cs s (err e, s') h a = absurd (ground (arith, h))

  -- With a conversation that is not told of messages a list of calls never ends in an error, whatever
  -- the hooks, the deciders and the tools returned, and each call is answered: the buffer has one tool
  -- message more for each, in order, with its id and name.
  pub run_tool_calls-Silent :
      (session_id : String) (cs : List ToolCallRequest) (s : LoopState W X)
      → Silent session_id
      → AllAnswered cs s (run_tool_calls env buf session_id cs s)
  run_tool_calls-Silent session_id cs s q =
      Answered-ok cs s (run_tool_calls env buf session_id cs s) (calls_never_fail session_id cs s q)
        (run_tool_calls-Answered env buf session_id cs s)

  module _ (on_progress : Option (Progress → Exec W (Unit {0}))) (model session_id : String) where
    emit-Holds :
        (m : Fields) (s : LoopState W X)
        → Holds env buf
            (buf.append_messages (m ∷ []) s.buffer)
            s.tools_used
            (emit env buf on_progress model session_id m s).1
    unfolding emit push_messages
    emit-Holds m s =
        (flush-Keeps (Holds-IsWorldLocal env buf _ _) env session_id m).at _ (refl, refl)

    -- What a tool round has done unless it ended in an error.
    abbrev pub RoundAnswered : LlmResponse → LoopState W X → Result Next × LoopState W X → Type 0
    RoundAnswered r s (err e, s') = Unit
    RoundAnswered r s (ok next, s') =
        (next ≡ again)
        × ((ms : List Fields) × Answers r.tool_calls ms
            × (load buf s' ≡ load buf s ++ tool_call_turn env.marshal r ∷ ms)
            × (s'.tools_used ≡ s.tools_used ++ map (λ c. c.name) r.tool_calls))

    calls-RoundAnswered :
        (r : LlmResponse) (s s₁ : LoopState W X) (o : Result (Unit {0}) × LoopState W X)
        → (load buf s₁ ≡ load buf s ++ tool_call_turn env.marshal r ∷ [])
        → s₁.tools_used ≡ s.tools_used
        → Answered env buf r.tool_calls s₁ o
        → RoundAnswered r s (continue o (λ _. pure again))
    calls-RoundAnswered r s s₁ (err e, s') b l a = tt
    calls-RoundAnswered r s s₁ (ok u, s') b l (ms, answers, loaded, tools) = (
      refl,
      (
        ms,
        answers,
        loaded ∙ ap (λ h. h ++ ms) b ∙ append_assoc (load buf s) _ ms,
        tools ∙ ap (λ h. h ++ map (λ c. c.name) r.tool_calls) l,
      ),
    )

    emit-RoundAnswered :
        (r : LlmResponse) (s s₁ : LoopState W X) (o : Result (Unit {0})) (s₂ : LoopState W X)
        → Holds env buf s.buffer s.tools_used s₁
        → Holds env buf
            (buf.append_messages (tool_call_turn env.marshal r ∷ []) s₁.buffer)
            s₁.tools_used
            s₂
        → RoundAnswered r s (
            continue
              (o, s₂)
              (λ _. run_tool_calls env buf session_id r.tool_calls >>= λ _. pure again))
    emit-RoundAnswered r s s₁ (err e) s₂ h₁ h₂ = tt
    emit-RoundAnswered r s s₁ (ok u) s₂ h₁ h₂ =
        calls-RoundAnswered r s s₂ (run_tool_calls env buf session_id r.tool_calls s₂)
          (ap buf.load_messages (h₂.0 ∙ ap (buf.append_messages _) h₁.0)
            ∙ buf.load-append _ s.buffer)
          (h₂.1 ∙ h₁.1) (run_tool_calls-Answered env buf session_id r.tool_calls s₂)

    hook-RoundAnswered :
        (r : LlmResponse) (s : LoopState W X) (o : Result (Unit {0})) (s₁ : LoopState W X)
        → Holds env buf s.buffer s.tools_used s₁
        → RoundAnswered r s (
            continue
              (o, s₁)
              (λ _.
                emit env buf on_progress model session_id (tool_call_turn env.marshal r) >>= λ _.
                run_tool_calls env buf session_id r.tool_calls >>= λ _. pure again))
    hook-RoundAnswered r s (err e) s₁ h = tt
    hook-RoundAnswered r s (ok u) s₁ h =
        emit-RoundAnswered r s s₁ _ _ h (emit-Holds (tool_call_turn env.marshal r) s₁)

    -- A round with tool calls that ends without an error goes on with the next round. The buffer
    -- has grown by the assistant's turn and then one tool message for each of its calls, in order.
    pub tool_round-RoundAnswered :
        (r : LlmResponse) (s : LoopState W X)
        → RoundAnswered r s (tool_round env buf on_progress model session_id r s)
    unfolding tool_round
    tool_round-RoundAnswered r s =
        let w = Holds-IsWorldLocal env buf s.buffer s.tools_used in
        hook-RoundAnswered r s _ _ (
          (on_tool_calls-Keeps w env buf on_progress model session_id r.tool_calls).at _ (
            tell-Keeps w env buf on_progress model session_id (hint r.tool_calls) _
              (tell_thought-Keeps w env buf on_progress model session_id r.content s (refl, refl))))
