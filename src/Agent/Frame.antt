-- ===== src/Agent/Frame.antt =====
-- A property of the loop's state that does not speak of the world, the buffer or the list of tools
-- used is kept by every part of a round, if it is kept where a recovery attempt is counted.
use exoclaw_go.Prelude.{
  suc, ◌≡◌, String, true, false, Option, none, some, List, [], ◌∷◌, leb, Bool-cases, inl, inr, ◌⊎◌,
  ◌++◌,
}
use exoclaw_go.Prelude.Effects.{context_window_exceeded, Result, ok, err, Exec}
use exoclaw_go.Prelude.Keeps.{
  Keeps, Keeps-bind, Keeps-pure, Keeps-raise, Keeps-if, when_set-state, keeps_rules,
}
use exoclaw_go.Json.{Fields}
use exoclaw_go.Providers.{ToolCallRequest, LlmResponse}
use exoclaw_go.Executor.{MessageBuffer}
use exoclaw_go.Agent.Env.{Env, Progress, hint}
use exoclaw_go.Agent.State.{LoopState, lift as lift_call, push_messages, replace_messages}
use exoclaw_go.Agent.World.{
  IsWorldLocal, lift-Keeps, flush-Keeps, pre_tool-Keeps, decide-Keeps, perform-Keeps,
  tool_result_hook-Keeps, tell-Keeps, tell_thought-Keeps, on_tool_calls-Keeps,
}
use exoclaw_go.Agent.ToolCall.{record_result, settle, run_tool_call, run_tool_calls}
use exoclaw_go.Agent.Pass.{
  Next, again, tool_call_turn, finished, nudge, decide_finish, before_finish, retry_with,
  after_chat, emit, compacted, on_overflow, tool_round, finish_round, respond, ask, should_continue,
}

pub record IsLocal {W X : Type 0} (P : LoopState W X → Type 0) : Type 0 where
  pub worldly : IsWorldLocal P
  pub at_buffer : (s : LoopState W X) (b : X) → P s → P (record s { buffer = b })
  pub at_tools : (s : LoopState W X) (l : List String) → P s → P (record s { tools_used = l })

module _ {W X : Type 0} {P : LoopState W X → Type 0} (local : IsLocal P) where
  lift : {A : Type 0} (m : Exec W A) → Keeps P (lift_call {X = X} m)
  lift = lift-Keeps local.worldly

  module _ (buf : MessageBuffer X) where
    push_messages-Keeps : (ms : List Fields) → Keeps P (push_messages {W = W} buf ms)
    unfolding push_messages
    push_messages-Keeps ms = record { at = λ s h. local.at_buffer s _ h }

    replace_messages-Keeps : (ms : List Fields) → Keeps P (replace_messages {W = W} buf ms)
    unfolding replace_messages
    replace_messages-Keeps ms = record { at = λ s h. local.at_buffer s _ h }

  module _ (env : Env W) where
    module _ (buf : MessageBuffer X) where
      pub settle-Keeps : (c : ToolCallRequest) (s : LoopState W X) → P s → P (settle env buf c s).1
      unfolding settle
      settle-Keeps c s h =
          let h₁ =
            pre_tool-Keeps local.worldly env buf c _
              (local.at_tools s (s.tools_used ++ c.name ∷ []) h) in
          tool_result_hook-Keeps local.worldly env buf _ _ _
            (perform-Keeps local.worldly env buf _ _ (decide-Keeps local.worldly env buf _ c _ h₁))

      run_tool_call-Keeps :
          (session_id : String) (c : ToolCallRequest) → Keeps P (run_tool_call env buf session_id c)
      unfolding run_tool_call record_result
      run_tool_call-Keeps session_id c = record {
        at = λ s h.
            (Keeps-bind _ _ (push_messages-Keeps buf _)
                (λ _. flush-Keeps local.worldly env session_id _)).at
              _ (settle-Keeps c s h);
      }

      run_tool_calls-Keeps :
          (session_id : String) (cs : List ToolCallRequest)
          → Keeps P (run_tool_calls env buf session_id cs)
      unfolding run_tool_calls
      run_tool_calls-Keeps session_id [] = Keeps-pure tt
      run_tool_calls-Keeps session_id (c ∷ cs) =
          Keeps-bind _ _ (run_tool_call-Keeps session_id c)
            (λ _. run_tool_calls-Keeps session_id cs)

      module _ (on_progress : Option (Progress → Exec W (Unit {0})))
          (model session_id : String) where
        emit-Keeps : (m : Fields) → Keeps P (emit env buf on_progress model session_id m)
        unfolding emit
        emit-Keeps m =
            Keeps-bind _ _ (push_messages-Keeps buf _)
              (λ _. flush-Keeps local.worldly env session_id m)

        compacted-Keeps :
            (ms : List Fields) → Keeps P (compacted env buf on_progress model session_id ms)
        unfolding compacted
        compacted-Keeps ms = search (keeps_rules, lift)

        pub should_continue-Keeps : Keeps P (should_continue env buf on_progress model session_id)
        unfolding should_continue
        should_continue-Keeps = record {
          at = λ s h.
              when_set-state P env.iteration_policy _ _ h
                (λ p. (lift-Keeps local.worldly _).at s h);
        }

        tool_round-Keeps :
            (r : LlmResponse) → Keeps P (tool_round env buf on_progress model session_id r)
        unfolding tool_round
        tool_round-Keeps r = record {
          at = λ s h.
              (Keeps-bind _ _
                  (on_tool_calls-Keeps local.worldly env buf on_progress model session_id
                    r.tool_calls)
                  (λ _. Keeps-bind _ _ (emit-Keeps (tool_call_turn env.marshal r)) (λ _.
                    Keeps-bind _ _ (run_tool_calls-Keeps session_id r.tool_calls)
                      (λ _. Keeps-pure again)))).at
                _
                (tell-Keeps local.worldly env buf on_progress model session_id (hint r.tool_calls) _
                  (tell_thought-Keeps local.worldly env buf on_progress model session_id r.content s
                    h));
        }

        nudge-Keeps :
            (text : String) (rest : Exec (LoopState W X) Next)
            → Keeps P rest
            → Keeps P (nudge env buf on_progress model session_id text rest)
        unfolding nudge
        nudge-Keeps text rest k =
            Keeps-if _ _ _ k (Keeps-bind _ _ (emit-Keeps _) (λ _. Keeps-pure again))

        decide_finish-Keeps :
            (clean : String) → Keeps P (decide_finish env buf on_progress model session_id clean)
        unfolding decide_finish
        decide_finish-Keeps clean = record {
          at = λ s h. when_set-state P env.before_finish _ _ h (λ decider.
              (nudge-Keeps _ _ (Keeps-pure (finished clean))).at _ (local.worldly.at_world s _ h));
        }

        before_finish-Keeps :
            (clean : String) → Keeps P (before_finish env buf on_progress model session_id clean)
        unfolding before_finish
        before_finish-Keeps clean = record {
          at = λ s h.
              when_set-state P env.on_before_finish _ _ ((decide_finish-Keeps clean).at s h)
                (λ hook.
                  (Keeps-bind _ _ (lift-Keeps local.worldly _)
                      (λ text. nudge-Keeps text _ (decide_finish-Keeps clean))).at
                    s h);
        }

        finish_round-Keeps :
            (r : LlmResponse) → Keeps P (finish_round env buf on_progress model session_id r)
        unfolding finish_round
        finish_round-Keeps r =
            Keeps-if _ _ _ (Keeps-pure _)
              (Keeps-bind _ _ (emit-Keeps _) (λ _. before_finish-Keeps _))

        respond-Keeps : (r : LlmResponse) → Keeps P (respond env buf on_progress model session_id r)
        unfolding respond
        respond-Keeps r = Keeps-if _ _ _ (tool_round-Keeps _) (finish_round-Keeps _)

        retry_with-Keeps :
            (o : Option (List Fields)) → Keeps P (retry_with env buf on_progress model session_id o)
        unfolding retry_with
        retry_with-Keeps none = Keeps-pure _
        retry_with-Keeps (some ms) =
            Keeps-bind _ _ (replace_messages-Keeps buf ms) (λ _. Keeps-pure again)

        module _
            (counted : (s : LoopState W X)
              → leb env.max_recovery_attempts s.recovery_attempts ≡ false
              → P s
              → P (record s { recovery_attempts = suc s.recovery_attempts })) where
          on_overflow-Keeps :
              (ms : List Fields) → Keeps P (on_overflow env buf on_progress model session_id ms)
          unfolding on_overflow
          on_overflow-Keeps ms = record {
            at = λ s h. go s h (Bool-cases (leb env.max_recovery_attempts s.recovery_attempts));
          }
            where
              go :
                  (s : LoopState W X)
                  → P s
                  → (leb env.max_recovery_attempts s.recovery_attempts ≡ true)
                    ⊎ (leb env.max_recovery_attempts s.recovery_attempts ≡ false)
                  → P (on_overflow env buf on_progress model session_id ms s).1
              go s h (inl e) = rw e h
              go s h (inr e) = rw e (
                  (Keeps-bind _ _ (compacted-Keeps ms) (λ c. retry_with-Keeps c)).at _
                    (counted s e h))

          after_chat-Keeps :
              (ms : List Fields) (r : Result LlmResponse)
              → Keeps P (after_chat env buf on_progress model session_id ms r)
          unfolding after_chat
          after_chat-Keeps ms (ok r) = respond-Keeps r
          after_chat-Keeps ms (err (context_window_exceeded m)) = on_overflow-Keeps ms
          after_chat-Keeps ms (err e) = Keeps-raise e

          -- So the model call of a round, and all that follows it, keeps the property.
          pub ask-Keeps : Keeps P (ask env buf on_progress model session_id)
          unfolding ask
          ask-Keeps = record {
            at = λ s h. (after_chat-Keeps _ _).at _ ((lift-Keeps local.worldly _).at s h);
          }
