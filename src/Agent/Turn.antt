-- ===== src/Agent/Turn.antt =====
-- ProcessTurn and processTurnInline of exoclaw/agent/loop.go, over the direct executor.
use exoclaw_go.Prelude.{
  ℕ, ◌-◌, String, Bool, Option, none, some, List, [], ◌∷◌, when_set, length, drop,
}
use exoclaw_go.Prelude.Effects.{Result, ok, err, Exec, pure, ◌>>=◌}
use exoclaw_go.Json.{Fields}
use exoclaw_go.Executor.Direct.{
  PriorSource, Context, DirectExecutor, with_turn_state, set_prior_source_ctx, set_messages_ctx,
}
use exoclaw_go.Executor.Prior.{build_lazy_prior_source}
use exoclaw_go.Executor.Isolation.{direct_buffer}
use exoclaw_go.Agent.Env.{Env, Progress}
use exoclaw_go.Agent.State.{LoopState}
use exoclaw_go.Agent.Loop.{LimitText, LoopResult, run_agent_loop}

-- What a turn asks of the executor and the conversation, besides what the loop does.
pub record TurnEnv (W : Type 0) : Type 0 where
  pub loop_env : Env W
  pub limit_text : LimitText
  -- reflect.DeepEqual on messages
  pub deep_equal : Fields → Fields → Bool
  -- RunTurner
  pub run_turn : Option (String → String → Exec W (Option (String × List Fields)))
  pub mint_turn_id : Exec W String
  pub conversation_build_prompt : String → String → Exec W (List Fields)
  -- PersistedHistoryLoader
  pub load_persisted_history : Option (String → W → List Fields)
  pub post_turn : String → Exec W (Unit {0})
  pub record_messages : String → List Fields → Exec W (Unit {0})

abbrev pub Turn : Type 0 → Type 0
Turn W = W × DirectExecutor

module _ {W : Type 0} (t : TurnEnv W) where
  unfoldable pub on_world : {A : Type 0} → Exec W A → Exec (Turn W) A
  on_world m s = let (r, w) = m s.0 in (r, (w, s.1))

  -- The prompt goes to the state of `ctx`: as a lazy source, where the persisted history is found in
  -- it, and else as it is.
  unfoldable pub store_prompt :
      Context → List Fields → Option PriorSource → DirectExecutor → DirectExecutor
  store_prompt ctx messages none e = set_messages_ctx ctx messages e
  store_prompt ctx messages (some source) e = set_prior_source_ctx ctx (some source) e

  abbrev pub lazy_source : String → List Fields → W → Option PriorSource
  lazy_source session_id messages w =
      when_set t.load_persisted_history none
        (λ load. build_lazy_prior_source t.deep_equal messages (load session_id w))

  -- DirectExecutor.BuildPrompt
  unfoldable pub build_prompt : Context → String → String → Exec (Turn W) (List Fields)
  build_prompt ctx session_id message = do
    messages ← on_world (t.conversation_build_prompt session_id message)
    λ s. (ok messages, (s.0, store_prompt ctx messages (lazy_source session_id messages s.0) s.1))

  abbrev pub last_of : List Fields → Option Fields
  last_of [] = none
  last_of (m ∷ []) = some m
  last_of (m ∷ ms) = last_of ms

  -- The user's message, for an appendable conversation.
  unfoldable pub append_user : String → List Fields → Exec (Turn W) (Unit {0})
  append_user session_id initial =
      when_set t.loop_env.append (pure tt)
        (λ append. when_set (last_of initial) (pure tt) (λ m. on_world (append session_id m)))

  -- From the fresh turn state to the call of runAgentLoop: the prompt.
  unfoldable pub begin_turn : String → String → Exec (Turn W) (List Fields)
  begin_turn session_id message s =
      let (ctx, e) = with_turn_state s.1 in
      (do
        turn_id ← on_world t.mint_turn_id
        initial ← build_prompt ctx session_id message
        done ← append_user session_id initial
        pure initial)
        (s.0, e)

  -- PostTurn or Record, and what the turn returns.
  unfoldable pub finish_turn :
      String → List Fields → LoopResult → Exec (Turn W) (String × List Fields)
  finish_turn session_id initial r =
      let new_messages = drop (length initial - 1) r.messages in
      do
        done ← on_world (
            when_set t.loop_env.append (t.record_messages session_id new_messages)
              (λ append. t.post_turn session_id))
        pure (r.final_content, new_messages)

  unfoldable pub after_loop :
      String
      → List Fields
      → Option (Result LoopResult × LoopState W DirectExecutor)
      → Option (Result (String × List Fields) × Turn W)
  after_loop session_id initial none = none
  after_loop session_id initial (some (ok r, s)) =
      some (finish_turn session_id initial r (s.world, s.buffer))
  after_loop session_id initial (some (err e, s)) = some (err e, (s.world, s.buffer))

  module _ (on_progress : Option (Progress → Exec W (Unit {0}))) (model : String) where
    unfoldable pub start_loop : Turn W → LoopState W DirectExecutor
    start_loop (w, e) = record {
      world = w;
      buffer = e;
      iteration = 0;
      tools_used = [];
      recovery_attempts = 0;
      notified = none;
    }

    unfoldable pub after_prompt :
        ℕ → String → Result (List Fields) × Turn W → Option (Result (String × List Fields) × Turn W)
    after_prompt fuel session_id (err e, s) = some (err e, s)
    after_prompt fuel session_id (ok initial, s) = after_loop session_id initial (
        run_agent_loop t.loop_env (direct_buffer []) on_progress model session_id t.limit_text fuel
          (start_loop s))

    unfoldable pub process_turn_inline :
        ℕ → String → String → Turn W → Option (Result (String × List Fields) × Turn W)
    process_turn_inline fuel session_id message s =
        after_prompt fuel session_id (begin_turn session_id message s)

    unfoldable pub after_run_turn :
        ℕ
        → String
        → String
        → Result (Option (String × List Fields)) × Turn W
        → Option (Result (String × List Fields) × Turn W)
    after_run_turn fuel session_id message (err e, s) = some (err e, s)
    after_run_turn fuel session_id message (ok none, s) =
        process_turn_inline fuel session_id message s
    after_run_turn fuel session_id message (ok (some r), s) = some (ok r, s)

    unfoldable pub process_turn :
        ℕ → String → String → Turn W → Option (Result (String × List Fields) × Turn W)
    process_turn fuel session_id message s =
        when_set t.run_turn (process_turn_inline fuel session_id message s)
          (λ run. after_run_turn fuel session_id message (on_world (run session_id message) s))
