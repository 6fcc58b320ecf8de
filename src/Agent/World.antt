-- ===== src/Agent/World.antt =====
-- The calls of a round into the world keep a property of the loop's state that does not speak of the
-- world.
use exoclaw_go.Prelude.{String, Option, none, some, List, str_eq, when_set-ind, if-ind}
use exoclaw_go.Prelude.Effects.{Exec}
use exoclaw_go.Prelude.Keeps.{Keeps, when_set-state, keeps_rules}
use exoclaw_go.Json.{Fields}
use exoclaw_go.Providers.{ToolCallRequest}
use exoclaw_go.Executor.{MessageBuffer}
use exoclaw_go.Agent.Think.{strip_think}
use exoclaw_go.Agent.Env.{Env, Progress, thought}
use exoclaw_go.Agent.State.{LoopState, lift, flush}
use exoclaw_go.Agent.ToolCall.{
  tool_result_hook, Verdict, errored, rejected, proceed, pre_tool, decide, perform, invoke_tool,
}
use exoclaw_go.Agent.Pass.{tell, tell_thought, on_tool_calls}

pub record IsWorldLocal {W X : Type 0} (P : LoopState W X → Type 0) : Type 0 where
  pub at_world : (s : LoopState W X) (w : W) → P s → P (record s { world = w })

module _ {W X : Type 0} {P : LoopState W X → Type 0} (worldly : IsWorldLocal P) where
  pub lift-Keeps : {A : Type 0} (m : Exec W A) → Keeps P (lift {X = X} m)
  unfolding lift
  lift-Keeps m = record { at = λ s h. worldly.at_world s (m s.world).1 h }

  module _ (env : Env W) where
    pub flush-Keeps : (session_id : String) (m : Fields) → Keeps P (flush {X = X} env session_id m)
    unfolding flush
    flush-Keeps session_id m = search (keeps_rules, lift-Keeps)

    module _ (buf : MessageBuffer X) where
      pub pre_tool-Keeps :
          (c : ToolCallRequest) (s : LoopState W X) → P s → P (pre_tool env buf c s).1
      unfolding pre_tool
      pre_tool-Keeps c s h = when_set-state P env.on_pre_tool _ _ h (λ hook. (lift-Keeps _).at s h)

      pub decide-Keeps :
          (v : Verdict) (c : ToolCallRequest) (s : LoopState W X) → P s → P (decide env buf v c s).1
      unfolding decide
      decide-Keeps (errored e) c s h = h
      decide-Keeps (rejected r) c s h = h
      decide-Keeps proceed c s h =
          when_set-state P env.before_tool _ _ h (λ decider. worldly.at_world s _ h)

      pub perform-Keeps :
          (cv : ToolCallRequest × Verdict) (s : LoopState W X) → P s → P (perform env buf cv s).1
      unfolding perform
      perform-Keeps (c, errored e) s h = h
      perform-Keeps (c, rejected r) s h = h
      perform-Keeps (c, proceed) s h = (lift-Keeps (invoke_tool env buf c)).at s h

      pub tool_result_hook-Keeps :
          (c : ToolCallRequest) (result : String) (s : LoopState W X)
          → P s
          → P (tool_result_hook env buf c result s)
      unfolding tool_result_hook
      tool_result_hook-Keeps c result s h =
          when_set-ind P env.on_tool_result _ _ h (λ hook. (lift-Keeps _).at s h)

      module _ (on_progress : Option (Progress → Exec W (Unit {0})))
          (model session_id : String) where
        pub tell-Keeps :
            (p : Progress) (s : LoopState W X)
            → P s
            → P (tell env buf on_progress model session_id p s)
        unfolding tell
        tell-Keeps p s h = when_set-ind P on_progress _ _ h (λ f. (lift-Keeps _).at s h)

        pub tell_thought-Keeps :
            (o : Option String) (s : LoopState W X)
            → P s
            → P (tell_thought env buf on_progress model session_id o s)
        unfolding tell_thought
        tell_thought-Keeps none s h = h
        tell_thought-Keeps (some t) s h =
            if-ind P (str_eq (strip_think t) "") s
              (tell env buf on_progress model session_id (thought (strip_think t)) s) (λ _. h)
              (λ _. tell-Keeps _ s h)

        pub on_tool_calls-Keeps :
            (cs : List ToolCallRequest)
            → Keeps P (on_tool_calls env buf on_progress model session_id cs)
        unfolding on_tool_calls
        on_tool_calls-Keeps cs = search (keeps_rules, lift-Keeps)
