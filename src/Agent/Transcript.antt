-- ===== src/Agent/Transcript.antt =====
-- What the tool rounds of exoclaw/agent/loop.go leave in the message buffer.
use exoclaw_go.Prelude.{
  ◌≡◌, refl, sym, ap, ◌∙◌, String, Option, none, some, List, [], ◌∷◌, ◌++◌, append_assoc,
  append-nil, map,
}
use exoclaw_go.Prelude.Effects.{Result, ok, err, continue}
use exoclaw_go.Prelude.Keeps.{when_set-value}
use exoclaw_go.Json.{Fields, str, get}
use exoclaw_go.Providers.{ToolCallRequest}
use exoclaw_go.Executor.{MessageBuffer}
use exoclaw_go.Agent.Env.{Env, BeforeToolResult}
use exoclaw_go.Agent.State.{LoopState, push_messages, load}
use exoclaw_go.Agent.ToolCall.{
  Verdict, errored, rejected, proceed, apply_before_tool, decide, pre_tool, settle, tool_message,
  persisted, record_result, run_tool_call, run_tool_calls,
}
use exoclaw_go.Agent.World.{
  IsWorldLocal, flush-Keeps, pre_tool-Keeps, decide-Keeps, perform-Keeps, tool_result_hook-Keeps,
}

-- One tool message for each call, in the order of the calls, with the call's id and name.
abbrev pub Answers : List ToolCallRequest → List Fields → Type 0
Answers [] [] = Unit
Answers (c ∷ cs) (m ∷ ms) =
    ((get "role" m ≡ some (str "tool"))
      × (get "tool_call_id" m ≡ some (str c.id))
      × (get "name" m ≡ some (str c.name)))
    × Answers cs ms
Answers _ _ = ⊥

module _ {W X : Type 0} (env : Env W) (buf : MessageBuffer X) where
  -- The buffer and the list of tools used, which a call into the world leaves alone.
  abbrev pub Holds : X → List String → LoopState W X → Type 0
  Holds b l s = (s.buffer ≡ b) × (s.tools_used ≡ l)

  pub Holds-IsWorldLocal : (b : X) (l : List String) → IsWorldLocal (Holds b l)
  Holds-IsWorldLocal b l = record { at_world = λ s w h. h }

  settle-Holds :
      (c : ToolCallRequest) (s : LoopState W X)
      → Holds s.buffer (s.tools_used ++ c.name ∷ []) (settle env buf c s).1
  unfolding settle
  settle-Holds c s =
      let w = Holds-IsWorldLocal s.buffer (s.tools_used ++ c.name ∷ []) in
      tool_result_hook-Keeps w env buf _ _ _ (
        perform-Keeps w env buf _ _
          (decide-Keeps w env buf _ c _ (pre_tool-Keeps w env buf c _ (refl, refl))))

  -- A decider may replace the arguments, never the id or the name.
  abbrev SameCall : ToolCallRequest → ToolCallRequest → Type 0
  SameCall c d = (d.id ≡ c.id) × (d.name ≡ c.name)

  apply_before_tool-SameCall :
      (c : ToolCallRequest) (o : Option BeforeToolResult) → SameCall c (apply_before_tool c o).0
  unfolding apply_before_tool
  apply_before_tool-SameCall c none = (refl, refl)
  apply_before_tool-SameCall c (some bt) = (refl, refl)

  decide-SameCall :
      (v : Verdict) (c : ToolCallRequest) (s : LoopState W X)
      → SameCall c (decide env buf v c s).0.0
  unfolding decide
  decide-SameCall (errored e) c s = (refl, refl)
  decide-SameCall (rejected r) c s = (refl, refl)
  decide-SameCall proceed c s =
      when_set-value (λ (cv : ToolCallRequest × Verdict). SameCall c cv.0) env.before_tool _ _
        (refl, refl) (λ decider. apply_before_tool-SameCall c _)

  -- The message that one call leaves, and the buffer with it.
  message_of : ToolCallRequest → LoopState W X → Fields
  message_of c s = let (done, s') = settle env buf c s in tool_message done.0 done.1.0 done.1.1

  message_of-Answers :
      (c : ToolCallRequest) (s : LoopState W X) → Answers (c ∷ []) (message_of c s ∷ [])
  unfolding message_of settle tool_message get
  message_of-Answers c s =
      let same =
        decide-SameCall
          (pre_tool env buf c (record s { tools_used = s.tools_used ++ c.name ∷ [] })).0 c
          (pre_tool env buf c (record s { tools_used = s.tools_used ++ c.name ∷ [] })).1 in
      ((refl, ap (λ t. some (str t)) same.0, ap (λ t. some (str t)) same.1), tt)

  run_tool_call-Holds :
      (session_id : String) (c : ToolCallRequest) (s : LoopState W X)
      → Holds
          (buf.append_messages (message_of c s ∷ []) s.buffer)
          (s.tools_used ++ c.name ∷ [])
          (run_tool_call env buf session_id c s).1
  unfolding run_tool_call record_result push_messages message_of
  run_tool_call-Holds session_id c s =
      let (at_buffer, at_tools) = settle-Holds c s in
      let m = message_of c s in
      let (b, l) =
        (flush-Keeps
            (Holds-IsWorldLocal (buf.append_messages (m ∷ []) (settle env buf c s).1.buffer)
              (settle env buf c s).1.tools_used)
            env session_id (persisted m)).at
          (record (settle env buf c s).1 {
            buffer = buf.append_messages (m ∷ []) (settle env buf c s).1.buffer;
          })
          (refl, refl) in
      (b ∙ ap (buf.append_messages (m ∷ [])) at_buffer, l ∙ at_tools)

  -- What a list of calls has done when no flush failed.
  abbrev pub Answered :
      List ToolCallRequest → LoopState W X → Result (Unit {0}) × LoopState W X → Type 0
  Answered cs s (err e, s') = Unit
  Answered cs s (ok u, s') =
      (ms : List Fields) × Answers cs ms
      × (load buf s' ≡ load buf s ++ ms)
      × (s'.tools_used ≡ s.tools_used ++ map (λ c. c.name) cs)

  Answered-cons :
      (session_id : String) (c : ToolCallRequest) (cs : List ToolCallRequest) (s : LoopState W X)
      (r : Result (Unit {0})) (s₁ : LoopState W X)
      → Holds (buf.append_messages (message_of c s ∷ []) s.buffer) (s.tools_used ++ c.name ∷ []) s₁
      → ((s' : LoopState W X) → Answered cs s' (run_tool_calls env buf session_id cs s'))
      → Answered (c ∷ cs) s (continue (r, s₁) (λ _. run_tool_calls env buf session_id cs))
  Answered-cons session_id c cs s (err e) s₁ h k = tt
  Answered-cons session_id c cs s (ok u) s₁ h k =
      extend (run_tool_calls env buf session_id cs s₁) (k s₁)
    where
      extend : (r : Result (Unit {0}) × LoopState W X) → Answered cs s₁ r → Answered (c ∷ cs) s r
      extend (err e, s') a = tt
      extend (ok u, s') (ms, answers, loaded, tools) = (
        message_of c s ∷ ms,
        ((message_of-Answers c s).0, answers),
        loaded
            ∙ ap (λ l. l ++ ms)
                (ap buf.load_messages h.0 ∙ buf.load-append (message_of c s ∷ []) s.buffer)
            ∙ append_assoc (load buf s) (message_of c s ∷ []) ms,
        tools
            ∙ ap (λ l. l ++ map (λ c. c.name) cs) h.1
            ∙ append_assoc s.tools_used (c.name ∷ []) (map (λ c. c.name) cs),
      )

  -- Where no call to the conversation failed, every call has been answered: the buffer holds one
  -- tool message more for each call, in order, with its id and name, whatever the hooks, the
  -- deciders and the tools did or returned, and the names of the calls were added to toolsUsed.
  pub run_tool_calls-Answered :
      (session_id : String) (cs : List ToolCallRequest) (s : LoopState W X)
      → Answered cs s (run_tool_calls env buf session_id cs s)
  unfolding run_tool_calls
  run_tool_calls-Answered session_id [] s = ([], tt, sym (append-nil _), sym (append-nil _))
  run_tool_calls-Answered session_id (c ∷ cs) s =
      Answered-cons session_id c cs s _ _ (run_tool_call-Holds session_id c s)
        (run_tool_calls-Answered session_id cs)
