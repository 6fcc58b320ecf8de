-- ===== src/Agent/Prompt.antt =====
-- What processTurnInline of exoclaw/agent/loop.go does with the prompt, over the direct executor
-- (exoclaw/executor/direct.go).
use exoclaw_go.Prelude.{ℕ, ◌≡◌, ◌≢◌, refl, ◌∙◌, String, Option, none, some, List, []}
use exoclaw_go.Prelude.Effects.{Exec}
use exoclaw_go.Prelude.Keeps.{Keeps, Keeps-bind, Keeps-pure, Keeps-when_set}
use exoclaw_go.Json.{Fields}
use exoclaw_go.Executor.Direct.{
  PriorSource, background, bound, DirectExecutor, with_turn_state, state, load_messages_ctx,
}
use exoclaw_go.Executor.Isolation.{set, set_prior, load_messages_ctx-apply_ne}
use exoclaw_go.Agent.Turn.{
  TurnEnv, Turn, on_world, store_prompt, build_prompt, append_user, last_of, begin_turn,
}

module _ {W : Type 0} (t : TurnEnv W) (seen : List Fields) where
  -- What the loop's LoadMessages returns.
  abbrev Loads : Turn W → Type 0
  Loads s = load_messages_ctx background [] s.1 ≡ seen

  on_world-Keeps : {A : Type 0} (m : Exec W A) → Keeps Loads (on_world t m)
  unfolding on_world
  on_world-Keeps m = record { at = λ s h. h }

  bound-ne : (i : ℕ) → bound i ≢ background
  bound-ne i q = cc

  store_prompt-Loads :
      (i : ℕ) (messages : List Fields) (o : Option PriorSource) (e : DirectExecutor)
      → load_messages_ctx background [] (store_prompt t (bound i) messages o e)
        ≡ load_messages_ctx background [] e
  unfolding store_prompt
  store_prompt-Loads i messages none e =
      load_messages_ctx-apply_ne (bound i) background (set messages) [] e (bound-ne i)
  store_prompt-Loads i messages (some source) e =
      load_messages_ctx-apply_ne (bound i) background (set_prior (some source)) [] e (bound-ne i)

  build_prompt-Keeps :
      (i : ℕ) (session_id message : String)
      → Keeps Loads (build_prompt t (bound i) session_id message)
  unfolding build_prompt
  build_prompt-Keeps i session_id message =
      Keeps-bind _ _ (on_world-Keeps _)
        (λ messages. record { at = λ s h. store_prompt-Loads i messages _ s.1 ∙ h })

  append_user-Keeps :
      (session_id : String) (initial : List Fields) → Keeps Loads (append_user t session_id initial)
  unfolding append_user
  append_user-Keeps session_id initial =
      Keeps-when_set t.loop_env.append _ _ (Keeps-pure tt)
        (λ append. Keeps-when_set (last_of t initial) _ _ (Keeps-pure tt) (λ m. on_world-Keeps _))

  begin_turn-Loads :
      (session_id message : String) (s : Turn W)
      → Loads s
      → Loads (begin_turn t session_id message s).1
  unfolding begin_turn with_turn_state load_messages_ctx state
  begin_turn-Loads session_id message s h =
      (Keeps-bind _ _ (on_world-Keeps _) (λ id.
          Keeps-bind _ _ (build_prompt-Keeps s.1.next_turn session_id message) (λ initial.
            Keeps-bind _ _ (append_user-Keeps session_id initial) (λ done. Keeps-pure initial)))).at
        _ h

module _ {W : Type 0} (t : TurnEnv W) where
  -- The prompt of a turn does not reach the loop: when runAgentLoop starts, its LoadMessages returns
  -- what it returned before the turn, whatever the conversation built and the history was.
  pub begin_turn-loads :
      (session_id message : String) (s : Turn W)
      → load_messages_ctx background [] (begin_turn t session_id message s).1.1
        ≡ load_messages_ctx background [] s.1
  begin_turn-loads session_id message s =
      begin_turn-Loads t (load_messages_ctx background [] s.1) session_id message s refl
