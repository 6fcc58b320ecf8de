-- ===== src/Agent/Loop.antt =====
-- runAgentLoop of exoclaw/agent/loop.go: the rounds, and what stands behind the `for` loop.
use exoclaw_go.Prelude.{ℕ, zero, suc, String, Option, none, some, List, if◌then◌else◌, when_set}
use exoclaw_go.Prelude.Effects.{Result, ok, err, Exec, pure, ◌>>=◌}
use exoclaw_go.Json.{Fields}
use exoclaw_go.Executor.{MessageBuffer}
use exoclaw_go.Agent.Env.{Env, Progress}
use exoclaw_go.Agent.State.{LoopState, lift, load}
use exoclaw_go.Agent.Pass.{Next, again, finished, stopped, should_continue, round}

-- `fmt.Sprintf` of the limit message, around the decimal digits of MaxIterations.
abbrev pub LimitText : Type 0
LimitText = ℕ → String

-- (final_content, tools_used, messages)
pub record LoopResult : Type 0 where
  pub final_content : String
  pub tools_used : List String
  pub messages : List Fields

-- How the `for` loop is left: with final content, or without.
pub data Exit : Type 0 where
  with_content : String → Exit
  without_content : Exit

module _ {W X : Type 0} (env : Env W) (buf : MessageBuffer X)
    (on_progress : Option (Progress → Exec W (Unit {0}))) (model session_id : String)
    (limit_text : LimitText) where
  -- What the state and the end of a round lead to; `rest` is the next round.
  abbrev pub after_round :
      Result Next × LoopState W X
      → (LoopState W X → Option (Result Exit × LoopState W X))
      → Option (Result Exit × LoopState W X)
  after_round (ok again, s) rest = rest s
  after_round (ok (finished content), s) rest = some (ok (with_content content), s)
  after_round (ok stopped, s) rest = some (ok without_content, s)
  after_round (err e, s) rest = some (err e, s)

  -- The `for` loop on fuel; `none` means that the fuel ran out.
  unfoldable pub rounds : ℕ → LoopState W X → Option (Result Exit × LoopState W X)
  rounds zero s = none
  rounds (suc fuel) s = after_round (round env buf on_progress model session_id s) (rounds fuel)

  unfoldable pub notify : LoopState W X → LoopState W X
  notify s = if env.has_on_max_iterations then record s { notified = env.current_tctx } else s

  unfoldable pub build_limit_message : Exec (LoopState W X) String
  build_limit_message s =
      when_set env.iteration_policy ((ok (limit_text env.max_iterations), s))
        (λ p. lift (p.on_limit_reached s.iteration s.tools_used) s)

  -- The block behind the loop, for a loop that was left with no final content.
  unfoldable pub limit : Exec (LoopState W X) String
  limit = do
    cont ← should_continue env buf on_progress model session_id
    if cont then pure "" else (do content ← build_limit_message; λ s. (ok content, notify s))

  unfoldable pub finish : Exit → Exec (LoopState W X) String
  finish (with_content content) = pure content
  finish without_content = limit

  unfoldable pub result_of : Result String × LoopState W X → Result LoopResult × LoopState W X
  result_of (ok content, s) =
      (ok (record { final_content = content; tools_used = s.tools_used; messages = load buf s }), s)
  result_of (err e, s) = (err e, s)

  unfoldable pub conclude :
      Option (Result Exit × LoopState W X) → Option (Result LoopResult × LoopState W X)
  conclude none = none
  conclude (some (ok exit, s)) = some (result_of (finish exit s))
  conclude (some (err e, s)) = some (err e, s)

  unfoldable pub run_agent_loop : ℕ → LoopState W X → Option (Result LoopResult × LoopState W X)
  run_agent_loop fuel s = conclude (rounds fuel s)
