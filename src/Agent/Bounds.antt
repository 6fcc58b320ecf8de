-- ===== src/Agent/Bounds.antt =====
-- Without an iteration policy, runAgentLoop of exoclaw/agent/loop.go ends within MaxIterations
-- model calls and MaxRecoveryAttempts recoveries, whatever the world does.
use exoclaw_go.Prelude.{
  ℕ, zero, suc, ◌+◌, ◌≤◌, ◌<◌, ◌≡◌, refl, String, Option, none, some, ltb, arith, Bool-cases, ap,
  if-ind, if◌then◌else◌, inl, inr, when_set,
}
use exoclaw_go.Prelude.Effects.{Result, ok, err, Exec}
use exoclaw_go.Prelude.Keeps.{Keeps, Keeps-bind, Keeps-if, Keeps-pure, when_set-state}
use exoclaw_go.Executor.{MessageBuffer}
use exoclaw_go.Agent.Env.{Env, Progress}
use exoclaw_go.Agent.State.{LoopState, lift}
use exoclaw_go.Agent.Pass.{Next, again, finished, stopped, should_continue, ask, round}
use exoclaw_go.Agent.Loop.{
  LimitText, Exit, with_content, without_content, after_round, rounds, notify, build_limit_message,
  limit, finish, result_of, conclude, run_agent_loop,
}
use exoclaw_go.Agent.World.{lift-Keeps}
use exoclaw_go.Agent.Frame.{IsLocal, should_continue-Keeps, ask-Keeps}

module _ {W X : Type 0} (env : Env W) (buf : MessageBuffer X)
    (on_progress : Option (Progress → Exec W (Unit {0}))) (model session_id : String)
    (limit_text : LimitText) where
  -- After `n` rounds, with the recoveries within their cap.
  abbrev Within : ℕ → LoopState W X → Type 0
  Within n s = (s.iteration ≡ n) × (s.recovery_attempts ≤ env.max_recovery_attempts)

  Within-IsLocal : (n : ℕ) → IsLocal (Within n)
  Within-IsLocal n = record {
    worldly = record { at_world = λ s w h. h };
    at_buffer = λ s b h. h;
    at_tools = λ s l h. h;
  }

  ask-Within : (n : ℕ) → Keeps (Within n) (ask env buf on_progress model session_id)
  ask-Within n =
      ask-Keeps (Within-IsLocal n) env buf on_progress model session_id
        (λ s e h. (h.0, ground arith))

  -- Both counters are within their bounds.
  abbrev pub IsBounded : LoopState W X → Type 0
  IsBounded s =
      (s.iteration ≤ env.max_iterations) × (s.recovery_attempts ≤ env.max_recovery_attempts)

  abbrev pub Ends : {A : Type 0} → Option (Result A × LoopState W X) → Type 0
  Ends none = ⊥
  Ends (some (r, s)) = IsBounded s

  IsBounded-IsLocal : IsLocal IsBounded
  IsBounded-IsLocal = record {
    worldly = record { at_world = λ s w h. h };
    at_buffer = λ s b h. h;
    at_tools = λ s l h. h;
  }

  notify-IsBounded :
      (s : LoopState W X)
      → IsBounded s
      → IsBounded (notify env buf on_progress model session_id limit_text s)
  unfolding notify
  notify-IsBounded s h = if-ind IsBounded env.has_on_max_iterations _ _ (λ _. h) (λ _. h)

  build_limit_message-Keeps :
      Keeps IsBounded (build_limit_message env buf on_progress model session_id limit_text)
  unfolding build_limit_message
  build_limit_message-Keeps = record {
    at = λ s h.
        when_set-state IsBounded env.iteration_policy _ _ h
          (λ p. (lift-Keeps IsBounded-IsLocal.worldly _).at s h);
  }

  limit-Keeps : Keeps IsBounded (limit env buf on_progress model session_id limit_text)
  unfolding limit
  limit-Keeps =
      Keeps-bind _ _ (should_continue-Keeps IsBounded-IsLocal env buf on_progress model session_id)
        (λ cont.
          Keeps-if cont _ _ (Keeps-pure "") (
            Keeps-bind _ _ build_limit_message-Keeps (λ content. record { at = notify-IsBounded })))

  result_of-Ends :
      (r : Result String × LoopState W X)
      → IsBounded r.1
      → Ends (some (result_of env buf on_progress model session_id limit_text r))
  unfolding result_of
  result_of-Ends (ok c, s) h = h
  result_of-Ends (err e, s) h = h

  conclude-Ends :
      (o : Option (Result Exit × LoopState W X))
      → Ends o
      → Ends (conclude env buf on_progress model session_id limit_text o)
  unfolding conclude finish
  conclude-Ends none h = h
  conclude-Ends (some (ok (with_content c), s)) h = result_of-Ends _ h
  conclude-Ends (some (ok without_content, s)) h = result_of-Ends _ (limit-Keeps.at s h)
  conclude-Ends (some (err e, s)) h = h

  module _ (no_policy : env.iteration_policy ≡ none) where
    after_round-Ends :
        (n : ℕ) (r : Result Next × LoopState W X)
        (rest : LoopState W X → Option (Result Exit × LoopState W X))
        → n ≤ env.max_iterations
        → Within n r.1
        → ((s : LoopState W X) → Within n s → Ends (rest s))
        → Ends (after_round env buf on_progress model session_id limit_text r rest)
    after_round-Ends n (ok again, s) rest le h k = k s h
    after_round-Ends n (ok (finished c), s) rest le h k = omega arith
    after_round-Ends n (ok stopped, s) rest le h k = omega arith
    after_round-Ends n (err e, s) rest le h k = omega arith

    should_continue-no_policy :
        (s : LoopState W X)
        → should_continue env buf on_progress model session_id s
          ≡ (ok (ltb s.iteration env.max_iterations), s)
    unfolding should_continue
    should_continue-no_policy s =
        ap
          (λ o.
            when_set o (ok (ltb s.iteration env.max_iterations), s)
              (λ p. lift (p.should_continue s.iteration s.tools_used) s))
          no_policy

    round-no_policy :
        (s : LoopState W X)
        → round env buf on_progress model session_id s ≡ (
            if ltb s.iteration env.max_iterations
            then ask env buf on_progress model session_id (record s { iteration = suc s.iteration })
            else (ok stopped, s))
    unfolding round
    round-no_policy s = elim (Bool-cases (ltb s.iteration env.max_iterations)) [
      | inl e ↦ rw (should_continue-no_policy s, e)
      | inr e ↦ rw (should_continue-no_policy s, e)
    ]

    rounds-Ends :
        (fuel : ℕ) (s : LoopState W X)
        → env.max_iterations < fuel + s.iteration
        → IsBounded s
        → Ends (rounds env buf on_progress model session_id limit_text fuel s)
    unfolding rounds
    rounds-Ends zero s lt h = absurd (omega arith)
    rounds-Ends (suc fuel) s lt h = elim (Bool-cases (ltb s.iteration env.max_iterations)) [
      | inl e ↦
          rw (round-no_policy s, e)
            (after_round-Ends (suc s.iteration) _ _ (ground arith)
              ((ask-Within (suc s.iteration)).at _ (refl, h.1))
              (λ s' h'. rounds-Ends fuel s' (omega arith) (ground arith)))
      | inr e ↦ rw (round-no_policy s, e) h
    ]

    -- Without an iteration policy the loop ends, on any fuel above the rounds that are left: it
    -- returns content or an error, it has made MaxIterations model calls at most (each round counts
    -- one), and it has tried MaxRecoveryAttempts recoveries at most.
    pub run_agent_loop-Ends :
        (fuel : ℕ) (s : LoopState W X)
        → env.max_iterations < fuel + s.iteration
        → IsBounded s
        → Ends (run_agent_loop env buf on_progress model session_id limit_text fuel s)
    unfolding run_agent_loop
    run_agent_loop-Ends fuel s lt h = conclude-Ends _ (rounds-Ends fuel s lt h)
