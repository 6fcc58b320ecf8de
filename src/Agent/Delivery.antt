-- ===== src/Agent/Delivery.antt =====
-- Messages through the agent, and /stop, at concrete values.
use exoclaw_go.Prelude.{ℕ, suc, ◌+◌, ◌≡◌, refl, false, none, some, [], ◌∷◌, ◌++◌, length}
use exoclaw_go.Prelude.Text.{trim_space, cut_colon}
use exoclaw_go.Prelude.Folding.{equal_fold}
use exoclaw_go.Prelude.Effects.{ok}
use exoclaw_go.Json.{end, field, str, get, put}
use exoclaw_go.Executor.Direct.{new_direct_executor}
use exoclaw_go.Bus.Queue.{InboundMessage, session_key}
use exoclaw_go.Agent.Turn.{process_turn, after_run_turn, on_world}
use exoclaw_go.Agent.Message.{
  MessageEnv, AgentState, run_turn, system_origin, process_system, finish_system, reply,
  with_session_key,
}
use exoclaw_go.Agent.Inbound.{new_inbound_message, process_message}
use exoclaw_go.Agent.Reply.{IsAnswerIfAny, origin_of, answer_in, process_message-answer}
use exoclaw_go.Agent.Context.{LeavesContext, context_after, process_message-context}
use exoclaw_go.Agent.Tasks.{
  new_tasks, tasks_at, start_task, end_task, stop_text, is_stop, handle_stop, take_message, taken,
  ended, here, takes, ends,
}
use exoclaw_go.Agent.Stopping.{started_since_stop, handle_stop-Steps}
use exoclaw_go.Agent.Examples.{turn_env}

-- An executor that runs the turn itself.
abbrev message_env : MessageEnv ℕ
message_env = record {
  turn_env = λ opts. record turn_env {
    run_turn = some (λ sid message n. (ok (some ("done", [])), suc n));
  };
  clear = λ sid n. (ok false, n);
  on_inbound = λ msg n. n;
  system_contexts = [];
  on_pre_context = none;
  has_on_post_turn = false;
  handles_response_send = false;
  sent_in_turn = [];
  publish_outbound = λ out n. (ok tt, n);
}

abbrev state : AgentState ℕ
state = record { turn = (0, new_direct_executor); current_tctx = none; post_turns = [] }

abbrev report : InboundMessage
report = new_inbound_message "system" "subagent" "telegram:42" "The report is ready."

process_message-answer_example :
    IsAnswerIfAny
      (origin_of report)
      (answer_in (process_message message_env 0 report "" none "" false state))
process_message-answer_example = process_message-answer message_env 0 report "" none "" false state

-- The answer to the report goes to the chat of its origin.
report_answered :
    answer_in (process_message message_env 0 report "" none "" false state)
    ≡ some (reply "telegram" "42" "done" (field "session_key" (str "telegram:42") end))
unfolding process_message process_system system_origin cut_colon run_turn process_turn
    after_run_turn on_world finish_system new_inbound_message with_session_key get put
report_answered = refl

abbrev question : InboundMessage
question = new_inbound_message "telegram" "user" "42" "What is the time?"

process_message-context_example :
    LeavesContext
      (context_after question "" none)
      (process_message message_env 0 question "" none "" false state)
process_message-context_example =
    process_message-context message_env 0 question "" none "" false state

-- One task has ended and one has not when /stop comes.
handle_stop-Steps_example :
    let t =
      end_task 1 "telegram:42"
        ((2, "telegram:42") ∷ [])
        (start_task 2 "telegram:42" (start_task 1 "telegram:42" new_tasks)) in
    let es = taken 1 question ∷ taken 2 question ∷ ended 1 "telegram:42" ∷ [] in
    let started = started_since_stop (session_key question) [] es in
    ((handle_stop (λ k. 0) question t).0.content ≡ stop_text (length started + 0))
    × ((handle_stop (λ k. 0) question t).1.cancelled ≡ t.cancelled ++ started)
    × (tasks_at (session_key question) (handle_stop (λ k. 0) question t).1.active ≡ [])
unfolding start_task take_message is_stop session_key new_inbound_message equal_fold trim_space
handle_stop-Steps_example =
    handle_stop-Steps (λ k. 0)
      (end_task 1 "telegram:42" ((2, "telegram:42") ∷ [])
        (start_task 2 "telegram:42" (start_task 1 "telegram:42" new_tasks)))
      (taken 1 question ∷ taken 2 question ∷ ended 1 "telegram:42" ∷ []) question
      (takes 1 question
        (takes 2 question (ends 1 "telegram:42" [] ((2, "telegram:42") ∷ []) refl here)))
