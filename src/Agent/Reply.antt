-- ===== src/Agent/Reply.antt =====
-- Where the answer to a message goes, and whose context its tools get, in exoclaw/agent/loop.go.
use exoclaw_go.Prelude.{
  ℕ, ◌≡◌, refl, String, Bool, true, false, ◌&&◌, Option, none, some, List, if◌then◌else◌, if-ind,
  str_eq,
}
use exoclaw_go.Prelude.Text.{is_empty, trim_space}
use exoclaw_go.Prelude.Folding.{lower_eq}
use exoclaw_go.Prelude.Effects.{Result, ok, err, Exec, pure, continue}
use exoclaw_go.Json.{Fields, end}
use exoclaw_go.Bus.Queue.{InboundMessage, OutboundMessage, session_key}
use exoclaw_go.Agent.Env.{Progress}
use exoclaw_go.Agent.Message.{
  MessageEnv, AgentState, reply, or_else, any_sent, system_origin, in_world, after_turn,
  finish_system, process_system,
}
use exoclaw_go.Agent.Inbound.{
  no_response_text, cleared_text, start_new, enter, gather, finish_user, run_gathered, process_user,
  process_message,
}

-- The channel and the chat that a message comes from; a system message carries them in its chat id.
abbrev pub origin_of : InboundMessage → String × String
origin_of msg =
    if str_eq msg.channel "system" then system_origin msg.chat_id else (msg.channel, msg.chat_id)

-- The answer goes to a channel and a chat, and has a text.
abbrev pub IsAnswerTo : String × String → OutboundMessage → Type 0
IsAnswerTo origin out =
    (out.channel ≡ origin.0) × (out.chat_id ≡ origin.1) × (is_empty out.content ≡ false)

-- The answer to a message, if there is one.
abbrev pub answer_in :
    {W : Type 0} → Option (Result (Option OutboundMessage) × AgentState W) → Option OutboundMessage
answer_in none = none
answer_in (some (err e, s)) = none
answer_in (some (ok o, s)) = o

abbrev pub IsAnswerIfAny : String × String → Option OutboundMessage → Type 0
IsAnswerIfAny origin none = Unit
IsAnswerIfAny origin (some out) = IsAnswerTo origin out

or_else-not_empty : (t d : String) → is_empty d ≡ false → is_empty (or_else t d) ≡ false
or_else-not_empty t d h = if-ind (λ u. is_empty u ≡ false) (is_empty t) d t (λ _. h) (λ e. e)

module _ {W : Type 0} (m : MessageEnv W) where
  after_turn-answer :
      (origin : String × String)
      (finish : String × List Fields
        → AgentState W
        → Result (Option OutboundMessage) × AgentState W)
      (x : Option (Result (String × List Fields) × AgentState W))
      → ((r : String × List Fields) (s : AgentState W)
          → IsAnswerIfAny origin (answer_in (some (finish r s))))
      → IsAnswerIfAny origin (answer_in (after_turn m finish x))
  after_turn-answer origin finish none h = tt
  after_turn-answer origin finish (some (err e, s)) h = tt
  after_turn-answer origin finish (some (ok r, s)) h = h r s

  -- What is returned beside a state has an answer of the kind, if any.
  abbrev IsDone : String × String → Result (Option OutboundMessage) × AgentState W → Type 0
  IsDone origin x = IsAnswerIfAny origin (answer_in (some x))

  abbrev IsDoneIfAny :
      String × String → Option (Result (Option OutboundMessage) × AgentState W) → Type 0
  IsDoneIfAny origin x = IsAnswerIfAny origin (answer_in x)

  finish_system-answer :
      (msg : InboundMessage) (origin : String × String) (sid : String) (publish : Bool)
      (r : String × List Fields) (s : AgentState W)
      → IsDone origin (finish_system m msg origin sid publish r s)
  unfolding finish_system reply
  finish_system-answer msg origin sid publish r s =
      if-ind (IsDone origin) (publish && m.handles_response_send) _ _ (λ _. tt)
        (λ _. (refl, refl, or_else-not_empty r.0 "Background task completed." refl))

  finish_user-answer :
      (msg : InboundMessage) (sid : String) (publish : Bool) (r : String × List Fields)
      (s : AgentState W)
      → IsDone (msg.channel, msg.chat_id) (finish_user m msg sid publish r s)
  unfolding finish_user reply
  finish_user-answer msg sid publish r s =
      let origin : String × String = (msg.channel, msg.chat_id) in
      if-ind (IsDone origin) (publish && m.handles_response_send) _ _ (λ _. tt)
        (λ _.
          if-ind (IsDone origin) (any_sent m.sent_in_turn s.turn.0) _ _ (λ _. tt)
            (λ _. (refl, refl, or_else-not_empty r.0 no_response_text refl)))

  cleared-answer :
      (msg : InboundMessage) (x : Result Bool × AgentState W)
      → IsDone
          (msg.channel, msg.chat_id)
          (continue x
            (λ success. pure (some (reply msg.channel msg.chat_id (cleared_text m success) end))))
  unfolding reply
  cleared-answer msg (err e, s) = tt
  cleared-answer msg (ok true, s) = (refl, refl, refl)
  cleared-answer msg (ok false, s) = (refl, refl, refl)

  gathered-answer :
      (fuel : ℕ) (msg : InboundMessage) (sid : String)
      (on_progress : Option (Progress → Exec W (Unit {0}))) (model : String) (publish : Bool)
      (x : Result (List String) × AgentState W)
      → IsDoneIfAny
          (msg.channel, msg.chat_id)
          (run_gathered m fuel msg sid on_progress model publish x)
  gathered-answer fuel msg sid on_progress model publish (err e, s) = tt
  gathered-answer fuel msg sid on_progress model publish (ok plugin_context, s) =
      after_turn-answer (msg.channel, msg.chat_id) (finish_user m msg sid publish) _
        (finish_user-answer msg sid publish)

  process_user-answer :
      (fuel : ℕ) (msg : InboundMessage) (sid : String)
      (on_progress : Option (Progress → Exec W (Unit {0}))) (model : String) (publish : Bool)
      (s : AgentState W)
      → IsDoneIfAny
          (msg.channel, msg.chat_id)
          (process_user m fuel msg sid on_progress model publish s)
  unfolding process_user start_new reply
  process_user-answer fuel msg sid on_progress model publish s =
      let origin : String × String = (msg.channel, msg.chat_id) in
      if-ind (IsDoneIfAny origin) (lower_eq "/new" (trim_space msg.content)) _ _
        (λ _. cleared-answer msg (in_world m (m.clear sid) s))
        (λ _.
          if-ind (IsDoneIfAny origin) (lower_eq "/help" (trim_space msg.content)) _ _
            (λ _. (refl, refl, refl))
            (λ _.
              gathered-answer fuel msg sid on_progress model publish
                (gather m msg sid (enter m msg sid s))))

  process_system-answer :
      (fuel : ℕ) (msg : InboundMessage) (model : String) (publish : Bool) (s : AgentState W)
      → IsDoneIfAny (system_origin msg.chat_id) (process_system m fuel msg model publish s)
  unfolding process_system
  process_system-answer fuel msg model publish s =
      let origin = system_origin msg.chat_id in
      after_turn-answer origin (finish_system m msg origin _ publish) _
        (finish_system-answer msg origin _ publish)

  answer_branches :
      (b : Bool) (x y : String × String)
      (u v : Option (Result (Option OutboundMessage) × AgentState W))
      → IsDoneIfAny x u
      → IsDoneIfAny y v
      → IsDoneIfAny (if b then x else y) (if b then u else v)
  answer_branches true x y u v h k = h
  answer_branches false x y u v h k = k

  -- An answer that processMessage returns goes to the chat that the message comes from, which for a
  -- system message stands in its chat id, and is never empty, whatever the turn came to.
  pub process_message-answer :
      (fuel : ℕ) (msg : InboundMessage) (key : String)
      (on_progress : Option (Progress → Exec W (Unit {0}))) (model : String) (publish : Bool)
      (s : AgentState W)
      → IsAnswerIfAny
          (origin_of msg)
          (answer_in (process_message m fuel msg key on_progress model publish s))
  unfolding process_message
  process_message-answer fuel msg key on_progress model publish s =
      answer_branches (str_eq msg.channel "system") (system_origin msg.chat_id)
        (msg.channel, msg.chat_id) _ _ (process_system-answer fuel msg model publish s)
        (process_user-answer fuel msg (or_else key (session_key msg)) on_progress model publish s)
