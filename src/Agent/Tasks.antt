-- ===== src/Agent/Tasks.antt =====
-- Run, handleStop and activeTasks of exoclaw/agent/loop.go. A task is the number of its message, and
-- stands for its cancel function.
use exoclaw_go.Prelude.{
  ℕ, ◌+◌, ◌≡◌, String, Bool, false, Option, none, some, List, [], ◌∷◌, ◌++◌, if◌then◌else◌, str_eq,
  ltb, length,
}
use exoclaw_go.Prelude.Text.{◌<>◌, trim_space}
use exoclaw_go.Prelude.Folding.{equal_fold}
use exoclaw_go.Json.{end}
use exoclaw_go.Json.Escape.{int_text}
use exoclaw_go.Bus.Queue.{InboundMessage, OutboundMessage, session_key}
use exoclaw_go.Agent.Message.{reply}

-- activeTasks has one entry for a session key at most. `running` are the goroutines, each with the
-- session key of its message.
pub record Tasks : Type 0 where
  pub active : List (String × List ℕ)
  pub running : List (ℕ × String)
  pub cancelled : List ℕ

abbrev pub new_tasks : Tasks
new_tasks = record { active = []; running = []; cancelled = [] }

unfoldable pub tasks_at : String → List (String × List ℕ) → List ℕ
tasks_at k [] = []
tasks_at k (e ∷ es) = let rest = tasks_at k es in if str_eq e.0 k then e.1 else rest

unfoldable pub put_tasks : String → List ℕ → List (String × List ℕ) → List (String × List ℕ)
put_tasks k ids [] = (k, ids) ∷ []
put_tasks k ids (e ∷ es) =
    let rest = put_tasks k ids es in if str_eq e.0 k then (k, ids) ∷ es else e ∷ rest

unfoldable pub delete_tasks : String → List (String × List ℕ) → List (String × List ℕ)
delete_tasks k [] = []
delete_tasks k (e ∷ es) = let rest = delete_tasks k es in if str_eq e.0 k then rest else e ∷ rest

-- `&c == &taskCancel`: the addresses of two variables.
abbrev same_variable : Bool
same_variable = false

-- The loop by which a task that ends looks for its own entry.
unfoldable pub remove_own : List ℕ → List ℕ
remove_own [] = []
remove_own (c ∷ cs) = let rest = remove_own cs in if same_variable then cs else c ∷ rest

unfoldable pub start_task : ℕ → String → Tasks → Tasks
start_task id sk t = record {
  active = put_tasks sk (tasks_at sk t.active ++ id ∷ []) t.active;
  running = t.running ++ (id, sk) ∷ [];
  cancelled = t.cancelled;
}

abbrev pub keep_entry : String → List ℕ → List (String × List ℕ) → List (String × List ℕ)
keep_entry sk [] active = active
keep_entry sk (c ∷ cs) active = put_tasks sk (remove_own (c ∷ cs)) active

-- The end of the goroutine of a task, where `running` are the others.
unfoldable pub end_task : ℕ → String → List (ℕ × String) → Tasks → Tasks
end_task id sk running t = record {
  active = keep_entry sk (tasks_at sk t.active) t.active;
  running = running;
  cancelled = t.cancelled ++ id ∷ [];
}

unfoldable pub stop_text : ℕ → String
stop_text total =
    if ltb 0 total
    then "⏹ Stopped " <> (int_text total <> " task(s).")
    else "No active task to stop."

unfoldable pub is_stop : InboundMessage → Bool
is_stop msg = equal_fold "/stop" (trim_space msg.content)

unfoldable pub cancel_all : List (String × List ℕ) → List ℕ
cancel_all [] = []
cancel_all (e ∷ es) = e.1 ++ cancel_all es

-- What Run does when it returns.
unfoldable pub shut_down : Tasks → Tasks
shut_down t = record t { active = []; cancelled = t.cancelled ++ cancel_all t.active }

pub data Event : Type 0 where
  taken : ℕ → InboundMessage → Event
  ended : ℕ → String → Event

-- `cancel_by_session` is the sum of what CancelBySession of the tools that have one answers.
module _ (cancel_by_session : String → ℕ) where
  unfoldable pub handle_stop : InboundMessage → Tasks → OutboundMessage × Tasks
  handle_stop msg t =
      let sk = session_key msg in
      let cancels = tasks_at sk t.active in
      (
        reply msg.channel msg.chat_id (stop_text (length cancels + cancel_by_session sk)) end,
        record t { active = delete_tasks sk t.active; cancelled = t.cancelled ++ cancels },
      )

  -- What Run does with a message, and what it publishes itself.
  unfoldable pub take_message : ℕ → InboundMessage → Tasks → Option OutboundMessage × Tasks
  take_message id msg t =
      let stopped = handle_stop msg t in
      if is_stop msg then (some stopped.0, stopped.1) else (none, start_task id (session_key msg) t)

  -- Any order in which Run takes messages and its goroutines end.
  pub data Steps : Tasks → List Event → Tasks → Type 0 where
    here : {t : Tasks} → Steps t [] t
    takes :
        {t u : Tasks} {es : List Event} (id : ℕ) (msg : InboundMessage)
        → Steps (take_message id msg t).1 es u
        → Steps t (taken id msg ∷ es) u
    ends :
        {t u : Tasks} {es : List Event} (id : ℕ) (sk : String) (before after : List (ℕ × String))
        → t.running ≡ before ++ (id, sk) ∷ after
        → Steps (end_task id sk (before ++ after) t) es u
        → Steps t (ended id sk ∷ es) u
