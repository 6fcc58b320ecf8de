-- ===== src/Session/Examples.antt =====
-- The theorems on the session's history at small histories.
use exoclaw_go.Prelude.{◌≡◌, refl, none, List, [], ◌∷◌, All, ◌&&◌, keep, map}
use exoclaw_go.Json.{Fields, end, field, str, arr, obj, nil, cons}
use exoclaw_go.Providers.{LlmResponse}
use exoclaw_go.Agent.Pass.{tool_call_turn}
use exoclaw_go.Session.Ids.{has}
use exoclaw_go.Session.Repair.{declared_ids, responded_ids, repair_and_project, project_message}
use exoclaw_go.Session.Pairing.{repair_and_project-paired}
use exoclaw_go.Session.Users.{is_other, keep-repair_and_project}
use exoclaw_go.Session.Prepare.{prepare_turn}
use exoclaw_go.Session.Prepared.{IsPrepared, prepare_turn-IsPrepared}
use exoclaw_go.Session.Lossy.{prepare_turn-tool_call_turn}

abbrev user : Fields
user = field "role" (str "user") (field "content" (str "hi") end)

abbrev asks : Fields
asks = field "role" (str "assistant") (
    field "content" (str "") (
      field "tool_calls"
        (arr (cons (obj (field "id" (str "a") end)) (cons (obj (field "id" (str "b") end)) nil)))
        end))

abbrev answer : Fields
answer =
    field "role" (str "tool") (field "tool_call_id" (str "a") (field "content" (str "done") end))

abbrev orphan : Fields
orphan =
    field "role" (str "tool") (field "tool_call_id" (str "z") (field "content" (str "lost") end))

abbrev history : List Fields
history = orphan ∷ user ∷ asks ∷ answer ∷ []

abbrev silent : LlmResponse
silent = record {
  content = none;
  tool_calls = record { id = "a"; name = "read"; arguments = end } ∷ [];
  finish_reason = "tool_calls";
  reasoning_content = none;
  thinking_blocks = [];
}

repair_and_project-paired_example :
    let out = repair_and_project history in
    let common = has "a" (declared_ids history []) && has "a" (responded_ids history []) in
    (has "a" (declared_ids out []) ≡ common) × (has "a" (responded_ids out []) ≡ common)
repair_and_project-paired_example = repair_and_project-paired history "a" refl

keep-repair_and_project_example :
    keep is_other (repair_and_project history) ≡ map project_message (keep is_other history)
keep-repair_and_project_example = keep-repair_and_project history

prepare_turn-IsPrepared_example : All IsPrepared (prepare_turn "now" history)
prepare_turn-IsPrepared_example = prepare_turn-IsPrepared "now" history

prepare_turn-tool_call_turn_example :
    prepare_turn "now" (tool_call_turn (λ f. "{}") silent ∷ []) ≡ []
prepare_turn-tool_call_turn_example = prepare_turn-tool_call_turn "now" (λ f. "{}") silent refl
