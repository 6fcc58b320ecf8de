-- ===== src/Session/Repair.antt =====
-- RepairAndProject and NormalizeHistory of conversation-file/session/manager.go.
use exoclaw_go.Prelude.{
  ℕ, ◌-◌, String, Bool, true, false, not, ◌&&◌, ◌||◌, ◌==◌, ltb, Option, none, some, List, [], ◌∷◌,
  ◌++◌, map, if◌then◌else◌, str_eq, length, drop,
}
use exoclaw_go.Prelude.Text.{is_empty}
use exoclaw_go.Prelude.Words.{slt}
use exoclaw_go.Json.{
  Value, null, str, arr, obj, Items, nil, cons, Fields, end, field, get, put, delete, str_of,
  items_of,
}
use exoclaw_go.Session.Ids.{Ids, has, add, both}

abbrev pub role_is : String → Fields → Bool
role_is role m = str_eq (str_of (get "role" m)) role

-- `tcm["id"].(string)`, "" for an entry that is no map.
abbrev pub id_of : Value → String
id_of (obj tc) = str_of (get "id" tc)
id_of _ = ""

abbrev pub is_map : Value → Bool
is_map (obj tc) = true
is_map _ = false

abbrev pub add_id : String → Ids → Ids
add_id id ids = if is_empty id then ids else add id ids

unfoldable pub declare_calls : Items → Ids → Ids
declare_calls nil ids = ids
declare_calls (cons tc tcs) ids = declare_calls tcs (add_id (id_of tc) ids)

-- The first loop, `declaredIDs` and `respondedIDs`.
unfoldable pub declared_ids : List Fields → Ids → Ids
declared_ids [] ids = ids
declared_ids (m ∷ ms) ids =
    declared_ids ms
      (if role_is "assistant" m then declare_calls (items_of (get "tool_calls" m)) ids else ids)

unfoldable pub responded_ids : List Fields → Ids → Ids
responded_ids [] ids = ids
responded_ids (m ∷ ms) ids =
    responded_ids ms (if role_is "tool" m then add_id (str_of (get "tool_call_id" m)) ids else ids)

unfoldable pub keep_calls : Ids → Items → Items
keep_calls valid nil = nil
keep_calls valid (cons tc tcs) =
    let kept = keep_calls valid tcs in
    if is_map tc && has (id_of tc) valid then cons tc kept else kept

-- An assistant's message with the calls that are kept; with none it stays for its text alone.
unfoldable pub with_calls : Fields → Items → List Fields
with_calls m nil = if is_empty (str_of (get "content" m)) then [] else delete "tool_calls" m ∷ []
with_calls m (cons tc tcs) = put "tool_calls" (arr (cons tc tcs)) m ∷ []

unfoldable pub repair_assistant : Ids → Fields → Items → List Fields
repair_assistant valid m nil = m ∷ []
repair_assistant valid m (cons tc tcs) = with_calls m (keep_calls valid (cons tc tcs))

unfoldable pub repair_tool : Ids → Fields → List Fields
repair_tool valid m =
    let id = str_of (get "tool_call_id" m) in
    if not (is_empty id) && has id valid then m ∷ [] else []

unfoldable pub repair_message : Ids → Fields → List Fields
repair_message valid m =
    if role_is "tool" m
    then repair_tool valid m
    else if role_is "assistant" m
    then repair_assistant valid m (items_of (get "tool_calls" m))
    else m ∷ []

unfoldable pub repair : Ids → List Fields → List Fields
repair valid [] = []
repair valid (m ∷ ms) = repair_message valid m ++ repair valid ms

-- `if v, ok := m[k]; ok { entry[k] = v }`
unfoldable pub copy_field : String → Fields → Fields → Fields
copy_field k m rest = elim (get k m) [ none ↦ rest | some v ↦ field k v rest ]

abbrev pub or_default : Value → Option Value → Value
or_default d none = d
or_default d (some v) = v

unfoldable pub project_message : Fields → Fields
project_message m = field "role" (or_default null (get "role" m)) (
    field "content" (or_default (str "") (get "content" m))
      (copy_field "tool_calls" m (copy_field "tool_call_id" m (copy_field "name" m end))))

unfoldable pub valid_ids : List Fields → Ids
valid_ids ms = both (declared_ids ms []) (responded_ids ms [])

unfoldable pub differs : List Fields → Bool
differs ms =
    not (length (declared_ids ms []) == length (valid_ids ms))
    || not (length (responded_ids ms []) == length (valid_ids ms))

unfoldable pub repaired : List Fields → List Fields
repaired ms = if differs ms then repair (valid_ids ms) ms else ms

unfoldable pub repair_and_project : List Fields → List Fields
repair_and_project ms = map project_message (repaired ms)

-- From the first user message on; all of the list if it has none.
unfoldable pub from_user : List Fields → Option (List Fields)
from_user [] = none
from_user (m ∷ ms) = let later = from_user ms in if role_is "user" m then some (m ∷ ms) else later

abbrev pub or_all : List Fields → Option (List Fields) → List Fields
or_all ms none = ms
or_all ms (some found) = found

-- The last max_messages messages, for a positive int64.
unfoldable pub window : List Fields → ℕ → List Fields
window ms max_messages =
    if slt 0 max_messages && ltb max_messages (length ms)
    then drop (length ms - max_messages) ms
    else ms

unfoldable pub normalize_history : List Fields → ℕ → List Fields
normalize_history ms max_messages =
    let sliced = window ms max_messages in repair_and_project (or_all sliced (from_user sliced))

-- GetHistory of a session that holds `ms`.
unfoldable pub get_history : List Fields → ℕ → List Fields
get_history ms max_messages = normalize_history ms (if max_messages == 0 then 500 else max_messages)
