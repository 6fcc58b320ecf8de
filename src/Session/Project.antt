-- ===== src/Session/Project.antt =====
-- The projection of RepairAndProject (conversation-file/session/manager.go) keeps what the repair
-- looks at.
use exoclaw_go.Prelude.{◌≡◌, refl, ◌∙◌, String, false, Option, none, some, str_eq, eq_refl}
use exoclaw_go.Json.{Value, null, Fields, end, field, get, str_of}
use exoclaw_go.Session.Repair.{copy_field, or_default, project_message}

get-copy_field :
    (k : String) (m rest : Fields) → get k rest ≡ none → get k (copy_field k m rest) ≡ get k m
unfolding get copy_field
get-copy_field k m rest h = go (get k m)
  where
    go : (o : Option Value) → get k (elim o [ none ↦ rest | some v ↦ field k v rest ]) ≡ o
    go none = h
    go (some v) = rw (eq_refl k) refl

get-copy_field_ne :
    (k other : String) (m rest : Fields)
    → str_eq k other ≡ false
    → get other (copy_field k m rest) ≡ get other rest
unfolding get copy_field
get-copy_field_ne k other m rest h = go (get k m)
  where
    go :
        (o : Option Value)
        → get other (elim o [ none ↦ rest | some v ↦ field k v rest ]) ≡ get other rest
    go none = refl
    go (some v) = rw h refl

pub role-project_message :
    (m : Fields) → str_of (get "role" (project_message m)) ≡ str_of (get "role" m)
unfolding project_message get
role-project_message m = go (get "role" m)
  where
    go : (o : Option Value) → str_of (some (or_default null o)) ≡ str_of o
    go none = refl
    go (some v) = refl

pub calls-project_message : (m : Fields) → get "tool_calls" (project_message m) ≡ get "tool_calls" m
unfolding project_message get
calls-project_message m = get-copy_field "tool_calls" m _ (
    get-copy_field_ne "tool_call_id" "tool_calls" m _ refl
    ∙ get-copy_field_ne "name" "tool_calls" m end refl)

pub id-project_message :
    (m : Fields) → get "tool_call_id" (project_message m) ≡ get "tool_call_id" m
unfolding project_message get
id-project_message m =
    get-copy_field_ne "tool_calls" "tool_call_id" m _ refl
    ∙ get-copy_field "tool_call_id" m _ (get-copy_field_ne "name" "tool_call_id" m end refl)
