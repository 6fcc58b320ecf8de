-- ===== src/OpenAi/Format.antt =====
-- encodeResponseFormat of providers/openai/provider.go, and providers.ResponseFormat.
use exoclaw_go.Prelude.{String, Bool, false, not, Option, none, some, if◌then◌else◌}
use exoclaw_go.Prelude.Text.{is_empty}
use exoclaw_go.Json.{Value, boolean, str, obj, Fields, end, field, put}
use exoclaw_go.OpenAi.Setup.{is_some}

pub record JsonSchema : Type 0 where
  pub name : String
  pub description : String
  pub schema : Option Fields
  pub strict : Option Bool

-- The fields of providers.ResponseFormat, of which Text goes first and JSONSchema last.
pub record ResponseFormat : Type 0 where
  pub text : Bool
  pub json_object : Bool
  pub json_schema : Option JsonSchema

unfoldable pub put_if_any : Bool → String → Value → Fields → Fields
put_if_any wanted k v m = if wanted then put k v m else m

abbrev pub some_fields : Option Fields → Fields
some_fields none = end
some_fields (some fs) = fs

abbrev is_true : Option Bool → Bool
is_true none = false
is_true (some b) = b

unfoldable pub encode_schema : JsonSchema → Fields
encode_schema s = put_if_any (is_some s.strict) "strict" (boolean (is_true s.strict)) (
    put_if_any (is_some s.schema) "schema" (obj (some_fields s.schema)) (
      put_if_any (not (is_empty s.description)) "description" (str s.description)
        (field "name" (str s.name) end)))

abbrev of_schema : Option JsonSchema → Option Fields
of_schema none = none
of_schema (some s) =
    some (field "type" (str "json_schema") (field "json_schema" (obj (encode_schema s)) end))

-- A nil map is none.
unfoldable pub encode_response_format : ResponseFormat → Option Fields
encode_response_format rf =
    if rf.text
    then some (field "type" (str "text") end)
    else if rf.json_object
    then some (field "type" (str "json_object") end)
    else of_schema rf.json_schema
