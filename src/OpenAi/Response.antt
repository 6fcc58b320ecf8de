-- ===== src/OpenAi/Response.antt =====
-- What both ways of reading an answer in providers/openai/provider.go collect, and buildResponse.
use exoclaw_go.Prelude.{
  ℕ, suc, ◌+◌, ◌-◌, ◌*◌, ◌/◌, ◌%◌, ◌^◌, String, Option, none, some, List, [], ◌∷◌, ◌++◌,
  if◌then◌else◌, ltb, ◌==◌,
}
use exoclaw_go.Prelude.Text.{◌<>◌, is_empty}
use exoclaw_go.Prelude.Words.{modulus, sub64, slt}
use exoclaw_go.Json.{Value, int, float, str, obj, Fields, end, field, get}
use exoclaw_go.Providers.{ToolCallRequest, LlmResponse}

-- int(x) of a float64 by its bits, rounded toward zero; a value out of range wraps around.
abbrev magnitude : ℕ → ℕ → ℕ
magnitude exponent mantissa =
    if ltb exponent 1075
    then (mantissa + 4503599627370496) / (2 ^ (1075 - exponent))
    else (mantissa + 4503599627370496) * (2 ^ (exponent - 1075))

unfoldable pub int_of_float : ℕ → ℕ
int_of_float bits =
    let exponent = (bits / 4503599627370496) % 2048 in
    let size =
      if ltb exponent 1023 then 0 else magnitude exponent (bits % 4503599627370496) % modulus in
    if ltb bits 9223372036854775808 then size else sub64 0 size

unfoldable pub int_from_any : Option Value → ℕ
int_from_any (some (float bits)) = int_of_float bits
int_from_any (some (int n)) = n
int_from_any _ = 0

-- `m, _ := v.(map[string]any)` of an entry.
abbrev pub map_of : Option Value → Fields
map_of (some (obj fs)) = fs
map_of _ = end

pub record Slot : Type 0 where
  pub id : String
  pub name : String
  pub args : String

abbrev pub empty_slot : Slot
empty_slot = record { id = ""; name = ""; args = "" }

-- map[int]*toolCallSlot, with one entry for an index.
abbrev pub Slots : Type 0
Slots = List (ℕ × Slot)

unfoldable pub slot_at : ℕ → Slots → Option Slot
slot_at i [] = none
slot_at i (e ∷ es) = let rest = slot_at i es in if e.0 == i then some e.1 else rest

unfoldable pub put_slot : ℕ → Slot → Slots → Slots
put_slot i slot [] = (i, slot) ∷ []
put_slot i slot (e ∷ es) =
    let rest = put_slot i slot es in if e.0 == i then (i, slot) ∷ es else e ∷ rest

-- The variables of consumeSSEStream and consumeOneShot.
pub record Collected : Type 0 where
  pub content_parts : List String
  pub reasoning_parts : List String
  pub tool_slots : Slots
  pub finish_reason : String
  pub usage : Fields

abbrev pub nothing_collected : Collected
nothing_collected = record {
  content_parts = [];
  reasoning_parts = [];
  tool_slots = [];
  finish_reason = "stop";
  usage = end;
}

unfoldable pub put_usage : String → Option Value → Fields → Fields
put_usage k v usage = field k (int (int_from_any v)) usage

unfoldable pub take_cached : Option Value → Fields → Fields
take_cached (some (obj details)) usage =
    put_usage "cached_tokens" (get "cached_tokens" details) usage
take_cached _ usage = usage

-- The `usage` of a chunk or a body; the newest entry of a name stands first.
unfoldable pub take_usage : Option Value → Fields → Fields
take_usage (some (obj cu)) usage = take_cached (get "prompt_tokens_details" cu) (
    put_usage "total_tokens" (get "total_tokens" cu) (
      put_usage "completion_tokens" (get "completion_tokens" cu)
        (put_usage "prompt_tokens" (get "prompt_tokens" cu) usage)))
take_usage _ usage = usage

-- A text that is not empty is one part more.
unfoldable pub add_part : Option Value → List String → List String
add_part (some (str s)) parts = if is_empty s then parts else parts ++ s ∷ []
add_part _ parts = parts

-- A text that is not empty replaces the old one.
unfoldable pub replace_text : Option Value → String → String
replace_text (some (str s)) old = if is_empty s then old else s
replace_text _ old = old

unfoldable pub append_text : Option Value → String → String
append_text (some (str s)) old = old <> s
append_text _ old = old

-- strings.Join(parts, "")
unfoldable pub join : List String → String
join [] = ""
join (s ∷ ss) = s <> join ss

abbrev pub text_if_any : String → Option String
text_if_any s = if is_empty s then none else some s

-- slices.Sort of the indices, with their slots.
unfoldable pub insert_slot : ℕ × Slot → Slots → Slots
insert_slot e [] = e ∷ []
insert_slot e (f ∷ fs) = let rest = insert_slot e fs in if slt f.0 e.0 then f ∷ rest else e ∷ f ∷ fs

unfoldable pub sort_slots : Slots → Slots
sort_slots [] = []
sort_slots (e ∷ es) = insert_slot e (sort_slots es)

-- `decode` is json.Unmarshal into a map, and `short_tool_id` the result of the n-th shortToolID of the
-- response, which is random.
module _ (decode : String → Option Fields) (short_tool_id : ℕ → String) where
  abbrev pub decoded_or_empty : Option Fields → Fields
  decoded_or_empty none = end
  decoded_or_empty (some fs) = fs

  abbrev pub call_of : ℕ → Slot → ToolCallRequest
  call_of drawn slot = record {
    id = if is_empty slot.id then short_tool_id drawn else slot.id;
    name = slot.name;
    arguments = if is_empty slot.args then end else decoded_or_empty (decode slot.args);
  }

  abbrev pub next_draw : Slot → ℕ → ℕ
  next_draw slot drawn = if is_empty slot.id then suc drawn else drawn

  unfoldable pub build_calls : ℕ → Slots → List ToolCallRequest
  build_calls drawn [] = []
  build_calls drawn (e ∷ es) =
      let unnamed = build_calls drawn es in
      let rest = build_calls (next_draw e.1 drawn) es in
      if is_empty e.1.name then unnamed else call_of drawn e.1 ∷ rest

  unfoldable pub build_response : Collected → LlmResponse × Fields
  build_response c = (
    record {
      content = text_if_any (join c.content_parts);
      tool_calls = build_calls 0 (sort_slots c.tool_slots);
      finish_reason = if is_empty c.finish_reason then "stop" else c.finish_reason;
      reasoning_content = text_if_any (join c.reasoning_parts);
      thinking_blocks = [];
    },
    c.usage,
  )
