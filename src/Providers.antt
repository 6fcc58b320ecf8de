-- ===== src/Providers.antt =====
-- exoclaw/providers/types.go: what a provider answers, and the repair of its tool calls.
use exoclaw_go.Prelude.{
  ℕ, ◌+◌, ◌≡◌, refl, arith, String, Bool, true, false, Option, List, [], ◌∷◌, if◌then◌else◌, length,
  All,
}
use exoclaw_go.Prelude.Text.{trim_space, is_empty}
use exoclaw_go.Json.{Fields}

pub record ToolCallRequest : Type 0 where
  pub id : String
  pub name : String
  pub arguments : Fields

-- Usage is left out: nothing in the loop reads it.
pub record LlmResponse : Type 0 where
  pub content : Option String
  pub tool_calls : List ToolCallRequest
  pub finish_reason : String
  pub reasoning_content : Option String
  pub thinking_blocks : List Fields

unfoldable pub has_tool_calls : LlmResponse → Bool
has_tool_calls r = elim r.tool_calls [ [] ↦ false | c ∷ cs ↦ true ]

-- A call whose name is empty or all white space.
abbrev pub is_blank_name : ToolCallRequest → Bool
is_blank_name c = is_empty (trim_space c.name)

-- The loop of DropMalformedToolCalls: the calls kept, and how many were dropped.
split_malformed : List ToolCallRequest → List ToolCallRequest × ℕ
split_malformed [] = ([], 0)
split_malformed (c ∷ cs) =
    let (kept, dropped) = split_malformed cs in
    if is_blank_name c then (kept, dropped + 1) else (c ∷ kept, dropped)

unfoldable pub drop_malformed_tool_calls : LlmResponse → LlmResponse × ℕ
unfolding split_malformed
drop_malformed_tool_calls r =
    (record r { tool_calls = (split_malformed r.tool_calls).0 }, (split_malformed r.tool_calls).1)

abbrev pub HasName : ToolCallRequest → Type 0
HasName c = is_blank_name c ≡ false

split_malformed-HasName : (cs : List ToolCallRequest) → All HasName (split_malformed cs).0
unfolding split_malformed
split_malformed-HasName [] = tt
split_malformed-HasName (c ∷ cs) = ground (arith, split_malformed-HasName cs)

split_malformed-length :
    (cs : List ToolCallRequest) → length (split_malformed cs).0 + (split_malformed cs).1 ≡ length cs
unfolding split_malformed
split_malformed-length [] = omega arith
split_malformed-length (c ∷ cs) = ground (arith, split_malformed-length cs)

split_malformed-none_dropped :
    (cs : List ToolCallRequest) → All HasName cs → split_malformed cs ≡ (cs, 0)
unfolding split_malformed
split_malformed-none_dropped [] h = refl
split_malformed-none_dropped (c ∷ cs) h = ground (arith, split_malformed-none_dropped cs h.1)

-- After the repair every call has a name that is not blank, the calls kept and the count of calls
-- dropped add up to the calls of the response, and a second repair changes nothing and drops none.
pub drop_malformed_tool_calls_lem :
    (r : LlmResponse)
    → let (r', dropped) = drop_malformed_tool_calls r in
      All HasName r'.tool_calls
      × (length r'.tool_calls + dropped ≡ length r.tool_calls)
      × (drop_malformed_tool_calls r' ≡ (r', 0))
unfolding drop_malformed_tool_calls
drop_malformed_tool_calls_lem r =
    let named = split_malformed-HasName r.tool_calls in
    let again = split_malformed-none_dropped (split_malformed r.tool_calls).0 named in
    (
      named,
      split_malformed-length r.tool_calls,
      λ i. (record r { tool_calls = (again i).0 }, (again i).1),
    )
