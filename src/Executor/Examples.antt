-- ===== src/Executor/Examples.antt =====
-- Tests of the executor's buffers and of the provider's answers, and the theorems at concrete inputs.
use exoclaw_go.Prelude.{◌+◌, ◌≡◌, refl, none, some, List, [], ◌∷◌, length, All}
use exoclaw_go.Json.{Fields, field, end, str}
use exoclaw_go.Providers.{
  ToolCallRequest, LlmResponse, HasName, drop_malformed_tool_calls, drop_malformed_tool_calls_lem,
}
use exoclaw_go.Json.Equal.{same_fields, same_fields_refl}
use exoclaw_go.Prelude.Text.{trim_space}
use exoclaw_go.Executor.Direct.{
  PriorSource, background, bound, new_direct_executor, load_messages_ctx,
}
use exoclaw_go.Executor.Prior.{
  Agree, splice, build_lazy_prior_source, build_lazy_prior_source-Agree,
}
use exoclaw_go.Executor.Isolation.{append, apply, load_messages_ctx-apply_ne}

abbrev call : ToolCallRequest
call = record { id = "1"; name = "read"; arguments = end }

abbrev blank : ToolCallRequest
blank = record { id = "2"; name = " "; arguments = end }

abbrev answer : LlmResponse
answer = record {
  content = none;
  tool_calls = blank ∷ call ∷ [];
  finish_reason = "tool_calls";
  reasoning_content = none;
  thinking_blocks = [];
}

drop_malformed_test :
    drop_malformed_tool_calls answer ≡ (record answer { tool_calls = call ∷ [] }, 1)
unfolding drop_malformed_tool_calls trim_space
drop_malformed_test = refl

drop_malformed_tool_calls_lem_example :
    let (r', dropped) = drop_malformed_tool_calls answer in
    All HasName r'.tool_calls
    × (length r'.tool_calls + dropped ≡ length answer.tool_calls)
    × (drop_malformed_tool_calls r' ≡ (r', 0))
drop_malformed_tool_calls_lem_example = drop_malformed_tool_calls_lem answer

abbrev user : Fields
user = field "role" (str "user") end

abbrev system : Fields
system = field "role" (str "system") end

abbrev prompt : List Fields
prompt = system ∷ user ∷ []

abbrev source : PriorSource
source = splice same_fields prompt (user ∷ []) 1

build_lazy_prior_source_test : build_lazy_prior_source same_fields prompt (user ∷ []) ≡ some source
unfolding build_lazy_prior_source same_fields
build_lazy_prior_source_test = refl

build_lazy_prior_source-Agree_example : Agree same_fields prompt (source (user ∷ []))
build_lazy_prior_source-Agree_example =
    build_lazy_prior_source-Agree same_fields same_fields_refl prompt (user ∷ []) source
      build_lazy_prior_source_test

load_messages_ctx-apply_ne_example :
    load_messages_ctx background [] (apply (bound 0) (append prompt) new_direct_executor)
    ≡ load_messages_ctx background [] new_direct_executor
load_messages_ctx-apply_ne_example =
    load_messages_ctx-apply_ne (bound 0) background (append prompt) [] new_direct_executor (λ e. cc)
