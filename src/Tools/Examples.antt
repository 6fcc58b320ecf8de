-- ===== src/Tools/Examples.antt =====
-- The registry's theorems at two small tools.
use exoclaw_go.Prelude.{ℕ, suc, ◌≡◌, refl, true, false, none, some, [], ◌∷◌, str_eq, if◌then◌else◌}
use exoclaw_go.Prelude.Effects.{failure, err}
use exoclaw_go.Json.{end}
use exoclaw_go.Tools.Registry.{
  find_tool, execute_resolved, resolve, resolve_found, check, hinted, invoke, Tool, Registry,
  register, get_tool, is_visible, execute_tool,
}
use exoclaw_go.Tools.Lookup.{get_tool-register}
use exoclaw_go.Tools.Visible.{is_visible-register}
use exoclaw_go.Tools.Dispatch.{FailedIn, execute_tool-FailedIn}

abbrev broken : Tool ℕ
broken = record {
  name = "fail";
  schema = end;
  cast_params = none;
  validate_params = none;
  execute = λ params w. (err (failure "boom"), suc w);
  execute_with_context = none;
}

abbrev registry : Registry ℕ
registry = record { tools = broken ∷ []; hidden = [] }

get_tool-register_example :
    get_tool "fail" (register broken true registry)
    ≡ (if str_eq "fail" "fail" then some broken else get_tool "fail" registry)
get_tool-register_example = get_tool-register broken true "fail" registry

is_visible-register_example :
    is_visible (register broken false (register broken true registry)) none broken ≡ false
is_visible-register_example = is_visible-register broken broken registry refl

execute_tool-FailedIn_example : FailedIn registry "fail" end none 0 (failure "boom") 1
unfolding execute_tool execute_resolved resolve get_tool find_tool resolve_found check hinted invoke
execute_tool-FailedIn_example =
    execute_tool-FailedIn registry "fail" end none 0 1 (failure "boom") refl
