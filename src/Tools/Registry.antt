-- ===== src/Tools/Registry.antt =====
-- ToolRegistry of exoclaw/agent/tools/registry.go. Its maps are lists of entries with one entry for a
-- key; Go iterates over a map in no fixed order, here the order is that of the list.
use exoclaw_go.Prelude.{
  String, Bool, true, false, not, ◌&&◌, Option, none, some, List, [], ◌∷◌, map, keep, if◌then◌else◌,
  str_eq, when_set,
}
use exoclaw_go.Prelude.Text.{◌<>◌, has_prefix}
use exoclaw_go.Prelude.Effects.{Result, ok, err, Exec}
use exoclaw_go.Json.{Fields}
use exoclaw_go.Agent.Env.{ToolContext}

-- A Tool with its optional interfaces: ParamCaster, ParamValidator and ContextualTool.
pub record Tool (W : Type 0) : Type 0 where
  pub name : String
  pub schema : Fields
  pub cast_params : Option (Fields → Fields)
  pub validate_params : Option (Fields → List String)
  pub execute : Fields → Exec W String
  pub execute_with_context : Option (ToolContext → Fields → Exec W String)

pub record Registry (W : Type 0) : Type 0 where
  pub tools : List (Tool W)
  pub hidden : List String

unfoldable pub new_registry : {W : Type 0} → Registry W
new_registry = record { tools = []; hidden = [] }

-- Whether a set of names has a name.
unfoldable pub lists : String → List String → Bool
lists n [] = false
lists n (x ∷ xs) = let rest = lists n xs in if str_eq x n then true else rest

abbrev pub error_hint : String
error_hint = "\n\n[Analyze the error above and try a different approach.]"

-- strings.Join
unfoldable pub join : String → List String → String
join sep [] = ""
join sep (x ∷ []) = x
join sep (x ∷ xs) = x <> (sep <> join sep xs)

unfoldable pub invalid : String → List String → String
invalid n errors =
    "Error: Invalid parameters for tool '" <> (n <> ("': " <> (join "; " errors <> error_hint)))

-- What `resolve` returns: the tool with its parameters, or the text that is the call's result.
pub data Resolved (W : Type 0) : Type 0 where
  found : Tool W → Fields → Resolved W
  refused : String → Resolved W

module _ {W : Type 0} where
  -- `r.tools[name]`
  unfoldable pub find_tool : String → List (Tool W) → Option (Tool W)
  find_tool n [] = none
  find_tool n (t ∷ ts) = let rest = find_tool n ts in if str_eq t.name n then some t else rest

  -- `r.tools[tool.Name()] = tool`
  unfoldable pub put_tool : Tool W → List (Tool W) → List (Tool W)
  put_tool tool [] = tool ∷ []
  put_tool tool (t ∷ ts) =
      let rest = put_tool tool ts in if str_eq t.name tool.name then tool ∷ ts else t ∷ rest

  unfoldable pub register : Tool W → Bool → Registry W → Registry W
  register tool optional r = record r {
    tools = put_tool tool r.tools;
    hidden = if optional && not (lists tool.name r.hidden) then tool.name ∷ r.hidden else r.hidden;
  }

  unfoldable pub unregister : String → Registry W → Registry W
  unregister n r = record r {
    tools = keep (λ t. not (str_eq t.name n)) r.tools;
    hidden = keep (λ h. not (str_eq h n)) r.hidden;
  }

  unfoldable pub get_tool : String → Registry W → Option (Tool W)
  get_tool n r = find_tool n r.tools

  -- Whether GetDefinitions shows the tool; `none` is the nil set.
  unfoldable pub is_visible : Registry W → Option (List String) → Tool W → Bool
  is_visible r include t =
      if lists t.name r.hidden then when_set include false (λ names. lists t.name names) else true

  unfoldable pub visible_tools : Registry W → Option (List String) → List (Tool W)
  visible_tools r include = keep (is_visible r include) r.tools

  unfoldable pub get_definitions : Registry W → Option (List String) → List Fields
  get_definitions r include = map (λ t. t.schema) (visible_tools r include)

  unfoldable pub not_found : String → Registry W → String
  not_found n r =
      "Error: Tool '"
      <> (n <> ("' not found. Available: " <> join ", " (map (λ t. t.name) r.tools)))

  unfoldable pub check : String → Tool W → Fields → List String → Resolved W
  check n t params [] = found t params
  check n t params (e ∷ es) = refused (invalid n (e ∷ es))

  unfoldable pub resolve_found : String → Fields → Tool W → Resolved W
  resolve_found n params t =
      let cast = when_set t.cast_params params (λ f. f params) in
      check n t cast (when_set t.validate_params [] (λ f. f cast))

  unfoldable pub resolve : String → Fields → Registry W → Resolved W
  resolve n params r = when_set (get_tool n r) (refused (not_found n r)) (resolve_found n params)

  unfoldable pub invoke : Option ToolContext → Tool W → Fields → Exec W String
  invoke none t params = t.execute params
  invoke (some tctx) t params =
      when_set t.execute_with_context (t.execute params) (λ f. f tctx params)

  -- A result that begins with "Error" gets the hint.
  unfoldable pub hinted : Result String × W → Result String × W
  hinted (err e, w) = (err e, w)
  hinted (ok result, w) =
      (ok (if has_prefix "Error" result then result <> error_hint else result), w)

  unfoldable pub execute_resolved : Option ToolContext → Resolved W → Exec W String
  execute_resolved tctx (refused text) w = (ok text, w)
  execute_resolved tctx (found t params) w = hinted (invoke tctx t params w)

  unfoldable pub execute_tool : Registry W → String → Fields → Option ToolContext → Exec W String
  execute_tool r n params tctx = execute_resolved tctx (resolve n params r)
