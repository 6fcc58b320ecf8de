-- ===== src/Tools/Dispatch.antt =====
-- Execute of exoclaw/agent/tools/registry.go: where its errors come from.
use exoclaw_go.Prelude.{◌≡◌, refl, String, Option, none, some, List, [], ◌∷◌, when_set, arith}
use exoclaw_go.Prelude.Effects.{Error, Result, ok, err}
use exoclaw_go.Json.{Fields}
use exoclaw_go.Agent.Env.{ToolContext}
use exoclaw_go.Tools.Registry.{
  Tool, Registry, refused, get_tool, check, resolve_found, resolve, invoke, hinted,
  execute_resolved, execute_tool, not_found,
}

module _ {W : Type 0} where
  -- The parameters as the tool converts them, if it does.
  abbrev pub converted : Tool W → Fields → Fields
  converted t params = when_set t.cast_params params (λ f. f params)

  -- The tool has nothing against these parameters.
  abbrev pub Accepts : Tool W → Fields → Type 0
  Accepts t params = when_set t.validate_params [] (λ f. f params) ≡ []

  -- The tool under that name accepts the converted parameters, and the call fails as the tool failed
  -- on them.
  abbrev pub FailedIn : Registry W → String → Fields → Option ToolContext → W → Error → W → Type 0
  FailedIn r n params tctx w e w' =
      (t : Tool W) × (get_tool n r ≡ some t)
      × Accepts t (converted t params)
      × (invoke tctx t (converted t params) w ≡ (err e, w'))

  hinted-err :
      (out : Result String × W) (e : Error) (w : W) → hinted out ≡ (err e, w) → out ≡ (err e, w)
  unfolding hinted
  hinted-err (err f, v) e w h = h
  hinted-err (ok text, v) e w h = absurd (ground arith)

  check-FailedIn :
      (n : String) (t : Tool W) (params : Fields) (errors : List String) (tctx : Option ToolContext)
      (w w' : W) (e : Error)
      → execute_resolved tctx (check n t params errors) w ≡ (err e, w')
      → (errors ≡ []) × (invoke tctx t params w ≡ (err e, w'))
  unfolding check execute_resolved
  check-FailedIn n t params [] tctx w w' e h = (refl, hinted-err _ e w' h)
  check-FailedIn n t params (x ∷ xs) tctx w w' e h = absurd (ground arith)

  -- An error of Execute is the error that the tool registered under that name returned on the
  -- converted parameters, which it had accepted: an unknown name and refused parameters never give
  -- an error.
  pub execute_tool-FailedIn :
      (r : Registry W) (n : String) (params : Fields) (tctx : Option ToolContext) (w w' : W)
      (e : Error)
      → execute_tool r n params tctx w ≡ (err e, w')
      → FailedIn r n params tctx w e w'
  unfolding execute_tool resolve resolve_found
  execute_tool-FailedIn r n params tctx w w' e h = go (get_tool n r) refl h
    where
      go :
          (o : Option (Tool W))
          → get_tool n r ≡ o
          → execute_resolved tctx (when_set o (refused (not_found n r)) (resolve_found n params)) w
            ≡ (err e, w')
          → FailedIn r n params tctx w e w'
      go none g q = absurd (unfold execute_resolved in ground arith)
      go (some t) g q =
          let (accepted, failed) = check-FailedIn n t (converted t params) _ tctx w w' e q in
          (t, g, accepted, failed)
