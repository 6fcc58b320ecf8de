-- ===== src/OpenAi/Deployed.antt =====
-- The models of a chain of a constructed provider have deployments, in providers/openai/provider.go.
use exoclaw_go.Prelude.{
  ◌≡◌, refl, sym, String, true, false, Option, none, some, List, [], ◌∷◌, All, if◌then◌else◌,
  str_eq, arith, if-ind,
}
use exoclaw_go.Prelude.Text.{is_empty}
use exoclaw_go.OpenAi.Setup.{
  Deployment, Options, StreamingProvider, Construction, made, entry_of, is_some, or_later,
  unless_bad, first_undeployed, bad_fallback, new_streaming_provider,
}
use exoclaw_go.OpenAi.Chat.{ChatParams, chain_behind, chain_of}

-- The model of a name has a deployment.
abbrev pub IsDeployed : List (String × Deployment) → String → Type 0
IsDeployed ds m = is_some (entry_of m ds) ≡ true

first_undeployed-none :
    (ds : List (String × Deployment)) (ms : List String)
    → first_undeployed ds ms ≡ none
    → All (IsDeployed ds) ms
unfolding first_undeployed
first_undeployed-none ds [] h = tt
first_undeployed-none ds (m ∷ ms) h = ground (arith, h, first_undeployed-none ds ms)

abbrev AreDeployed : List (String × Deployment) → Option (List String) → Type 0
AreDeployed ds none = Unit
AreDeployed ds (some ms) = All (IsDeployed ds) ms

or_later-none :
    (primary : String) (o : Option String) (later : Option (String × String))
    → or_later primary o later ≡ none
    → (o ≡ none) × (later ≡ none)
or_later-none primary none later h = (refl, h)
or_later-none primary (some m) later h = absurd (ground (arith, h))

bad_fallback-none :
    (ds : List (String × Deployment)) (es : List (String × List String)) (m : String)
    → bad_fallback ds es ≡ none
    → AreDeployed ds (entry_of m es)
unfolding bad_fallback entry_of
bad_fallback-none ds [] m h = tt
bad_fallback-none ds (e ∷ es) m h =
    let good = or_later-none e.0 (first_undeployed ds e.1) (bad_fallback ds es) h in
    if-ind (AreDeployed ds) (str_eq e.0 m) (some e.1) (entry_of m es)
      (λ _. first_undeployed-none ds e.1 good.0) (λ _. bad_fallback-none ds es m good.1)

chain_behind-IsDeployed :
    (ds : List (String × Deployment)) (o : Option (List String))
    → AreDeployed ds o
    → All (IsDeployed ds) (chain_behind o)
chain_behind-IsDeployed ds none h = tt
chain_behind-IsDeployed ds (some ms) h = h

-- What a construction keeps of its options.
record Kept : Type 0 where
  default_model : String
  deployments : List (String × Deployment)
  fallbacks : List (String × List String)

abbrev kept_of : Construction → Kept
kept_of (made p) = record {
  default_model = p.default_model;
  deployments = p.deployments;
  fallbacks = p.fallbacks;
}
kept_of _ = record { default_model = ""; deployments = []; fallbacks = [] }

unless_bad-made :
    (o : Options) (b : Option (String × String)) (p : StreamingProvider)
    → unless_bad o b ≡ made p
    → (b ≡ none)
      × (p.deployments ≡ o.deployments)
      × (p.fallbacks ≡ o.fallbacks)
      × (p.default_model ≡ o.default_model)
unless_bad-made o none p h = (
  refl,
  λ i. (kept_of (sym h i)).deployments,
  λ i. (kept_of (sym h i)).fallbacks,
  λ i. (kept_of (sym h i)).default_model,
)
unless_bad-made o (some b) p h = absurd (ground (arith, h))

new_streaming_provider-made :
    (o : Options) (p : StreamingProvider)
    → new_streaming_provider o ≡ made p
    → IsDeployed o.deployments o.default_model
      × (unless_bad o (bad_fallback o.deployments o.fallbacks) ≡ made p)
unfolding new_streaming_provider
new_streaming_provider-made o p h = ground (arith, h)

pub chain_of-IsDeployed :
    (o : Options) (p : StreamingProvider) (params : ChatParams)
    → new_streaming_provider o ≡ made p
    → (is_empty params.model ≡ false → IsDeployed p.deployments params.model)
    → All (IsDeployed p.deployments) (chain_of p params)
unfolding chain_of
chain_of-IsDeployed o p params h deployed =
    let (at_default, m) = new_streaming_provider-made o p h in
    let (good, ds, fs, d) = unless_bad-made o (bad_fallback o.deployments o.fallbacks) p m in
    let resolved = if is_empty params.model then p.default_model else params.model in
    let behind : AreDeployed p.deployments (entry_of resolved p.fallbacks) =
      rw (ds, fs) (bad_fallback-none o.deployments o.fallbacks resolved good) in
    (
      if-ind (IsDeployed p.deployments) (is_empty params.model) p.default_model params.model
          (λ _. rw (ds, d) at_default) deployed,
      chain_behind-IsDeployed p.deployments (entry_of resolved p.fallbacks) behind,
    )
