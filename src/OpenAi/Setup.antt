-- ===== src/OpenAi/Setup.antt =====
-- Deployments, Options, NewStreamingProvider and Close of providers/openai/provider.go.
use exoclaw_go.Prelude.{
  ℕ, String, Bool, true, false, not, Option, none, some, List, [], ◌∷◌, if◌then◌else◌, ◌==◌, str_eq,
}
use exoclaw_go.Prelude.Text.{is_empty}
use exoclaw_go.Json.{Fields}

pub record Deployment : Type 0 where
  pub base_url : String
  pub api_key : String
  pub extra_headers : List (String × String)
  pub extra_body : Fields

-- `m[k]` with its presence, of a map that has one entry for a key.
unfoldable pub entry_of {ℓ} : {A : Type ℓ} → String → List (String × A) → Option A
entry_of k [] = none
entry_of k (e ∷ es) = let rest = entry_of k es in if str_eq e.0 k then some e.1 else rest

abbrev pub is_some {ℓ} : {A : Type ℓ} → Option A → Bool
is_some none = false
is_some (some x) = true

-- The times are int64 words of nanoseconds; `has_client` says whether Client is not nil.
pub record Options : Type 0 where
  pub default_model : String
  pub deployments : List (String × Deployment)
  pub fallbacks : List (String × List String)
  pub request_timeout : ℕ
  pub stream_ttft_timeout : ℕ
  pub has_client : Bool

pub record StreamingProvider : Type 0 where
  pub default_model : String
  pub deployments : List (String × Deployment)
  pub fallbacks : List (String × List String)
  pub request_timeout : ℕ
  pub stream_ttft_timeout : ℕ
  pub has_client : Bool
  pub owns_client : Bool

pub data Construction : Type 0 where
  made : StreamingProvider → Construction
  no_default_model : Construction
  default_not_deployed : String → Construction
  fallback_not_deployed : String → String → Construction

-- The inner loop over one chain: the first model in it that has no deployment.
unfoldable pub first_undeployed : List (String × Deployment) → List String → Option String
first_undeployed ds [] = none
first_undeployed ds (m ∷ ms) =
    let rest = first_undeployed ds ms in if is_some (entry_of m ds) then rest else some m

abbrev pub or_later : String → Option String → Option (String × String) → Option (String × String)
or_later primary none later = later
or_later primary (some m) later = some (m, primary)

-- The loop over opts.Fallbacks, in some order of the map.
unfoldable pub bad_fallback :
    List (String × Deployment) → List (String × List String) → Option (String × String)
bad_fallback ds [] = none
bad_fallback ds (e ∷ es) = or_later e.0 (first_undeployed ds e.1) (bad_fallback ds es)

abbrev pub or_default : ℕ → ℕ → ℕ
or_default n default = if n == 0 then default else n

abbrev made_of : Options → StreamingProvider
made_of opts = record {
  default_model = opts.default_model;
  deployments = opts.deployments;
  fallbacks = opts.fallbacks;
  request_timeout = or_default opts.request_timeout 120000000000;
  stream_ttft_timeout = or_default opts.stream_ttft_timeout 15000000000;
  has_client = true;
  owns_client = not opts.has_client;
}

abbrev pub unless_bad : Options → Option (String × String) → Construction
unless_bad opts none = made (made_of opts)
unless_bad opts (some b) = fallback_not_deployed b.0 b.1

unfoldable pub new_streaming_provider : Options → Construction
new_streaming_provider opts =
    if is_empty opts.default_model
    then no_default_model
    else if not (is_some (entry_of opts.default_model opts.deployments))
    then default_not_deployed opts.default_model
    else unless_bad opts (bad_fallback opts.deployments opts.fallbacks)

-- Close, and whether it closes the client.
unfoldable pub close : StreamingProvider → StreamingProvider × Bool
close p = if p.owns_client then (record p { has_client = false }, p.has_client) else (p, false)
