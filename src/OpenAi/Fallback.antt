-- ===== src/OpenAi/Fallback.antt =====
-- The fallback chain of Chat in providers/openai/provider.go.
use exoclaw_go.Prelude.{
  ℕ, suc, ◌+◌, ◌≡◌, ◌≢◌, refl, ap, ◌∙◌, String, Bool, true, false, Option, none, some, List, [],
  ◌∷◌, ◌++◌, length, All, arith,
}
use exoclaw_go.Prelude.Text.{is_empty}
use exoclaw_go.Json.{Fields}
use exoclaw_go.Providers.{LlmResponse}
use exoclaw_go.OpenAi.Stream.{
  ChatError, retryable, context_window_exceeded, fatal, no_deployment, Answer, answered, failed,
  HttpResponse, Arrival, late, lines, consume_arrival, consume_sse_stream,
}
use exoclaw_go.OpenAi.OneShot.{consume_decoded, consume_body, consume_one_shot}
use exoclaw_go.OpenAi.Setup.{
  Deployment, Options, StreamingProvider, made, entry_of, is_some, new_streaming_provider,
}
use exoclaw_go.OpenAi.Chat.{
  ChatParams, Request, Posted, connect_error, read_timeout, write_timeout, other_error, response,
  read_response, read_posted, build_request, streams, chat_once, try_once, ask, or_next, chat_chain,
  chain_of, chat,
}
use exoclaw_go.OpenAi.Deployed.{IsDeployed, chain_of-IsDeployed}

-- The error of a model without a deployment.
abbrev is_no_deployment : Answer (LlmResponse × Fields) → Bool
is_no_deployment (failed (no_deployment m)) = true
is_no_deployment _ = false

-- The error that Chat goes on behind.
abbrev pub is_retryable : Answer (LlmResponse × Fields) → Bool
is_retryable (failed (retryable e)) = true
is_retryable _ = false

abbrev from_last : Option ChatError → Answer (LlmResponse × Fields)
from_last none = failed (fatal "chat: empty fallback chain")
from_last (some e) = failed e

module _ (decode : String → Option Fields) (short_tool_id : ℕ → String)
    (post : ℕ → Request → Posted) where
  consume_arrival-other :
      (a : Arrival) → is_no_deployment (consume_arrival decode short_tool_id a) ≡ false
  unfolding consume_arrival
  consume_arrival-other late = refl
  consume_arrival-other (lines [] e) = refl
  consume_arrival-other (lines (l ∷ ls) none) = refl
  consume_arrival-other (lines (l ∷ ls) (some e)) = refl

  consume_decoded-other :
      (o : Option Fields) → is_no_deployment (consume_decoded decode short_tool_id o) ≡ false
  unfolding consume_decoded
  consume_decoded-other none = refl
  consume_decoded-other (some body) = refl

  consume_body-other :
      (o : Option String) → is_no_deployment (consume_body decode short_tool_id o) ≡ false
  unfolding consume_body
  consume_body-other none = refl
  consume_body-other (some raw) = consume_decoded-other (decode raw)

  read_response-other :
      (stream : Bool) (r : HttpResponse)
      → is_no_deployment (read_response decode short_tool_id post stream r) ≡ false
  unfolding read_response consume_sse_stream consume_one_shot
  read_response-other stream r =
      ground (arith, consume_arrival-other r.arrival, consume_body-other r.body)

  read_posted-other :
      (stream : Bool) (x : Posted)
      → is_no_deployment (read_posted decode short_tool_id post stream x) ≡ false
  unfolding read_posted
  read_posted-other stream (connect_error e) = refl
  read_posted-other stream (read_timeout e) = refl
  read_posted-other stream (write_timeout e) = refl
  read_posted-other stream (other_error e) = refl
  read_posted-other stream (response r) = read_response-other stream r

  deployed-other :
      (p : StreamingProvider) (n : ℕ) (messages : List Fields) (params : ChatParams) (m : String)
      (o : Option Deployment)
      → is_some o ≡ true
      → is_no_deployment (try_once decode short_tool_id post p n m messages params o) ≡ false
  unfolding chat_once
  deployed-other p n messages params m none h = absurd (ground (arith, h))
  deployed-other p n messages params m (some d) h =
      read_posted-other (streams params) (post n (build_request p d m messages params))

  or_next-other :
      (a : Answer (LlmResponse × Fields)) (next : ChatError → Answer (LlmResponse × Fields))
      → is_no_deployment a ≡ false
      → ((e : String) → is_no_deployment (next (retryable e)) ≡ false)
      → is_no_deployment (or_next decode short_tool_id post a next) ≡ false
  or_next-other (answered r) next h later = refl
  or_next-other (failed (retryable e)) next h later = later e
  or_next-other (failed (context_window_exceeded e)) next h later = refl
  or_next-other (failed (fatal e)) next h later = refl
  or_next-other (failed (no_deployment e)) next h later = h

  chat_chain-none :
      (p : StreamingProvider) (n : ℕ) (messages : List Fields) (params : ChatParams)
      (last : Option ChatError)
      → is_no_deployment (from_last last) ≡ false
      → is_no_deployment (chat_chain decode short_tool_id post p n [] messages params last) ≡ false
  unfolding chat_chain
  chat_chain-none p n messages params none h = refl
  chat_chain-none p n messages params (some e) h = h

  chat_chain-other :
      (p : StreamingProvider) (ms : List String) (n : ℕ) (messages : List Fields)
      (params : ChatParams) (last : Option ChatError)
      → All (IsDeployed p.deployments) ms
      → is_no_deployment (from_last last) ≡ false
      → is_no_deployment (chat_chain decode short_tool_id post p n ms messages params last) ≡ false
  unfolding chat_chain
  chat_chain-other p [] n messages params last h l = chat_chain-none p n messages params last l
  chat_chain-other p (m ∷ ms) n messages params last h l =
      or_next-other (ask decode short_tool_id post p n messages params m)
        (λ e. chat_chain decode short_tool_id post p (suc n) ms messages params (some e))
        (deployed-other p n messages params m (entry_of m p.deployments) h.0)
        (λ e. chat_chain-other p ms (suc n) messages params (some (retryable e)) h.1 refl)

  -- A provider that could be constructed never fails for want of a deployment, whatever the network
  -- does, when the model asked for has one or is left to the default.
  pub chat-new_streaming_provider :
      (o : Options) (p : StreamingProvider) (messages : List Fields) (params : ChatParams)
      (m : String)
      → new_streaming_provider o ≡ made p
      → (is_empty params.model ≡ false → IsDeployed p.deployments params.model)
      → chat decode short_tool_id post p messages params ≢ failed (no_deployment m)
  unfolding chat
  chat-new_streaming_provider o p messages params m h deployed e =
      let other =
        chat_chain-other p (chain_of p params) 0 messages params none
          (chain_of-IsDeployed o p params h deployed) refl in
      absurd (ground (arith, ap is_no_deployment e, other))

  -- Each of the models fails with a retryable error, when they are asked one by one from the n-th
  -- request on.
  abbrev pub AreRetried : StreamingProvider → ℕ → List Fields → ChatParams → List String → Type 0
  AreRetried p n messages params [] = Unit
  AreRetried p n messages params (m ∷ ms) =
      (is_retryable (ask decode short_tool_id post p n messages params m) ≡ true)
      × AreRetried p (suc n) messages params ms

  or_next-retryable :
      (a : Answer (LlmResponse × Fields)) (next : ChatError → Answer (LlmResponse × Fields))
      (r : Answer (LlmResponse × Fields))
      → is_retryable a ≡ true
      → ((e : ChatError) → next e ≡ r)
      → or_next decode short_tool_id post a next ≡ r
  or_next-retryable (answered x) next r h later = absurd (ground (arith, h))
  or_next-retryable (failed (retryable e)) next r h later = later (retryable e)
  or_next-retryable (failed (context_window_exceeded e)) next r h later = absurd (ground (arith, h))
  or_next-retryable (failed (fatal e)) next r h later = absurd (ground (arith, h))
  or_next-retryable (failed (no_deployment e)) next r h later = absurd (ground (arith, h))

  or_next-settled :
      (a : Answer (LlmResponse × Fields)) (next : ChatError → Answer (LlmResponse × Fields))
      → is_retryable a ≡ false
      → or_next decode short_tool_id post a next ≡ a
  or_next-settled (answered x) next h = refl
  or_next-settled (failed (retryable e)) next h = absurd (ground (arith, h))
  or_next-settled (failed (context_window_exceeded e)) next h = refl
  or_next-settled (failed (fatal e)) next h = refl
  or_next-settled (failed (no_deployment e)) next h = refl

  chat_chain-append :
      (p : StreamingProvider) (before after : List String) (n at : ℕ) (messages : List Fields)
      (params : ChatParams) (m : String) (last : Option ChatError)
      → at ≡ n + length before
      → AreRetried p n messages params before
      → is_retryable (ask decode short_tool_id post p at messages params m) ≡ false
      → chat_chain decode short_tool_id post p n (before ++ m ∷ after) messages params last
        ≡ ask decode short_tool_id post p at messages params m
  unfolding chat_chain
  chat_chain-append p [] after n at messages params m last e retried settled =
      let here : n ≡ at = omega (arith, e) in
      let asked = λ (k : ℕ). ask decode short_tool_id post p k messages params m in
      or_next-settled (asked n)
        (λ err. chat_chain decode short_tool_id post p (suc n) after messages params (some err))
        (ap (λ k. is_retryable (asked k)) here ∙ settled)
      ∙ ap asked here
  chat_chain-append p (b ∷ bs) after n at messages params m last e retried settled =
      or_next-retryable (ask decode short_tool_id post p n messages params b)
        (λ err.
          chat_chain decode short_tool_id post p (suc n) (bs ++ m ∷ after) messages params
            (some err))
        (ask decode short_tool_id post p at messages params m) retried.0
        (λ err.
          chat_chain-append p bs after (suc n) at messages params m (some err) (omega (arith, e))
            retried.1 settled)

  -- Chat gives what the first model of its chain gives that does not fail with a retryable error, at
  -- its own request: an answer as well as an error that ends the chain at once.
  pub chat-append :
      (p : StreamingProvider) (messages : List Fields) (params : ChatParams)
      (before after : List String) (m : String)
      → chain_of p params ≡ before ++ m ∷ after
      → AreRetried p 0 messages params before
      → is_retryable (ask decode short_tool_id post p (length before) messages params m) ≡ false
      → chat decode short_tool_id post p messages params
        ≡ ask decode short_tool_id post p (length before) messages params m
  unfolding chat
  chat-append p messages params before after m chain retried settled =
      ap (λ ms. chat_chain decode short_tool_id post p 0 ms messages params none) chain
      ∙ chat_chain-append p before after 0 (length before) messages params m none (omega arith)
          retried settled
