-- ===== src/Executor/Isolation.antt =====
-- Which buffer the calls of exoclaw/executor/direct.go read and write.
use exoclaw_go.Prelude.{
  ◌≡◌, ◌≢◌, refl, ap, sym, arith, Option, List, ◌++◌, append_assoc, append-nil,
}
use exoclaw_go.Json.{Fields}
use exoclaw_go.Executor.{MessageBuffer}
use exoclaw_go.Executor.Direct.{
  Context, background, bound, DirectExecutor, TurnState, PriorSource, state, set_state,
  append_messages_ctx, load_messages_ctx, set_messages_ctx, set_prior_source_ctx, append_messages,
  load_messages, set_messages,
}

-- The operations that change a buffer.
pub data Op : Type 0 where
  append : List Fields → Op
  set : List Fields → Op
  set_prior : Option PriorSource → Op

abbrev pub apply : Context → Op → DirectExecutor → DirectExecutor
apply ctx (append ms) e = append_messages_ctx ctx ms e
apply ctx (set ms) e = set_messages_ctx ctx ms e
apply ctx (set_prior source) e = set_prior_source_ctx ctx source e

state-set_state :
    (ctx : Context) (s : TurnState) (e : DirectExecutor) → state ctx (set_state ctx s e) ≡ s
unfolding state set_state
state-set_state background s e = refl
state-set_state (bound i) s e = ground arith

state-set_state_ne :
    (ctx other : Context) (s : TurnState) (e : DirectExecutor)
    → ctx ≢ other
    → state other (set_state ctx s e) ≡ state other e
unfolding state set_state
state-set_state_ne background background s e h = absurd (h refl)
state-set_state_ne background (bound j) s e h = refl
state-set_state_ne (bound i) background s e h = refl
state-set_state_ne (bound i) (bound j) s e h = ground (arith, λ (p : j ≡ i). h (ap bound (sym p)))

-- What AppendMessages, SetMessages and SetPriorSource under one context do leaves what any other
-- context loads as it was.
pub load_messages_ctx-apply_ne :
    (ctx other : Context) (op : Op) (history : List Fields) (e : DirectExecutor)
    → ctx ≢ other
    → load_messages_ctx other history (apply ctx op e) ≡ load_messages_ctx other history e
unfolding load_messages_ctx append_messages_ctx set_messages_ctx set_prior_source_ctx
load_messages_ctx-apply_ne ctx other (append ms) history e h =
    rw (state-set_state_ne ctx other _ e h)
load_messages_ctx-apply_ne ctx other (set ms) history e h = rw (state-set_state_ne ctx other _ e h)
load_messages_ctx-apply_ne ctx other (set_prior source) history e h =
    rw (state-set_state_ne ctx other _ e h)

-- Appending adds to what the same context loads.
pub load_messages_ctx-append :
    (ctx : Context) (ms history : List Fields) (e : DirectExecutor)
    → load_messages_ctx ctx history (append_messages_ctx ctx ms e)
      ≡ load_messages_ctx ctx history e ++ ms
unfolding load_messages_ctx append_messages_ctx
load_messages_ctx-append ctx ms history e =
    rw (state-set_state ctx _ e) (sym (append_assoc _ (state ctx e).delta ms))

-- Setting replaces it, whatever was buffered before.
pub load_messages_ctx-set :
    (ctx : Context) (ms history : List Fields) (e : DirectExecutor)
    → load_messages_ctx ctx history (set_messages_ctx ctx ms e) ≡ ms
unfolding load_messages_ctx set_messages_ctx set_prior_source_ctx
load_messages_ctx-set ctx ms history e = rw (state-set_state ctx _ e) (append-nil ms)

-- The methods without a context, as the agent loop calls them, are a message buffer.
abbrev pub direct_buffer : List Fields → MessageBuffer DirectExecutor
unfolding append_messages load_messages set_messages
direct_buffer history = record {
  load_messages = load_messages history;
  append_messages = append_messages;
  set_messages = set_messages;
  load-append = λ ms e. load_messages_ctx-append background ms history e;
  load-set = λ ms e. load_messages_ctx-set background ms history e;
}
