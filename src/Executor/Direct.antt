-- ===== src/Executor/Direct.antt =====
-- exoclaw/executor/direct.go: the per-turn message buffers of DirectExecutor, one state for each
-- context that WithTurnState made and a fallback for every other context.
use exoclaw_go.Prelude.{
  ℕ, ◌+◌, String, Option, none, some, List, [], ◌∷◌, ◌++◌, if◌then◌else◌, ◌==◌,
}
use exoclaw_go.Json.{Fields}

-- A PriorSource may read the persisted history again at each call: its argument is what
-- LoadPersistedHistory returns at that moment.
abbrev pub PriorSource : Type 0
PriorSource = List Fields → List Fields

pub record TurnState : Type 0 where
  pub prior : Option PriorSource
  pub delta : List Fields
  pub scratch : List String

abbrev pub empty_prior_source : PriorSource
empty_prior_source history = []

abbrev pub fresh_turn_state : TurnState
fresh_turn_state = record { prior = some empty_prior_source; delta = []; scratch = [] }

-- A context as far as turnStateKey goes: none bound, or the state that one WithTurnState made.
pub data Context : Type 0 where
  background : Context
  bound : ℕ → Context

pub record DirectExecutor : Type 0 where
  pub turns : ℕ → TurnState
  pub next_turn : ℕ
  pub state_fallback : Option TurnState

unfoldable pub new_direct_executor : DirectExecutor
new_direct_executor = record { turns = λ n. fresh_turn_state; next_turn = 0; state_fallback = none }

unfoldable pub with_turn_state : DirectExecutor → Context × DirectExecutor
with_turn_state e = (
  bound e.next_turn,
  record e {
    turns = λ n. if n == e.next_turn then fresh_turn_state else e.turns n;
    next_turn = e.next_turn + 1;
  },
)

abbrev or_fresh : Option TurnState → TurnState
or_fresh none = fresh_turn_state
or_fresh (some s) = s

-- `state`: the bound state, or the fallback, which is allocated when it is first asked for.
unfoldable pub state : Context → DirectExecutor → TurnState
state background e = or_fresh e.state_fallback
state (bound i) e = e.turns i

unfoldable pub set_state : Context → TurnState → DirectExecutor → DirectExecutor
set_state background s e = record e { state_fallback = some s }
set_state (bound i) s e = record e { turns = λ n. if n == i then s else e.turns n }

unfoldable pub append_messages_ctx : Context → List Fields → DirectExecutor → DirectExecutor
append_messages_ctx ctx messages e =
    let s = state ctx e in set_state ctx (record s { delta = s.delta ++ messages }) e

run_prior : Option PriorSource → List Fields → List Fields
run_prior none history = []
run_prior (some source) history = source history

unfoldable pub load_messages_ctx : Context → List Fields → DirectExecutor → List Fields
unfolding run_prior
load_messages_ctx ctx history e = let s = state ctx e in run_prior s.prior history ++ s.delta

unfoldable pub set_prior_source_ctx : Context → Option PriorSource → DirectExecutor → DirectExecutor
set_prior_source_ctx ctx source e =
    let s = state ctx e in set_state ctx (record s { prior = source; delta = [] }) e

unfoldable pub set_messages_ctx : Context → List Fields → DirectExecutor → DirectExecutor
set_messages_ctx ctx messages e = set_prior_source_ctx ctx (some (λ history. messages)) e

-- The methods of the Executor interface carry no context.
unfoldable pub append_messages : List Fields → DirectExecutor → DirectExecutor
append_messages messages e = append_messages_ctx background messages e

unfoldable pub load_messages : List Fields → DirectExecutor → List Fields
load_messages history e = load_messages_ctx background history e

unfoldable pub set_messages : List Fields → DirectExecutor → DirectExecutor
set_messages messages e = set_messages_ctx background messages e

-- The scratch part of PostTurn: the paths to remove, which only a bound state has.
unfoldable pub post_turn_scratch : Context → DirectExecutor → List String × DirectExecutor
post_turn_scratch background e = ([], e)
post_turn_scratch (bound i) e =
    ((e.turns i).scratch, set_state (bound i) (record (e.turns i) { scratch = [] }) e)

-- The end of ExecuteToolWithHandle: the scratch file of a streamed result is remembered.
unfoldable pub add_scratch : Context → String → DirectExecutor → DirectExecutor
add_scratch ctx path e =
    let s = state ctx e in set_state ctx (record s { scratch = s.scratch ++ path ∷ [] }) e
