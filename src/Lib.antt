-- ===== src/Lib.antt =====
-- exoclaw-go: an agent runtime. A bus carries inbound messages to the agent loop
-- (exoclaw/agent/loop.go), which asks a model provider, runs the tools the model calls, and keeps
-- the turn's messages in the buffer of an executor (exoclaw/executor/direct.go); a conversation
-- records them; the cron tool (tools/cron) fires jobs into the same loop.
--
-- Which file models which part:
-- - Prelude: names of the library passed on, and what the components share. Prelude/Words is int64
--   as a bit pattern below 2 ^ 64, with add64, sub64, mul64 and slt for Go's +, -, * and <.
--   Prelude/Effects is a call that returns (T, error) and changes a state: Exec S A is
--   S → Result A × S, so the state survives an error. Prelude/Keeps carries a property of the state
--   through such calls. Prelude/Text and Prelude/Folding are parts of package strings.
-- - Json: map[string]any as an association list with the first binding of a key in force;
--   Json/Equal stands for reflect.DeepEqual.
-- - Providers: the response of a model and DropMalformedToolCalls, of exoclaw/providers/types.go.
-- - Executor/Direct: the message buffer of exoclaw/executor/direct.go, one turn state per context and
--   the fallback state for a context with none; Executor/Prior is buildLazyPriorSource.
--   Executor's MessageBuffer is the interface the loop is written against, and
--   Executor/Isolation fills it.
-- - Agent/Env is the AgentLoop struct: hooks, policy, provider, conversation and tools, as calls on a
--   world the loop does not read. Agent/ToolCall is the body of the loop over the tool calls of a
--   response, Agent/Pass one round of runAgentLoop, Agent/Loop the loop and what follows it,
--   Agent/Turn the turn around it, which builds the prompt. Agent/Message and Agent/Inbound
--   are processMessage, dispatch and ProcessDirect, and Agent/Tasks is Run with handleStop: Steps is
--   any order in which messages come and tasks end. The other files of Agent hold
--   proofs: World and Frame carry a property through a round.
-- - Cron/Types and Cron/Schedule are tools/cron/types.go, computeNextRun,
--   validateScheduleForAdd and the timer; Cron/Service is the store (jobs are addresses in a heap,
--   as the Go code shares *CronJob between the store and the deferred queue), Cron/Firing
--   the timer's work, Cron/Jobs the public operations. Cron/Codec and Cron/Decode are the JSON of the store
--   by the tags of tools/cron/types.go. Wake, Recoded, Storage, Update, Removal, Sorting and OneShot hold proofs.
-- - Session/Store is SessionManager with its reader, of conversation-file/session/manager.go: files are
--   their lines, and json.Marshal of a message and json.Unmarshal of a line are parameters.
-- - Session/Repair is RepairAndProject and NormalizeHistory of conversation-file/session/manager.go,
--   Session/Prepare is prepareTurn of conversation-file/conversation.go; the other files of Session
--   hold proofs. A max_messages is the bit pattern of an int64.
-- - Conversation/Default is DefaultConversation of conversation-file/conversation.go over that store; the
--   policy and the prompt builder are its interfaces. Conversation/History and
--   Conversation/Cleared hold proofs.
-- - OpenAi is providers/openai/provider.go: Setup is NewStreamingProvider, Chat is Chat with chatOnce,
--   Format is encodeResponseFormat, Body is writeStreamBody with Json/Escape and Json/Print for
--   json.Marshal, Stream and OneShot are the two ways of reading an answer, and Response is what they
--   share with buildResponse. Same, Escaping, BodyText, Whole, Deployed and Fallback hold proofs.
-- - Tools/Registry is ToolRegistry of exoclaw/agent/tools/registry.go; its maps are lists with one entry
--   for a name, and the other files of Tools hold proofs.
-- - Consolidation/Policy is SummarizingConsolidationPolicy of conversation-file/summarizing_policy.go over
--   LoadState and SaveState of conversation-file/consolidation_state.go; Consolidation/Boundary and Consolidation/Progress hold proofs.
-- - Channels/Manager is ChannelManager of exoclaw/channels/manager.go; Flow is any order in which messages
--   are published and dispatched. Channels/Delivery holds proofs.
-- - Workspace/Paths is resolvePath of tools/workspace/filesystem.go; a FilePath is a path by its segments, and
--   Workspace/Segments splits texts. Workspace/Files is the edit and the write tool of that file.
--   Workspace/Sandbox and Workspace/Edited hold proofs.
-- - Bus/Queue is MessageBus of exoclaw/bus/queue.go; Run is any sequence of calls that returned, from any
--   goroutines. Bus/Order holds proofs.
--
-- Fuel: runAgentLoop is a `for` loop with no bound of its own. The model runs it on fuel, and
-- Agent/Bounds proves that MaxIterations + 1 is enough without an iteration policy; with a policy the
-- loop ends when the policy says so, and the fuel is the model's.
--
-- Parameters: the provider, the tools, the conversation and every hook; json.Marshal of a call's
-- arguments and %T of an error; the cron expression evaluator and time.LoadLocation; the file system
-- of the cron store (a write error or none) and the job callback; what keeps a file from being written
-- and what that leaves of it (sessions, sidecars and the workspace tools); the network as what each
-- request of the provider gets, the text of a float64, and the blocks of bytes that the reads of a
-- file give, with the text that json.Marshal reads in a block; filepath.EvalSymlinks, which asks the
-- file system; the random ids of tool calls; json.Marshal and json.Unmarshal of the lines of a session
-- file.
--
-- Not modelled: the head of an old session file that readLegacyBoundary reads; logging and the clock
-- reads that only feed it, the heartbeat goroutine, mutexes (each operation is one step), panics of
-- the turn under dispatch, and cutting a string inside a rune. Still outside: app, http, the text of
-- the prompt and the skills, the cron tool, the workspace tools but for those of Workspace/Files,
-- stdin and the command.
mod Prelude
pub mod Json
pub mod Providers
pub mod Executor
pub mod Agent
pub mod Cron
pub mod Session
pub mod Bus
pub mod OpenAi
pub mod Conversation
pub mod Channels
pub mod Workspace
pub mod Tools
pub mod Consolidation
