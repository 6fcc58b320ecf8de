-- ===== src/Conversation/Default.antt =====
-- DefaultConversation of conversation-file/conversation.go over SessionManager. The log is left out;
-- a goroutine of scheduleMaintenance is an entry of `scheduled`.
use exoclaw_go.Prelude.{
  String, Bool, true, false, Option, none, some, List, [], ◌∷◌, ◌++◌, if◌then◌else◌, any, str_eq,
  when_set,
}
use exoclaw_go.Prelude.Text.{◌<>◌, is_empty}
use exoclaw_go.Prelude.Effects.{Result, ok, err, Exec}
use exoclaw_go.Json.{Value, boolean, str, arr, Items, nil, cons, Fields, end, field, get}
use exoclaw_go.Tools.Registry.{join}
use exoclaw_go.Bus.Queue.{InboundMessage}
use exoclaw_go.Session.Repair.{repair_and_project}
use exoclaw_go.Session.Prepare.{prepare_turn}
use exoclaw_go.Session.Store.{
  Session, SessionManager, clear_session, stream, get_or_create, invalidate, save_append, set_at,
  WriteFailure, try_save,
}

-- conversation.BuildPromptOptions
pub record PromptOptions : Type 0 where
  pub channel : String
  pub chat_id : String
  pub media : List String
  pub plugin_context : List String
  pub extra : Fields

-- BuildMessagesOptions
pub record MessagesOptions : Type 0 where
  pub skill_names : List String
  pub media : List String
  pub channel : String
  pub chat_id : String
  pub extra_context : String
  pub turn_context : List String
  pub isolated : Bool

-- A skill's hook, with its tools and skills as they stand in the metadata.
pub record AgentHook : Type 0 where
  pub skill_name : String
  pub prompt : String
  pub tools : Value
  pub skills : Value

-- The interfaces ConsolidationPolicy and PromptBuilder. A reader is the store with a key.
pub record Layers (W : Type 0) : Type 0 where
  -- Transform, up to its first error
  pub transform : SessionManager → String → W → Result (List Fields)
  pub on_turn_complete : SessionManager → String → Exec W (Unit {0})
  pub recover_from_overflow : Option (SessionManager → String → Exec W Bool)
  -- DeleteState
  pub delete_state : String → W → W
  pub build_messages : List Fields → String → MessagesOptions → List Fields
  -- BuildSystemPrompt of a ContextBuilder
  pub system_prompt : Option String
  -- The agent_end hooks of a SkillsLoader behind a ContextBuilder
  pub agent_hooks : List AgentHook
  pub has_bus : Bool

pub record Conversation (W : Type 0) : Type 0 where
  pub mgr : SessionManager
  pub world : W
  pub consolidating : List String
  pub scheduled : List String
  -- what was given to PublishInbound of the bus
  pub published : List InboundMessage
  pub turn_channel : String
  pub turn_chat_id : String
  pub turn_session_id : String

unfoldable pub strings_in : Items → List String
strings_in nil = []
strings_in (cons (str s) vs) = s ∷ strings_in vs
strings_in (cons v vs) = strings_in vs

abbrev strings_of : Option Value → List String
strings_of (some (arr xs)) = strings_in xs
strings_of _ = []

unfoldable pub extra_string_slice : Fields → String → List String
extra_string_slice extra key = strings_of (get key extra)

abbrev true_of : Option Value → Bool
true_of (some (boolean b)) = b
true_of _ = false

unfoldable pub is_isolated : Fields → Bool
is_isolated extra = true_of (get "isolated" extra)

abbrev listed : String → List String → Bool
listed key keys = any (str_eq key) keys

abbrev pub or_other : String → String → String
or_other t other = if is_empty t then other else t

unfoldable pub hook_message : String → String → AgentHook → InboundMessage
hook_message session_id chat_id h = record {
  channel = "hook";
  sender_id = "hook:" <> (h.skill_name <> ":agent_end");
  chat_id = chat_id;
  content = h.prompt;
  media = [];
  metadata = field "_hook_turn" (boolean true) (
      field "hook_name" (str "agent_end") (
        field "hook_skill" (str h.skill_name) (
          field "hook_tools" h.tools
            (field "hook_skills" h.skills (field "source_session_id" (str session_id) end)))));
  session_key_override = "";
  model_override = "";
}

unfoldable pub hook_messages : String → String → List AgentHook → List InboundMessage
hook_messages session_id chat_id [] = []
hook_messages session_id chat_id (h ∷ hs) =
    hook_message session_id chat_id h ∷ hook_messages session_id chat_id hs

module _ (encode : Fields → String) (decode : String → Option Fields) where
  -- The policy of a conversation that is given none: the log as it is.
  unfoldable pub noop_transform : {W : Type 0} → SessionManager → String → W → Result (List Fields)
  noop_transform mgr key w = ok (stream encode decode key 0 none mgr)

  abbrev pub save_any : Session → List Fields → SessionManager → SessionManager
  save_any s [] mgr = mgr
  save_any s (m ∷ ms) mgr = save_append encode decode s (m ∷ ms) mgr

  module _ {W : Type 0} (l : Layers W) where
    -- Append
    unfoldable pub append_message : String → String → Fields → Conversation W → Conversation W
    append_message now key m c =
        let (s, mgr) = get_or_create encode decode now key c.mgr in
        record c { mgr = save_any s (prepare_turn now (m ∷ [])) mgr }

    -- What BuildPrompt sets.
    unfoldable pub note_turn : PromptOptions → String → Conversation W → Conversation W
    note_turn opts key c = record c {
      turn_channel = opts.channel;
      turn_chat_id = opts.chat_id;
      turn_session_id = key;
    }

    -- The history that BuildPrompt gives to the prompt builder.
    abbrev pub repaired : Result (List Fields) → Result (List Fields)
    repaired (ok ms) = ok (repair_and_project ms)
    repaired (err e) = err e

    unfoldable pub prompt_history : PromptOptions → String → Conversation W → Result (List Fields)
    prompt_history opts key c =
        if is_isolated opts.extra then ok [] else repaired (l.transform c.mgr key c.world)

    abbrev pub messages_options : PromptOptions → MessagesOptions
    messages_options opts = record {
      skill_names = extra_string_slice opts.extra "skills";
      media = opts.media;
      channel = opts.channel;
      chat_id = opts.chat_id;
      extra_context = join "\n\n" opts.plugin_context;
      turn_context = extra_string_slice opts.extra "turn_context";
      isolated = is_isolated opts.extra;
    }

    abbrev pub with_messages : String → PromptOptions → Result (List Fields) → Result (List Fields)
    with_messages message opts (err e) = err e
    with_messages message opts (ok history) =
        ok (l.build_messages history message (messages_options opts))

    unfoldable pub build_prompt :
        String → String → PromptOptions → Exec (Conversation W) (List Fields)
    build_prompt key message opts c =
        let c' = note_turn opts key c in
        (with_messages message opts (prompt_history opts key c'), c')

    -- runMaintenance, from the entry to the defer.
    unfoldable pub run_maintenance : String → Conversation W → Conversation W
    run_maintenance key c =
        if listed key c.consolidating
        then c
        else record c { world = (l.on_turn_complete c.mgr key c.world).1 }

    unfoldable pub schedule_maintenance : String → Conversation W → Conversation W
    schedule_maintenance key c =
        if listed key c.consolidating then c else record c { scheduled = c.scheduled ++ key ∷ [] }

    unfoldable pub fire_agent_hooks : String → String → Conversation W → Conversation W
    fire_agent_hooks key chat_id c =
        let chat = or_other (or_other chat_id c.turn_chat_id) key in
        record c { published = c.published ++ hook_messages key chat l.agent_hooks }

    -- What the end of a turn does, unless it is a hook's: `awaits` is AwaitMaintenance.
    unfoldable pub post_turn_with :
        String → String → String → Bool → Conversation W → Conversation W
    post_turn_with key channel chat_id awaits c =
        let c' = if awaits then run_maintenance key c else schedule_maintenance key c in
        let fired = fire_agent_hooks key chat_id c' in
        if str_eq (or_other channel c.turn_channel) "hook"
        then c
        else if l.has_bus
        then fired
        else c'

    unfoldable pub record_with :
        String → String → List Fields → String → String → Bool → Conversation W → Conversation W
    record_with now key ms channel chat_id awaits c =
        let (s, mgr) = get_or_create encode decode now key c.mgr in
        post_turn_with key channel chat_id awaits
          (record c { mgr = save_append encode decode s (prepare_turn now ms) mgr })

    abbrev pub after_save :
        String → Conversation W → Result (Unit {0}) × SessionManager → Result Bool × Conversation W
    after_save key c (err e, mgr) = (err e, record c { mgr = mgr })
    after_save key c (ok u, mgr) = (
      ok true,
      record c { mgr = invalidate encode decode key mgr; world = l.delete_state key c.world },
    )

    -- The manager with the shared session cleared.
    abbrev pub clear_cached : String → String → Session → SessionManager → SessionManager
    clear_cached now key s mgr = record mgr {
      cache = set_at key (some (clear_session now s)) mgr.cache;
    }

    -- Clear
    unfoldable pub clear_log : WriteFailure → String → String → Exec (Conversation W) Bool
    clear_log cannot_write now key c =
        let (s, mgr) = get_or_create encode decode now key c.mgr in
        after_save key c
          (try_save encode decode cannot_write (clear_session now s) (clear_cached now key s mgr))

    abbrev pub with_system_prompt : List Fields → Option String → List Fields
    with_system_prompt ms none = ms
    with_system_prompt ms (some t) = field "role" (str "system") (field "content" (str t) end) ∷ ms

    abbrev recovered_view : Result (List Fields) → Result (Option (List Fields))
    recovered_view (err e) = err e
    recovered_view (ok ms) = ok (some (with_system_prompt (repair_and_project ms) l.system_prompt))

    abbrev after_recovery :
        String → Conversation W → Result Bool × W → Result (Option (List Fields)) × Conversation W
    after_recovery key c (err e, w) = (err e, record c { world = w })
    after_recovery key c (ok false, w) = (ok none, record c { world = w })
    after_recovery key c (ok true, w) =
        (recovered_view (l.transform c.mgr key w), record c { world = w })

    -- RecoverFromOverflow
    unfoldable pub recover_prompt : String → Exec (Conversation W) (Option (List Fields))
    recover_prompt key c =
        when_set l.recover_from_overflow ((ok none, c))
          (λ recover. after_recovery key c (recover c.mgr key c.world))
