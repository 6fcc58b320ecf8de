-- ===== src/Conversation/Examples.antt =====
-- A conversation with a store of one session.
use exoclaw_go.Prelude.{
  ℕ, ◌≡◌, refl, String, true, false, Option, none, some, [], ◌∷◌, map, if◌then◌else◌, str_eq, All,
  arith,
}
use exoclaw_go.Prelude.Text.{contains, has_prefix, trim_space, map_runes}
use exoclaw_go.Prelude.Effects.{ok}
use exoclaw_go.Json.{Fields, end, field, str, get, put, str_of}
use exoclaw_go.Session.Repair.{repair_and_project}
use exoclaw_go.Session.Prepare.{prepare_turn, prepare_role, prepare_user, stamp}
use exoclaw_go.Session.Store.{
  SessionManager, header, session_path, clear_session, new_session, get_or_create, load_session,
  load_lines, load_range, range_loop, clean_lines, unless_metadata, metadata_of,
}
use exoclaw_go.Session.Log.{IsEntry, IsHeader}
use exoclaw_go.Conversation.Default.{
  PromptOptions, Layers, Conversation, is_isolated, noop_transform, append_message, prompt_history,
  clear_log,
}
use exoclaw_go.Conversation.History.{opened, prompt_history-append_message}
use exoclaw_go.Conversation.Cleared.{Clears, clear_log-empties}

-- A codec for a header and for one message.
abbrev encode : Fields → String
encode m =
    if str_eq (str_of (get "_type" m)) "metadata"
    then "{\"_type\":\"metadata\"}"
    else "{\"content\":\"hello\",\"role\":\"user\"}"

abbrev asked : Fields
asked = field "role" (str "user") (field "content" (str "hello") end)

abbrev head : Fields
head = field "_type" (str "metadata") end

abbrev decode : String → Option Fields
decode line = if contains "\"_type\"" line then some head else some asked

abbrev reread : Fields → Fields
reread m = if str_eq (str_of (get "_type" m)) "metadata" then head else asked

abbrev manager : SessionManager
manager = record { streaming_history = true; files = λ path. none; cache = λ key. none }

abbrev layers : Layers ℕ
layers = record {
  transform = noop_transform encode decode;
  on_turn_complete = λ mgr key n. (ok tt, n);
  recover_from_overflow = none;
  delete_state = λ key n. n;
  build_messages = λ history message opts. history;
  system_prompt = none;
  agent_hooks = [];
  has_bus = false;
}

abbrev conversation : Conversation ℕ
conversation = record {
  mgr = manager;
  world = 0;
  consolidating = [];
  scheduled = [];
  published = [];
  turn_channel = "";
  turn_chat_id = "";
  turn_session_id = "";
}

abbrev options : PromptOptions
options = record { channel = "cli"; chat_id = "1"; media = []; plugin_context = []; extra = end }

opened-IsHeader :
    IsHeader encode decode reread (header (opened encode decode reread "now" "cli:1" manager))
unfolding header get contains has_prefix trim_space get_or_create load_session load_lines
    new_session
opened-IsHeader = (record { trimmed = refl; full = refl; decoded = refl }, refl, refl)

-- A store in which every session has one message on disk.
abbrev filled : SessionManager
filled = record manager { files = λ path. some (encode head ∷ encode asked ∷ []) }

filled_test : load_range encode decode "cli:1" 0 5 filled ≡ asked ∷ []
unfolding get contains has_prefix trim_space load_range range_loop clean_lines unless_metadata
    metadata_of
filled_test = refl

cleared-IsHeader :
    IsHeader encode decode reread
      (header (clear_session "now" (opened encode decode reread "now" "cli:1" filled)))
unfolding header get contains has_prefix trim_space get_or_create load_session load_lines
    new_session clear_session
cleared-IsHeader = (record { trimmed = refl; full = refl; decoded = refl }, refl, refl)

asked-IsEntry : All (IsEntry encode decode reread) (prepare_turn "now" (asked ∷ []))
unfolding get put contains has_prefix trim_space prepare_turn prepare_role prepare_user stamp
asked-IsEntry = ((record { trimmed = refl; full = refl; decoded = refl }, refl), tt)

prompt_history-append_message_example :
    prompt_history encode decode layers options "cli:1"
      (append_message encode decode layers "now" "cli:1" asked conversation)
    ≡ ok (repair_and_project (map reread (prepare_turn "now" (asked ∷ []))))
unfolding is_isolated get put has_prefix prepare_turn prepare_role prepare_user stamp
prompt_history-append_message_example =
    prompt_history-append_message encode decode reread layers conversation none "now" "cli:1" asked
      options refl (λ s e. absurd (ground (arith, e))) refl opened-IsHeader asked-IsEntry refl
      (omega arith)

abbrev full_conversation : Conversation ℕ
full_conversation = record conversation { mgr = filled }

clear_log-empties_example :
    Clears encode decode reread layers "cli:1" "cli:2" full_conversation none
      (clear_log encode decode layers (λ path old lines. none) "now" "cli:1" full_conversation)
unfolding session_path map_runes trim_space
clear_log-empties_example =
    clear_log-empties encode decode reread layers full_conversation (λ path old lines. none) "now"
      "cli:1" "cli:2" (λ s e. absurd (ground (arith, e))) cleared-IsHeader refl
