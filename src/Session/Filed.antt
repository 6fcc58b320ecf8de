-- ===== src/Session/Filed.antt =====
-- The theorems on session files at a session of one message.
use exoclaw_go.Prelude.{
  ℕ, ◌-◌, ◌≡◌, refl, String, false, Option, none, some, List, [], ◌∷◌, ◌++◌, map, if◌then◌else◌,
  str_eq, length, take, drop, All,
}
use exoclaw_go.Prelude.Text.{contains}
use exoclaw_go.Json.{Fields, end, field, str, get, str_of}
use exoclaw_go.Session.Store.{
  Session, SessionManager, header, load_range, count, invalidate, load_session, save, save_append,
}
use exoclaw_go.Session.Log.{
  IsEntry, IsHeader, Represents, append_log, save_append-refines, count-save_append_cached,
}
use exoclaw_go.Session.Reload.{load_session-save}

-- A codec for a header and for one message.
abbrev encode : Fields → String
encode m =
    if str_eq (str_of (get "_type" m)) "metadata"
    then "{\"_type\":\"metadata\"}"
    else "{\"content\":\"hi\",\"role\":\"user\"}"

abbrev user : Fields
user = field "role" (str "user") (field "content" (str "hi") end)

abbrev head : Fields
head = field "_type" (str "metadata") end

abbrev decode : String → Option Fields
decode line = if contains "\"_type\"" line then some head else some user

abbrev reread : Fields → Fields
reread m = if str_eq (str_of (get "_type" m)) "metadata" then head else user

abbrev session : Session
session = record {
  key = "cli:1";
  messages = user ∷ [];
  created_at = "t0";
  updated_at = "t0";
  metadata = end;
  total = 0;
}

abbrev manager : SessionManager
manager = record {
  streaming_history = false;
  files = λ path. none;
  cache = λ key. if str_eq key "cli:1" then some session else none;
}

header-IsHeader : IsHeader encode decode reread (header session)
unfolding header get contains exoclaw_go.Prelude.Text.has_prefix exoclaw_go.Prelude.Text.trim_space
header-IsHeader = (record { trimmed = refl; full = refl; decoded = refl }, refl, refl)

user-IsEntry : IsEntry encode decode reread user
unfolding get contains exoclaw_go.Prelude.Text.has_prefix exoclaw_go.Prelude.Text.trim_space
user-IsEntry = (record { trimmed = refl; full = refl; decoded = refl }, refl)

save_append-refines_example :
    let log = append_log encode decode reread (user ∷ []) none in
    let mgr = save_append encode decode session (user ∷ []) manager in
    Represents encode decode reread (some log) "cli:1" mgr
    × (load_range encode decode "cli:1" 0 1 mgr ≡ map reread (take (1 - 0) (drop 0 log)))
    × (count encode decode "cli:1" (invalidate encode decode "cli:1" mgr) ≡ length log)
save_append-refines_example =
    save_append-refines encode decode reread none session (user ∷ []) manager 0 1 refl
      header-IsHeader (user-IsEntry, tt)

count-save_append_cached_example :
    let mgr = save_append encode decode session (user ∷ []) manager in
    (count encode decode "cli:1" mgr ≡ count encode decode "cli:1" manager)
    × (load_range encode decode "cli:1" 0 1 mgr ≡ map reread (user ∷ []))
count-save_append_cached_example =
    count-save_append_cached encode decode reread none session (user ∷ []) manager refl refl
      header-IsHeader (user-IsEntry, tt)

load_session-save_example :
    (t : Session) × (load_session encode decode "now" "cli:1" (save encode decode session manager)
      ≡ some t)
    × (t.messages ≡ map reread (user ∷ []))
    × (t.total ≡ 1)
load_session-save_example =
    load_session-save encode decode reread "now" session manager refl header-IsHeader
      (user-IsEntry, tt)
