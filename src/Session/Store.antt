-- ===== src/Session/Store.antt =====
-- SessionManager and JSONLSessionReader of conversation-file/session/manager.go. A file is its lines; a
-- file that cannot be opened counts as absent, and a line is of any length. `encode` and `decode` are
-- json.Encoder.Encode and json.Unmarshal. SaveAppend stands for its calls that do not fail;
-- time stamps are their texts and "" is the zero time.
use Prim.Native.Char.{Char, code}
use exoclaw_go.Prelude.{
  ℕ, suc, ◌+◌, String, Bool, not, ◌&&◌, ◌||◌, Option, none, some, List, [], ◌∷◌, ◌++◌, map, keep,
  if◌then◌else◌, str_eq, leb, ltb, ◌==◌, length,
}
use exoclaw_go.Prelude.Text.{is_empty, trim_space, contains, map_runes}
use exoclaw_go.Prelude.Effects.{Error, ok, err, Exec}
use exoclaw_go.Json.{Value, str, obj, Fields, end, field, get, str_of}
use exoclaw_go.Session.Repair.{normalize_history}

pub record Session : Type 0 where
  pub key : String
  pub messages : List Fields
  pub created_at : String
  pub updated_at : String
  pub metadata : Fields
  -- 0 means the length of the messages
  pub total : ℕ

unfoldable pub new_session : String → String → Session
new_session now key = record {
  key = key;
  messages = [];
  created_at = now;
  updated_at = now;
  metadata = end;
  total = 0;
}

unfoldable pub total_messages : Session → ℕ
total_messages s = if ltb 0 s.total then s.total else length s.messages

unfoldable pub append_session : String → List Fields → Session → Session
append_session now ms s = record s {
  messages = s.messages ++ ms;
  total = if ltb 0 s.total then s.total + length ms else s.total;
  updated_at = now;
}

unfoldable pub clear_session : String → Session → Session
clear_session now s = record s { messages = []; total = 0; updated_at = now }

-- The sessions are shared by reference in the source: a change of one is also made in the cache.
pub record SessionManager : Type 0 where
  pub streaming_history : Bool
  pub files : String → Option (List String)
  pub cache : String → Option Session

abbrev safe_rune : Char → Char
safe_rune c =
    if code c == b'<'
      || code c == b'>'
      || code c == b':'
      || code c == b'"'
      || code c == b'/'
      || code c == b'\\'
      || code c == b'|'
      || code c == b'?'
      || code c == b'*'
    then "_"
    else c

-- getSessionPath, as the name in the sessions directory; ':' becomes '_' with the other signs.
unfoldable pub session_path : String → String
session_path key = trim_space (map_runes safe_rune key)

-- The lines that a scanner loop looks at.
unfoldable pub clean_lines : List String → List String
clean_lines lines = keep (λ l. not (is_empty l)) (map trim_space lines)

abbrev pub lines_of : Option (List String) → List String
lines_of none = []
lines_of (some lines) = clean_lines lines

abbrev pub fields_of : Option Value → Fields
fields_of (some (obj fs)) = fs
fields_of _ = end

abbrev pub set_at {ℓ} : {A : Type ℓ} → String → A → (String → A) → String → A
set_at key a f k = if str_eq k key then a else f k

-- The first line of a session file.
unfoldable pub header : Session → Fields
header s = field "_type" (str "metadata") (
    field "key" (str s.key) (
      field "created_at" (str s.created_at)
        (field "updated_at" (str s.updated_at) (field "metadata" (obj s.metadata) end))))

-- What keeps the lines from being written under a path with this content, and what it leaves there:
-- os.Create may fail, and a line after it, with the file cut short. `none` is no error.
abbrev pub WriteFailure : Type 0
WriteFailure = String → Option (List String) → List String → Option (Error × Option (List String))

-- `continue` on a metadata line.
unfoldable pub unless_metadata {ℓ} : {A : Type ℓ} → Option Fields → A → A → A
unless_metadata none skipped a = a
unless_metadata (some head) skipped a = skipped

module _ (encode : Fields → String) (decode : String → Option Fields) where
  abbrev pub if_metadata : Option Fields → Option Fields
  if_metadata none = none
  if_metadata (some head) =
      if str_eq (str_of (get "_type" head)) "metadata" then some head else none

  -- The data of a metadata line.
  unfoldable pub metadata_of : String → Option Fields
  metadata_of line = if contains "\"_type\"" line then if_metadata (decode line) else none

  abbrev pub with_message : Option Fields → List Fields → List Fields
  with_message none ms = ms
  with_message (some m) ms = m ∷ ms

  -- The loop of LoadRange and Stream.
  unfoldable pub range_loop : ℕ → ℕ → ℕ → List String → List Fields
  range_loop start stop idx [] = []
  range_loop start stop idx (l ∷ ls) =
      let same = range_loop start stop idx ls in
      let next = range_loop start stop (suc idx) ls in
      unless_metadata (metadata_of l) same
        (if leb stop idx then [] else if leb start idx then with_message (decode l) next else next)

  unfoldable pub load_range : String → ℕ → ℕ → SessionManager → List Fields
  load_range key start stop mgr = range_loop start stop 0 (lines_of (mgr.files (session_path key)))

  -- `none` is a negative end.
  unfoldable pub stream : String → ℕ → Option ℕ → SessionManager → List Fields
  stream key start none mgr = load_range key start 1073741824 mgr
  stream key start (some stop) mgr = load_range key start stop mgr

  abbrev pub first_of : List Fields → Option Fields
  first_of [] = none
  first_of (m ∷ ms) = some m

  unfoldable pub at_index : String → ℕ → SessionManager → Option Fields
  at_index key index mgr = first_of (stream key index (some (suc index)) mgr)

  -- The loop of Count; metadata is looked for only before the first message.
  unfoldable pub count_loop : ℕ → List String → ℕ
  count_loop total [] = total
  count_loop total (l ∷ ls) =
      let same = count_loop total ls in
      let next = count_loop (suc total) ls in
      if total == 0 then unless_metadata (metadata_of l) same next else next

  -- Count of the reader: the cached session's total, or a scan.
  unfoldable pub count_of : Option Session → List String → ℕ
  count_of (some s) lines = total_messages s
  count_of none lines = count_loop 0 lines

  unfoldable pub count : String → SessionManager → ℕ
  count key mgr = count_of (mgr.cache key) (lines_of (mgr.files (session_path key)))

  unfoldable pub read_messages : List String → List Fields
  read_messages [] = []
  read_messages (l ∷ ls) = with_message (decode l) (read_messages ls)

  pub record Scan : Type 0 where
    pub metadata : Fields
    pub created_at : String
    pub updated_at : String
    pub total : ℕ
    pub buffered : List String

  abbrev pub text_or : String → Option Value → String
  text_or old (some (str t)) = t
  text_or old _ = old

  abbrev pub map_or : Fields → Option Value → Fields
  map_or old (some (obj fs)) = fs
  map_or old _ = old

  abbrev pub scan_metadata : Fields → Scan → Scan
  scan_metadata head a = record a {
    metadata = map_or a.metadata (get "metadata" head);
    created_at = text_or a.created_at (get "created_at" head);
    updated_at = text_or a.updated_at (get "updated_at" head);
  }

  abbrev pub scan_message : Bool → String → Scan → Scan
  scan_message streaming l a = record a {
    buffered = if streaming then a.buffered else a.buffered ++ l ∷ [];
    total = suc a.total;
  }

  unfoldable pub scan_line : Bool → String → Option Fields → Scan → Scan
  scan_line streaming l (some head) a = scan_metadata head a
  scan_line streaming l none a = scan_message streaming l a

  unfoldable pub scan_step : Bool → String → Scan → Scan
  scan_step streaming l a =
      if a.total == 0 then scan_line streaming l (metadata_of l) a else scan_message streaming l a

  -- The loop of loadLocked.
  unfoldable pub scan_loop : Bool → List String → Scan → Scan
  scan_loop streaming [] a = a
  scan_loop streaming (l ∷ ls) a = scan_loop streaming ls (scan_step streaming l a)

  abbrev pub or_now : String → String → String
  or_now now t = if is_empty t then now else t

  abbrev pub session_of : String → String → Scan → Session
  session_of now key a = record {
    key = key;
    messages = read_messages a.buffered;
    created_at = or_now now a.created_at;
    updated_at = or_now (or_now now a.created_at) a.updated_at;
    metadata = a.metadata;
    total = a.total;
  }

  abbrev pub empty_scan : Scan
  empty_scan = record { metadata = end; created_at = ""; updated_at = ""; total = 0; buffered = [] }

  unfoldable pub load_lines : String → String → Bool → Option (List String) → Option Session
  load_lines now key streaming none = none
  load_lines now key streaming (some lines) =
      some (session_of now key (scan_loop streaming (clean_lines lines) empty_scan))

  unfoldable pub load_session : String → String → SessionManager → Option Session
  load_session now key mgr = load_lines now key mgr.streaming_history (mgr.files (session_path key))

  abbrev pub or_new : String → String → Option Session → Session
  or_new now key none = new_session now key
  or_new now key (some s) = s

  abbrev pub or_load : String → String → SessionManager → Option Session → Session × SessionManager
  or_load now key mgr (some s) = (s, mgr)
  or_load now key mgr none =
      let s = or_new now key (load_session now key mgr) in
      (s, record mgr { cache = set_at key (some s) mgr.cache })

  unfoldable pub get_or_create : String → String → SessionManager → Session × SessionManager
  get_or_create now key mgr = or_load now key mgr (mgr.cache key)

  unfoldable pub invalidate : String → SessionManager → SessionManager
  invalidate key mgr = record mgr { cache = set_at key none mgr.cache }

  abbrev pub write_file : String → List String → SessionManager → SessionManager
  write_file path lines mgr = record mgr { files = set_at path (some lines) mgr.files }

  abbrev pub leave_file :
      String
      → Option (Error × Option (List String))
      → SessionManager
      → Exec SessionManager (Unit {0})
  leave_file path none saved mgr = (ok tt, saved)
  leave_file path (some (e, left)) saved mgr =
      (err e, record mgr { files = λ k. if str_eq k path then left else mgr.files k })

  -- The lines that Save writes.
  abbrev pub save_lines : Session → SessionManager → List String
  save_lines s mgr =
      let ms =
        if mgr.streaming_history && ltb 0 (total_messages s)
        then load_range s.key 0 (total_messages s) mgr
        else s.messages in
      encode (header s) ∷ map encode ms

  -- Save rewrites the file: the way it goes where no call of the system fails.
  unfoldable pub save : Session → SessionManager → SessionManager
  save s mgr = write_file (session_path s.key) (save_lines s mgr) mgr

  -- Save with its errors.
  unfoldable pub try_save : WriteFailure → Session → Exec SessionManager (Unit {0})
  try_save cannot_write s mgr =
      let path = session_path s.key in
      leave_file path (cannot_write path (mgr.files path) (save_lines s mgr)) (save s mgr) mgr

  abbrev pub or_header : Session → Option (List String) → List String
  or_header s none = encode (header s) ∷ []
  or_header s (some lines) = lines

  -- SaveAppend adds to the file, and leaves the session in memory as it was.
  unfoldable pub save_append : Session → List Fields → SessionManager → SessionManager
  save_append s ms mgr =
      let path = session_path s.key in
      write_file path (or_header s (mgr.files path) ++ map encode ms) mgr

  unfoldable pub read_history : String → String → ℕ → SessionManager → List Fields × SessionManager
  read_history now key max_messages mgr =
      if mgr.streaming_history
      then (normalize_history (load_range key 0 1073741824 mgr) max_messages, mgr)
      else (let (s, mgr') = get_or_create now key mgr in
          (normalize_history s.messages max_messages, mgr'))
