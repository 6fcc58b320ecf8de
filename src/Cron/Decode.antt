-- ===== src/Cron/Decode.antt =====
-- A job and the store from JSON: what json.Unmarshal makes of the tags of tools/cron/types.go. Keys
-- are read in the spelling of the tags and stand once in an object.
use exoclaw_go.Prelude.{
  ℕ, String, Bool, false, Option, none, some, List, [], ◌∷◌, if◌then◌else◌, str_eq,
}
use exoclaw_go.Json.{Value, null, boolean, int, str, obj, arr, Items, nil, cons, Fields, get}
use exoclaw_go.Cron.Types.{
  ScheduleKind, at, every, cron, other_kind, PayloadKind, system_event, agent_turn, other_payload,
  JobStatus, unset, ok, error, skipped, other_status, WakeMode, now, next_heartbeat, other_mode,
  CronSchedule, CronPayload, CronJobState, DecodedJob,
}

unfoldable pub kind_of : String → ScheduleKind
kind_of t =
    if str_eq t "at"
    then at
    else if str_eq t "every"
    then every
    else if str_eq t "cron"
    then cron
    else other_kind t

unfoldable pub payload_of : String → PayloadKind
payload_of t =
    if str_eq t "system_event"
    then system_event
    else if str_eq t "agent_turn"
    then agent_turn
    else other_payload t

unfoldable pub status_of : String → JobStatus
status_of t =
    if str_eq t ""
    then unset
    else if str_eq t "ok"
    then ok
    else if str_eq t "error"
    then error
    else if str_eq t "skipped"
    then skipped
    else other_status t

unfoldable pub wake_of : String → WakeMode
wake_of t =
    if str_eq t "now"
    then now
    else if str_eq t "next-heartbeat"
    then next_heartbeat
    else other_mode t

-- A value of another type than the field's is an error of json.Unmarshal; null leaves a field alone.
unfoldable pub read_text : Option Value → Option String
read_text none = some ""
read_text (some null) = some ""
read_text (some (str s)) = some s
read_text _ = none

unfoldable pub read_int : Option Value → Option ℕ
read_int none = some 0
read_int (some null) = some 0
read_int (some (int n)) = some n
read_int _ = none

unfoldable pub read_bool : Option Value → Option Bool
read_bool none = some false
read_bool (some null) = some false
read_bool (some (boolean b)) = some b
read_bool _ = none

infixl 5 ◌>>=◌
unfoldable pub ◌>>=◌ : {A B : Type 0} → Option A → (A → Option B) → Option B
none >>= f = none
some a >>= f = f a

abbrev with_head : {A : Type 0} → A → Option (List A) → Option (List A)
with_head a none = none
with_head a (some rest) = some (a ∷ rest)

unfoldable pub read_items : Items → Option (List String)
read_items nil = some []
read_items (cons (str s) xs) = with_head s (read_items xs)
read_items (cons null xs) = with_head "" (read_items xs)
read_items (cons _ xs) = none

unfoldable pub read_texts : Option Value → Option (List String)
read_texts none = some []
read_texts (some null) = some []
read_texts (some (arr xs)) = read_items xs
read_texts _ = none

unfoldable pub read_part : {A : Type 0} → (Fields → Option A) → Option Value → Option (Option A)
read_part decode none = some none
read_part decode (some null) = some none
read_part decode (some (obj fs)) = decode fs >>= λ a. some (some a)
read_part decode _ = none

unfoldable pub decode_schedule : Fields → Option CronSchedule
decode_schedule fs = do
  kind ← read_text (get "kind" fs)
  at_ms ← read_int (get "at_ms" fs)
  every_ms ← read_int (get "every_ms" fs)
  expr ← read_text (get "expr" fs)
  tz ← read_text (get "tz" fs)
  some (record { kind = kind_of kind; at_ms = at_ms; every_ms = every_ms; expr = expr; tz = tz })

unfoldable pub decode_payload : Fields → Option CronPayload
decode_payload fs = do
  kind ← read_text (get "kind" fs)
  message ← read_text (get "message" fs)
  deliver ← read_bool (get "deliver" fs)
  channel ← read_text (get "channel" fs)
  to ← read_text (get "to" fs)
  skills ← read_texts (get "skills" fs)
  stateless ← read_bool (get "stateless" fs)
  model ← read_text (get "model" fs)
  some (record {
    kind = payload_of kind;
    message = message;
    deliver = deliver;
    channel = channel;
    to = to;
    skills = skills;
    stateless = stateless;
    model = model;
  })

unfoldable pub decode_state : Fields → Option CronJobState
decode_state fs = do
  next_run_at_ms ← read_int (get "next_run_at_ms" fs)
  last_run_at_ms ← read_int (get "last_run_at_ms" fs)
  last_status ← read_text (get "last_status" fs)
  last_error ← read_text (get "last_error" fs)
  some (record {
    next_run_at_ms = next_run_at_ms;
    last_run_at_ms = last_run_at_ms;
    last_status = status_of last_status;
    last_error = last_error;
  })

unfoldable pub decode_job : Fields → Option DecodedJob
decode_job fs = do
  id ← read_text (get "id" fs)
  name ← read_text (get "name" fs)
  enabled ← read_bool (get "enabled" fs)
  schedule ← read_part decode_schedule (get "schedule" fs)
  payload ← read_part decode_payload (get "payload" fs)
  state ← read_part decode_state (get "state" fs)
  created_at_ms ← read_int (get "created_at_ms" fs)
  updated_at_ms ← read_int (get "updated_at_ms" fs)
  delete_after_run ← read_bool (get "delete_after_run" fs)
  wake_mode ← read_text (get "wake_mode" fs)
  some (record {
    id = id;
    name = name;
    enabled = enabled;
    schedule = schedule;
    payload = payload;
    state = state;
    created_at_ms = created_at_ms;
    updated_at_ms = updated_at_ms;
    delete_after_run = delete_after_run;
    wake_mode = wake_of wake_mode;
  })

-- A null among the jobs, on which loadStoreLocked panics, is taken for an error.
unfoldable pub decode_jobs : Items → Option (List DecodedJob)
decode_jobs nil = some []
decode_jobs (cons (obj fs) xs) = do d ← decode_job fs; ds ← decode_jobs xs; some (d ∷ ds)
decode_jobs (cons _ xs) = none

abbrev pub jobs_in : Option Value → Option (List DecodedJob)
jobs_in none = some []
jobs_in (some null) = some []
jobs_in (some (arr xs)) = decode_jobs xs
jobs_in _ = none

unfoldable pub decode_store : Fields → Option (List DecodedJob)
decode_store fs = do version ← read_int (get "version" fs); jobs_in (get "jobs" fs)
