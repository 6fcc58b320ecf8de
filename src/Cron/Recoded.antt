-- ===== src/Cron/Recoded.antt =====
-- The JSON of tools/cron/types.go is read as what was written.
use exoclaw_go.Prelude.{
  ℕ, zero, suc, ◌≡◌, refl, ap, ◌∙◌, String, Bool, true, false, not, Option, none, some, List, [],
  ◌∷◌, map, All, if◌then◌else◌, ◌==◌, str_eq, arith,
}
use exoclaw_go.Prelude.Text.{is_empty}
use exoclaw_go.Json.{Value, boolean, int, str, obj, Fields, get}
use exoclaw_go.Cron.Types.{
  ScheduleKind, at, every, cron, other_kind, PayloadKind, system_event, agent_turn, other_payload,
  JobStatus, unset, ok, error, skipped, other_status, WakeMode, now, next_heartbeat, other_mode,
  CronSchedule, CronPayload, CronJobState, CronJob, DecodedJob,
}
use exoclaw_go.Cron.Codec.{
  kind_text, payload_text, status_text, wake_text, Tagged, assemble, texts, schedule_tags,
  payload_tags, state_tags, job_tags, encode_job, encode_jobs, encode_store,
}
use exoclaw_go.Cron.Decode.{
  kind_of, payload_of, status_of, wake_of, read_text, read_int, read_bool, ◌>>=◌, read_items,
  read_texts, read_part, decode_schedule, decode_payload, decode_state, decode_job, decode_jobs,
  decode_store,
}

-- The entry of a key among the fields of a struct.
pick : String → List Tagged → Option Value
pick k [] = none
pick k ((j, p, v) ∷ es) =
    let rest = pick k es in if str_eq j k then (if p then some v else rest) else rest

get-assemble : (k : String) (es : List Tagged) → get k (assemble es) ≡ pick k es
unfolding get assemble pick
get-assemble k [] = refl
get-assemble k ((j, false, v) ∷ es) = ground (arith, get-assemble k es)
get-assemble k ((j, true, v) ∷ es) = ground (arith, get-assemble k es)

bind-some : {A B : Type 0} (m : Option A) (f : A → Option B) {a : A} → m ≡ some a → (m >>= f) ≡ f a
unfolding ◌>>=◌
bind-some m f h = ap (λ o. o >>= f) h

kept_text : (s : String) → read_text (if not (is_empty s) then some (str s) else none) ≡ some s
unfolding read_text
kept_text String.[] = refl
kept_text (String.◌∷◌ c s) = refl

kept_int : (n : ℕ) → read_int (if not (n == 0) then some (int n) else none) ≡ some n
unfolding read_int
kept_int zero = refl
kept_int (suc n) = ground arith

kept_bool : (b : Bool) → read_bool (if b then some (boolean true) else none) ≡ some b
unfolding read_bool
kept_bool true = refl
kept_bool false = refl

read_items-texts : (ss : List String) → read_items (texts ss) ≡ some ss
unfolding read_items texts
read_items-texts [] = refl
read_items-texts (s ∷ ss) = rw (read_items-texts ss) refl

kept_skills :
    (p : CronPayload) (ss : List String)
    → read_texts (pick "skills" (payload_tags (record p { skills = ss }))) ≡ some ss
unfolding pick read_texts
kept_skills p [] = refl
kept_skills p (s ∷ ss) = read_items-texts (s ∷ ss)

-- A text that is not the name of a constant stands for itself.
abbrev pub IsKind : ScheduleKind → Type 0
IsKind (other_kind t) = kind_of t ≡ other_kind t
IsKind _ = Unit

abbrev pub IsPayload : PayloadKind → Type 0
IsPayload (other_payload t) = payload_of t ≡ other_payload t
IsPayload _ = Unit

abbrev pub IsStatus : JobStatus → Type 0
IsStatus (other_status t) = status_of t ≡ other_status t
IsStatus _ = Unit

abbrev pub IsWakeMode : WakeMode → Type 0
IsWakeMode (other_mode t) = wake_of t ≡ other_mode t
IsWakeMode _ = Unit

abbrev pub IsNamed : CronJob → Type 0
IsNamed j =
    IsKind j.schedule.kind
    × IsPayload j.payload.kind
    × IsStatus j.state.last_status
    × IsWakeMode j.wake_mode

kind_of-kind_text : (k : ScheduleKind) → IsKind k → kind_of (kind_text k) ≡ k
unfolding kind_of kind_text
kind_of-kind_text at h = refl
kind_of-kind_text every h = refl
kind_of-kind_text cron h = refl
kind_of-kind_text (other_kind t) h = h

payload_of-payload_text : (k : PayloadKind) → IsPayload k → payload_of (payload_text k) ≡ k
unfolding payload_of payload_text
payload_of-payload_text system_event h = refl
payload_of-payload_text agent_turn h = refl
payload_of-payload_text (other_payload t) h = h

status_of-status_text : (k : JobStatus) → IsStatus k → status_of (status_text k) ≡ k
unfolding status_of status_text
status_of-status_text unset h = refl
status_of-status_text ok h = refl
status_of-status_text error h = refl
status_of-status_text skipped h = refl
status_of-status_text (other_status t) h = h

wake_of-wake_text : (k : WakeMode) → IsWakeMode k → wake_of (wake_text k) ≡ k
unfolding wake_of wake_text
wake_of-wake_text now h = refl
wake_of-wake_text next_heartbeat h = refl
wake_of-wake_text (other_mode t) h = h

decode_schedule-assemble :
    (s : CronSchedule) → IsKind s.kind → decode_schedule (assemble (schedule_tags s)) ≡ some s
unfolding decode_schedule pick read_text
decode_schedule-assemble s h =
    let es = schedule_tags s in
    bind-some _ _ (ap read_text (get-assemble "kind" es))
    ∙ bind-some _ _ (ap read_int (get-assemble "at_ms" es) ∙ kept_int s.at_ms)
    ∙ bind-some _ _ (ap read_int (get-assemble "every_ms" es) ∙ kept_int s.every_ms)
    ∙ bind-some _ _ (ap read_text (get-assemble "expr" es) ∙ kept_text s.expr)
    ∙ bind-some _ _ (ap read_text (get-assemble "tz" es) ∙ kept_text s.tz)
    ∙ ap (λ k. some (record s { kind = k })) (kind_of-kind_text s.kind h)

decode_payload-assemble :
    (p : CronPayload) → IsPayload p.kind → decode_payload (assemble (payload_tags p)) ≡ some p
unfolding decode_payload pick read_text read_bool
decode_payload-assemble p h =
    let es = payload_tags p in
    bind-some _ _ (ap read_text (get-assemble "kind" es))
    ∙ bind-some _ _ (ap read_text (get-assemble "message" es))
    ∙ bind-some _ _ (ap read_bool (get-assemble "deliver" es))
    ∙ bind-some _ _ (ap read_text (get-assemble "channel" es) ∙ kept_text p.channel)
    ∙ bind-some _ _ (ap read_text (get-assemble "to" es) ∙ kept_text p.to)
    ∙ bind-some _ _ (ap read_texts (get-assemble "skills" es) ∙ kept_skills p p.skills)
    ∙ bind-some _ _ (ap read_bool (get-assemble "stateless" es) ∙ kept_bool p.stateless)
    ∙ bind-some _ _ (ap read_text (get-assemble "model" es) ∙ kept_text p.model)
    ∙ ap (λ k. some (record p { kind = k })) (payload_of-payload_text p.kind h)

decode_state-assemble :
    (s : CronJobState) → IsStatus s.last_status → decode_state (assemble (state_tags s)) ≡ some s
unfolding decode_state pick
decode_state-assemble s h =
    let es = state_tags s in
    bind-some _ _ (ap read_int (get-assemble "next_run_at_ms" es) ∙ kept_int s.next_run_at_ms)
    ∙ bind-some _ _ (ap read_int (get-assemble "last_run_at_ms" es) ∙ kept_int s.last_run_at_ms)
    ∙ bind-some _ _
        (ap read_text (get-assemble "last_status" es) ∙ kept_text (status_text s.last_status))
    ∙ bind-some _ _ (ap read_text (get-assemble "last_error" es) ∙ kept_text s.last_error)
    ∙ ap (λ k. some (record s { last_status = k })) (status_of-status_text s.last_status h)

-- What a job is in the file: nothing of it is missing.
abbrev pub written_job : CronJob → DecodedJob
written_job j = record {
  id = j.id;
  name = j.name;
  enabled = j.enabled;
  schedule = some j.schedule;
  payload = some j.payload;
  state = some j.state;
  created_at_ms = j.created_at_ms;
  updated_at_ms = j.updated_at_ms;
  delete_after_run = j.delete_after_run;
  wake_mode = j.wake_mode;
}

read_part-some :
    {A : Type 0} (decode : Fields → Option A) (fs : Fields) {a : A}
    → decode fs ≡ some a
    → read_part decode (some (obj fs)) ≡ some (some a)
unfolding read_part
read_part-some decode fs h = bind-some (decode fs) _ h

decode_job-encode_job : (j : CronJob) → IsNamed j → decode_job (encode_job j) ≡ some (written_job j)
unfolding decode_job encode_job pick read_text read_bool
decode_job-encode_job j (kind, payload, status, wake) =
    let es = job_tags j in
    bind-some _ _ (ap read_text (get-assemble "id" es))
    ∙ bind-some _ _ (ap read_text (get-assemble "name" es))
    ∙ bind-some _ _ (ap read_bool (get-assemble "enabled" es))
    ∙ bind-some _ _ (
        ap (read_part decode_schedule) (get-assemble "schedule" es)
        ∙ read_part-some decode_schedule _ (decode_schedule-assemble j.schedule kind))
    ∙ bind-some _ _ (
        ap (read_part decode_payload) (get-assemble "payload" es)
        ∙ read_part-some decode_payload _ (decode_payload-assemble j.payload payload))
    ∙ bind-some _ _ (
        ap (read_part decode_state) (get-assemble "state" es)
        ∙ read_part-some decode_state _ (decode_state-assemble j.state status))
    ∙ bind-some _ _ (ap read_int (get-assemble "created_at_ms" es) ∙ kept_int j.created_at_ms)
    ∙ bind-some _ _ (ap read_int (get-assemble "updated_at_ms" es) ∙ kept_int j.updated_at_ms)
    ∙ bind-some _ _
        (ap read_bool (get-assemble "delete_after_run" es) ∙ kept_bool j.delete_after_run)
    ∙ bind-some _ _ (ap read_text (get-assemble "wake_mode" es) ∙ kept_text (wake_text j.wake_mode))
    ∙ ap (λ w. some (record (written_job j) { wake_mode = w })) (wake_of-wake_text j.wake_mode wake)

decode_jobs-encode_jobs :
    (js : List CronJob) → All IsNamed js → decode_jobs (encode_jobs js) ≡ some (map written_job js)
unfolding decode_jobs encode_jobs
decode_jobs-encode_jobs [] h = refl
decode_jobs-encode_jobs (j ∷ js) h =
    bind-some _ _ (decode_job-encode_job j h.0) ∙ bind-some _ _ (decode_jobs-encode_jobs js h.1)

pub decode_store-encode_store :
    (js : List CronJob)
    → All IsNamed js
    → decode_store (encode_store js) ≡ some (map written_job js)
unfolding decode_store encode_store get read_int ◌>>=◌
decode_store-encode_store js h = decode_jobs-encode_jobs js h
