-- ===== src/Cron/Codec.antt =====
-- The JSON of a job and of the store: what json.Marshal makes of the tags of tools/cron/types.go. An
-- int64 is written as it is. The version, which nothing looks at, is 1.
use exoclaw_go.Prelude.{ℕ, String, Bool, true, false, not, List, [], ◌∷◌, if◌then◌else◌, ◌==◌}
use exoclaw_go.Prelude.Text.{is_empty}
use exoclaw_go.Json.{Value, boolean, int, str, obj, arr, Items, nil, cons, Fields, end, field}
use exoclaw_go.Cron.Types.{
  ScheduleKind, at, every, cron, other_kind, PayloadKind, system_event, agent_turn, other_payload,
  JobStatus, unset, ok, error, skipped, other_status, WakeMode, now, next_heartbeat, other_mode,
  CronSchedule, CronPayload, CronJobState, CronJob,
}

unfoldable pub kind_text : ScheduleKind → String
kind_text at = "at"
kind_text every = "every"
kind_text cron = "cron"
kind_text (other_kind t) = t

unfoldable pub payload_text : PayloadKind → String
payload_text system_event = "system_event"
payload_text agent_turn = "agent_turn"
payload_text (other_payload t) = t

unfoldable pub status_text : JobStatus → String
status_text unset = ""
status_text ok = "ok"
status_text error = "error"
status_text skipped = "skipped"
status_text (other_status t) = t

unfoldable pub wake_text : WakeMode → String
wake_text now = "now"
wake_text next_heartbeat = "next-heartbeat"
wake_text (other_mode t) = t

-- A field of a struct: its tag, whether it is written, and its value.
abbrev pub Tagged : Type 0
Tagged = String × Bool × Value

unfoldable pub assemble : List Tagged → Fields
assemble [] = end
assemble ((k, p, v) ∷ es) = let rest = assemble es in if p then field k v rest else rest

abbrev pub always : String → Value → Tagged
always k v = (k, true, v)

-- `omitempty`
abbrev pub if_text : String → String → Tagged
if_text k s = (k, not (is_empty s), str s)

abbrev pub if_int : String → ℕ → Tagged
if_int k n = (k, not (n == 0), int n)

abbrev pub if_true : String → Bool → Tagged
if_true k b = (k, b, boolean true)

unfoldable pub texts : List String → Items
texts [] = nil
texts (s ∷ ss) = cons (str s) (texts ss)

abbrev pub has_texts : List String → Bool
has_texts [] = false
has_texts (s ∷ ss) = true

abbrev pub if_texts : String → List String → Tagged
if_texts k ss = (k, has_texts ss, arr (texts ss))

abbrev pub schedule_tags : CronSchedule → List Tagged
schedule_tags s =
    always "kind" (str (kind_text s.kind))
    ∷ if_int "at_ms" s.at_ms
    ∷ if_int "every_ms" s.every_ms
    ∷ if_text "expr" s.expr
    ∷ if_text "tz" s.tz
    ∷ []

abbrev pub payload_tags : CronPayload → List Tagged
payload_tags p =
    always "kind" (str (payload_text p.kind))
    ∷ always "message" (str p.message)
    ∷ always "deliver" (boolean p.deliver)
    ∷ if_text "channel" p.channel
    ∷ if_text "to" p.to
    ∷ if_texts "skills" p.skills
    ∷ if_true "stateless" p.stateless
    ∷ if_text "model" p.model
    ∷ []

abbrev pub state_tags : CronJobState → List Tagged
state_tags s =
    if_int "next_run_at_ms" s.next_run_at_ms
    ∷ if_int "last_run_at_ms" s.last_run_at_ms
    ∷ if_text "last_status" (status_text s.last_status)
    ∷ if_text "last_error" s.last_error
    ∷ []

abbrev pub job_tags : CronJob → List Tagged
job_tags j =
    always "id" (str j.id)
    ∷ always "name" (str j.name)
    ∷ always "enabled" (boolean j.enabled)
    ∷ always "schedule" (obj (assemble (schedule_tags j.schedule)))
    ∷ always "payload" (obj (assemble (payload_tags j.payload)))
    ∷ always "state" (obj (assemble (state_tags j.state)))
    ∷ if_int "created_at_ms" j.created_at_ms
    ∷ if_int "updated_at_ms" j.updated_at_ms
    ∷ if_true "delete_after_run" j.delete_after_run
    ∷ if_text "wake_mode" (wake_text j.wake_mode)
    ∷ []

unfoldable pub encode_job : CronJob → Fields
encode_job j = assemble (job_tags j)

unfoldable pub encode_jobs : List CronJob → Items
encode_jobs [] = nil
encode_jobs (j ∷ js) = cons (obj (encode_job j)) (encode_jobs js)

-- CronStorePayload
unfoldable pub encode_store : List CronJob → Fields
encode_store js = field "version" (int 1) (field "jobs" (arr (encode_jobs js)) end)
