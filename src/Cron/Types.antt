-- ===== src/Cron/Types.antt =====
-- tools/cron/types.go. A time in milliseconds is an int64, as a bit pattern.
use exoclaw_go.Prelude.{ℕ, String, Bool, true, false, Option, none, some, List, []}

-- The string types of the file: the constants, and any other text that JSON may hold.
pub data ScheduleKind : Type 0 where
  at every cron : ScheduleKind
  other_kind : String → ScheduleKind

pub data PayloadKind : Type 0 where
  system_event agent_turn : PayloadKind
  other_payload : String → PayloadKind

pub data JobStatus : Type 0 where
  unset ok error skipped : JobStatus
  other_status : String → JobStatus

pub data WakeMode : Type 0 where
  now next_heartbeat : WakeMode
  other_mode : String → WakeMode

pub record CronSchedule : Type 0 where
  pub kind : ScheduleKind
  pub at_ms : ℕ
  pub every_ms : ℕ
  pub expr : String
  pub tz : String

pub record CronPayload : Type 0 where
  pub kind : PayloadKind
  pub message : String
  pub deliver : Bool
  pub channel : String
  pub to : String
  pub skills : List String
  pub stateless : Bool
  pub model : String

pub record CronJobState : Type 0 where
  pub next_run_at_ms : ℕ
  pub last_run_at_ms : ℕ
  pub last_status : JobStatus
  pub last_error : String

pub record CronJob : Type 0 where
  pub id : String
  pub name : String
  pub enabled : Bool
  pub schedule : CronSchedule
  pub payload : CronPayload
  pub state : CronJobState
  pub created_at_ms : ℕ
  pub updated_at_ms : ℕ
  pub delete_after_run : Bool
  pub wake_mode : WakeMode

-- A job as JSON gives it: three parts may be missing.
pub record DecodedJob : Type 0 where
  pub id : String
  pub name : String
  pub enabled : Bool
  pub schedule : Option CronSchedule
  pub payload : Option CronPayload
  pub state : Option CronJobState
  pub created_at_ms : ℕ
  pub updated_at_ms : ℕ
  pub delete_after_run : Bool
  pub wake_mode : WakeMode

abbrev pub default_schedule : CronSchedule
default_schedule = record { kind = every; at_ms = 0; every_ms = 0; expr = ""; tz = "" }

abbrev pub default_payload : CronPayload
default_payload = record {
  kind = agent_turn;
  message = "";
  deliver = false;
  channel = "";
  to = "";
  skills = [];
  stateless = false;
  model = "";
}

abbrev pub default_state : CronJobState
default_state = record {
  next_run_at_ms = 0;
  last_run_at_ms = 0;
  last_status = unset;
  last_error = "";
}

-- NewCronJob
unfoldable pub new_cron_job : String → String → CronJob
new_cron_job id name = record {
  id = id;
  name = name;
  enabled = true;
  schedule = default_schedule;
  payload = default_payload;
  state = default_state;
  created_at_ms = 0;
  updated_at_ms = 0;
  delete_after_run = false;
  wake_mode = now;
}

abbrev default_to {ℓ} : {A : Type ℓ} → Option A → A → A
default_to none a = a
default_to (some b) a = b

unfoldable pub coerce_wake_mode : WakeMode → WakeMode
coerce_wake_mode now = now
coerce_wake_mode next_heartbeat = next_heartbeat
coerce_wake_mode (other_mode m) = now

-- The repairs of loadStoreLocked.
unfoldable pub coerce_job : DecodedJob → CronJob
unfolding coerce_wake_mode
coerce_job d = record {
  id = d.id;
  name = d.name;
  enabled = d.enabled;
  schedule = default_to d.schedule default_schedule;
  payload = default_to d.payload default_payload;
  state = default_to d.state default_state;
  created_at_ms = d.created_at_ms;
  updated_at_ms = d.updated_at_ms;
  delete_after_run = d.delete_after_run;
  wake_mode = coerce_wake_mode d.wake_mode;
}
