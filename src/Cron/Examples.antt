-- ===== src/Cron/Examples.antt =====
-- Small runs of the cron service, and its theorems at concrete services.
use exoclaw_go.Prelude.{
  ℕ, suc, ◌-◌, ◌*◌, ◌<◌, ◌≡◌, refl, ◌⊎◌, inr, true, false, String, none, some, List, [], ◌∷◌, arith,
  map, str_eq,
}
use exoclaw_go.Prelude.Effects.{failure, err}
use exoclaw_go.Cron.Types.{CronJob, CronSchedule, at, every, default_state, default_payload, now}
use exoclaw_go.Cron.Schedule.{
  compute_next_run, compute_next_run-after, timer_delay, timer_delay-exact, get_next_wake,
  validate_schedule_for_add,
}
use exoclaw_go.Json.{boolean, int, str, obj, arr, nil, cons, field, end}
use exoclaw_go.Cron.Codec.{
  encode_store, encode_jobs, encode_job, assemble, kind_text, payload_text, status_text, wake_text,
  texts,
}
use exoclaw_go.Cron.Service.{Config, Service, job_list, load_store, save_store}
use exoclaw_go.Cron.Firing.{fire, is_due}
use exoclaw_go.Cron.Jobs.{UpdateOptions, find_job, update_job}
use exoclaw_go.Cron.Removal.{HasPayload, update_job-refused}
use exoclaw_go.Cron.Storage.{reread, load_store-save_store}
use exoclaw_go.Cron.OneShot.{fire-not_due}

abbrev once : CronSchedule
once = record { kind = at; at_ms = 100; every_ms = 0; expr = ""; tz = "" }

abbrev often : CronSchedule
often = record { kind = every; at_ms = 0; every_ms = 60000; expr = ""; tz = "" }

abbrev with_run : String → CronSchedule → ℕ → CronJob
with_run id schedule n = record {
  id = id;
  name = id;
  enabled = true;
  schedule = schedule;
  payload = default_payload;
  state = record default_state { next_run_at_ms = n };
  created_at_ms = 0;
  updated_at_ms = 0;
  delete_after_run = false;
  wake_mode = now;
}

abbrev jobs : List CronJob
jobs = with_run "a" often 60000 ∷ with_run "b" once 100 ∷ with_run "c" once 0 ∷ []

compute_next_run-after_example :
    (compute_next_run none often 5 ≡ 0) ⊎ (5 < compute_next_run none often 5)
compute_next_run-after_example =
    compute_next_run-after none often 5 (inr refl) (omega arith) (omega arith) (omega arith)
      (λ h. omega arith)

timer_delay-exact_example : timer_delay 60000 100 ≡ (60000 - 100) * 1000000
timer_delay-exact_example =
    timer_delay-exact 60000 100 (omega arith) (omega arith) (omega arith) (omega arith)

get_next_wake_test : get_next_wake jobs ≡ 100
unfolding get_next_wake
get_next_wake_test = refl

-- A clock that ticks with each reading; the time of a write is the number of the tick.
abbrev config : Config ℕ
config = record {
  now_ms = λ n. (n, suc n);
  on_job = some (λ j n. (err (failure "callback"), n));
  cron_expr_next = none;
  load_location = λ zone. str_eq zone "UTC";
  write_error = λ n. none;
  write_time = λ n. n;
  short_id = λ n. ("0a1b2c3d", suc n);
}

abbrev service : Service ℕ
service = record {
  world = 100;
  file = none;
  heap = λ p. with_run "b" once 100;
  next_address = 1;
  store = some (0 ∷ []);
  last_mtime = 0;
  timer = none;
  deferred = [];
  running = true;
}

fire-not_due_example : is_due 500 ((fire config 0 service).heap 0) ≡ false
fire-not_due_example = fire-not_due config 0 500 service refl refl

-- The keys in the file are the tags, and what is empty is left out.
encode_store_test :
    encode_store (record (with_run "b" once 100) { delete_after_run = true } ∷ [])
    ≡ field "version" (int 1) (
        field "jobs"
          (arr (
            cons
              (obj (
                field "id" (str "b") (
                  field "name" (str "b") (
                    field "enabled" (boolean true) (
                      field "schedule"
                        (obj (field "kind" (str "at") (field "at_ms" (int 100) end)))
                        (field "payload"
                          (obj (
                            field "kind"
                              (str "agent_turn")
                              (field "message" (str "") (field "deliver" (boolean false) end))))
                          (field "state" (obj (field "next_run_at_ms" (int 100) end)) (
                            field "delete_after_run"
                              (boolean true)
                              (field "wake_mode" (str "now") end)))))))))
              nil))
          end)
unfolding encode_store encode_jobs encode_job assemble kind_text payload_text status_text wake_text
    texts
encode_store_test = refl

load_store-save_store_example :
    let s' = (save_store config service).1 in
    (load_store s' ≡ s')
    × (job_list (load_store (record s' { store = none })) ≡ map reread (job_list service))
load_store-save_store_example =
    load_store-save_store config service (0 ∷ []) refl refl ((tt, tt, tt, tt), tt)

abbrev bad_update : UpdateOptions
bad_update = record {
  message = some "changed";
  deliver = none;
  channel = none;
  to = none;
  skills = none;
  stateless = none;
  model = none;
  schedule = some (record once { tz = "UTC" });
  wake_mode = none;
}

update_job-refused_example :
    let (r, s') = update_job config "b" bad_update service in
    (r ≡ err (failure "tz can only be used with cron schedules"))
    × (s'.file ≡ (load_store service).file)
    × HasPayload bad_update ((load_store service).heap 0) (s'.heap 0)
unfolding load_store find_job validate_schedule_for_add
update_job-refused_example =
    update_job-refused config "b" bad_update (record once { tz = "UTC" }) service 0
      (failure "tz can only be used with cron schedules") refl refl refl
