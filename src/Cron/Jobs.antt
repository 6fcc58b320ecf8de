-- ===== src/Cron/Jobs.antt =====
-- The public calls on jobs of Service in tools/cron/service.go.
use Prim.Native.String.{len, slice}
use exoclaw_go.Prelude.{
  ℕ, ◌+◌, String, Bool, true, false, ◌&&◌, not, Option, none, some, List, [], ◌∷◌, ◌++◌,
  if◌then◌else◌, ◌==◌, ltb, str_eq, keep, length,
}
use exoclaw_go.Prelude.Words.{slt}
use exoclaw_go.Prelude.Effects.{failure, Result, ok, err, Exec}
use exoclaw_go.Cron.Types.{
  CronJob, CronSchedule, WakeMode, now, other_mode, agent_turn, default_state,
}
use exoclaw_go.Cron.Schedule.{compute_next_run, validate_schedule_for_add, get_next_wake}
use exoclaw_go.Cron.Service.{
  Config, Service, jobs_of, job_list, update, load_store, read_clock, next_run, set_next_run,
  save_and_arm,
}
use exoclaw_go.Cron.Firing.{remove_id, execute_job}

-- tools/cron/protocol.go
pub record AddOptions : Type 0 where
  pub deliver : Bool
  pub channel : String
  pub to : String
  pub delete_after_run : Bool
  pub skills : List String
  pub stateless : Bool
  pub model : String
  pub wake_mode : WakeMode

pub record UpdateOptions : Type 0 where
  pub message : Option String
  pub deliver : Option Bool
  pub channel : Option String
  pub to : Option String
  pub skills : Option (List String)
  pub stateless : Option Bool
  pub model : Option String
  pub schedule : Option CronSchedule
  pub wake_mode : Option WakeMode

-- The first job of the store with this id.
unfoldable pub find_job : String → List ℕ → (ℕ → CronJob) → Option ℕ
find_job id [] heap = none
find_job id (p ∷ ps) heap =
    let rest = find_job id ps heap in if str_eq (heap p).id id then some p else rest

-- `less` of ListJobs: a job with no next run comes last.
unfoldable pub runs_before : CronJob → CronJob → Bool
runs_before a b =
    let x = a.state.next_run_at_ms in
    let y = b.state.next_run_at_ms in if x == 0 then false else if y == 0 then true else slt x y

-- sort.SliceStable: an element goes before the first one that is not less or equal.
unfoldable pub insert_job : CronJob → List CronJob → List CronJob
insert_job j [] = j ∷ []
insert_job j (k ∷ ks) =
    let rest = insert_job j ks in if runs_before k j then k ∷ rest else j ∷ k ∷ ks

unfoldable pub sort_jobs : List CronJob → List CronJob
sort_jobs [] = []
sort_jobs (j ∷ js) = insert_job j (sort_jobs js)

abbrev or_now : WakeMode → WakeMode
or_now (other_mode m) = if str_eq m "" then now else other_mode m
or_now mode = mode

abbrev pub or_keep : {A : Type 0} → Option A → A → A
or_keep none a = a
or_keep (some b) a = b

-- The first thirty bytes of a message.
abbrev pub short_name : String → String
short_name m = if ltb 30 (len m) then slice m 0 30 else m

abbrev pub rename : Option String → String → String
rename none name = name
rename (some m) name = short_name m

-- The options that UpdateJob applies before it looks at the schedule.
unfoldable pub apply_payload : UpdateOptions → CronJob → CronJob
apply_payload o j = record j {
  name = rename o.message j.name;
  payload = record (j.payload) {
    message = or_keep o.message j.payload.message;
    deliver = or_keep o.deliver j.payload.deliver;
    channel = or_keep o.channel j.payload.channel;
    to = or_keep o.to j.payload.to;
    skills = or_keep o.skills j.payload.skills;
    stateless = or_keep o.stateless j.payload.stateless;
    model = or_keep o.model j.payload.model;
  };
}

module _ {W : Type 0} (c : Config W) where
  -- ListJobs
  unfoldable pub list_jobs : Bool → Service W → List CronJob × Service W
  list_jobs include_disabled s =
      let s' = load_store s in
      (sort_jobs (keep (λ j. if include_disabled then true else j.enabled) (job_list s')), s')

  -- GetJob; the pointer is an address.
  unfoldable pub get_job : String → Service W → Option ℕ × Service W
  get_job id s = let s' = load_store s in (find_job id (jobs_of s'.store) s'.heap, s')

  abbrev new_job : String → String → CronSchedule → String → AddOptions → ℕ → CronJob
  new_job id name schedule message o n = record {
    id = id;
    name = name;
    enabled = true;
    schedule = schedule;
    payload = record {
      kind = agent_turn;
      message = message;
      deliver = o.deliver;
      channel = o.channel;
      to = o.to;
      skills = o.skills;
      stateless = o.stateless;
      model = o.model;
    };
    state = record default_state { next_run_at_ms = compute_next_run c.cron_expr_next schedule n };
    created_at_ms = n;
    updated_at_ms = n;
    delete_after_run = o.delete_after_run;
    wake_mode = or_now o.wake_mode;
  }

  -- `s.store.Jobs = append(s.store.Jobs, job)`, with the job at a new address.
  unfoldable pub append_job : CronJob → Service W → ℕ × Service W
  append_job j s =
      let p = s.next_address in
      (
        p,
        record s {
          heap = λ q. if q == p then j else s.heap q;
          next_address = p + 1;
          store = some (jobs_of s.store ++ p ∷ []);
        },
      )

  unfoldable pub add_valid : String → CronSchedule → String → AddOptions → Exec (Service W) ℕ
  add_valid name schedule message o s =
      let (n, s₁) = read_clock c (load_store s) in
      let (id, w) = c.short_id s₁.world in
      let (p, s₂) = append_job (new_job id name schedule message o n) (record s₁ { world = w }) in
      save_and_arm c p s₂

  -- AddJob
  unfoldable pub add_job : String → Option CronSchedule → String → AddOptions → Exec (Service W) ℕ
  add_job name none message o s = (err (failure "schedule is required"), s)
  add_job name (some schedule) message o s =
      elim (validate_schedule_for_add c.load_location (some schedule)) [
        | ok u ↦ add_valid name schedule message o s
        | err e ↦ (err e, s)
      ]

  -- RemoveJob: written only where a job was removed.
  unfoldable pub remove_job : String → Exec (Service W) Bool
  remove_job id s =
      let s₁ = load_store s in
      let s₂ = remove_id c id s₁ in
      if ltb (length (jobs_of s₂.store)) (length (jobs_of s₁.store))
      then save_and_arm c true s₂
      else (ok false, s₂)

  -- The end of UpdateJob, after the schedule.
  unfoldable pub finish_update : UpdateOptions → ℕ → Exec (Service W) (Option ℕ)
  finish_update o p s =
      let (n, s₁) = read_clock c s in
      save_and_arm c (some p) (
        update p (λ j. record j { wake_mode = or_keep o.wake_mode j.wake_mode; updated_at_ms = n })
          s₁)

  unfoldable pub update_schedule :
      UpdateOptions → Option CronSchedule → ℕ → Exec (Service W) (Option ℕ)
  update_schedule o none p s = finish_update o p s
  update_schedule o (some schedule) p s =
      elim (validate_schedule_for_add c.load_location (some schedule)) [
        | err e ↦ (err e, s)
        | ok u ↦
            let (n, s₁) = read_clock c s in
            finish_update o p (
              update p
                (λ j.
                  set_next_run c (compute_next_run c.cron_expr_next schedule n)
                    (record j { schedule = schedule }))
                s₁)
      ]

  unfoldable pub update_found : UpdateOptions → Option ℕ → Exec (Service W) (Option ℕ)
  update_found o none s = (ok none, s)
  update_found o (some p) s = update_schedule o o.schedule p (update p (apply_payload o) s)

  -- UpdateJob
  unfoldable pub update_job : String → UpdateOptions → Exec (Service W) (Option ℕ)
  update_job id o s =
      let s₁ = load_store s in update_found o (find_job id (jobs_of s₁.store) s₁.heap) s₁

  unfoldable pub enable_found : Bool → Option ℕ → Exec (Service W) (Option ℕ)
  enable_found enabled none s = (ok none, s)
  enable_found enabled (some p) s =
      let (n, s₁) = read_clock c s in
      let s₂ = update p (λ j. record j { enabled = enabled; updated_at_ms = n }) s₁ in
      if enabled
      then (let (m, s₃) = read_clock c s₂ in
          save_and_arm c (some p) (update p (λ j. set_next_run c (next_run c j m) j) s₃))
      else save_and_arm c (some p) (update p (set_next_run c 0) s₂)

  -- EnableJob
  unfoldable pub enable_job : String → Bool → Exec (Service W) (Option ℕ)
  enable_job id enabled s =
      let s₁ = load_store s in enable_found enabled (find_job id (jobs_of s₁.store) s₁.heap) s₁

  -- The result of RunJob: whether the job ran, beside the error of the write.
  unfoldable pub run_found : Bool → Option ℕ → Service W → (Bool × Result (Unit {0})) × Service W
  run_found force none s = ((false, ok tt), s)
  run_found force (some p) s =
      if not force && not (s.heap p).enabled
      then ((false, ok tt), s)
      else (let (r, s') = save_and_arm c tt (execute_job c p s) in ((true, r), s'))

  -- RunJob
  unfoldable pub run_job : String → Bool → Service W → (Bool × Result (Unit {0})) × Service W
  run_job id force s =
      let s₁ = load_store s in run_found force (find_job id (jobs_of s₁.store) s₁.heap) s₁

  -- Status: running, the number of jobs, and the next wake time.
  unfoldable pub status : Service W → (Bool × ℕ × ℕ) × Service W
  status s =
      let s' = load_store s in
      ((s'.running, length (jobs_of s'.store), get_next_wake (job_list s')), s')
