-- ===== src/Cron/Firing.antt =====
-- How Service of tools/cron/service.go runs jobs: the timer, the deferred queue, and RunJob.
use exoclaw_go.Prelude.{
  ℕ, String, Bool, true, false, ◌&&◌, not, Option, none, some, List, [], ◌∷◌, ◌++◌, if◌then◌else◌,
  str_eq, when_set, keep, length,
}
use exoclaw_go.Prelude.Words.{slt}
use exoclaw_go.Prelude.Effects.{Result, ok, err}
use exoclaw_go.Agent.ToolCall.{error_text}
use exoclaw_go.Cron.Types.{CronJob, ScheduleKind, at, WakeMode, next_heartbeat, JobStatus, error}
use exoclaw_go.Cron.Types
use exoclaw_go.Cron.Service.{
  Config, Service, jobs_of, update, load_store, save_store, read_clock, next_run, set_next_run,
  arm_timer,
}

abbrev pub is_at : ScheduleKind → Bool
is_at at = true
is_at _ = false

abbrev pub is_deferred_mode : WakeMode → Bool
is_deferred_mode next_heartbeat = true
is_deferred_mode _ = false

-- The job is enabled, has a next run, and that run is not in the future.
unfoldable pub is_due : ℕ → CronJob → Bool
is_due n j = j.enabled && slt 0 j.state.next_run_at_ms && not (slt n j.state.next_run_at_ms)

unfoldable pub set_result : Result (Unit {0}) → CronJob → CronJob
set_result (ok u) j = record j {
  state = record (j.state) { last_status = Types.JobStatus.ok; last_error = "" };
}
set_result (err e) j = record j {
  state = record (j.state) { last_status = error; last_error = error_text e };
}

unfoldable pub set_run_times : ℕ → ℕ → CronJob → CronJob
set_run_times start end_time j = record j {
  state = record (j.state) { last_run_at_ms = start };
  updated_at_ms = end_time;
}

-- `job.Enabled = false; job.State.NextRunAtMS = 0`
unfoldable pub retire : CronJob → CronJob
retire j = record j { enabled = false; state = record (j.state) { next_run_at_ms = 0 } }

abbrev pub has_store : Option (List ℕ) → Bool
has_store none = false
has_store (some ps) = true

module _ {W : Type 0} (c : Config W) where
  -- filterJobs with `j.ID != id` on the store.
  unfoldable pub remove_id : String → Service W → Service W
  remove_id id s = elim s.store [
    | none ↦ s
    | some ps ↦ record s { store = some (keep (λ q. not (str_eq ((s.heap q).id) id)) ps) }
  ]

  -- OnJob and the record of its result.
  unfoldable pub call_job : ℕ → Service W → Service W
  call_job p s = when_set c.on_job s (λ on_job.
      let (r, w) = on_job (s.heap p) s.world in update p (set_result r) (record s { world = w }))

  -- What follows a run: a one-shot job is removed or retired, another gets its next run.
  unfoldable pub reschedule : ℕ → Service W → Service W
  reschedule p s =
      let j = s.heap p in
      if is_at j.schedule.kind
      then (if j.delete_after_run && has_store s.store then remove_id j.id s else update p retire s)
      else (let (n, s') = read_clock c s in update p (λ j. set_next_run c (next_run c j n) j) s')

  -- executeJobLocked
  unfoldable pub execute_job : ℕ → Service W → Service W
  execute_job p s =
      let (start, s₁) = read_clock c s in
      let s₂ = call_job p s₁ in
      let (end_time, s₃) = read_clock c s₂ in
      reschedule p (update p (set_run_times start end_time) s₃)

  -- deferJobLocked
  unfoldable pub defer_job : ℕ → Service W → Service W
  defer_job p s =
      let (n, s') = read_clock c s in
      update p
        (λ j.
          let j' = set_run_times n n j in
          if is_at j.schedule.kind then retire j' else set_next_run c (next_run c j n) j')
        (record s' { deferred = s'.deferred ++ p ∷ [] })

  -- One due job of onTimer.
  unfoldable pub fire : ℕ → Service W → Service W
  fire p s = if is_deferred_mode (s.heap p).wake_mode then defer_job p s else execute_job p s

  unfoldable pub fire_all : List ℕ → Service W → Service W
  fire_all [] s = s
  fire_all (p ∷ ps) s = fire_all ps (fire p s)

  abbrev ignore : Result (Unit {0}) × Service W → Service W
  ignore (r, s) = s

  -- onTimer: an error of the write is dropped.
  unfoldable pub on_timer : Service W → Service W
  on_timer s =
      if not s.running
      then s
      else (let (n, s₁) = read_clock c (load_store s) in
          arm_timer c (
            ignore
              (save_store c (fire_all (keep (λ p. is_due n (s₁.heap p)) (jobs_of s₁.store)) s₁))))

  -- One job of FlushDeferred.
  unfoldable pub flush_job : ℕ → Service W → Service W
  flush_job p s =
      let (start, s₁) = read_clock c s in
      let s₂ = call_job p s₁ in
      let (end_time, s₃) = read_clock c s₂ in
      let s₄ = update p (set_run_times start end_time) s₃ in
      let j = s₄.heap p in
      if is_at j.schedule.kind && j.delete_after_run then remove_id j.id s₄ else s₄

  unfoldable pub flush_all : List ℕ → Service W → Service W
  flush_all [] s = s
  flush_all (p ∷ ps) s = flush_all ps (flush_job p s)

  -- The count comes back beside the error of the write.
  unfoldable pub flush_deferred : Service W → (ℕ × Result (Unit {0})) × Service W
  flush_deferred s = elim s.deferred [
    | [] ↦ ((0, ok tt), s)
    | p ∷ ps ↦
        let s₁ = load_store s in
        let batch = s₁.deferred in
        let (r, s₂) = save_store c (flush_all batch (record s₁ { deferred = [] })) in
        ((length batch, r), s₂)
  ]
