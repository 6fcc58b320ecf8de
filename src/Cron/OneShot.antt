-- ===== src/Cron/OneShot.antt =====
-- A one-shot job of tools/cron/service.go is never due again once it has fired.
use exoclaw_go.Prelude.{ℕ, ◌≡◌, ap, ◌∙◌, true, false, arith}
use exoclaw_go.Cron.Types.{CronJob}
use exoclaw_go.Cron.Service.{Config, Service, update, read_clock}
use exoclaw_go.Cron.Update.{heap-update}
use exoclaw_go.Cron.Firing.{
  is_at, is_due, retire, set_result, set_run_times, call_job, reschedule, execute_job, defer_job,
  fire,
}

module _ {W : Type 0} (c : Config W) where
  -- What the callback and the times leave of a job.
  abbrev SameShot : CronJob → CronJob → Type 0
  SameShot j k = (k.schedule ≡ j.schedule) × (k.delete_after_run ≡ j.delete_after_run)

  reschedule-not_due :
      (p n : ℕ) (s : Service W)
      → is_at (s.heap p).schedule.kind ≡ true
      → (s.heap p).delete_after_run ≡ false
      → is_due n ((reschedule c p s).heap p) ≡ false
  unfolding reschedule update retire is_due
  reschedule-not_due p n s a d = ground arith

  defer_job-not_due :
      (p n : ℕ) (s : Service W)
      → is_at (s.heap p).schedule.kind ≡ true
      → is_due n ((defer_job c p s).heap p) ≡ false
  unfolding defer_job update retire is_due read_clock set_run_times
  defer_job-not_due p n s a = ground arith

  call_job-SameShot : (p : ℕ) (s : Service W) → SameShot (s.heap p) ((call_job c p s).heap p)
  unfolding call_job update set_result
  call_job-SameShot p s = ground arith

  execute_job-not_due :
      (p n : ℕ) (s : Service W)
      → is_at (s.heap p).schedule.kind ≡ true
      → (s.heap p).delete_after_run ≡ false
      → is_due n ((execute_job c p s).heap p) ≡ false
  unfolding execute_job read_clock set_run_times
  execute_job-not_due p n s a d =
      let (start, s₁) = read_clock c s in
      let s₂ = call_job c p s₁ in
      let (end_time, s₃) = read_clock c s₂ in
      let written = heap-update p (set_run_times start end_time) s₃ in
      let same = call_job-SameShot p s₁ in
      reschedule-not_due p n _
        (ap (λ j. is_at j.schedule.kind) written ∙ ap (λ t. is_at t.kind) same.0 ∙ a)
        (ap (λ j. j.delete_after_run) written ∙ same.1 ∙ d)

  -- Whether the job runs now or is queued for the heartbeat, and whatever the callback returns, a
  -- job with an `at` schedule that is not deleted after its run is not due at any later time.
  pub fire-not_due :
      (p n : ℕ) (s : Service W)
      → is_at (s.heap p).schedule.kind ≡ true
      → (s.heap p).delete_after_run ≡ false
      → is_due n ((fire c p s).heap p) ≡ false
  unfolding fire
  fire-not_due p n s a d = ground (arith, defer_job-not_due p n s, execute_job-not_due p n s)
