-- ===== src/Cron/Update.antt =====
-- A write through a job pointer of tools/cron/service.go.
use exoclaw_go.Prelude.{ℕ, ◌≡◌, refl, arith}
use exoclaw_go.Cron.Types.{CronJob}
use exoclaw_go.Cron.Service.{Service, update}

pub heap-update :
    {W : Type 0} (p : ℕ) (f : CronJob → CronJob) (s : Service W)
    → (update p f s).heap p ≡ f (s.heap p)
unfolding update
heap-update p f s = ground arith

pub file-update :
    {W : Type 0} (p : ℕ) (f : CronJob → CronJob) (s : Service W) → (update p f s).file ≡ s.file
unfolding update
file-update p f s = refl
