-- ===== src/Cron/Sorting.antt =====
-- ListJobs of tools/cron/service.go: the listed jobs are the stored ones, in the order of their runs.
use mathlib.Core.List.{Perm}
use mathlib.Core.List.Perm
use exoclaw_go.Prelude.{◌≡◌, true, false, List, [], ◌∷◌, arith, Bool-cases, inl, inr}
use exoclaw_go.Cron.Types.{CronJob}
use exoclaw_go.Cron.Jobs.{runs_before, insert_job, sort_jobs}

insert_job-perm : (j : CronJob) (js : List CronJob) → Perm (insert_job j js) (j ∷ js)
unfolding insert_job
insert_job-perm j [] = Perm.refl (j ∷ [])
insert_job-perm j (k ∷ ks) = elim (Bool-cases (runs_before k j)) [
  | inl e ↦ rw e (Perm.trans (Perm.cons k (insert_job-perm j ks)) (Perm.swap j k ks))
  | inr e ↦ rw e (Perm.refl (j ∷ k ∷ ks))
]

sort_jobs-perm : (js : List CronJob) → Perm (sort_jobs js) js
unfolding sort_jobs
sort_jobs-perm [] = Perm.refl []
sort_jobs-perm (j ∷ js) =
    Perm.trans (insert_job-perm j (sort_jobs js)) (Perm.cons j (sort_jobs-perm js))

-- No job runs before the one that stands in front of it.
abbrev pub IsOrdered : List CronJob → Type 0
IsOrdered [] = Unit
IsOrdered (j ∷ []) = Unit
IsOrdered (j ∷ k ∷ ks) = (runs_before k j ≡ false) × IsOrdered (k ∷ ks)

runs_before-asymm : (j k : CronJob) → runs_before k j ≡ true → runs_before j k ≡ false
unfolding runs_before
runs_before-asymm j k h = ground arith

insert_job-IsOrdered :
    (j : CronJob) (js : List CronJob) → IsOrdered js → IsOrdered (insert_job j js)
unfolding insert_job
insert_job-IsOrdered j [] h = tt
insert_job-IsOrdered j (k ∷ []) h = elim (Bool-cases (runs_before k j)) [
  | inl e ↦ rw e (runs_before-asymm j k e, tt)
  | inr e ↦ rw e (e, tt)
]
insert_job-IsOrdered j (k ∷ l ∷ ls) h =
    ground
      (arith, runs_before-asymm j k, runs_before-asymm j l, insert_job-IsOrdered j (l ∷ ls) h.1)

sort_jobs-IsOrdered : (js : List CronJob) → IsOrdered (sort_jobs js)
unfolding sort_jobs
sort_jobs-IsOrdered [] = tt
sort_jobs-IsOrdered (j ∷ js) = insert_job-IsOrdered j _ (sort_jobs-IsOrdered js)

-- The list is the given jobs, each as often, and no job runs before the one in front of it; a job
-- with no next run counts as the last.
pub sort_jobs-lem : (js : List CronJob) → Perm (sort_jobs js) js × IsOrdered (sort_jobs js)
sort_jobs-lem js = (sort_jobs-perm js, sort_jobs-IsOrdered js)
