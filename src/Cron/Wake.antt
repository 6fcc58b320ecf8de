-- ===== src/Cron/Wake.antt =====
-- getNextWakeMSLocked of tools/cron/service.go finds the earliest run.
use exoclaw_go.Prelude.{
  ℕ, ◌≡◌, refl, Bool, true, false, ◌&&◌, not, List, [], ◌∷◌, if◌then◌else◌, ◌==◌, arith, All, ◌⊎◌,
  inl, inr,
}
use exoclaw_go.Prelude.Words.{slt}
use exoclaw_go.Cron.Types.{CronJob}

-- An enabled job with a next run.
abbrev pub is_scheduled : CronJob → Bool
is_scheduled j = j.enabled && not (j.state.next_run_at_ms == 0)

-- Its next run does not lie before `t`.
abbrev pub NotBefore : ℕ → CronJob → Type 0
NotBefore t j = is_scheduled j ≡ true → slt j.state.next_run_at_ms t ≡ false

-- Some scheduled job of the list runs at `t`.
abbrev pub RunsAt : ℕ → List CronJob → Type 0
RunsAt t [] = ⊥
RunsAt t (j ∷ js) = ((is_scheduled j ≡ true) × (j.state.next_run_at_ms ≡ t)) ⊎ RunsAt t js

abbrev Earliest : List CronJob → ℕ → Bool → ℕ × Bool → Type 0
Earliest js best found r =
    (slt best r.0 ≡ false)
    × All (NotBefore r.0) js
    × (((r.0 ≡ best) × (r.1 ≡ found)) ⊎ (RunsAt r.0 js × (r.1 ≡ true)))

NotBefore-zero : (js : List CronJob) → All (NotBefore 9223372036854775807) js → All (NotBefore 0) js
NotBefore-zero [] a = tt
NotBefore-zero (j ∷ js) a = ((λ q. ground (arith, a.0 q)), NotBefore-zero js a.1)

-- The wake time `w` of the jobs: the earliest next run, or 0 where no job is to run before the
-- largest int64.
abbrev pub WakesAt : List CronJob → ℕ → Type 0
WakesAt js w =
    All (NotBefore w) js
    × (((w ≡ 0) × All (NotBefore 9223372036854775807) js)
        ⊎ (RunsAt w js × (slt 9223372036854775807 w ≡ false)))

conclude :
    (js : List CronJob) (r : ℕ × Bool)
    → Earliest js 9223372036854775807 false r
    → WakesAt js (if r.1 then r.0 else 0)
conclude js (b, true) (lo, a, inl h) = absurd (ground arith)
conclude js (b, true) (lo, a, inr h) = (a, inr (h.0, lo))
conclude js (b, false) (lo, a, inr h) = absurd (ground arith)
conclude js (b, false) (lo, a, inl h) = (NotBefore-zero js (rw h.0 at a), inl (refl, (rw h.0 at a)))
