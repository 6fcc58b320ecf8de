-- ===== src/Cron/Schedule.antt =====
-- The scheduling helpers of tools/cron/service.go.
use exoclaw_go.Prelude.{
  ℕ, ◌+◌, ◌*◌, ◌-◌, ◌<◌, ◌≤◌, ◌≡◌, ◌⊎◌, String, Bool, true, false, not, ◌&&◌, Option, none, some,
  List, [], ◌∷◌, if◌then◌else◌, str_eq, when_set, ◌==◌, arith,
}
use exoclaw_go.Prelude.Words.{add64, sub64, mul64, slt, sign_bit, modulus, IsNatural}
use exoclaw_go.Prelude.Effects.{failure, Result, ok, err}
use exoclaw_go.Cron.Types.{CronSchedule, ScheduleKind, at, every, cron, other_kind, CronJob}

-- An evaluator of cron expressions: expr, tz and now to the next run.
abbrev pub CronExprNext : Type 0
CronExprNext = String → String → ℕ → ℕ

unfoldable pub run_of_kind : Option CronExprNext → ScheduleKind → CronSchedule → ℕ → ℕ
run_of_kind evaluator at s now = if slt now s.at_ms then s.at_ms else 0
run_of_kind evaluator every s now = if not (slt 0 s.every_ms) then 0 else add64 now s.every_ms
run_of_kind evaluator cron s now =
    when_set evaluator 0 (λ next. if str_eq s.expr "" then 0 else next s.expr s.tz now)
run_of_kind evaluator (other_kind k) s now = 0

-- computeNextRun; 0 is "never again".
unfoldable pub compute_next_run : Option CronExprNext → CronSchedule → ℕ → ℕ
unfolding run_of_kind
compute_next_run evaluator s now = run_of_kind evaluator s.kind s now

unfoldable pub is_cron : ScheduleKind → Bool
is_cron cron = true
is_cron _ = false

-- validateScheduleForAdd; `load_location` tells whether time.LoadLocation knows the zone.
unfoldable pub validate_schedule_for_add : (String → Bool) → Option CronSchedule → Result (Unit {0})
unfolding is_cron
validate_schedule_for_add load_location none = err (failure "schedule is required")
validate_schedule_for_add load_location (some s) =
    if not (str_eq s.tz "") && not (is_cron s.kind)
    then err (failure "tz can only be used with cron schedules")
    else if is_cron s.kind && not (str_eq s.tz "") && not (load_location s.tz)
    then err (failure "unknown timezone")
    else ok tt

-- The loop of getNextWakeMSLocked: `best` and `found`.
unfoldable pub wake_loop : List CronJob → ℕ → Bool → ℕ × Bool
wake_loop [] best found = (best, found)
wake_loop (j ∷ js) best found =
    let n = j.state.next_run_at_ms in
    let better = j.enabled && not (n == 0) && slt n best in
    wake_loop js (if better then n else best) (if better then true else found)

unfoldable pub get_next_wake : List CronJob → ℕ
unfolding wake_loop
get_next_wake jobs =
    let (best, found) = wake_loop jobs 9223372036854775807 false in if found then best else 0

-- The delay of armTimerLocked, in nanoseconds.
unfoldable pub timer_delay : ℕ → ℕ → ℕ
timer_delay next now =
    let delay = mul64 (sub64 next now) 1000000 in if slt delay 0 then 0 else delay

-- A run of an `at` or `every` schedule that is not 0 lies after `now`, as long as now and the
-- interval together do not pass the largest int64.
pub compute_next_run-after :
    (evaluator : Option CronExprNext) (s : CronSchedule) (now : ℕ)
    → (s.kind ≡ at) ⊎ (s.kind ≡ every)
    → IsNatural now
    → s.at_ms < modulus
    → s.every_ms < modulus
    → (s.every_ms < sign_bit → now + s.every_ms < sign_bit)
    → (compute_next_run evaluator s now ≡ 0) ⊎ (now < compute_next_run evaluator s now)
unfolding compute_next_run add64
compute_next_run-after evaluator s now k n a e fits = ground arith

-- A timer for a time at most 9223372036854 ms ahead waits exactly so long, and one for a time that
-- passed at most 9223372036854 ms ago fires at once, where both times are natural numbers below 2^63.
pub timer_delay-exact :
    (next now : ℕ)
    → IsNatural next
    → IsNatural now
    → next ≤ now + 9223372036854
    → now ≤ next + 9223372036854
    → timer_delay next now ≡ (next - now) * 1000000
unfolding timer_delay sub64 mul64
timer_delay-exact next now n m h k = ground arith
