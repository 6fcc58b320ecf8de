-- ===== src/Cron/Service.antt =====
-- The state of Service in tools/cron/service.go, its store on disk, and the calls that read or write
-- the store. Jobs are pointers: the store and the deferred queue hold addresses of a heap.
use exoclaw_go.Prelude.{
  ℕ, ◌+◌, String, Bool, true, false, not, Option, none, some, List, [], ◌∷◌, map, if◌then◌else◌,
  ◌==◌,
}
use exoclaw_go.Prelude.Effects.{Error, Result, ok, err, Exec}
use exoclaw_go.Cron.Types.{CronJob, DecodedJob, coerce_job}
use exoclaw_go.Json.{Fields}
use exoclaw_go.Cron.Codec.{encode_store}
use exoclaw_go.Cron.Decode.{decode_store}
use exoclaw_go.Cron.Schedule.{CronExprNext, compute_next_run, get_next_wake, timer_delay}

-- The store file: when it was written, and its JSON object unless it cannot be read or is none.
pub record StoreFile : Type 0 where
  pub mtime : ℕ
  pub content : Option Fields

-- What the service is given: the clock, the callback, the evaluator, the time zones, the file
-- system (the error of a write, and the modification time that a write gets) and random ids.
pub record Config (W : Type 0) : Type 0 where
  pub now_ms : W → ℕ × W
  pub on_job : Option (CronJob → Exec W (Unit {0}))
  pub cron_expr_next : Option CronExprNext
  pub load_location : String → Bool
  pub write_error : W → Option Error
  pub write_time : W → ℕ
  pub short_id : W → String × W

pub record Service (W : Type 0) : Type 0 where
  pub world : W
  pub file : Option StoreFile
  pub heap : ℕ → CronJob
  pub next_address : ℕ
  pub store : Option (List ℕ)
  pub last_mtime : ℕ
  pub timer : Option ℕ
  pub deferred : List ℕ
  pub running : Bool

-- The jobs of a file, and none where they cannot be read.
abbrev pub jobs_read : Option Fields → Option (List DecodedJob)
jobs_read none = none
jobs_read (some fs) = decode_store fs

-- The jobs of the store, and nothing where no store is loaded.
abbrev pub jobs_of : Option (List ℕ) → List ℕ
jobs_of none = []
jobs_of (some l) = l

module _ {W : Type 0} where
  abbrev pub job_list : Service W → List CronJob
  job_list s = map s.heap (jobs_of s.store)

  -- `*p = f(*p)`
  unfoldable pub update : ℕ → (CronJob → CronJob) → Service W → Service W
  update p f s = record s { heap = λ q. if q == p then f (s.heap q) else s.heap q }

  -- New addresses for decoded jobs.
  unfoldable pub allocate : List DecodedJob → Service W → List ℕ × Service W
  allocate [] s = ([], s)
  allocate (d ∷ ds) s =
      let p = s.next_address in
      let (ps, s') = allocate ds (record s {
        heap = λ q. if q == p then coerce_job d else s.heap q;
        next_address = p + 1;
      }) in
      (p ∷ ps, s')

  unfoldable pub keep_fresh : Option StoreFile → Service W → Service W
  keep_fresh none s = s
  keep_fresh (some f) s = if f.mtime == s.last_mtime then s else record s { store = none }

  unfoldable pub load_jobs : Option (List DecodedJob) → Service W → Service W
  load_jobs none s = record s { store = some [] }
  load_jobs (some ds) s = let (ps, s') = allocate ds s in record s' { store = some ps }

  unfoldable pub read_file : Option StoreFile → Service W → Service W
  unfolding load_jobs
  read_file none s = record s { store = some [] }
  read_file (some f) s = load_jobs (jobs_read f.content) s

  unfoldable pub load_if_absent : Option (List ℕ) → Service W → Service W
  unfolding read_file
  load_if_absent (some l) s = s
  load_if_absent none s = read_file s.file s

  unfoldable pub drop_stale : Option (List ℕ) → Service W → Service W
  unfolding keep_fresh
  drop_stale none s = s
  drop_stale (some l) s = keep_fresh s.file s

  -- loadStoreLocked: a store that another writer has changed is dropped, and read again.
  unfoldable pub load_store : Service W → Service W
  unfolding load_if_absent drop_stale
  load_store s = let s' = drop_stale s.store s in load_if_absent s'.store s'

module _ {W : Type 0} (c : Config W) where
  unfoldable pub write_jobs :
      Option Error → List CronJob → Service W → Result (Unit {0}) × Service W
  write_jobs (some e) js s = (err e, s)
  write_jobs none js s = (
    ok tt,
    record s {
      file = some (record { mtime = c.write_time s.world; content = some (encode_store js) });
      last_mtime = c.write_time s.world;
    },
  )

  unfoldable pub save_jobs : Option (List ℕ) → Exec (Service W) (Unit {0})
  save_jobs none s = (ok tt, s)
  save_jobs (some ps) s = write_jobs (c.write_error s.world) (map s.heap ps) s

  -- saveStoreLocked: write, rename, and remember the modification time.
  unfoldable pub save_store : Exec (Service W) (Unit {0})
  unfolding save_jobs
  save_store s = save_jobs s.store s

  -- nowMS
  unfoldable pub read_clock : Service W → ℕ × Service W
  read_clock s = let (n, w) = c.now_ms s.world in (n, record s { world = w })

  abbrev pub next_run : CronJob → ℕ → ℕ
  next_run j n = compute_next_run c.cron_expr_next j.schedule n

  abbrev pub set_next_run : ℕ → CronJob → CronJob
  set_next_run n j = record j { state = record (j.state) { next_run_at_ms = n } }

  unfoldable pub recompute : List ℕ → ℕ → Service W → Service W
  recompute [] n s = s
  recompute (p ∷ ps) n s =
      recompute ps n
        (if (s.heap p).enabled then update p (λ j. set_next_run (next_run j n) j) s else s)

  -- recomputeNextRunsLocked
  unfoldable pub recompute_next_runs : Service W → Service W
  unfolding recompute
  recompute_next_runs s = elim s.store [
    | none ↦ s
    | some ps ↦ let (n, s') = read_clock s in recompute ps n s'
  ]

  -- armTimerLocked: the old timer is stopped, and a new one set for the next wake time.
  unfoldable pub arm_timer : Service W → Service W
  arm_timer s =
      let next = get_next_wake (job_list s) in
      if not s.running
      then record s { timer = none }
      else if next == 0
      then record s { timer = none }
      else (let (n, s') = read_clock s in record s' { timer = some (timer_delay next n) })

  -- The store is written; where that fails the call returns the error.
  unfoldable pub save_and_arm : {A : Type 0} → A → Exec (Service W) A
  save_and_arm a s =
      let (r, s') = save_store s in elim r [ ok u ↦ (ok a, arm_timer s') | err e ↦ (err e, s') ]

  -- Start, without the heartbeat goroutine.
  unfoldable pub start : Exec (Service W) (Unit {0})
  start s = save_and_arm tt (recompute_next_runs (load_store (record s { running = true })))

  -- Stop
  unfoldable pub stop : Service W → Service W
  stop s = record s { running = false; timer = none }
