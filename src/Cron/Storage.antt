-- ===== src/Cron/Storage.antt =====
-- saveStoreLocked and loadStoreLocked of tools/cron/service.go: what is written is what is read.
use exoclaw_go.Prelude.{
  ℕ, ◌+◌, ◌<◌, ◌≡◌, refl, sym, ap, ap₂, ◌∙◌, none, some, List, [], ◌∷◌, if◌then◌else◌, ◌==◌, arith,
  map, All, ==_iff,
}
use std.Path.{subst}
use exoclaw_go.Prelude.Effects.{ok}
use exoclaw_go.Cron.Types.{CronJob, DecodedJob, coerce_wake_mode, coerce_job}
use exoclaw_go.Cron.Codec.{encode_store}
use exoclaw_go.Cron.Recoded.{IsNamed, written_job, decode_store-encode_store}
use exoclaw_go.Cron.Service.{
  Config, Service, StoreFile, jobs_of, job_list, allocate, load_store, load_if_absent, read_file,
  load_jobs, drop_stale, keep_fresh, save_store, save_jobs, write_jobs,
}

-- Only an unknown wake mode changes on its way through the file.
abbrev pub reread : CronJob → CronJob
reread j = record j { wake_mode = coerce_wake_mode j.wake_mode }

coerce_written : (js : List CronJob) → map coerce_job (map written_job js) ≡ map reread js
unfolding coerce_job
coerce_written [] = refl
coerce_written (j ∷ js) = ap (◌∷◌ (reread j)) (coerce_written js)

module _ {W : Type 0} where
  -- Allocation leaves every older address alone.
  allocate-old :
      (ds : List DecodedJob) (s : Service W) (q : ℕ)
      → q < s.next_address
      → (allocate ds s).1.heap q ≡ s.heap q
  unfolding allocate
  allocate-old [] s q h = refl
  allocate-old (d ∷ ds) s q h = ground (
    arith,
    allocate-old ds
        (record s {
          heap = λ r. if r == s.next_address then coerce_job d else s.heap r;
          next_address = s.next_address + 1;
        })
        q,
  )

  heap-allocate :
      (ds : List DecodedJob) (s : Service W)
      → map (allocate ds s).1.heap (allocate ds s).0 ≡ map coerce_job ds
  unfolding allocate
  heap-allocate [] s = refl
  heap-allocate (d ∷ ds) s =
      let s₁ = record s {
        heap = λ r. if r == s.next_address then coerce_job d else s.heap r;
        next_address = s.next_address + 1;
      } in
      ap₂ ◌∷◌ (allocate-old ds s₁ s.next_address (omega arith) ∙ ground arith) (heap-allocate ds s₁)

module _ {W : Type 0} (c : Config W) where
  -- The service after a write that succeeds.
  saved : List ℕ → Service W → Service W
  saved ps s = record s {
    file =
        some
          (record { mtime = c.write_time s.world; content = some (encode_store (map s.heap ps)) });
    last_mtime = c.write_time s.world;
  }

  save_store-saved :
      (s : Service W) (ps : List ℕ)
      → s.store ≡ some ps
      → c.write_error s.world ≡ none
      → save_store c s ≡ (ok tt, saved ps s)
  unfolding save_store write_jobs saved
  save_store-saved s ps stored writable =
      ap (λ o. save_jobs c o s) stored ∙ ap (λ e. write_jobs c e (map s.heap ps) s) writable

  load_store-cached :
      (s : Service W) (ps : List ℕ) (f : StoreFile)
      → s.store ≡ some ps
      → s.file ≡ some f
      → f.mtime ≡ s.last_mtime
      → load_store s ≡ s
  unfolding load_store drop_stale keep_fresh load_if_absent
  load_store-cached s ps f stored on_disk fresh =
      ap (λ (d : Service W). load_if_absent d.store d)
        (ap (λ o. drop_stale o s) stored
          ∙ ap (λ o. keep_fresh o s) on_disk
          ∙ ap (λ b. if b then s else record s { store = none })
              ((==_iff f.mtime s.last_mtime).1 fresh))
      ∙ ap (λ o. load_if_absent o s) stored

  load_store-saved :
      (ps : List ℕ) (s : Service W)
      → s.store ≡ some ps
      → All IsNamed (job_list s)
      → job_list (load_store (record (saved ps s) { store = none })) ≡ map reread (job_list s)
  unfolding load_store drop_stale load_if_absent read_file load_jobs saved
  load_store-saved ps s stored named =
      let js = map s.heap ps in
      let known : All IsNamed js = subst (λ o. All IsNamed (map s.heap (jobs_of o))) stored named in
      let s₁ = record (saved ps s) { store = none } in
      ap (λ o. job_list (load_jobs o s₁)) (decode_store-encode_store js known)
      ∙ heap-allocate (map written_job js) s₁
      ∙ coerce_written js
      ∙ ap (λ o. map reread (map s.heap (jobs_of o))) (sym stored)

  -- After a write that succeeds the service goes on with the store in memory, and a service that
  -- starts from the JSON of the file alone has the same jobs, in the same order and with all of
  -- their fields, but for wake modes other than the two that are known, which have become `now`.
  pub load_store-save_store :
      (s : Service W) (ps : List ℕ)
      → s.store ≡ some ps
      → c.write_error s.world ≡ none
      → All IsNamed (job_list s)
      → let s' = (save_store c s).1 in
        (load_store s' ≡ s')
        × (job_list (load_store (record s' { store = none })) ≡ map reread (job_list s))
  unfolding saved
  load_store-save_store s ps stored writable named =
      rw (save_store-saved s ps stored writable)
        (load_store-cached (saved ps s) ps _ stored refl refl, load_store-saved ps s stored named)
