-- ===== src/Cron/Removal.antt =====
-- RemoveJob and UpdateJob of tools/cron/service.go: what they leave in the store.
use Prim.Native.String.{len}
use std.Path.{subst}
use exoclaw_go.Prelude.{
  ℕ, ◌≤◌, sym, ◌≡◌, refl, ap, ◌∙◌, String, not, Option, none, some, List, [], ◌∷◌, if◌then◌else◌,
  str_eq, eq_iff, keep, arith,
}
use exoclaw_go.Prelude.Effects.{Error, err}
use exoclaw_go.Cron.Types.{CronJob, CronSchedule}
use exoclaw_go.Cron.Schedule.{validate_schedule_for_add}
use exoclaw_go.Cron.Service.{Config, Service, jobs_of, load_store, update}
use exoclaw_go.Cron.Update.{heap-update, file-update}
use exoclaw_go.Cron.Firing.{remove_id}
use exoclaw_go.Cron.Jobs.{
  UpdateOptions, find_job, or_keep, short_name, rename, apply_payload, update_job, update_found,
  update_schedule,
}

-- Dropping an id from the store: a search for it finds nothing, any other search what it found.
pub find_job-keep :
    (id other : String) (ps : List ℕ) (heap : ℕ → CronJob)
    → find_job other (keep (λ q. not (str_eq ((heap q).id) id)) ps) heap
      ≡ (if str_eq other id then none else find_job other ps heap)
unfolding find_job
find_job-keep id other [] heap = ground arith
find_job-keep id other (p ∷ ps) heap = ground (
  arith,
  eq_iff (heap p).id id,
  eq_iff other id,
  eq_iff (heap p).id other,
  find_job-keep id other ps heap,
)

-- A field behind an update is what the option says, if it is given, and else what it was.
abbrev pub Takes {ℓ} : {A : Type ℓ} → Option A → A → A → Type ℓ
Takes o old new = ((a : _) → o ≡ some a → new ≡ a) × (o ≡ none → new ≡ old)

-- `k` is the job `j` with the options that concern its payload, and nothing else changed but the
-- name, which follows a given message.
abbrev pub HasPayload : UpdateOptions → CronJob → CronJob → Type 0
HasPayload o j k =
    Takes o.message j.payload.message k.payload.message
    × Takes o.deliver j.payload.deliver k.payload.deliver
    × Takes o.channel j.payload.channel k.payload.channel
    × Takes o.to j.payload.to k.payload.to
    × Takes o.skills j.payload.skills k.payload.skills
    × Takes o.stateless j.payload.stateless k.payload.stateless
    × Takes o.model j.payload.model k.payload.model
    × (((m : String) → o.message ≡ some m → len m ≤ 30 → k.name ≡ m)
        × (k.schedule ≡ j.schedule)
        × (k.wake_mode ≡ j.wake_mode)
        × (k.state ≡ j.state)
        × (k.enabled ≡ j.enabled))

short_name-len : (m : String) → len m ≤ 30 → short_name m ≡ m
short_name-len m short = ground (arith, short)

or_keep-Takes : {A : Type 0} (o : Option A) (old : A) → Takes o old (or_keep o old)
or_keep-Takes none old = ((λ a h. absurd (ground arith)), λ h. refl)
or_keep-Takes (some a) old = ((λ b h. ground arith), λ h. absurd (ground arith))

apply_payload-HasPayload : (o : UpdateOptions) (j : CronJob) → HasPayload o j (apply_payload o j)
unfolding apply_payload
apply_payload-HasPayload o j = (
  or_keep-Takes o.message _,
  or_keep-Takes o.deliver _,
  or_keep-Takes o.channel _,
  or_keep-Takes o.to _,
  or_keep-Takes o.skills _,
  or_keep-Takes o.stateless _,
  or_keep-Takes o.model _,
  (
    (λ m given short. ap (λ q. rename q j.name) given ∙ short_name-len m short),
    refl,
    refl,
    refl,
    refl,
  ),
)

module _ {W : Type 0} (c : Config W) where
  -- After an id is dropped a search for it finds nothing, and a search for any other id finds what it
  -- found before.
  pub find_job-remove_id :
      (id other : String) (s : Service W)
      → let s' = remove_id c id s in
        find_job other (jobs_of s'.store) s'.heap
        ≡ (if str_eq other id then none else find_job other (jobs_of s.store) s.heap)
  unfolding remove_id find_job
  find_job-remove_id id other s = go s.store
    where
      go :
          (o : Option (List ℕ))
          → let s' = remove_id c id (record s { store = o }) in
            find_job other (jobs_of s'.store) s'.heap
            ≡ (if str_eq other id then none else find_job other (jobs_of o) s.heap)
      go none = ground arith
      go (some ps) = find_job-keep id other ps s.heap

  update_schedule-refused :
      (o : UpdateOptions) (schedule : CronSchedule) (p : ℕ) (s : Service W) (e : Error)
      → validate_schedule_for_add c.load_location (some schedule) ≡ err e
      → update_schedule c o (some schedule) p s ≡ (err e, s)
  unfolding update_schedule
  update_schedule-refused o schedule p s e bad = rw (bad, update_schedule) refl

  -- An update whose schedule is refused returns the error and writes nothing to disk, but the job
  -- in memory already has the options for its payload and its name, while its schedule, its wake
  -- mode, its state and the mark `enabled` are as they were: UpdateJob is not atomic.
  pub update_job-refused :
      (id : String) (o : UpdateOptions) (schedule : CronSchedule) (s : Service W) (p : ℕ)
      (e : Error)
      → find_job id (jobs_of (load_store s).store) (load_store s).heap ≡ some p
      → o.schedule ≡ some schedule
      → validate_schedule_for_add c.load_location (some schedule) ≡ err e
      → let (r, s') = update_job c id o s in
        (r ≡ err e)
        × (s'.file ≡ (load_store s).file)
        × HasPayload o ((load_store s).heap p) (s'.heap p)
  unfolding update_job update_found
  update_job-refused id o schedule s p e found given bad =
      let s₁ = load_store s in
      let whole : update_job c id o s ≡ (err e, update p (apply_payload o) s₁) =
        ap (λ q. update_found c o q s₁) found
        ∙ ap (λ q. update_schedule c o q p (update p (apply_payload o) s₁)) given
        ∙ update_schedule-refused o schedule p _ e bad in
      (
        ap (λ r. r.0) whole,
        ap (λ r. r.1.file) whole ∙ file-update p _ s₁,
        subst (HasPayload o (s₁.heap p)) (sym (ap (λ r. r.1.heap p) whole ∙ heap-update p _ s₁))
            (apply_payload-HasPayload o (s₁.heap p)),
      )
