-- ===== src/Consolidation/Progress.antt =====
-- A pass of conversation-file/summarizing_policy.go moves the boundary forward or keeps the sidecar.
use exoclaw_go.Prelude.{
  ◌∙◌, ◌⊎◌, inl, inr, not, ◌||◌, ◌+◌, ◌≤◌, ◌<◌, ◌≡◌, refl, String, Bool, true, false, List, if-ind,
  ltb, leb, arith, length,
}
use exoclaw_go.Prelude.Text.{is_empty}
use exoclaw_go.Prelude.Effects.{Result, ok, err, Exec, pure, continue, ◌>>=◌}
use exoclaw_go.Json.{Fields}
use exoclaw_go.Consolidation.Policy.{
  ConsolidationState, Policy, repair_boundary, chunk_end, after_summary, summarize_one_chunk, Disk,
  Sidecar, missing, malformed, holds, in_world, save_state, migrate, load_from, load_state,
  save_advanced, consolidate, recover_from_overflow, on_turn_complete,
}
use exoclaw_go.Consolidation.Boundary.{repair_boundary-CutsClean}

abbrev pub Forward : List Fields → ConsolidationState → ConsolidationState → Type 0
Forward log st st' =
    (st.summarized_through < st'.summarized_through) × (st'.summarized_through ≤ length log)

module _ {W : Type 0} (p : Policy W) where
  abbrev Advances : List Fields → ConsolidationState → (Bool × ConsolidationState) × W → Type 0
  Advances log st ((false, st'), w) = st' ≡ st
  Advances log st ((true, st'), w) = Forward log st st'

  -- The new boundary for a chunk that is not empty.
  boundary-forward :
      (log : List Fields) (st : ConsolidationState)
      → leb (chunk_end p st log) st.summarized_through ≡ false
      → (st.summarized_through < repair_boundary log (chunk_end p st log))
        × (repair_boundary log (chunk_end p st log) ≤ length log)
  boundary-forward log st more =
      let within : chunk_end p st log ≤ length log = ground arith in
      let (k, e, le, clean) = repair_boundary-CutsClean log (chunk_end p st log) within in
      let past : st.summarized_through < chunk_end p st log = ground (arith, more) in
      (omega (arith, e, past), omega (arith, e, le))

  after_summary-Advances :
      (log : List Fields) (st : ConsolidationState) (r : Result String × W)
      → leb (chunk_end p st log) st.summarized_through ≡ false
      → Advances log st (after_summary p st log r)
  unfolding after_summary
  after_summary-Advances log st (err e, w) more = refl
  after_summary-Advances log st (ok entry, w) more =
      if-ind (Advances log st) (is_empty entry) ((false, st), w) _ (λ _. refl)
        (λ _. boundary-forward log st more)

  summarize_one_chunk-Advances :
      (log : List Fields) (st : ConsolidationState) (w : W)
      → Advances log st (summarize_one_chunk p log st w)
  unfolding summarize_one_chunk
  summarize_one_chunk-Advances log st w =
      if-ind (Advances log st) (leb (chunk_end p st log) st.summarized_through) ((false, st), w) _
        (λ _. refl) (λ more. after_summary-Advances log st _ more)

  -- The file of the sidecar is as it was, or it was missing and the legacy boundary was taken over.
  abbrev pub Unchanged : Disk W → Disk W → Type 0
  Unchanged d d' =
      (d'.sidecar ≡ d.sidecar) ⊎ ((d.sidecar ≡ missing) × (d'.sidecar ≡ holds p.legacy))

  -- The file of the sidecar holds a state that lies further on in the session.
  abbrev pub Advanced : List Fields → ConsolidationState → Disk W → Type 0
  Advanced log st d' = (st' : ConsolidationState) × (d'.sidecar ≡ holds st') × Forward log st st'

  abbrev pub Recovers : List Fields → ConsolidationState → Disk W → Result Bool × Disk W → Type 0
  Recovers log st d (ok true, d') = Advanced log st d'
  Recovers log st d (ok false, d') = Unchanged d d'
  Recovers log st d (err e, d') = Unchanged d d'

  abbrev pub Completes :
      List Fields → ConsolidationState → Disk W → Result (Unit {0}) × Disk W → Type 0
  Completes log st d (ok u, d') = Unchanged d d' ⊎ Advanced log st d'
  Completes log st d (err e, d') = Unchanged d d'

  -- A state is in the file behind a save without an error, and else the file is as it was.
  abbrev Saves : ConsolidationState → Disk W → Result (Unit {0}) × Disk W → Type 0
  Saves st d (ok u, d') = d'.sidecar ≡ holds st
  Saves st d (err e, d') = d'.sidecar ≡ d.sidecar

  in_world-Saves :
      (st : ConsolidationState) (d : Disk W) (f : Exec W (Unit {0}))
      (next : Exec (Disk W) (Unit {0})) (d₀ : Disk W)
      → d.sidecar ≡ d₀.sidecar
      → ((d₁ : Disk W) → d₁.sidecar ≡ d₀.sidecar → Saves st d₀ (next d₁))
      → Saves st d₀ ((in_world p f >>= λ _. next) d)
  in_world-Saves st d f next d₀ same then = go (f d.world)
    where
      go :
          (r : Result (Unit {0}) × W)
          → Saves st d₀ (continue (r.0, record d { world = r.1 }) (λ _. next))
      go (ok u, w) = then (record d { world = w }) same
      go (err e, w) = same

  save_state-Saves : (st : ConsolidationState) (d : Disk W) → Saves st d (save_state p st d)
  unfolding save_state
  save_state-Saves st d = in_world-Saves st d p.ensure_dir _ d refl (λ d₁ h₁.
      in_world-Saves st d₁ (p.write_tmp st) _ d h₁
        (λ d₂ h₂. in_world-Saves st d₂ p.rename_tmp _ d h₂ (λ d₃ h₃. refl)))

  migrated-Unchanged :
      (d : Disk W) (r : Result (Unit {0}) × Disk W)
      → d.sidecar ≡ missing
      → Saves p.legacy d r
      → Unchanged d r.1
  migrated-Unchanged d (ok u, d') m h = inr (m, h)
  migrated-Unchanged d (err e, d') m h = inl h

  load_state-Unchanged : (d : Disk W) → Unchanged d (load_state p d).1
  unfolding load_state load_from migrate
  load_state-Unchanged d = go d.sidecar refl
    where
      go : (f : Sidecar) → d.sidecar ≡ f → Unchanged d (load_from p f d).1
      go (holds st) e = inl refl
      go malformed e = inl refl
      go missing e =
          if-ind (λ (x : ConsolidationState × Disk W). Unchanged d x.1)
            (ltb 0 p.legacy.summarized_through || not (is_empty p.legacy.summary)) _ _
            (λ _. migrated-Unchanged d (save_state p p.legacy d) e (save_state-Saves p.legacy d))
            (λ _. inl refl)

  -- Nothing else touches the file between the load and the save.
  Unchanged-trans : (d d₁ d₂ : Disk W) → Unchanged d d₁ → d₂.sidecar ≡ d₁.sidecar → Unchanged d d₂
  Unchanged-trans d d₁ d₂ (inl h) e = inl (e ∙ h)
  Unchanged-trans d d₁ d₂ (inr (m, h)) e = inr (m, e ∙ h)

  saved-Recovers :
      (log : List Fields) (st st' : ConsolidationState) (d d₁ : Disk W)
      (r : Result (Unit {0}) × Disk W)
      → Unchanged d d₁
      → Forward log st st'
      → Saves st' d₁ r
      → Recovers log st d (continue r (λ _. pure true))
  saved-Recovers log st st' d d₁ (ok u, d') c f h = (st', h, f)
  saved-Recovers log st st' d d₁ (err e, d') c f h = Unchanged-trans d d₁ d' c h

  save_advanced-Recovers :
      (log : List Fields) (st : ConsolidationState) (d d₁ : Disk W)
      (x : (Bool × ConsolidationState) × W)
      → Unchanged d d₁
      → Advances log st x
      → Recovers log st d (save_advanced p x.0 (record d₁ { world = x.1 }))
  unfolding save_advanced
  save_advanced-Recovers log st d d₁ ((false, st'), w) c a = c
  save_advanced-Recovers log st d d₁ ((true, st'), w) c a =
      saved-Recovers log st st' d (record d₁ { world = w }) _ c a (save_state-Saves st' _)

  consolidate-Recovers :
      (log : List Fields) (st : ConsolidationState) (d d₁ : Disk W)
      → Unchanged d d₁
      → Recovers log st d (consolidate p log st d₁)
  unfolding consolidate
  consolidate-Recovers log st d d₁ c =
      save_advanced-Recovers log st d d₁ _ c (summarize_one_chunk-Advances log st d₁.world)

  Recovers-Completes :
      (log : List Fields) (st : ConsolidationState) (d : Disk W) (r : Result Bool × Disk W)
      → Recovers log st d r
      → Completes log st d (continue r (λ _. pure tt))
  Recovers-Completes log st d (ok true, d') h = inr h
  Recovers-Completes log st d (ok false, d') h = inl h
  Recovers-Completes log st d (err e, d') h = h

  -- RecoverFromOverflow answers true only where the file of the sidecar then holds a state whose
  -- boundary lies beyond the one that was loaded and still within the session. Where it answers
  -- false or fails, the file is as it was, unless there was none and the legacy boundary was saved
  -- in its place. Behind OnTurnComplete one of the two holds, and behind an error of it the second.
  pub recover_from_overflow-Moves :
      (log : List Fields) (d : Disk W)
      → Recovers log (load_state p d).0 d (recover_from_overflow p log d)
        × Completes log (load_state p d).0 d (on_turn_complete p log d)
  unfolding recover_from_overflow on_turn_complete
  recover_from_overflow-Moves log d =
      let recovers =
        consolidate-Recovers log (load_state p d).0 d (load_state p d).1 (load_state-Unchanged d) in
      (
        recovers,
        if-ind (Completes log (load_state p d).0 d)
            (ltb (length log) ((load_state p d).0.summarized_through + p.memory_window)) _ _
            (λ _. inl (load_state-Unchanged d))
            (λ _. Recovers-Completes log (load_state p d).0 d _ recovers),
      )
