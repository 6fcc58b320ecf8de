-- ===== src/Consolidation/Policy.antt =====
-- SummarizingConsolidationPolicy of conversation-file/summarizing_policy.go. The session is the list
-- of its messages, and positions in it are natural numbers; a reader that fails is not modelled.
use exoclaw_go.Prelude.{
  ℕ, zero, suc, ◌+◌, ◌-◌, String, Bool, true, false, not, ◌&&◌, ◌||◌, Option, none, some, List, [],
  ◌∷◌, if◌then◌else◌, ltb, leb, length, take, drop,
}
use exoclaw_go.Prelude.Text.{◌<>◌, is_empty, trim_space}
use exoclaw_go.Prelude.Effects.{Result, ok, err, Exec, pure, ◌>>=◌, ◌>>◌}
use exoclaw_go.Json.{Fields, get, items_of}
use exoclaw_go.Session.Repair.{role_is}
use exoclaw_go.Session.Prepare.{is_nil}

-- The content of a sidecar that the policy uses.
pub record ConsolidationState : Type 0 where
  pub summarized_through : ℕ
  pub summary : String

-- The sidecar file: a state, a file whose JSON does not parse, or no file that can be read.
pub data Sidecar : Type 0 where
  missing malformed : Sidecar
  holds : ConsolidationState → Sidecar

pub record Policy (W : Type 0) : Type 0 where
  pub memory_window : ℕ
  pub summarize : List Fields → Exec W String
  -- What readLegacyBoundary finds in the head of the session's file.
  pub legacy : ConsolidationState
  -- EnsureDir, os.WriteFile of the temporary file, and os.Rename over the sidecar, which leaves the
  -- sidecar alone where it fails.
  pub ensure_dir : Exec W (Unit {0})
  pub write_tmp : ConsolidationState → Exec W (Unit {0})
  pub rename_tmp : Exec W (Unit {0})

-- The sidecar beside the rest of the world.
pub record Disk (W : Type 0) : Type 0 where
  pub sidecar : Sidecar
  pub world : W

unfoldable pub message_at : ℕ → List Fields → Option Fields
message_at n [] = none
message_at zero (m ∷ ms) = some m
message_at (suc n) (m ∷ ms) = message_at n ms

abbrev pub prev_of : ℕ → List Fields → Option Fields
prev_of zero log = none
prev_of (suc n) log = message_at n log

-- An assistant's message with tool calls.
abbrev pub is_pending : Option Fields → Bool
is_pending none = false
is_pending (some m) = role_is "assistant" m && not (is_nil (items_of (get "tool_calls" m)))

-- The loop of repairBoundary.
unfoldable pub repair_loop : Option Fields → List Fields → ℕ → ℕ
repair_loop prev [] cur_idx = cur_idx
repair_loop prev (m ∷ ms) cur_idx =
    let later = repair_loop (some m) ms (suc cur_idx) in
    if role_is "tool" m then later else if is_pending prev then later else cur_idx

unfoldable pub repair_boundary : List Fields → ℕ → ℕ
repair_boundary log boundary =
    if leb (length log) boundary
    then boundary
    else repair_loop (prev_of boundary log) (drop boundary log) boundary

unfoldable pub merge_summary : String → String → String
merge_summary existing new_entry =
    if is_empty (trim_space existing)
    then trim_space new_entry
    else trim_space existing <> ("\n\n" <> trim_space new_entry)

module _ {W : Type 0} (p : Policy W) where
  abbrev pub chunk_end : ConsolidationState → List Fields → ℕ
  chunk_end st log =
      if ltb (length log) (st.summarized_through + p.memory_window)
      then length log
      else st.summarized_through + p.memory_window

  -- An error of the summary, or an empty one, leaves the state as it was.
  unfoldable pub after_summary :
      ConsolidationState → List Fields → Result String × W → (Bool × ConsolidationState) × W
  after_summary st log (err e, w) = ((false, st), w)
  after_summary st log (ok entry, w) = if is_empty entry then ((false, st), w) else (
    (
      true,
      record {
        summarized_through = repair_boundary log (chunk_end st log);
        summary = merge_summary st.summary entry;
      },
    ),
    w,
  )

  unfoldable pub summarize_one_chunk :
      List Fields → ConsolidationState → W → (Bool × ConsolidationState) × W
  summarize_one_chunk log st w =
      let target = chunk_end st log in
      if leb target st.summarized_through
      then ((false, st), w)
      else after_summary st log
          (p.summarize (take (target - st.summarized_through) (drop st.summarized_through log)) w)

  abbrev pub in_world : Exec W (Unit {0}) → Exec (Disk W) (Unit {0})
  in_world f d = let (r, w) = f d.world in (r, record d { world = w })

  -- The rename puts the new state in place of the sidecar.
  abbrev put_sidecar : ConsolidationState → Exec (Disk W) (Unit {0})
  put_sidecar st d = (ok tt, record d { sidecar = holds st })

  unfoldable pub save_state : ConsolidationState → Exec (Disk W) (Unit {0})
  save_state st = do
    in_world p.ensure_dir
    in_world (p.write_tmp st)
    in_world p.rename_tmp
    put_sidecar st

  -- LoadState: without a sidecar the boundary of an old session file is taken over and saved, and
  -- the error of that write is dropped.
  unfoldable pub migrate : ConsolidationState → Disk W → ConsolidationState × Disk W
  migrate st d =
      if ltb 0 st.summarized_through || not (is_empty st.summary)
      then (st, (save_state st d).1)
      else (st, d)

  unfoldable pub load_from : Sidecar → Disk W → ConsolidationState × Disk W
  load_from (holds st) d = (st, d)
  load_from malformed d = (record { summarized_through = 0; summary = "" }, d)
  load_from missing d = migrate p.legacy d

  unfoldable pub load_state : Disk W → ConsolidationState × Disk W
  load_state d = load_from d.sidecar d

  -- The state is saved only where a chunk was summarised.
  unfoldable pub save_advanced : Bool × ConsolidationState → Exec (Disk W) Bool
  save_advanced (false, st) = pure false
  save_advanced (true, st) = do save_state st; pure true

  unfoldable pub consolidate : List Fields → ConsolidationState → Exec (Disk W) Bool
  consolidate log st d =
      let (done, w) = summarize_one_chunk log st d.world in
      save_advanced done (record d { world = w })

  unfoldable pub recover_from_overflow : List Fields → Exec (Disk W) Bool
  recover_from_overflow log d = let (st, d') = load_state d in consolidate log st d'

  unfoldable pub on_turn_complete : List Fields → Exec (Disk W) (Unit {0})
  on_turn_complete log d =
      let (st, d') = load_state d in
      if ltb (length log) (st.summarized_through + p.memory_window)
      then (ok tt, d')
      else (consolidate log st >>= λ _. pure tt) d'
