-- ===== src/Consolidation/Examples.antt =====
-- The consolidation theorems at a short session.
use exoclaw_go.Prelude.{ℕ, ◌+◌, ◌≤◌, ◌≡◌, refl, List, [], ◌∷◌, arith, length, drop}
use exoclaw_go.Prelude.Effects.{ok, pure}
use exoclaw_go.Json.{Fields, end, field, str, arr, obj, nil, cons}
use exoclaw_go.Consolidation.Policy.{
  ConsolidationState, Policy, Disk, missing, load_state, prev_of, repair_boundary,
  recover_from_overflow, on_turn_complete,
}
use exoclaw_go.Consolidation.Boundary.{CutsClean, repair_boundary-CutsClean}
use exoclaw_go.Consolidation.Progress.{Recovers, Completes, recover_from_overflow-Moves}

abbrev user : Fields
user = field "role" (str "user") (field "content" (str "hi") end)

abbrev asks : Fields
asks =
    field "role" (str "assistant")
      (field "tool_calls" (arr (cons (obj (field "id" (str "a") end)) nil)) end)

abbrev answer : Fields
answer = field "role" (str "tool") (field "tool_call_id" (str "a") end)

abbrev session : List Fields
session = user ∷ asks ∷ answer ∷ user ∷ []

abbrev initial : ConsolidationState
initial = record { summarized_through = 0; summary = "" }

abbrev policy : Policy ℕ
policy = record {
  memory_window = 2;
  summarize = λ chunk w. (ok "they said hi", w);
  legacy = initial;
  ensure_dir = pure tt;
  write_tmp = λ st. pure tt;
  rename_tmp = pure tt;
}

abbrev disk : Disk ℕ
disk = record { sidecar = missing; world = 0 }

repair_boundary_2 : repair_boundary session 2 ≡ 3
unfolding repair_boundary exoclaw_go.Consolidation.Policy.repair_loop
    exoclaw_go.Consolidation.Policy.message_at exoclaw_go.Json.get
repair_boundary_2 = refl

repair_boundary-CutsClean_example :
    (k : ℕ) × (repair_boundary session 2 ≡ 2 + k)
    × (2 + k ≤ length session)
    × CutsClean (prev_of 2 session) (drop 2 session) k
repair_boundary-CutsClean_example = repair_boundary-CutsClean session 2 (omega arith)

recover_from_overflow-Moves_example :
    Recovers policy session
      (load_state policy disk).0
      disk
      (recover_from_overflow policy session disk)
    × Completes policy session
        (load_state policy disk).0
        disk
        (on_turn_complete policy session disk)
recover_from_overflow-Moves_example = recover_from_overflow-Moves policy session disk
