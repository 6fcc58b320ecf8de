-- ===== src/Consolidation/Boundary.antt =====
-- repairBoundary of conversation-file/summarizing_policy.go splits no pair of a call and its result.
use exoclaw_go.Prelude.{
  ℕ, zero, suc, ◌+◌, ◌≤◌, ◌≡◌, refl, false, Option, some, List, [], ◌∷◌, leb, leb→le, arith, length,
  length-drop, drop, Bool-cases, inl, inr,
}
use exoclaw_go.Json.{Fields}
use exoclaw_go.Session.Repair.{role_is}
use exoclaw_go.Consolidation.Policy.{prev_of, is_pending, repair_loop, repair_boundary}

-- Behind `prev`, the cut after `k` messages stands at the end, or before a message that is no tool's
-- result and behind one that asks for no tool.
abbrev pub CutsClean : Option Fields → List Fields → ℕ → Type 0
CutsClean prev [] k = k ≡ 0
CutsClean prev (m ∷ ms) zero = (role_is "tool" m ≡ false) × (is_pending prev ≡ false)
CutsClean prev (m ∷ ms) (suc k) = CutsClean (some m) ms k

repair_loop-CutsClean :
    (prev : Option Fields) (ms : List Fields) (i : ℕ)
    → (k : ℕ) × (repair_loop prev ms i ≡ i + k) × (k ≤ length ms) × CutsClean prev ms k
unfolding repair_loop
repair_loop-CutsClean prev [] i = (0, omega arith, omega arith, refl)
repair_loop-CutsClean prev (m ∷ ms) i =
    let (k, e, le, clean) = repair_loop-CutsClean (some m) ms (suc i) in
    elim (Bool-cases (role_is "tool" m)) [
      | inl t ↦ rw t (suc k, omega (arith, e), omega (arith, le), clean)
      | inr t ↦ elim (Bool-cases (is_pending prev)) [
        | inl p ↦ rw (t, p) (suc k, omega (arith, e), omega (arith, le), clean)
        | inr p ↦ rw (t, p) (0, omega arith, omega arith, (t, p))
      ]
    ]

at_end : (prev : Option Fields) (ms : List Fields) → length ms ≤ 0 → CutsClean prev ms 0
at_end prev [] h = refl
at_end prev (m ∷ ms) h = absurd (omega arith)

-- The repaired boundary lies no earlier than the given one and within the session, and the cut at it
-- is clean: it is the session's end, or the next message is no tool's result and the message before
-- asks for no tool.
pub repair_boundary-CutsClean :
    (log : List Fields) (boundary : ℕ)
    → boundary ≤ length log
    → (k : ℕ) × (repair_boundary log boundary ≡ boundary + k)
      × (boundary + k ≤ length log)
      × CutsClean (prev_of boundary log) (drop boundary log) k
unfolding repair_boundary
repair_boundary-CutsClean log boundary h =
    let (k, e, le, clean) =
      repair_loop-CutsClean (prev_of boundary log) (drop boundary log) boundary in
    let size = length-drop boundary log in
    elim (Bool-cases (leb (length log) boundary)) [
      | inl b ↦ rw b (
        0,
        omega arith,
        omega arith,
        at_end (prev_of boundary log) (drop boundary log)
            (omega (arith, size, leb→le (length log) boundary b)),
      )
      | inr b ↦ rw b (k, e, omega (arith, le, size), clean)
    ]
