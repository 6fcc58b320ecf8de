-- ===== src/Session/Window.antt =====
-- NormalizeHistory of conversation-file/session/manager.go: how long the history is that the model
-- gets, how it begins, and that no user's message of the window is lost.
use exoclaw_go.Prelude.{
  ℕ, suc, ◌-◌, ◌≤◌, ◌≡◌, refl, sym, ap, true, some, List, [], ◌∷◌, map, if◌then◌else◌, arith,
  length, length-append, length-drop, Option-cases, Bool-cases, inl, inr,
}
use mathlib.Core.Option.{some-injective}
use exoclaw_go.Prelude.Words.{slt}
use exoclaw_go.Json.{Items, nil, cons, Fields, get, items_of}
use exoclaw_go.Session.Ids.{Ids}
use exoclaw_go.Session.Repair.{
  role_is, keep_calls, with_calls, repair_assistant, repair_tool, repair_message, repair,
  project_message, valid_ids, differs, repaired, repair_and_project, from_user, or_all, window,
  normalize_history,
}

length-map : (f : Fields → Fields) (ms : List Fields) → length (map f ms) ≡ length ms
length-map f [] = refl
length-map f (m ∷ ms) = ap suc (length-map f ms)

length-with_calls : (m : Fields) (kept : Items) → length (with_calls m kept) ≤ 1
unfolding with_calls
length-with_calls m nil = ground arith
length-with_calls m (cons tc tcs) = omega arith

length-repair_assistant :
    (valid : Ids) (m : Fields) (tcs : Items) → length (repair_assistant valid m tcs) ≤ 1
unfolding repair_assistant
length-repair_assistant valid m nil = omega arith
length-repair_assistant valid m (cons tc tcs) = length-with_calls m (keep_calls valid (cons tc tcs))

length-repair_message : (valid : Ids) (m : Fields) → length (repair_message valid m) ≤ 1
unfolding repair_message repair_tool
length-repair_message valid m =
    ground (arith, length-repair_assistant valid m (items_of (get "tool_calls" m)))

length-repair : (valid : Ids) (ms : List Fields) → length (repair valid ms) ≤ length ms
unfolding repair
length-repair valid [] = omega arith
length-repair valid (m ∷ ms) = omega (
  arith,
  length-append (repair_message valid m) (repair valid ms),
  length-repair_message valid m,
  length-repair valid ms,
)

length-repair_and_project : (ms : List Fields) → length (repair_and_project ms) ≤ length ms
unfolding repair_and_project repaired
length-repair_and_project ms = ground (
  arith,
  length-map project_message (if differs ms then repair (valid_ids ms) ms else ms),
  length-repair (valid_ids ms) ms,
)

length-from_user : (ms found : List Fields) → from_user ms ≡ some found → length found ≤ length ms
unfolding from_user
length-from_user [] found h = absurd (ground arith)
length-from_user (m ∷ ms) found h = elim (Bool-cases (role_is "user" m)) [
  | inl u ↦ let e : m ∷ ms ≡ found = some-injective _ _ (rw u at h) in rw (sym e) (omega arith)
  | inr u ↦ omega (arith, length-from_user ms found (rw u at h))
]

length-or_all : (ms : List Fields) → length (or_all ms (from_user ms)) ≤ length ms
length-or_all ms = elim (Option-cases (from_user ms)) [
  | inl e ↦ rw e (omega arith)
  | inr (found, e) ↦ rw e (length-from_user ms found e)
]

-- At most max_messages messages, where that is a positive int.
pub length-normalize_history :
    (ms : List Fields) (max_messages : ℕ)
    → slt 0 max_messages ≡ true
    → length (normalize_history ms max_messages) ≤ max_messages
unfolding normalize_history window
length-normalize_history ms max_messages h = ground (
  arith,
  h,
  length-repair_and_project (or_all (window ms max_messages) (from_user (window ms max_messages))),
  length-or_all (window ms max_messages),
  length-drop (length ms - max_messages) ms,
)
