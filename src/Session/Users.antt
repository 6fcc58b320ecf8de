-- ===== src/Session/Users.antt =====
-- RepairAndProject of conversation-file/session/manager.go drops no message of a user or of the system.
use exoclaw_go.Prelude.{
  ◌≡◌, refl, sym, ap, ◌∙◌, if-ind, Bool, true, not, ◌&&◌, List, [], ◌∷◌, ◌++◌, map, if◌then◌else◌,
  str_eq, arith, keep, Bool-cases, inl, inr,
}
use exoclaw_go.Json.{arr, Items, nil, cons, Fields, get, put, delete, str_of, items_of}
use exoclaw_go.Json.Lookup.{get-put_ne, get-delete_ne}
use exoclaw_go.Session.Ids.{Ids}
use exoclaw_go.Session.Project.{role-project_message}
use exoclaw_go.Session.Repair.{
  role_is, keep_calls, with_calls, repair_assistant, repair_tool, repair_message, repair,
  project_message, valid_ids, differs, repaired, repair_and_project,
}

-- A message that is neither an assistant's nor a tool's.
abbrev pub is_other : Fields → Bool
is_other m = not (role_is "assistant" m) && not (role_is "tool" m)

keep-append : (p : Fields → Bool) (xs ys : List Fields) → keep p (xs ++ ys) ≡ keep p xs ++ keep p ys
keep-append p [] ys = refl
keep-append p (x ∷ xs) ys = ground (arith, keep-append p xs ys)

role_is-delete : (m : Fields) → role_is "assistant" (delete "tool_calls" m) ≡ role_is "assistant" m
role_is-delete m =
    ap (λ o. str_eq (str_of o) "assistant") (get-delete_ne "tool_calls" "role" m refl)

role_is-put :
    (tcs : Items) (m : Fields)
    → role_is "assistant" (put "tool_calls" (arr tcs) m) ≡ role_is "assistant" m
role_is-put tcs m =
    ap (λ o. str_eq (str_of o) "assistant") (get-put_ne "tool_calls" "role" (arr tcs) m refl)

keep-with_calls :
    (m : Fields) (tcs : Items)
    → role_is "assistant" m ≡ true
    → keep is_other (with_calls m tcs) ≡ []
unfolding with_calls
keep-with_calls m nil a = ground (arith, role_is-delete m, a)
keep-with_calls m (cons tc tcs) a = ground (arith, role_is-put (cons tc tcs) m, a)

keep-repair_assistant :
    (valid : Ids) (m : Fields) (tcs : Items)
    → role_is "assistant" m ≡ true
    → keep is_other (repair_assistant valid m tcs) ≡ []
unfolding repair_assistant
keep-repair_assistant valid m nil a = ground (arith, a)
keep-repair_assistant valid m (cons tc tcs) a = keep-with_calls m (keep_calls valid (cons tc tcs)) a

keep-repair_message :
    (valid : Ids) (m : Fields) → keep is_other (repair_message valid m) ≡ keep is_other (m ∷ [])
unfolding repair_message repair_tool
keep-repair_message valid m =
    ground (arith, keep-repair_assistant valid m (items_of (get "tool_calls" m)))

keep-repair : (valid : Ids) (ms : List Fields) → keep is_other (repair valid ms) ≡ keep is_other ms
unfolding repair
keep-repair valid [] = refl
keep-repair valid (m ∷ ms) =
    keep-append is_other (repair_message valid m) (repair valid ms)
    ∙ ap (λ l. keep is_other (repair_message valid m) ++ l) (keep-repair valid ms)
    ∙ ap (λ l. l ++ keep is_other ms) (keep-repair_message valid m)
    ∙ sym (keep-append is_other (m ∷ []) ms)

keep-project_message :
    (ms : List Fields)
    → keep is_other (map project_message ms) ≡ map project_message (keep is_other ms)
keep-project_message [] = refl
keep-project_message (m ∷ ms) =
    let same : is_other (project_message m) ≡ is_other m =
      ap (λ r. not (str_eq r "assistant") && not (str_eq r "tool")) (role-project_message m) in
    elim (Bool-cases (is_other m)) [
      | inl o ↦ rw (same, o, keep-project_message ms) refl
      | inr o ↦ rw (same, o, keep-project_message ms) refl
    ]

-- The messages that are neither an assistant's nor a tool's are all in what the model gets, in their
-- order, and each is only projected.
pub keep-repair_and_project :
    (ms : List Fields)
    → keep is_other (repair_and_project ms) ≡ map project_message (keep is_other ms)
unfolding repair_and_project repaired
keep-repair_and_project ms =
    keep-project_message (if differs ms then repair (valid_ids ms) ms else ms)
    ∙ ap (map project_message) (
        if-ind (λ l. keep is_other l ≡ keep is_other ms) (differs ms) (repair (valid_ids ms) ms) ms
          (λ _. keep-repair (valid_ids ms) ms) (λ _. refl))
