-- ===== src/Session/Mend.antt =====
-- The second loop of RepairAndProject (conversation-file/session/manager.go): which calls and which
-- results it keeps.
use exoclaw_go.Prelude.{
  ◌≡◌, refl, sym, ap, ◌∙◌, String, Bool, true, false, ◌&&◌, ◌||◌, List, [], ◌∷◌, ◌++◌, str_eq,
  eq_iff, arith, any, Bool-cases, inl, inr,
}
use exoclaw_go.Prelude.Text.{is_empty, not_empty}
use exoclaw_go.Json.{
  Value, null, boolean, int, float, str, arr, maps, obj, Items, nil, cons, Fields, get, put, delete,
  str_of, items_of,
}
use exoclaw_go.Json.Lookup.{get-put, get-put_ne, get-delete, get-delete_ne}
use exoclaw_go.Session.Ids.{Ids, has}
use exoclaw_go.Session.Repair.{
  role_is, id_of, is_map, keep_calls, with_calls, repair_assistant, repair_tool, repair_message,
  repair,
}
use exoclaw_go.Session.Scan.{calls_have, declares, responds}

module _ (id : String) (proper : is_empty id ≡ false) where
  no_id : (v : Value) → is_map v ≡ false → str_eq (id_of v) id ≡ false
  no_id (obj tc) e = absurd (ground arith)
  no_id null e = not_empty id proper
  no_id (boolean b) e = not_empty id proper
  no_id (int n) e = not_empty id proper
  no_id (float n) e = not_empty id proper
  no_id (str s) e = not_empty id proper
  no_id (arr xs) e = not_empty id proper
  no_id (maps xs) e = not_empty id proper

  calls_have-keep_calls :
      (valid : Ids) (tcs : Items)
      → calls_have id (keep_calls valid tcs) ≡ (calls_have id tcs && has id valid)
  unfolding calls_have keep_calls
  calls_have-keep_calls valid nil = refl
  calls_have-keep_calls valid (cons tc tcs) = elim (Bool-cases (is_map tc)) [
    | inl e ↦ ground (arith, e, calls_have-keep_calls valid tcs, eq_iff (id_of tc) id)
    | inr e ↦ ground (arith, e, calls_have-keep_calls valid tcs, no_id tc e)
  ]

  -- A message with other calls has the role that it had.
  any-with_calls :
      (m : Fields) (tcs : Items)
      → role_is "assistant" m ≡ true
      → any (declares id) (with_calls m tcs) ≡ calls_have id tcs
  unfolding with_calls declares calls_have
  any-with_calls m nil h = ground (arith, get-delete "tool_calls" m)
  any-with_calls m (cons tc tcs) h = ground (
    arith,
    h,
    get-put "tool_calls" (arr (cons tc tcs)) m,
    get-put_ne "tool_calls" "role" (arr (cons tc tcs)) m refl,
  )

  any-append : (p : Fields → Bool) (xs ys : List Fields) → any p (xs ++ ys) ≡ (any p xs || any p ys)
  any-append p [] ys = refl
  any-append p (x ∷ xs) ys = ground (arith, any-append p xs ys)

  declares-other : (m : Fields) → role_is "tool" m ≡ true → declares id m ≡ false
  unfolding declares
  declares-other m h = rw ((eq_iff (str_of (get "role" m)) "tool").0 h) refl

  any-repair_assistant :
      (valid : Ids) (m : Fields)
      → role_is "assistant" m ≡ true
      → any (declares id) (repair_assistant valid m (items_of (get "tool_calls" m)))
        ≡ (declares id m && has id valid)
  unfolding repair_assistant declares calls_have
  any-repair_assistant valid m h = go (items_of (get "tool_calls" m)) refl
    where
      go :
          (tcs : Items)
          → items_of (get "tool_calls" m) ≡ tcs
          → any (declares id) (repair_assistant valid m tcs) ≡ (declares id m && has id valid)
      go nil e = rw (e, h) refl
      go (cons tc tcs) e = rw e (
          any-with_calls m (keep_calls valid (cons tc tcs)) h
          ∙ calls_have-keep_calls valid (cons tc tcs)
          ∙ ap (λ b. (b && calls_have id (cons tc tcs)) && has id valid) (sym h))

  no_calls : (m : Fields) → role_is "assistant" m ≡ false → declares id m ≡ false
  unfolding declares
  no_calls m a = rw a refl

  pub any-repair_message :
      (valid : Ids) (m : Fields)
      → any (declares id) (repair_message valid m) ≡ (declares id m && has id valid)
  unfolding repair_message repair_tool
  any-repair_message valid m = elim (Bool-cases (role_is "tool" m)) [
    | inl t ↦ rw t (ground (arith, declares-other m t))
    | inr t ↦ elim (Bool-cases (role_is "assistant" m)) [
      | inl a ↦ rw (t, a) (any-repair_assistant valid m a)
      | inr a ↦ rw (t, a) (ground (arith, no_calls m a))
    ]
  ]

  responds-other : (m : Fields) → role_is "assistant" m ≡ true → responds id m ≡ false
  unfolding responds
  responds-other m h = rw ((eq_iff (str_of (get "role" m)) "assistant").0 h) refl

  any-responds-with_calls :
      (m : Fields) (tcs : Items)
      → role_is "assistant" m ≡ true
      → any (responds id) (with_calls m tcs) ≡ false
  unfolding with_calls
  any-responds-with_calls m nil h = ground (
    arith,
    responds-other (delete "tool_calls" m)
        (ap (λ o. str_eq (str_of o) "assistant") (get-delete_ne "tool_calls" "role" m refl) ∙ h),
  )
  any-responds-with_calls m (cons tc tcs) h = ground (
    arith,
    responds-other (put "tool_calls" (arr (cons tc tcs)) m) (
        ap (λ o. str_eq (str_of o) "assistant")
          (get-put_ne "tool_calls" "role" (arr (cons tc tcs)) m refl)
        ∙ h),
  )

  any-responds-repair_assistant :
      (valid : Ids) (m : Fields) (tcs : Items)
      → role_is "assistant" m ≡ true
      → any (responds id) (repair_assistant valid m tcs) ≡ false
  unfolding repair_assistant
  any-responds-repair_assistant valid m nil h = ground (arith, responds-other m h)
  any-responds-repair_assistant valid m (cons tc tcs) h =
      any-responds-with_calls m (keep_calls valid (cons tc tcs)) h

  any-responds-repair_tool :
      (valid : Ids) (m : Fields)
      → role_is "tool" m ≡ true
      → any (responds id) (repair_tool valid m) ≡ (responds id m && has id valid)
  unfolding repair_tool responds
  any-responds-repair_tool valid m t =
      ground (arith, t, eq_iff (str_of (get "tool_call_id" m)) id, proper)

  no_result : (m : Fields) → role_is "tool" m ≡ false → responds id m ≡ false
  unfolding responds
  no_result m t = rw t refl

  pub any-responds-repair_message :
      (valid : Ids) (m : Fields)
      → any (responds id) (repair_message valid m) ≡ (responds id m && has id valid)
  unfolding repair_message
  any-responds-repair_message valid m = elim (Bool-cases (role_is "tool" m)) [
    | inl t ↦ rw t (any-responds-repair_tool valid m t)
    | inr t ↦ elim (Bool-cases (role_is "assistant" m)) [
      | inl a ↦
          rw (t, a)
            (ground (
              arith,
              responds-other m a,
              any-responds-repair_assistant valid m (items_of (get "tool_calls" m)) a,
            ))
      | inr a ↦ rw (t, a) (ground (arith, no_result m t))
    ]
  ]

  pub any-repair :
      (p : Fields → Bool) (valid : Ids)
      → ((m : Fields) → any p (repair_message valid m) ≡ (p m && has id valid))
      → (ms : List Fields) → any p (repair valid ms) ≡ (any p ms && has id valid)
  unfolding repair
  any-repair p valid each [] = refl
  any-repair p valid each (m ∷ ms) = ground (
    arith,
    any-append p (repair_message valid m) (repair valid ms),
    each m,
    any-repair p valid each ms,
  )
