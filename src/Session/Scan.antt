-- ===== src/Session/Scan.antt =====
-- The first loop of RepairAndProject (conversation-file/session/manager.go): which ids it collects.
use exoclaw_go.Prelude.{
  ◌≡◌, refl, if-ind, String, Bool, true, false, ◌&&◌, ◌||◌, List, [], ◌∷◌, if◌then◌else◌, str_eq,
  eq_iff, arith, any,
}
use exoclaw_go.Prelude.Text.{is_empty}
use exoclaw_go.Json.{Items, nil, cons, Fields, get, str_of, items_of}
use exoclaw_go.Session.Ids.{Ids, has, has-add, IsDistinct, add-IsDistinct, both-same}
use exoclaw_go.Session.Repair.{
  role_is, id_of, add_id, declare_calls, declared_ids, responded_ids, valid_ids, differs,
}

-- What the loop looks for, message by message.
unfoldable pub calls_have : String → Items → Bool
calls_have id nil = false
calls_have id (cons tc tcs) =
    let rest = calls_have id tcs in if str_eq (id_of tc) id then true else rest

unfoldable pub declares : String → Fields → Bool
declares id m = role_is "assistant" m && calls_have id (items_of (get "tool_calls" m))

unfoldable pub responds : String → Fields → Bool
responds id m = role_is "tool" m && str_eq (str_of (get "tool_call_id" m)) id

pub has-none : (id : String) → has id [] ≡ false
unfolding has
has-none id = refl

declare_calls-IsDistinct :
    (tcs : Items) (ids : Ids) → IsDistinct ids → IsDistinct (declare_calls tcs ids)
unfolding declare_calls
declare_calls-IsDistinct nil ids d = d
declare_calls-IsDistinct (cons tc tcs) ids d =
    declare_calls-IsDistinct tcs (add_id (id_of tc) ids)
      (if-ind IsDistinct (is_empty (id_of tc)) _ _ (λ _. d) (λ _. add-IsDistinct (id_of tc) ids d))

declared_ids-IsDistinct :
    (ms : List Fields) (ids : Ids) → IsDistinct ids → IsDistinct (declared_ids ms ids)
unfolding declared_ids
declared_ids-IsDistinct [] ids d = d
declared_ids-IsDistinct (m ∷ ms) ids d =
    declared_ids-IsDistinct ms _ (
      if-ind IsDistinct (role_is "assistant" m) _ _ (λ _. declare_calls-IsDistinct _ ids d)
        (λ _. d))

pub same_ids :
    (id : String) (ms : List Fields)
    → differs ms ≡ false
    → has id (declared_ids ms []) ≡ has id (responded_ids ms [])
unfolding differs valid_ids
same_ids id ms h =
    both-same (declared_ids ms []) (responded_ids ms []) id (declared_ids-IsDistinct ms [] tt)
      (ground arith) (ground arith)

module _ (id : String) (proper : is_empty id ≡ false) where
  has-add_id :
      (x : String) (ids : Ids) → has id (add_id x ids) ≡ (if str_eq x id then true else has id ids)
  has-add_id x ids = ground (arith, eq_iff x id, has-add x id ids)

  has-declare_calls :
      (tcs : Items) (ids : Ids) → has id (declare_calls tcs ids) ≡ (has id ids || calls_have id tcs)
  unfolding declare_calls calls_have
  has-declare_calls nil ids = ground arith
  has-declare_calls (cons tc tcs) ids =
      ground (arith, has-declare_calls tcs (add_id (id_of tc) ids), has-add_id (id_of tc) ids)

  pub has-declared_ids :
      (ms : List Fields) (ids : Ids)
      → has id (declared_ids ms ids) ≡ (has id ids || any (declares id) ms)
  unfolding declared_ids declares
  has-declared_ids [] ids = ground arith
  has-declared_ids (m ∷ ms) ids = ground (
    arith,
    has-declared_ids ms (declare_calls (items_of (get "tool_calls" m)) ids),
    has-declared_ids ms ids,
    has-declare_calls (items_of (get "tool_calls" m)) ids,
  )

  pub has-responded_ids :
      (ms : List Fields) (ids : Ids)
      → has id (responded_ids ms ids) ≡ (has id ids || any (responds id) ms)
  unfolding responded_ids responds
  has-responded_ids [] ids = ground arith
  has-responded_ids (m ∷ ms) ids = ground (
    arith,
    has-responded_ids ms (add_id (str_of (get "tool_call_id" m)) ids),
    has-responded_ids ms ids,
    has-add_id (str_of (get "tool_call_id" m)) ids,
  )
