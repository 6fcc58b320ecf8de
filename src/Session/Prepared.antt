-- ===== src/Session/Prepared.antt =====
-- The messages that prepareTurn of conversation-file/conversation.go lets through.
use exoclaw_go.Prelude.{
  ◌≤◌, ◌≡◌, ◌≢◌, refl, ap, ◌∙◌, if-ind, String, Bool, true, false, ◌&&◌, ltb, ltb→ge, Option, none,
  some, List, [], ◌∷◌, str_eq, eq_iff, arith, All,
}
use exoclaw_go.Prelude.Text.{
  is_empty, has_prefix, after_blank_line, byte_len, take_bytes, trim_space, byte_len-take_bytes,
  byte_len-append,
}
use exoclaw_go.Json.{
  Value, null, boolean, int, float, str, arr, maps, obj, Items, nil, cons, Fields, get, put, str_of,
  items_of,
}
use exoclaw_go.Json.Lookup.{get-put, get-put_ne}
use exoclaw_go.Session.Repair.{role_is}
use exoclaw_go.Session.Prepare.{
  is_nil, prepare_assistant, truncate, prepare_tool, strip_context, filter_parts, with_parts,
  prepare_user, stamp, prepare_role, prepare_turn, stamped, tool_result_max_chars,
}

-- The limit, and the 16 bytes of the mark.
abbrev pub IsShort : Fields → Type 0
IsShort m = role_is "tool" m ≡ true → byte_len (str_of (get "content" m)) ≤ 516

abbrev pub IsTelling : Fields → Type 0
IsTelling m =
    role_is "assistant" m ≡ true
    → (is_empty (str_of (get "content" m)) && is_nil (items_of (get "tool_calls" m))) ≡ false

abbrev OnSome : (Fields → Type 0) → Option Fields → Type 0
OnSome P none = Unit
OnSome P (some m) = P m

byte_len-truncate : (s : String) → byte_len (truncate s) ≤ 516
unfolding truncate byte_len
byte_len-truncate s =
    if-ind (λ t. byte_len t ≤ 516) (ltb tool_result_max_chars (byte_len s)) _ s
      (λ _.
        omega (
          arith,
          byte_len-append (take_bytes 500 s) "\n... (truncated)",
          byte_len-take_bytes 500 s,
        ))
      (λ e. omega (arith, ltb→ge 500 (byte_len s) e))

role-put_content : (v : Value) (m : Fields) → get "role" (put "content" v m) ≡ get "role" m
role-put_content v m = get-put_ne "content" "role" v m refl

prepare_tool-short :
    (o : Option Value) (m : Fields)
    → get "content" m ≡ o
    → (byte_len (str_of (get "content" (prepare_tool o m))) ≤ 516)
      × (get "role" (prepare_tool o m) ≡ get "role" m)
unfolding prepare_tool byte_len
prepare_tool-short (some (str s)) m e =
    if-ind (λ out. (byte_len (str_of (get "content" out)) ≤ 516) × (get "role" out ≡ get "role" m))
      (ltb tool_result_max_chars (byte_len s)) (put "content" (str (truncate s)) m) m
      (λ _. (
        rw (get-put "content" (str (truncate s)) m) (byte_len-truncate s),
        role-put_content (str (truncate s)) m,
      ))
      (λ small. (rw e (omega (arith, ltb→ge 500 (byte_len s) small)), refl))
prepare_tool-short none m e = (rw e (omega arith), refl)
prepare_tool-short (some null) m e = (rw e (omega arith), refl)
prepare_tool-short (some (boolean b)) m e = (rw e (omega arith), refl)
prepare_tool-short (some (int n)) m e = (rw e (omega arith), refl)
prepare_tool-short (some (float n)) m e = (rw e (omega arith), refl)
prepare_tool-short (some (arr xs)) m e = (rw e (omega arith), refl)
prepare_tool-short (some (maps xs)) m e = (rw e (omega arith), refl)
prepare_tool-short (some (obj fs)) m e = (rw e (omega arith), refl)

abbrev SameRole : Fields → Fields → Type 0
SameRole m out = get "role" out ≡ get "role" m

strip_context-SameRole : (o : Option String) (m : Fields) → OnSome (SameRole m) (strip_context o m)
strip_context-SameRole none m = tt
strip_context-SameRole (some rest) m =
    if-ind (OnSome (SameRole m)) (is_empty (trim_space rest)) none _ (λ _. tt)
      (λ _. role-put_content (str rest) m)

with_parts-SameRole : (xs : Items) (m : Fields) → OnSome (SameRole m) (with_parts xs m)
unfolding with_parts
with_parts-SameRole nil m = tt
with_parts-SameRole (cons x xs) m = role-put_content (arr (cons x xs)) m

prepare_user-SameRole : (o : Option Value) (m : Fields) → OnSome (SameRole m) (prepare_user o m)
unfolding prepare_user
prepare_user-SameRole (some (str cv)) m =
    if-ind (OnSome (SameRole m)) (has_prefix _ cv) _ (some m)
      (λ _. strip_context-SameRole (after_blank_line cv) m) (λ _. refl)
prepare_user-SameRole (some (arr cv)) m = with_parts-SameRole (filter_parts cv) m
prepare_user-SameRole none m = refl
prepare_user-SameRole (some null) m = refl
prepare_user-SameRole (some (boolean b)) m = refl
prepare_user-SameRole (some (int n)) m = refl
prepare_user-SameRole (some (float n)) m = refl
prepare_user-SameRole (some (maps xs)) m = refl
prepare_user-SameRole (some (obj fs)) m = refl

abbrev IsKept : Fields → Type 0
IsKept m = IsShort m × IsTelling m

as-other :
    (role other : String) (m : Fields)
    → str_eq role other ≡ false
    → role_is role m ≡ true
    → role_is other m ≡ false
as-other role other m ne h = rw ((eq_iff (str_of (get "role" m)) role).0 h) ne

refuted : {A : Type 0} {b : Bool} → b ≡ false → b ≡ true → A
refuted f t = absurd (ground (arith, f, t))

-- A message with another role, whatever its content.
SameRole-IsKept :
    (m : Fields) (o : Option Fields)
    → role_is "assistant" m ≡ false
    → role_is "tool" m ≡ false
    → OnSome (SameRole m) o
    → OnSome IsKept o
SameRole-IsKept m none a t h = tt
SameRole-IsKept m (some out) a t h =
    let is : (role : String) → role_is role out ≡ role_is role m =
      λ role. ap (λ r. str_eq (str_of r) role) h in
    (refuted (is "tool" ∙ t), refuted (is "assistant" ∙ a))

prepare_role-IsKept : (m : Fields) → OnSome IsKept (prepare_role m)
unfolding prepare_role prepare_assistant
prepare_role-IsKept m =
    if-ind (OnSome IsKept) (role_is "assistant" m) _ _
      (λ a.
        if-ind (OnSome IsKept)
          (is_empty (str_of (get "content" m)) && is_nil (items_of (get "tool_calls" m))) none
          (some m) (λ _. tt)
          (λ telling. (refuted (as-other "assistant" "tool" m refl a), λ _. telling)))
      (λ na.
        if-ind (OnSome IsKept) (role_is "tool" m) _ _
          (λ t.
            let r = prepare_tool-short (get "content" m) m refl in
            ((λ _. r.0), refuted (ap (λ o. str_eq (str_of o) "assistant") r.1 ∙ na)))
          (λ nt.
            if-ind (OnSome IsKept) (role_is "user" m) _ _
              (λ _. SameRole-IsKept m _ na nt (prepare_user-SameRole (get "content" m) m))
              (λ _. SameRole-IsKept m (some m) na nt refl)))

abbrev pub IsPrepared : Fields → Type 0
IsPrepared m = (get "timestamp" m ≢ none) × IsShort m × IsTelling m

stamp-IsPrepared : (now : String) (m : Fields) → IsKept m → IsPrepared (stamp now m)
unfolding stamp
stamp-IsPrepared now m h = go (get "timestamp" m) refl
  where
    go :
        (o : Option Value)
        → get "timestamp" m ≡ o
        → IsPrepared (elim o [ none ↦ put "timestamp" (str now) m | some t ↦ m ])
    go none e =
        let same : (k : String)
            → str_eq "timestamp" k ≡ false
            → get k (put "timestamp" (str now) m) ≡ get k m =
          λ k. get-put_ne "timestamp" k (str now) m in
        (
          rw (get-put "timestamp" (str now) m) (λ q. cc),
          rw (same "role" refl, same "content" refl) h.0,
          rw (same "role" refl, same "content" refl, same "tool_calls" refl) h.1,
        )
    go (some t) e = (rw e (λ q. cc), h.0, h.1)

stamped-IsPrepared :
    (now : String) (o : Option Fields) (rest : List Fields)
    → OnSome IsKept o
    → All IsPrepared rest
    → All IsPrepared (stamped now o rest)
stamped-IsPrepared now none rest h r = r
stamped-IsPrepared now (some out) rest h r = (stamp-IsPrepared now out h, r)

-- Every message that goes to the session file has a timestamp; a tool's is 516 bytes of text at
-- most, and an assistant's has text or calls.
pub prepare_turn-IsPrepared :
    (now : String) (ms : List Fields) → All IsPrepared (prepare_turn now ms)
unfolding prepare_turn
prepare_turn-IsPrepared now [] = tt
prepare_turn-IsPrepared now (m ∷ ms) =
    stamped-IsPrepared now (prepare_role m) _ (prepare_role-IsKept m)
      (prepare_turn-IsPrepared now ms)
