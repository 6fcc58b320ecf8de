-- ===== src/OpenAi/Same.antt =====
-- consumeOneShot and consumeSSEStream of providers/openai/provider.go agree on one chunk.
use exoclaw_go.Prelude.{
  ℕ, suc, ◌≤◌, ◌≡◌, refl, sym, ap, ap₂, ◌∙◌, String, true, false, Option, none, some, [], ◌∷◌,
  if-ind, ◌==◌, ==_iff, str_eq, arith,
}
use exoclaw_go.Prelude.Text.{is_empty, empty_eq, has_prefix, trim_space, skip_runes}
use exoclaw_go.Json.{
  Value, null, boolean, int, float, str, arr, maps, obj, Items, nil, cons, Fields, get, items_of,
  str_of,
}
use exoclaw_go.OpenAi.Response.{
  int_from_any, map_of, Slot, empty_slot, Slots, slot_at, put_slot, Collected, nothing_collected,
  take_usage, replace_text, append_text, build_response,
}
use exoclaw_go.OpenAi.Stream.{
  answered, or_empty_slot, merge_call, take_call, take_calls, take_choice, take_choices, take_chunk,
  lines, payload_of, process_line, process_lines, consume_arrival,
}
use exoclaw_go.OpenAi.OneShot.{
  slot_of, read_call, read_calls, read_choice, read_choices, read_body, consume_decoded,
  consume_body,
}
use text.Mathlib.TextLemmas.{nil-append}

-- The calls of a message from place `i` on, and the same calls in a delta, which carry their places as
-- `index`.
pub data SameCalls : ℕ → Items → Items → Type 0 where
  no_calls : {i : ℕ} → SameCalls i nil nil
  same_call :
      {i : ℕ} {b c : Fields} {bs cs : Items}
      → get "id" c ≡ get "id" b
      → get "function" c ≡ get "function" b
      → int_from_any (get "index" c) ≡ i
      → SameCalls (suc i) bs cs
      → SameCalls i (cons (obj b) bs) (cons (obj c) cs)

-- A choice with a message, and the same choice with a delta.
abbrev pub SameChoice : Fields → Fields → Type 0
SameChoice b c =
    let msg = map_of (get "message" b) in
    let delta = map_of (get "delta" c) in
    (get "content" delta ≡ get "content" msg)
    × (get "reasoning_content" delta ≡ get "reasoning_content" msg)
    × (get "finish_reason" c ≡ get "finish_reason" b)
    × SameCalls 0 (items_of (get "tool_calls" msg)) (items_of (get "tool_calls" delta))

replace_text-none : (o : Option Value) → replace_text o "" ≡ str_of o
unfolding replace_text
replace_text-none (some (str s)) =
    if-ind (λ t. t ≡ s) (is_empty s) "" s (λ e. sym (empty_eq s e)) (λ _. refl)
replace_text-none none = refl
replace_text-none (some null) = refl
replace_text-none (some (boolean b)) = refl
replace_text-none (some (int n)) = refl
replace_text-none (some (float n)) = refl
replace_text-none (some (arr xs)) = refl
replace_text-none (some (maps xs)) = refl
replace_text-none (some (obj fs)) = refl

append_text-none : (o : Option Value) → append_text o "" ≡ str_of o
unfolding append_text
append_text-none (some (str s)) = nil-append s
append_text-none none = refl
append_text-none (some null) = refl
append_text-none (some (boolean b)) = refl
append_text-none (some (int n)) = refl
append_text-none (some (float n)) = refl
append_text-none (some (arr xs)) = refl
append_text-none (some (maps xs)) = refl
append_text-none (some (obj fs)) = refl

merge_call-new : (tcm : Fields) → merge_call tcm empty_slot ≡ slot_of tcm
unfolding merge_call slot_of
merge_call-new tcm =
    let fn = map_of (get "function" tcm) in
    ap₂ (λ i n. record { id = i; name = n; args = append_text (get "arguments" fn) "" })
      (replace_text-none (get "id" tcm)) (replace_text-none (get "name" fn))
    ∙ ap (λ a. record { id = str_of (get "id" tcm); name = str_of (get "name" fn); args = a })
        (append_text-none (get "arguments" fn))

slot_of-same :
    (b c : Fields)
    → get "id" c ≡ get "id" b
    → get "function" c ≡ get "function" b
    → slot_of c ≡ slot_of b
unfolding slot_of
slot_of-same b c i f = rw (i, f) refl

slot_at-put_slot_ne :
    (i j : ℕ) (slot : Slot) (slots : Slots)
    → (i == j) ≡ false
    → slot_at j (put_slot i slot slots) ≡ slot_at j slots
unfolding slot_at put_slot
slot_at-put_slot_ne i j slot [] h = rw h refl
slot_at-put_slot_ne i j slot (e ∷ es) h =
    ground (arith, h, ==_iff e.0 i, ==_iff e.0 j, slot_at-put_slot_ne i j slot es h)

-- No slot has the place `i` or a later one.
abbrev IsFreshFrom : ℕ → Slots → Type 0
IsFreshFrom i slots = (j : ℕ) → i ≤ j → slot_at j slots ≡ none

take_calls-read_calls :
    {i : ℕ} {bs cs : Items} (slots : Slots)
    → SameCalls i bs cs
    → IsFreshFrom i slots
    → take_calls cs slots ≡ read_calls i bs slots
unfolding take_calls read_calls take_call read_call
take_calls-read_calls slots no_calls fresh = refl
take_calls-read_calls slots (same_call {i} {b} {c} {bs} {cs} id fn index rest) fresh =
    let new : merge_call c (or_empty_slot (slot_at i slots)) ≡ slot_of b =
      ap (λ o. merge_call c (or_empty_slot o)) (fresh i (omega arith))
      ∙ merge_call-new c
      ∙ slot_of-same b c id fn in
    rw (index, new)
      (take_calls-read_calls (put_slot i (slot_of b) slots) rest
        (λ j le. slot_at-put_slot_ne i j (slot_of b) slots (ground arith) ∙ fresh j (omega arith)))

take_choice-read_choice :
    (b c : Fields) (x : Collected)
    → SameChoice b c
    → x.tool_slots ≡ []
    → take_choice (obj c) x ≡ read_choice (obj b) x
unfolding take_choice read_choice slot_at
take_choice-read_choice b c x same empty =
    let calls = take_calls-read_calls x.tool_slots same.3 (λ j le. ap (slot_at j) empty) in
    rw (same.0, same.1, same.2, calls) refl

take_chunk-read_body :
    (body chunk b c : Fields)
    → get "usage" chunk ≡ get "usage" body
    → get "choices" body ≡ some (arr (cons (obj b) nil))
    → get "choices" chunk ≡ some (arr (cons (obj c) nil))
    → SameChoice b c
    → take_chunk chunk nothing_collected ≡ read_body body
unfolding take_chunk read_body take_choices read_choices
take_chunk-read_body body chunk b c u bs cs same =
    let used = record nothing_collected {
      usage = take_usage (get "usage" body) nothing_collected.usage;
    } in
    rw (u, bs, cs) (take_choice-read_choice b c used same refl)

module _ (decode : String → Option Fields) (short_tool_id : ℕ → String) where
  process_line-chunk :
      (line : String) (chunk : Fields) (c : Collected)
      → has_prefix "data:" line ≡ true
      → str_eq (payload_of decode short_tool_id line) "[DONE]" ≡ false
      → decode (payload_of decode short_tool_id line) ≡ some chunk
      → process_line decode short_tool_id line c ≡ (false, take_chunk chunk c)
  unfolding process_line
  process_line-chunk line chunk c p n k = rw (p, n, k) refl

  process_line-done :
      (c : Collected) → process_line decode short_tool_id "data: [DONE]" c ≡ (true, c)
  unfolding process_line has_prefix skip_runes trim_space
  process_line-done c = refl

  process_lines-one :
      (line : String) (chunk : Fields) (c : Collected)
      → process_line decode short_tool_id line c ≡ (false, take_chunk chunk c)
      → process_lines decode short_tool_id (line ∷ "data: [DONE]" ∷ []) c ≡ take_chunk chunk c
  unfolding process_lines
  process_lines-one line chunk c h = rw (h, process_line-done (take_chunk chunk c)) refl

  -- An answer of one choice gives the same response, whether it comes as the body of a one-shot
  -- answer or as one chunk of a stream, behind which comes the end mark: the same content, the same calls
  -- in the same order and the same usage.
  pub consume_body-consume_arrival :
      (raw line : String) (body chunk b c : Fields)
      → decode raw ≡ some body
      → has_prefix "data:" line ≡ true
      → str_eq (payload_of decode short_tool_id line) "[DONE]" ≡ false
      → decode (payload_of decode short_tool_id line) ≡ some chunk
      → get "usage" chunk ≡ get "usage" body
      → get "choices" body ≡ some (arr (cons (obj b) nil))
      → get "choices" chunk ≡ some (arr (cons (obj c) nil))
      → SameChoice b c
      → consume_body decode short_tool_id (some raw)
        ≡ consume_arrival decode short_tool_id (lines (line ∷ "data: [DONE]" ∷ []) none)
  unfolding consume_body consume_decoded consume_arrival
  consume_body-consume_arrival raw line body chunk b c d p n k u bs cs same =
      let line_taken = process_line-chunk line chunk nothing_collected p n k in
      let taken =
        process_lines-one line chunk nothing_collected line_taken
        ∙ take_chunk-read_body body chunk b c u bs cs same in
      ap (consume_decoded decode short_tool_id) d
      ∙ sym (ap (λ x. answered (build_response decode short_tool_id x)) taken)
