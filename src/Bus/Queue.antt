-- ===== src/Bus/Queue.antt =====
-- MessageBus of exoclaw/bus/queue.go. A call that would block is no step; a call whose context is done
-- changes nothing and is no step either.
use exoclaw_go.Prelude.{
  ℕ, String, Bool, false, Option, none, some, List, [], ◌∷◌, ◌++◌, if◌then◌else◌, ltb, length,
  str_eq, ◌≡◌,
}
use exoclaw_go.Prelude.Text.{◌<>◌}
use exoclaw_go.Json.{Fields}

-- exoclaw/bus/events.go, without the time stamp
pub record InboundMessage : Type 0 where
  pub channel : String
  pub sender_id : String
  pub chat_id : String
  pub content : String
  pub media : List String
  pub metadata : Fields
  pub session_key_override : String
  pub model_override : String

pub record OutboundMessage : Type 0 where
  pub channel : String
  pub chat_id : String
  pub content : String
  pub reply_to : String
  pub media : List String
  pub metadata : Fields
  pub buttons : List (List String)

unfoldable pub session_key : InboundMessage → String
session_key m =
    if str_eq m.session_key_override ""
    then m.channel <> (":" <> m.chat_id)
    else m.session_key_override

abbrev pub capacity : ℕ
capacity = 1024

-- The channels with the oldest message first, and whether an inbound hook is installed.
pub record MessageBus : Type 0 where
  pub inbound : List InboundMessage
  pub outbound : List OutboundMessage
  pub has_hook : Bool

unfoldable pub new_message_bus : MessageBus
new_message_bus = record { inbound = []; outbound = []; has_hook = false }

unfoldable pub set_inbound_hook : Bool → MessageBus → MessageBus
set_inbound_hook installed b = record b { has_hook = installed }

-- What becomes of a message that is published.
pub data Published : Type 0 where
  handed_over : Published
  queued : MessageBus → Published
  blocked : Published

unfoldable pub publish_inbound : InboundMessage → MessageBus → Published
publish_inbound m b =
    if b.has_hook
    then handed_over
    else if ltb (length b.inbound) capacity
    then queued (record b { inbound = b.inbound ++ m ∷ [] })
    else blocked

unfoldable pub publish_outbound : OutboundMessage → MessageBus → Published
publish_outbound m b =
    if ltb (length b.outbound) capacity
    then queued (record b { outbound = b.outbound ++ m ∷ [] })
    else blocked

-- `x := <-ch`, and none where it blocks.
unfoldable pub receive : {A : Type 0} → List A → Option (A × List A)
receive [] = none
receive (x ∷ xs) = some (x, xs)

unfoldable pub consume_inbound : MessageBus → Option (InboundMessage × MessageBus)
consume_inbound b = elim (receive b.inbound) [
  | none ↦ none
  | some r ↦ some (r.0, record b { inbound = r.1 })
]

unfoldable pub consume_outbound : MessageBus → Option (OutboundMessage × MessageBus)
consume_outbound b = elim (receive b.outbound) [
  | none ↦ none
  | some r ↦ some (r.0, record b { outbound = r.1 })
]

-- The calls that returned, whichever goroutine made them.
pub data Event : Type 0 where
  sent_in received_in handed : InboundMessage → Event
  sent_out received_out : OutboundMessage → Event
  hook_set : Bool → Event

pub data Run : MessageBus → List Event → MessageBus → Type 0 where
  here : {b : MessageBus} → Run b [] b
  sends_in :
      {b c d : MessageBus} {es : List Event} (m : InboundMessage)
      → publish_inbound m b ≡ queued c
      → Run c es d
      → Run b (sent_in m ∷ es) d
  hands_over :
      {b d : MessageBus} {es : List Event} (m : InboundMessage)
      → publish_inbound m b ≡ handed_over
      → Run b es d
      → Run b (handed m ∷ es) d
  receives_in :
      {b c d : MessageBus} {es : List Event} (m : InboundMessage)
      → consume_inbound b ≡ some (m, c)
      → Run c es d
      → Run b (received_in m ∷ es) d
  sends_out :
      {b c d : MessageBus} {es : List Event} (m : OutboundMessage)
      → publish_outbound m b ≡ queued c
      → Run c es d
      → Run b (sent_out m ∷ es) d
  receives_out :
      {b c d : MessageBus} {es : List Event} (m : OutboundMessage)
      → consume_outbound b ≡ some (m, c)
      → Run c es d
      → Run b (received_out m ∷ es) d
  sets_hook :
      {b d : MessageBus} {es : List Event} (h : Bool)
      → Run (set_inbound_hook h b) es d
      → Run b (hook_set h ∷ es) d

unfoldable pub sent_inbound : List Event → List InboundMessage
sent_inbound [] = []
sent_inbound (sent_in m ∷ es) = m ∷ sent_inbound es
sent_inbound (_ ∷ es) = sent_inbound es

unfoldable pub received_inbound : List Event → List InboundMessage
received_inbound [] = []
received_inbound (received_in m ∷ es) = m ∷ received_inbound es
received_inbound (_ ∷ es) = received_inbound es
