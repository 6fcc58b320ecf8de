-- ===== src/Bus/Examples.antt =====
-- A short run of the bus.
use exoclaw_go.Prelude.{false, ◌≤◌, ◌≡◌, refl, List, [], ◌∷◌, ◌++◌, length}
use exoclaw_go.Json.{end}
use exoclaw_go.Bus.Queue.{
  InboundMessage, MessageBus, new_message_bus, capacity, publish_inbound, consume_inbound, receive,
  Event, sent_in, received_in, Run, here, sends_in, receives_in, sent_inbound, received_inbound,
}
use exoclaw_go.Bus.Order.{Run-in_order}

abbrev hello : InboundMessage
hello = record {
  channel = "cli";
  sender_id = "u";
  chat_id = "c";
  content = "hello";
  media = [];
  metadata = end;
  session_key_override = "";
  model_override = "";
}

abbrev events : List Event
events = sent_in hello ∷ sent_in hello ∷ received_in hello ∷ []

abbrev holding : List InboundMessage → MessageBus
holding ms = record { inbound = ms; outbound = []; has_hook = false }

two_sent_one_received : Run new_message_bus events (holding (hello ∷ []))
unfolding new_message_bus publish_inbound consume_inbound receive
two_sent_one_received = sends_in {c = holding (hello ∷ [])} hello refl (
    sends_in {c = holding (hello ∷ hello ∷ [])} hello refl
      (receives_in {c = holding (hello ∷ [])} hello refl here))

Run-in_order_example :
    (sent_inbound events ≡ received_inbound events ++ (hello ∷ []))
    × (length (hello ∷ []) ≤ capacity)
Run-in_order_example = Run-in_order two_sent_one_received
