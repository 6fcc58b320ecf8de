-- ===== src/Channels/Examples.antt =====
-- Two messages through a channel.
use exoclaw_go.Prelude.{◌≡◌, refl, true, false, List, [], ◌∷◌, ◌++◌}
use exoclaw_go.Prelude.Effects.{ok}
use exoclaw_go.Json.{boolean, end, field, get}
use exoclaw_go.Bus.Queue.{
  OutboundMessage, MessageBus, new_message_bus, publish_outbound, receive, consume_outbound,
}
use exoclaw_go.Channels.Manager.{
  Channel, ChannelManager, get_channel, find_channel, is_tool_hint, dispatch_message, Flow, here,
  publishes, dispatches,
}
use exoclaw_go.Channels.Delivery.{deliver_all, Flow-in_order}

-- A channel that keeps what it sends.
abbrev cli : Channel (List OutboundMessage)
cli = record {
  name = "cli";
  start = λ w. (ok tt, w);
  stop = λ w. (ok tt, w);
  send = λ msg w. (ok tt, w ++ msg ∷ []);
}

abbrev manager : ChannelManager (List OutboundMessage)
manager = record { channels = cli ∷ []; filter_tool_hints = true; is_dispatching = true }

abbrev answer : OutboundMessage
answer = record {
  channel = "cli";
  chat_id = "c";
  content = "done";
  reply_to = "";
  media = [];
  metadata = end;
  buttons = [];
}

abbrev tool_hint : OutboundMessage
tool_hint = record answer { metadata = field "_tool_hint" (boolean true) end }

abbrev holding : List OutboundMessage → MessageBus
holding ms = record { inbound = []; outbound = ms; has_hook = false }

-- The hint is dropped, and the answer is sent.
hint_then_answer :
    Flow manager new_message_bus [] (tool_hint ∷ answer ∷ []) (holding []) (answer ∷ [])
unfolding new_message_bus publish_outbound consume_outbound receive dispatch_message is_tool_hint
    get get_channel find_channel
hint_then_answer = publishes {c = holding (tool_hint ∷ [])} tool_hint refl (
    dispatches {c = holding []} tool_hint refl (
      publishes {c = holding (answer ∷ [])} answer refl
        (dispatches {c = holding []} answer refl here)))

Flow-in_order_example :
    (done : List OutboundMessage) × ((tool_hint ∷ answer ∷ []) ≡ done ++ [])
    × ((answer ∷ []) ≡ deliver_all manager done [])
unfolding new_message_bus
Flow-in_order_example = Flow-in_order manager hint_then_answer
