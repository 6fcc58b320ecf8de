-- ===== src/Channels/Manager.antt =====
-- ChannelManager of exoclaw/channels/manager.go. Its map of channels is a list with one entry for a name,
-- over which a range goes in that order; the goroutine of the dispatcher is a flag.
use exoclaw_go.Prelude.{
  String, Bool, true, false, ◌&&◌, ◌≡◌, Option, none, some, List, [], ◌∷◌, if◌then◌else◌, str_eq,
}
use exoclaw_go.Prelude.Effects.{Exec}
use exoclaw_go.Json.{Value, boolean, get}
use exoclaw_go.Bus.Queue.{OutboundMessage, MessageBus, queued, publish_outbound, consume_outbound}

-- exoclaw/channels/protocol.go
pub record Channel (W : Type 0) : Type 0 where
  pub name : String
  pub start : Exec W (Unit {0})
  pub stop : Exec W (Unit {0})
  pub send : OutboundMessage → Exec W (Unit {0})

pub record ChannelManager (W : Type 0) : Type 0 where
  pub channels : List (Channel W)
  pub filter_tool_hints : Bool
  pub is_dispatching : Bool

abbrev is_true : Option Value → Bool
is_true (some (boolean b)) = b
is_true _ = false

-- A hint for the user about the tools that are called.
unfoldable pub is_tool_hint : OutboundMessage → Bool
is_tool_hint msg = is_true (get "_tool_hint" msg.metadata)

module _ {W : Type 0} where
  unfoldable pub put_channel : Channel W → List (Channel W) → List (Channel W)
  put_channel ch [] = ch ∷ []
  put_channel ch (c ∷ cs) =
      let rest = put_channel ch cs in if str_eq c.name ch.name then ch ∷ cs else c ∷ rest

  unfoldable pub put_channels : List (Channel W) → List (Channel W) → List (Channel W)
  put_channels [] old = old
  put_channels (ch ∷ chs) old = put_channels chs (put_channel ch old)

  unfoldable pub new_channel_manager : List (Channel W) → Bool → ChannelManager W
  new_channel_manager channels filter = record {
    channels = put_channels channels [];
    filter_tool_hints = filter;
    is_dispatching = false;
  }

  unfoldable pub register_channel : Channel W → ChannelManager W → ChannelManager W
  register_channel ch m = record m { channels = put_channel ch m.channels }

  unfoldable pub find_channel : String → List (Channel W) → Option (Channel W)
  find_channel name [] = none
  find_channel name (c ∷ cs) =
      let rest = find_channel name cs in if str_eq c.name name then some c else rest

  unfoldable pub get_channel : String → ChannelManager W → Option (Channel W)
  get_channel name m = find_channel name m.channels

  -- The errors of Start and Stop are only logged.
  unfoldable pub start_channels : List (Channel W) → W → W
  start_channels [] w = w
  start_channels (c ∷ cs) w = start_channels cs (c.start w).1

  unfoldable pub stop_channels : List (Channel W) → W → W
  stop_channels [] w = w
  stop_channels (c ∷ cs) w = stop_channels cs (c.stop w).1

  abbrev start_some : List (Channel W) → ChannelManager W × W → ChannelManager W × W
  start_some [] s = s
  start_some (c ∷ cs) s = (record s.0 { is_dispatching = true }, start_channels (c ∷ cs) s.1)

  unfoldable pub start_all : ChannelManager W × W → ChannelManager W × W
  start_all s = start_some s.0.channels s

  unfoldable pub stop_all : ChannelManager W × W → ChannelManager W × W
  stop_all s = (record s.0 { is_dispatching = false }, stop_channels s.0.channels s.1)

  abbrev send_to : OutboundMessage → W → Option (Channel W) → W
  send_to msg w none = w
  send_to msg w (some ch) = (ch.send msg w).1

  -- What dispatchOutbound does with a message that it consumed.
  unfoldable pub dispatch_message : ChannelManager W → OutboundMessage → W → W
  dispatch_message m msg w =
      if m.filter_tool_hints && is_tool_hint msg
      then w
      else send_to msg w (get_channel msg.channel m)

  -- Any order in which messages are published on the bus and the dispatcher consumes them: from a bus
  -- and a world, by publishing these messages, to a bus and a world.
  pub data Flow (m : ChannelManager W)
      : MessageBus → W → List OutboundMessage → MessageBus → W → Type 0 where
    here : {b : MessageBus} {w : W} → Flow m b w [] b w
    publishes :
        {b c d : MessageBus} {w v : W} {ms : List OutboundMessage} (msg : OutboundMessage)
        → publish_outbound msg b ≡ queued c
        → Flow m c w ms d v
        → Flow m b w (msg ∷ ms) d v
    dispatches :
        {b c d : MessageBus} {w v : W} {ms : List OutboundMessage} (msg : OutboundMessage)
        → consume_outbound b ≡ some (msg, c)
        → Flow m c (dispatch_message m msg w) ms d v
        → Flow m b w ms d v
