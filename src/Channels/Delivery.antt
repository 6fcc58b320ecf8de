-- ===== src/Channels/Delivery.antt =====
-- The order of delivery in exoclaw/channels/manager.go.
use exoclaw_go.Prelude.{
  ◌≡◌, refl, sym, ap, ◌∙◌, some, List, [], ◌∷◌, ◌++◌, append_assoc, append-nil, arith,
}
use exoclaw_go.Bus.Queue.{
  OutboundMessage, MessageBus, queued, publish_outbound, receive, consume_outbound,
}
use exoclaw_go.Channels.Manager.{
  ChannelManager, dispatch_message, Flow, here, publishes, dispatches,
}

publish_outbound-outbound :
    (m : OutboundMessage) (b c : MessageBus)
    → publish_outbound m b ≡ queued c
    → c.outbound ≡ b.outbound ++ m ∷ []
unfolding publish_outbound
publish_outbound-outbound m b c h = ground arith

consume_outbound-outbound :
    (m : OutboundMessage) (b c : MessageBus)
    → consume_outbound b ≡ some (m, c)
    → b.outbound ≡ m ∷ c.outbound
unfolding consume_outbound receive
consume_outbound-outbound m b c h = ground arith

module _ {W : Type 0} (m : ChannelManager W) where
  -- One message behind the other, with nothing in between.
  abbrev pub deliver_all : List OutboundMessage → W → W
  deliver_all [] w = w
  deliver_all (msg ∷ ms) w = deliver_all ms (dispatch_message m msg w)

  -- However publishing and dispatching are interleaved, the channels end as if the first of the messages,
  -- those that were queued before and then the published ones, had been dispatched one behind the
  -- other in the order of their publishing, each once, and the rest of them is still in the queue.
  pub Flow-in_order :
      {b d : MessageBus} {w v : W} {ms : List OutboundMessage}
      → Flow m b w ms d v
      → (done : List OutboundMessage) × (b.outbound ++ ms ≡ done ++ d.outbound)
        × (v ≡ deliver_all done w)
  Flow-in_order {b} here = ([], append-nil b.outbound, refl)
  Flow-in_order (publishes {b} {c} {d} {w} {v} {ms} msg e r) =
      let (done, order, world) = Flow-in_order r in
      (
        done,
        sym (append_assoc b.outbound (msg ∷ []) ms)
            ∙ ap (λ q. q ++ ms) (sym (publish_outbound-outbound msg b c e))
            ∙ order,
        world,
      )
  Flow-in_order (dispatches {b} {c} {d} {w} {v} {ms} msg e r) =
      let (done, order, world) = Flow-in_order r in
      (
        msg ∷ done,
        ap (λ q. q ++ ms) (consume_outbound-outbound msg b c e) ∙ ap (◌∷◌ msg) order,
        world,
      )
