-- ===== src/Bus/Order.antt =====
-- The inbound queue of exoclaw/bus/queue.go is first in, first out, and loses nothing.
use exoclaw_go.Prelude.{
  ◌≤◌, ◌≡◌, sym, ap, ◌∙◌, some, List, [], ◌∷◌, ◌++◌, append_assoc, append-nil, length,
  length-append, arith,
}
use exoclaw_go.Bus.Queue.{
  InboundMessage, OutboundMessage, MessageBus, new_message_bus, set_inbound_hook, capacity, queued,
  publish_inbound, publish_outbound, receive, consume_inbound, consume_outbound, Event, Run, here,
  sends_in, hands_over, receives_in, sends_out, receives_out, sets_hook, sent_inbound,
  received_inbound,
}

publish_inbound-queued :
    (m : InboundMessage) (b c : MessageBus)
    → publish_inbound m b ≡ queued c
    → (c.inbound ≡ b.inbound ++ m ∷ []) × (length c.inbound ≤ capacity)
unfolding publish_inbound
publish_inbound-queued m b c h = ground (arith, length-append b.inbound (m ∷ []))

consume_inbound-some :
    (m : InboundMessage) (b c : MessageBus)
    → consume_inbound b ≡ some (m, c)
    → b.inbound ≡ m ∷ c.inbound
unfolding consume_inbound receive
consume_inbound-some m b c h = ground arith

publish_outbound-queued :
    (m : OutboundMessage) (b c : MessageBus)
    → publish_outbound m b ≡ queued c
    → c.inbound ≡ b.inbound
unfolding publish_outbound
publish_outbound-queued m b c h = ground arith

consume_outbound-some :
    (m : OutboundMessage) (b c : MessageBus)
    → consume_outbound b ≡ some (m, c)
    → c.inbound ≡ b.inbound
unfolding consume_outbound receive
consume_outbound-some m b c h = ground arith

-- What was in the queue and what was sent, in this order, is what was received and what is left.
Run-balance :
    {b d : MessageBus} {es : List Event}
    → Run b es d
    → b.inbound ++ sent_inbound es ≡ received_inbound es ++ d.inbound
unfolding sent_inbound received_inbound set_inbound_hook
Run-balance here = append-nil _
Run-balance (sends_in {b} {c} {d} {es} m e r) =
    sym (append_assoc b.inbound (m ∷ []) (sent_inbound es))
    ∙ ap (λ q. q ++ sent_inbound es) (sym (publish_inbound-queued m b c e).0)
    ∙ Run-balance r
Run-balance (hands_over m e r) = Run-balance r
Run-balance (receives_in {b} {c} {d} {es} m e r) =
    ap (λ q. q ++ sent_inbound es) (consume_inbound-some m b c e) ∙ ap (◌∷◌ m) (Run-balance r)
Run-balance (sends_out {b} {c} {d} {es} m e r) =
    ap (λ q. q ++ sent_inbound es) (sym (publish_outbound-queued m b c e)) ∙ Run-balance r
Run-balance (receives_out {b} {c} {d} {es} m e r) =
    ap (λ q. q ++ sent_inbound es) (sym (consume_outbound-some m b c e)) ∙ Run-balance r
Run-balance (sets_hook h r) = Run-balance r

Run-bounded :
    {b d : MessageBus} {es : List Event}
    → Run b es d
    → length b.inbound ≤ capacity
    → length d.inbound ≤ capacity
unfolding set_inbound_hook
Run-bounded here h = h
Run-bounded (sends_in {b} {c} m e r) h = Run-bounded r (publish_inbound-queued m b c e).1
Run-bounded (hands_over m e r) h = Run-bounded r h
Run-bounded (receives_in {b} {c} m e r) h =
    Run-bounded r (omega (arith, h, ap length (consume_inbound-some m b c e)))
Run-bounded (sends_out {b} {c} m e r) h =
    Run-bounded r (omega (arith, h, ap length (publish_outbound-queued m b c e)))
Run-bounded (receives_out {b} {c} m e r) h =
    Run-bounded r (omega (arith, h, ap length (consume_outbound-some m b c e)))
Run-bounded (sets_hook g r) h = Run-bounded r h

-- From a new bus, whatever the order of the calls: the inbound messages that were received are the
-- first of those that were queued, in their order and each once, the rest of them is still in the
-- queue, and the queue never holds more than its capacity.
pub Run-in_order :
    {d : MessageBus} {es : List Event}
    → Run new_message_bus es d
    → (sent_inbound es ≡ received_inbound es ++ d.inbound) × (length d.inbound ≤ capacity)
unfolding new_message_bus
Run-in_order r = (Run-balance r, Run-bounded r (omega arith))
