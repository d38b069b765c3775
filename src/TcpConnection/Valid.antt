-- ===== src/TcpConnection/Valid.antt =====
-- The sending half of a connection of libsponge/tcp_connection.cc under all that is done to it.
use cs144_lab_assignment.Common.{
  ℕ, ◌<◌, ◌^◌, ◌≡◌, refl, ap, sym, subst, ◌∙◌, Bool, not, ◌&&◌, List, [], ◌∷◌, if_both, arith,
}
use cs144_lab_assignment.TcpSegment.{TcpSegment}
use cs144_lab_assignment.TcpReceiver.{TcpReceiver}
use cs144_lab_assignment.TcpReceiver
use cs144_lab_assignment.TcpConfig.{TcpConfig}
use cs144_lab_assignment.WrappingIntegers.{WrappingInt32}
use cs144_lab_assignment.TcpSender.{TcpSender}
use cs144_lab_assignment.TcpSender
use cs144_lab_assignment.TcpSender.Valid as Sender
use cs144_lab_assignment.TcpSender.Calls.{
  Call, call, writes, ends, fails, fills, empties, takes, acks, ticks, call-IsValid, Allowed,
}
use cs144_lab_assignment.TcpConnection.{
  TcpConnection, init, collect_output, unclear_shutdown, send_empty_segment, give_up,
  stop_lingering, finish, test_end, route_ack, route_reply, route_open, segment_receive_route,
  segment_received, write_data, tick, end_input_stream, connect, destroy, listen, syn_sent,
}

-- The invariants of the sender and of its timer.
abbrev pub SenderIsValid : TcpSender → Type 0
SenderIsValid s = Sender.IsValid s × Sender.IsTimed s

-- A valid sender, whose segments have all been passed on.
pub record IsValid (c : TcpConnection) : Type 0 where
  pub sender : SenderIsValid c.sender
  pub handed : c.sender.segments_out ≡ []

-- A call of the sender.
called : (s : TcpSender) (a : Call) → SenderIsValid s → Allowed s a → SenderIsValid (call s a)
called s a v h = call-IsValid s a v.0 v.1 h

collect_output-IsValid : (c : TcpConnection) → SenderIsValid c.sender → IsValid (collect_output c)
unfolding collect_output call
collect_output-IsValid c v = record { sender = called c.sender takes v tt; handed = refl }

send_empty_segment-IsValid :
    (c : TcpConnection) → SenderIsValid c.sender → IsValid (send_empty_segment c)
unfolding send_empty_segment call
send_empty_segment-IsValid c v = collect_output-IsValid _ (called c.sender empties v tt)

unclear_shutdown-IsValid :
    (c : TcpConnection) → SenderIsValid c.sender → SenderIsValid (unclear_shutdown c).sender
unfolding unclear_shutdown call
unclear_shutdown-IsValid c v = called c.sender fails v tt

give_up-IsValid : (c : TcpConnection) → IsValid c → IsValid (give_up c)
unfolding give_up
give_up-IsValid c v =
    if_both IsValid _
      (λ _. send_empty_segment-IsValid (unclear_shutdown c) (unclear_shutdown-IsValid c v.sender))
      λ _. v

IsValid_same : (c c' : TcpConnection) → c'.sender ≡ c.sender → IsValid c → IsValid c'
IsValid_same c c' e v = record {
  sender = subst SenderIsValid (sym e) v.sender;
  handed = ap (λ (s : TcpSender). s.segments_out) e ∙ v.handed;
}

stop_lingering-IsValid : (c : TcpConnection) → IsValid c → IsValid (stop_lingering c)
unfolding stop_lingering
stop_lingering-IsValid c v = IsValid_same c _ (ground arith) v

finish-IsValid : (c : TcpConnection) → IsValid c → IsValid (finish c)
unfolding finish
finish-IsValid c v = IsValid_same c _ (ground arith) v

test_end-IsValid : (c : TcpConnection) → IsValid c → IsValid (test_end c)
unfolding test_end
test_end-IsValid c v =
    finish-IsValid (stop_lingering (give_up c))
      (stop_lingering-IsValid (give_up c) (give_up-IsValid c v))

-- The common end of the handlers.
sent-IsValid : (c : TcpConnection) → SenderIsValid c.sender → IsValid (test_end (collect_output c))
sent-IsValid c v = test_end-IsValid (collect_output c) (collect_output-IsValid c v)

route_ack-IsValid :
    (c : TcpConnection) (seg : TcpSegment) (should_send : Bool)
    → SenderIsValid c.sender
    → seg.header.win < 2 ^ 16
    → SenderIsValid (route_ack c seg should_send).0.sender
unfolding route_ack call
route_ack-IsValid c seg should_send v h =
    if_both (λ (o : TcpConnection × Bool). SenderIsValid o.0.sender) seg.header.ack
      (λ _. called c.sender (acks seg.header.ackno seg.header.win) v h) λ _. v

route_reply-IsValid :
    (c : TcpConnection) (seg : TcpSegment) (should_send : Bool)
    → SenderIsValid c.sender
    → SenderIsValid (route_reply c seg should_send).sender
unfolding route_reply call
route_reply-IsValid c seg should_send v =
    if_both (λ (o : TcpConnection). SenderIsValid o.sender) _ (λ _. called c.sender empties v tt)
      λ _. v

route_open-IsValid :
    (c : TcpConnection) (seg : TcpSegment)
    → SenderIsValid c.sender
    → seg.header.win < 2 ^ 16
    → SenderIsValid (route_open c seg).sender
unfolding route_open
route_open-IsValid c seg v h =
    let receiver : TcpReceiver = (TcpReceiver.segment_received c.receiver seg).0 in
    let ok : Bool = (TcpReceiver.segment_received c.receiver seg).1 in
    let c' : TcpConnection = record c { receiver = receiver } in
    if_both (λ (o : TcpConnection). SenderIsValid o.sender) (syn_sent c' && not ok) (λ _. v)
      λ _. route_reply-IsValid _ seg _ (route_ack-IsValid c' seg (not ok) v h)

segment_receive_route-IsValid :
    (c : TcpConnection) (seg : TcpSegment)
    → SenderIsValid c.sender
    → seg.header.win < 2 ^ 16
    → SenderIsValid (segment_receive_route c seg).sender
unfolding segment_receive_route call
segment_receive_route-IsValid c seg v h =
    let P : TcpConnection → Type 0 = λ o. SenderIsValid o.sender in
    if_both P (listen c)
      (λ _. if_both P (not seg.header.syn) (λ _. v) λ _. called c.sender fills v tt)
      λ _.
        if_both P seg.header.rst (λ _. unclear_shutdown-IsValid c v)
          λ _. route_open-IsValid c seg v h

-- What is done to a connection. A write is one of an owner who has not ended the stream.
pub data Event : Type 0 where
  receives : TcpSegment → Event
  writes_data : List ℕ → Event
  passes : ℕ → Event
  ends_input connects destroys pops : Event

unfoldable pub react : TcpConnection → Event → TcpConnection
react c (receives seg) = segment_received c seg
react c (writes_data text) = (write_data c text).0
react c (passes ms) = tick c ms
react c ends_input = end_input_stream c
react c connects = connect c
react c destroys = destroy c
react c pops = record c { segments_out = [] }

-- Windows of 16 bits; a stream that is still open and shorter than the sequence numbers count.
abbrev pub Permitted : TcpConnection → Event → Type 0
Permitted c (receives seg) = seg.header.win < 2 ^ 16
Permitted c (writes_data text) = Allowed c.sender (writes text)
Permitted c _ = Unit {0}

-- Every permitted event keeps the sender and its timer valid, and leaves no segment in the sender's own
-- queue.
pub react-IsValid :
    (c : TcpConnection) (e : Event) → IsValid c → Permitted c e → IsValid (react c e)
unfolding react segment_received write_data tick end_input_stream connect destroy call
react-IsValid c (receives seg) v h = sent-IsValid _ (segment_receive_route-IsValid _ seg v.sender h)
react-IsValid c (writes_data text) v h =
    sent-IsValid _ (called _ fills (called c.sender (writes text) v.sender h) tt)
react-IsValid c (passes ms) v h = sent-IsValid _ (called c.sender (ticks ms) v.sender tt)
react-IsValid c ends_input v h =
    sent-IsValid _ (called _ fills (called c.sender ends v.sender tt) tt)
react-IsValid c connects v h =
    if_both IsValid (listen c) (λ _. collect_output-IsValid _ (called c.sender fills v.sender tt))
      λ _. v
react-IsValid c destroys v h =
    if_both IsValid _
      (λ _. send_empty_segment-IsValid (unclear_shutdown c) (unclear_shutdown-IsValid c v.sender))
      λ _. v
react-IsValid c pops v h = record { sender = v.sender; handed = v.handed }

unfoldable pub react_all : TcpConnection → List Event → TcpConnection
react_all c [] = c
react_all c (e ∷ es) = react_all (react c e) es

abbrev pub AllPermitted : TcpConnection → List Event → Type 0
AllPermitted c [] = Unit {0}
AllPermitted c (e ∷ es) = Permitted c e × AllPermitted (react c e) es

react_all-IsValid :
    (es : List Event) (c : TcpConnection) → IsValid c → AllPermitted c es → IsValid (react_all c es)
unfolding react_all
react_all-IsValid [] c v h = v
react_all-IsValid (e ∷ es) c v h = react_all-IsValid es (react c e) (react-IsValid c e v h.0) h.1

-- From a new connection, of a sending capacity below 2 ^ 64, through any permitted events (segments of
-- any content, writes, time, the end of the input, connecting and destroying): the sender's invariant
-- holds, its timer runs exactly while a segment is outstanding, and no segment stays in the sender's
-- own queue.
pub react_all-init-IsValid :
    (cfg : TcpConfig) (random : WrappingInt32) (es : List Event)
    → cfg.send_capacity < 2 ^ 64
    → AllPermitted (init cfg random) es
    → IsValid (react_all (init cfg random) es)
react_all-init-IsValid cfg random es h p =
    react_all-IsValid es (init cfg random)
      (unfold init in
        record {
          sender = Sender.init-IsValid cfg.send_capacity cfg.rt_timeout cfg.fixed_isn random h;
          handed = unfold TcpSender.init in refl;
        })
      p
