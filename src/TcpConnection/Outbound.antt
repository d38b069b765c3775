-- ===== src/TcpConnection/Outbound.antt =====
-- The stream that the owner of a connection of libsponge/tcp_connection.cc writes.
use cs144_lab_assignment.Common.{
  ℕ, ◌+◌, ◌≤◌, ◌<◌, ◌^◌, ◌≡◌, refl, sym, subst, ◌∙◌, Bool, true, not, ◌&&◌, List, length, if_both,
  ltb, arith,
}
use cs144_lab_assignment.ByteStream.{ByteStream, set_error, end_input, write}
use cs144_lab_assignment.ByteStream.Valid as Stream
use cs144_lab_assignment.TcpConfig.{max_retx_attempts}
use cs144_lab_assignment.TcpSegment.{TcpSegment}
use cs144_lab_assignment.TcpReceiver.{TcpReceiver}
use cs144_lab_assignment.TcpReceiver
use cs144_lab_assignment.TcpSender.{TcpSender, fill_window}
use cs144_lab_assignment.TcpSender
use cs144_lab_assignment.TcpSender.Writer.{
  SameWriter, fill_window-SameWriter, ack_received-SameWriter, tick-SameWriter,
}
use cs144_lab_assignment.TcpConnection.{
  TcpConnection, collect_output, unclear_shutdown, send_empty_segment, give_up, test_end, route_ack,
  route_reply, route_open, segment_receive_route, segment_received, write_data, tick,
  end_input_stream, connect, destroy, listen, syn_sent, active, remaining_outbound_capacity,
}
use cs144_lab_assignment.TcpConnection.Shutdown.{rest_same}
use cs144_lab_assignment.TcpConnection.Valid.{
  Event, receives, writes_data, passes, ends_input, connects, destroys, pops, react,
}

-- The stream of the sender, as its writer sees it.
abbrev Same : TcpConnection → TcpConnection → Type 0
Same c c' = SameWriter c.sender.stream c'.sender.stream

give_up-Same : (c : TcpConnection) → Same c (give_up c)
unfolding give_up send_empty_segment TcpSender.send_empty_segment unclear_shutdown collect_output
    set_error
give_up-Same c =
    if_both (Same c) (ltb max_retx_attempts c.sender.consecutive_retransmissions)
      (λ _. (refl, refl)) λ _. (refl, refl)

sent-Same : (c : TcpConnection) → Same c (test_end (collect_output c))
unfolding test_end collect_output
sent-Same c =
    let c' : TcpConnection = collect_output c in
    let (e, _, _) = rest_same (give_up c') in
    subst (λ (s : TcpSender). SameWriter c.sender.stream s.stream) (sym e) (give_up-Same c')

route_ack-Same : (c : TcpConnection) (seg : TcpSegment) (b : Bool) → Same c (route_ack c seg b).0
unfolding route_ack
route_ack-Same c seg b =
    if_both (λ (o : TcpConnection × Bool). Same c o.0) seg.header.ack
      (λ _. ack_received-SameWriter c.sender seg.header.ackno seg.header.win) λ _. (refl, refl)

route_reply-Same :
    (c : TcpConnection) (seg : TcpSegment) (b : Bool)
    → (route_reply c seg b).sender.stream ≡ c.sender.stream
unfolding route_reply TcpSender.send_empty_segment
route_reply-Same c seg b = ground arith

route_open-Same : (c : TcpConnection) (seg : TcpSegment) → Same c (route_open c seg)
unfolding route_open
route_open-Same c seg =
    let receiver : TcpReceiver = (TcpReceiver.segment_received c.receiver seg).0 in
    let ok : Bool = (TcpReceiver.segment_received c.receiver seg).1 in
    let c' : TcpConnection = record c { receiver = receiver } in
    let routed : TcpConnection × Bool = route_ack c' seg (not ok) in
    if_both (Same c) (syn_sent c' && not ok) (λ _. (refl, refl))
      λ _.
        subst (SameWriter c.sender.stream) (sym (route_reply-Same routed.0 seg routed.1))
          (route_ack-Same c' seg (not ok))

route-Same : (c : TcpConnection) (seg : TcpSegment) → Same c (segment_receive_route c seg)
unfolding segment_receive_route unclear_shutdown set_error
route-Same c seg =
    if_both (Same c) (listen c)
      (λ _.
        if_both (Same c) (not seg.header.syn) (λ _. (refl, refl))
          λ _. fill_window-SameWriter c.sender)
      λ _. if_both (Same c) seg.header.rst (λ _. (refl, refl)) λ _. route_open-Same c seg

-- The end of the handlers behind a change of the sender.
after-Same :
    (b : ByteStream) (c : TcpConnection)
    → SameWriter b c.sender.stream
    → SameWriter b (test_end (collect_output c)).sender.stream
after-Same b c (w, e) = let (w', e') = sent-Same c in (w' ∙ w, e' ∙ e)

-- The events that are not the writer's.
abbrev pub NotWriter : Event → Type 0
NotWriter (writes_data text) = ⊥
NotWriter ends_input = ⊥
NotWriter _ = Unit {0}

-- What is not the writer's doing leaves the bytes written and the end of the input alone.
pub react-SameWriter :
    (c : TcpConnection) (e : Event)
    → NotWriter e
    → SameWriter c.sender.stream (react c e).sender.stream
unfolding react segment_received tick connect destroy collect_output send_empty_segment
    TcpSender.send_empty_segment unclear_shutdown set_error
react-SameWriter c (receives seg) n =
    after-Same c.sender.stream _
      (route-Same (record c { time_when_last_segment_received = c.now_time }) seg)
react-SameWriter c (writes_data text) n = elim n [ ]
react-SameWriter c (passes ms) n = after-Same c.sender.stream _ (tick-SameWriter c.sender ms)
react-SameWriter c ends_input n = elim n [ ]
react-SameWriter c connects n =
    if_both (Same c) (listen c) (λ _. fill_window-SameWriter c.sender) λ _. (refl, refl)
react-SameWriter c destroys n = if_both (Same c) (active c) (λ _. (refl, refl)) λ _. (refl, refl)
react-SameWriter c pops n = (refl, refl)

-- Ending the input marks the end and writes nothing.
pub end_input_stream_lem :
    (c : TcpConnection)
    → ((end_input_stream c).sender.stream.byte_written ≡ c.sender.stream.byte_written)
      × ((end_input_stream c).sender.stream.end ≡ true)
unfolding end_input_stream end_input
end_input_stream_lem c =
    let s = record c.sender { stream = end_input c.sender.stream } in
    after-Same s.stream _ (fill_window-SameWriter s)

-- A write of a text that the outbound capacity has room for takes all of it, and the end of the input
-- stays as it was.
pub write_data_lem :
    (c : TcpConnection) (text : List ℕ)
    → Stream.IsValid c.sender.stream
    → length text + c.sender.stream.byte_written < 2 ^ 64
    → length text ≤ remaining_outbound_capacity c
    → ((write_data c text).1 ≡ length text)
      × ((write_data c text).0.sender.stream.byte_written
          ≡ c.sender.stream.byte_written + length text)
      × ((write_data c text).0.sender.stream.end ≡ c.sender.stream.end)
unfolding write_data remaining_outbound_capacity
write_data_lem c text v small room =
    let w = Stream.write-Wrote text v (omega arith) (omega arith) in
    let cap = Stream.remaining_capacity-add v in
    let s : TcpSender = record c.sender { stream = (write c.sender.stream text).0 } in
    let (b, e) =
      after-Same s.stream (record c { sender = fill_window s }) (fill_window-SameWriter s) in
    (omega (arith, w.count), b ∙ omega (arith, w.written, w.count), e ∙ w.same_end)
