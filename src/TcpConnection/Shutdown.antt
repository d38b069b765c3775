-- ===== src/TcpConnection/Shutdown.antt =====
-- How a connection of libsponge/tcp_connection.cc ends.
use cs144_lab_assignment.Common.{
  ◌<◌, ◌≡◌, refl, ap, ◌∙◌, true, false, List, [], ◌∷◌, ◌++◌, lt→ltb, arith,
}
use cs144_lab_assignment.ByteStream.{set_error}
use cs144_lab_assignment.TcpConfig.{max_retx_attempts}
use cs144_lab_assignment.TcpSegment.{TcpSegment}
use cs144_lab_assignment.TcpReceiver.{TcpReceiver, stream_out}
use cs144_lab_assignment.TcpSender.{TcpSender}
use cs144_lab_assignment.TcpSender
use cs144_lab_assignment.TcpConnection.{
  TcpConnection, active, collect_output, unclear_shutdown, send_empty_segment, give_up,
  stop_lingering, finish, test_end, set_segment, route_ack, route_reply, route_open,
  segment_receive_route, segment_received, write_data, tick, end_input_stream, connect, destroy,
  listen,
}
use cs144_lab_assignment.TcpConnection.Valid.{
  Event, receives, writes_data, passes, ends_input, connects, destroys, pops, react,
}

-- The handlers' common end does not wake a connection up.
test_end-inactive : (c : TcpConnection) → active c ≡ false → active (test_end c) ≡ false
unfolding active test_end give_up stop_lingering finish unclear_shutdown send_empty_segment
    collect_output
test_end-inactive c h = ground arith

segment_receive_route-inactive :
    (c : TcpConnection) (seg : TcpSegment)
    → active c ≡ false
    → active (segment_receive_route c seg) ≡ false
unfolding active segment_receive_route route_open route_ack route_reply unclear_shutdown
segment_receive_route-inactive c seg h = ground arith

-- Once a connection is inactive, nothing makes it active again.
pub react-inactive : (c : TcpConnection) (e : Event) → active c ≡ false → active (react c e) ≡ false
unfolding react segment_received write_data tick end_input_stream connect destroy collect_output
    active
react-inactive c (receives seg) h = test_end-inactive _ (
    segment_receive_route-inactive (record c { time_when_last_segment_received = c.now_time }) seg
      h)
react-inactive c (writes_data text) h = test_end-inactive _ h
react-inactive c (passes ms) h = test_end-inactive _ h
react-inactive c ends_input h = test_end-inactive _ h
react-inactive c connects h = ground arith
react-inactive c destroys h = ground arith
react-inactive c pops h = h

-- What `test_end` does after `give_up` keeps the halves and the queue.
pub rest_same :
    (c : TcpConnection)
    → let c' = finish (stop_lingering c) in
      (c'.sender ≡ c.sender) × (c'.receiver ≡ c.receiver) × (c'.segments_out ≡ c.segments_out)
unfolding finish stop_lingering
rest_same c = (ground arith, ground arith, ground arith)

rest-inactive : (c : TcpConnection) → active c ≡ false → active (finish (stop_lingering c)) ≡ false
unfolding active finish stop_lingering
rest-inactive c h = ground arith

-- A connection after an error: not active, both streams in error, and one more segment, a reset.
pub record IsReset (queue : List TcpSegment) (c : TcpConnection) : Type 0 where
  pub inactive : active c ≡ false
  pub outbound : c.sender.stream.error ≡ true
  pub inbound : (stream_out c.receiver).error ≡ true
  pub last : TcpSegment
  pub queued : c.segments_out ≡ queue ++ last ∷ []
  pub reset : last.header.rst ≡ true

send-IsReset :
    (c : TcpConnection)
    → c.sender.segments_out ≡ []
    → IsReset c.segments_out (send_empty_segment (unclear_shutdown c))
unfolding send_empty_segment TcpSender.send_empty_segment collect_output unclear_shutdown
    set_segment set_error active
send-IsReset c h = rw h (record {
  inactive = refl;
  outbound = refl;
  inbound = refl;
  last = _;
  queued = refl;
  reset = refl;
})

-- After more than the allowed number of retransmissions the connection gives up: it is not active,
-- both of its streams are in error, and a reset is queued for the peer.
pub test_end-IsReset :
    (c : TcpConnection)
    → c.sender.segments_out ≡ []
    → max_retx_attempts < c.sender.consecutive_retransmissions
    → IsReset c.segments_out (test_end c)
unfolding test_end give_up
test_end-IsReset c h more =
    rw (lt→ltb _ _ more) (keep (send_empty_segment (unclear_shutdown c)) (send-IsReset c h))
  where
    keep :
        (d : TcpConnection)
        → IsReset c.segments_out d
        → IsReset c.segments_out (finish (stop_lingering d))
    keep d r =
        let (s, q, o) = rest_same d in
        record {
          inactive = rest-inactive d r.inactive;
          outbound = ap (λ (t : TcpSender). t.stream.error) s ∙ r.outbound;
          inbound = ap (λ (t : TcpReceiver). (stream_out t).error) q ∙ r.inbound;
          last = r.last;
          queued = o ∙ r.queued;
          reset = r.reset;
        }

-- Both streams are in error and the connection is not active.
abbrev pub Failed : TcpConnection → Type 0
Failed c =
    (active c ≡ false) × (c.sender.stream.error ≡ true) × ((stream_out c.receiver).error ≡ true)

test_end-Failed : (c : TcpConnection) → Failed c → Failed (test_end c)
test_end-Failed c (a, o, i) = (
  test_end-inactive c a,
  unfold test_end give_up stop_lingering finish unclear_shutdown send_empty_segment collect_output
        TcpSender.send_empty_segment set_error in
      ground arith,
  unfold test_end give_up stop_lingering finish unclear_shutdown send_empty_segment collect_output
        set_error in
      ground arith,
)

-- A reset from the peer, to a connection that does not listen: afterwards the connection is not active
-- and both of its streams are in error.
pub receive_reset :
    (c : TcpConnection) (seg : TcpSegment)
    → listen c ≡ false
    → seg.header.rst ≡ true
    → Failed (segment_received c seg)
unfolding segment_received segment_receive_route
receive_reset c seg h rst =
    let closed : listen (record c { time_when_last_segment_received = c.now_time }) ≡ false =
      unfold listen in h in
    rw (closed, rst)
      (test_end-Failed _
        (unfold collect_output unclear_shutdown set_error active in (refl, refl, refl)))
