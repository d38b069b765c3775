-- ===== src/TcpConnection.antt =====
-- libsponge/tcp_connection.hh and tcp_connection.cc: both halves of a connection. The debugger, which
-- only prints, is left out; so is what the destructor prints.
pub mod Valid
pub mod Shutdown
pub mod Inbound
pub mod Outbound
pub mod Lingering
use cs144_lab_assignment.Common.{
  ℕ, ◌+◌, ◌*◌, Bool, true, false, not, ◌&&◌, ◌||◌, List, [], ◌++◌, map, none, some, ltb, leb,
  if◌then◌else◌, add64, sub64,
}
use cs144_lab_assignment.WrappingIntegers.{WrappingInt32}
use cs144_lab_assignment.ByteStream.{set_error, end_input, write, eof, remaining_capacity}
use cs144_lab_assignment.TcpConfig.{TcpConfig, max_retx_attempts}
use cs144_lab_assignment.TcpSegment.{TcpSegment, length_in_sequence_space}
use cs144_lab_assignment.TcpReceiver.{TcpReceiver, fin_recv, syn_recv}
use cs144_lab_assignment.TcpReceiver
use cs144_lab_assignment.TcpSender.{
  TcpSender, fill_window, ack_received, fin_acked, fin_sent, syn_acked, closed, is_empty,
}
use cs144_lab_assignment.TcpSender

pub record TcpConnection : Type 0 where
  pub cfg : TcpConfig
  pub receiver : TcpReceiver
  pub sender : TcpSender
  pub is_unclear_shutdown : Bool
  pub is_clear_shutdown : Bool
  pub now_time : ℕ
  pub time_when_last_segment_received : ℕ
  pub segments_out : List TcpSegment
  pub linger_after_streams_finish : Bool

-- `TCPConnection(cfg)`; `random` is what `random_device` gives the sender.
unfoldable pub init : TcpConfig → WrappingInt32 → TcpConnection
init cfg random = record {
  cfg = cfg;
  receiver = TcpReceiver.init cfg.recv_capacity;
  sender = TcpSender.init cfg.send_capacity cfg.rt_timeout cfg.fixed_isn random;
  is_unclear_shutdown = false;
  is_clear_shutdown = false;
  now_time = 0;
  time_when_last_segment_received = 0;
  segments_out = [];
  linger_after_streams_finish = true;
}

-- `LISTEN()`
unfoldable pub listen : TcpConnection → Bool
listen c = TcpReceiver.listen c.receiver && closed c.sender

-- `SYN_RCVD()`
unfoldable pub syn_rcvd : TcpConnection → Bool
syn_rcvd c = syn_recv c.receiver && TcpSender.syn_sent c.sender

-- `SYN_SENT()`
unfoldable pub syn_sent : TcpConnection → Bool
syn_sent c = TcpReceiver.listen c.receiver && TcpSender.syn_sent c.sender

-- `ESTABLISHED()`
unfoldable pub established : TcpConnection → Bool
established c = syn_recv c.receiver && syn_acked c.sender

-- `CLOSE_WAIT()`
unfoldable pub close_wait : TcpConnection → Bool
close_wait c = fin_recv c.receiver && syn_acked c.sender && not c.linger_after_streams_finish

-- `LAST_ACK()`
unfoldable pub last_ack : TcpConnection → Bool
last_ack c = fin_recv c.receiver && fin_sent c.sender && not c.linger_after_streams_finish

-- `CLOSING()`
unfoldable pub closing : TcpConnection → Bool
closing c = fin_recv c.receiver && fin_sent c.sender

-- `FIN_WAIT_1()`
unfoldable pub fin_wait_1 : TcpConnection → Bool
fin_wait_1 c = syn_recv c.receiver && fin_sent c.sender

-- `FIN_WAIT_2()`
unfoldable pub fin_wait_2 : TcpConnection → Bool
fin_wait_2 c = syn_recv c.receiver && fin_acked c.sender

-- `TIME_WAIT()`
unfoldable pub time_wait : TcpConnection → Bool
time_wait c = fin_recv c.receiver && fin_acked c.sender

unfoldable pub active : TcpConnection → Bool
active c = not (c.is_unclear_shutdown || c.is_clear_shutdown)

unfoldable pub time_since_last_segment_received : TcpConnection → ℕ
time_since_last_segment_received c = sub64 c.now_time c.time_when_last_segment_received

unfoldable pub remaining_outbound_capacity : TcpConnection → ℕ
remaining_outbound_capacity c = remaining_capacity c.sender.stream

unfoldable pub bytes_in_flight : TcpConnection → ℕ
bytes_in_flight c = c.sender.bytes_in_flight

unfoldable pub unassembled_bytes : TcpConnection → ℕ
unassembled_bytes c = TcpReceiver.unassembled_bytes c.receiver

-- `numeric_limits<uint16_t>::max()`
abbrev pub max_window : ℕ
max_window = 0xffff

-- The window that a header can advertise.
abbrev pub advertised : ℕ → ℕ
advertised window = if leb max_window window then max_window else window

-- `set_segment`. When the receiver does not listen, its `ackno()` has a value.
unfoldable pub set_segment : TcpConnection → TcpSegment → TcpSegment
set_segment c seg =
    if c.is_unclear_shutdown
    then record seg { header = record seg.header { rst = true } }
    else elim (TcpReceiver.ackno c.receiver) [
      | none ↦ seg
      | some ackno ↦ record seg {
        header = record seg.header {
          ack = true;
          ackno = ackno;
          win = advertised (TcpReceiver.window_size c.receiver);
        };
      }
    ]

unfoldable pub collect_output : TcpConnection → TcpConnection
collect_output c = record c {
  segments_out = c.segments_out ++ map (set_segment c) c.sender.segments_out;
  sender = record c.sender { segments_out = [] };
}

-- `_receiver.stream_out().set_error()`
abbrev pub receiver_error : TcpReceiver → TcpReceiver
receiver_error r = record r {
  reassembler = record r.reassembler { output = set_error r.reassembler.output };
}

unfoldable pub unclear_shutdown : TcpConnection → TcpConnection
unclear_shutdown c = record c {
  sender = record c.sender { stream = set_error c.sender.stream };
  receiver = receiver_error c.receiver;
  is_unclear_shutdown = true;
}

unfoldable pub send_empty_segment : TcpConnection → TcpConnection
send_empty_segment c = collect_output (record c { sender = TcpSender.send_empty_segment c.sender })

-- The three statements of `test_end`, in order.
unfoldable pub give_up : TcpConnection → TcpConnection
give_up c =
    if ltb max_retx_attempts c.sender.consecutive_retransmissions
    then send_empty_segment (unclear_shutdown c)
    else c

unfoldable pub stop_lingering : TcpConnection → TcpConnection
stop_lingering c =
    if not (eof c.sender.stream) && fin_recv c.receiver
    then record c { linger_after_streams_finish = false }
    else c

unfoldable pub finish : TcpConnection → TcpConnection
finish c =
    if time_wait c
    then record c {
      is_clear_shutdown =
          c.is_clear_shutdown
          || (not c.linger_after_streams_finish
              || leb (10 * c.cfg.rt_timeout) (time_since_last_segment_received c));
    }
    else c

unfoldable pub test_end : TcpConnection → TcpConnection
test_end c = finish (stop_lingering (give_up c))

-- The parts of `segment_receive_route` for a connection that is open: the acknowledgment, with the
-- flag `should_send_empty_segment`, and the empty segment at the end.
unfoldable pub route_ack : TcpConnection → TcpSegment → Bool → TcpConnection × Bool
route_ack c seg should_send =
    let (sender, ok) = ack_received c.sender seg.header.ackno seg.header.win in
    if seg.header.ack
    then (record c { sender = sender }, (should_send || not ok))
    else (c, should_send)

unfoldable pub route_reply : TcpConnection → TcpSegment → Bool → TcpConnection
route_reply c seg should_send =
    if (should_send || ltb 0 (length_in_sequence_space seg)) && is_empty c.sender.segments_out
    then record c { sender = TcpSender.send_empty_segment c.sender }
    else c

unfoldable pub route_open : TcpConnection → TcpSegment → TcpConnection
route_open c seg =
    let (receiver, ok) = TcpReceiver.segment_received c.receiver seg in
    let c' = record c { receiver = receiver } in
    let (c'', should_send) = route_ack c' seg (not ok) in
    if syn_sent c' && not ok then c' else route_reply c'' seg should_send

unfoldable pub segment_receive_route : TcpConnection → TcpSegment → TcpConnection
segment_receive_route c seg =
    if listen c
    then (if not seg.header.syn then c else record c {
      receiver = (TcpReceiver.segment_received c.receiver seg).0;
      sender = fill_window c.sender;
    })
    else if seg.header.rst
    then unclear_shutdown c
    else route_open c seg

unfoldable pub segment_received : TcpConnection → TcpSegment → TcpConnection
segment_received c seg = test_end (
    collect_output
      (segment_receive_route (record c { time_when_last_segment_received = c.now_time }) seg))

-- `write`: the connection and the number of bytes taken.
unfoldable pub write_data : TcpConnection → List ℕ → TcpConnection × ℕ
write_data c text =
    let (stream, result) = write c.sender.stream text in
    let sender = fill_window (record c.sender { stream = stream }) in
    (test_end (collect_output (record c { sender = sender })), result)

unfoldable pub tick : TcpConnection → ℕ → TcpConnection
tick c ms_since_last_tick = test_end (
    collect_output (record c {
      now_time = add64 c.now_time ms_since_last_tick;
      sender = TcpSender.tick c.sender ms_since_last_tick;
    }))

unfoldable pub end_input_stream : TcpConnection → TcpConnection
end_input_stream c =
    let sender = fill_window (record c.sender { stream = end_input c.sender.stream }) in
    test_end (collect_output (record c { sender = sender }))

unfoldable pub connect : TcpConnection → TcpConnection
connect c = if listen c then collect_output (record c { sender = fill_window c.sender }) else c

-- What the destructor does to the connection.
unfoldable pub destroy : TcpConnection → TcpConnection
destroy c = if active c then send_empty_segment (unclear_shutdown c) else c
