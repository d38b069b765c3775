-- ===== src/TcpConnection/Inbound.antt =====
-- The receiving half of a connection of libsponge/tcp_connection.cc on the segments of a peer that
-- sends a stream.
use cs144_lab_assignment.Common.{
  ℕ, ◌+◌, ◌≤◌, ◌<◌, ◌^◌, ◌≡◌, sym, subst, ◌∙◌, true, not, List, some, length, if_both, ltb, to_nat,
  arith,
}
use cs144_lab_assignment.Buffer.{str}
use cs144_lab_assignment.ByteStream.{set_error}
use cs144_lab_assignment.ByteStream.Valid as Stream
use cs144_lab_assignment.WrappingIntegers.{WrappingInt32, wrap}
use cs144_lab_assignment.StreamReassembler.Prefix.{PartOf}
use cs144_lab_assignment.TcpSegment.{TcpSegment}
use cs144_lab_assignment.TcpReceiver.{TcpReceiver}
use cs144_lab_assignment.TcpReceiver
use cs144_lab_assignment.TcpReceiver.Delivery.{
  IsValid, with_isn, ackno_bound, segment_received-IsValid,
}
use cs144_lab_assignment.TcpReceiver.Reader.{segment_received-SameReader}
use cs144_lab_assignment.TcpConnection.{
  TcpConnection, receiver_error, collect_output, unclear_shutdown, send_empty_segment, give_up,
  test_end, route_ack, route_reply, route_open, segment_receive_route, segment_received, write_data,
  tick, end_input_stream, connect, destroy, listen, active,
}
use cs144_lab_assignment.TcpConfig.{max_retx_attempts}
use cs144_lab_assignment.TcpConnection.Shutdown.{rest_same}
use cs144_lab_assignment.TcpConnection.Valid.{
  Event, receives, writes_data, passes, ends_input, connects, destroys, pops, react,
}

-- A segment of the peer's stream at an index: SYN, if it is there, at position 0.
pub record OfPeer (stream : List ℕ) (isn : WrappingInt32) (seg : TcpSegment) : Type 0 where
  pub index : ℕ
  pub part : PartOf stream index (str seg.payload)
  pub opening : seg.header.syn ≡ true → index ≡ 0
  pub labelled : seg.header.seqno ≡ wrap (index + to_nat (not seg.header.syn)) isn

-- The receiver of a stream that is shorter than half of the sequence numbers, of which the reader has
-- taken a number of bytes.
pub record Receives (stream : List ℕ) (isn : WrappingInt32) (taken : ℕ) (r : TcpReceiver)
    : Type 0 where
  pub valid : IsValid stream isn r
  pub isn_small : isn < 2 ^ 32
  pub short : length stream + 3 < 2 ^ 31
  pub small : r.reassembler.capacity + length stream + 4 < 2 ^ 64
  pub read : r.reassembler.output.byte_read ≡ taken

segment_received-Receives :
    {stream : List ℕ} {isn : WrappingInt32} {taken : ℕ} (r : TcpReceiver) (seg : TcpSegment)
    → Receives stream isn taken r
    → OfPeer stream isn seg
    → Receives stream isn taken (TcpReceiver.segment_received r seg).0
segment_received-Receives {stream} {isn} r seg v o =
    let r' : TcpReceiver = with_isn r (some isn) in
    let (ack, _) = ackno_bound r' v.valid.reassembler v.small in
    let (capacity, read) = segment_received-SameReader r seg in
    let syn : to_nat (not seg.header.syn) ≤ 1 = ground arith in
    record {
      valid = segment_received-IsValid stream isn r o.index seg v.valid (record {
        part = o.part;
        opening = o.opening;
        labelled = o.labelled;
        near = omega (arith, v.short, o.part.0);
        isn_small = v.isn_small;
        small = v.small;
      });
      isn_small = v.isn_small;
      short = v.short;
      small = omega (arith, v.small);
      read = read ∙ v.read;
    }

-- What the handlers do to the receiver besides.
pub data Errs (r : TcpReceiver) : TcpReceiver → Type 0 where
  same : Errs r r
  errs : Errs r (receiver_error r)

Errs-Receives :
    {stream : List ℕ} {isn : WrappingInt32} {taken : ℕ} {r r' : TcpReceiver}
    → Errs r r'
    → Receives stream isn taken r
    → Receives stream isn taken r'
unfolding set_error
Errs-Receives same v = v
Errs-Receives errs v =
    let d = v.valid.reassembler.delivered in
    record {
      valid = record {
        reassembler = record {
          delivered = record {
            valid = unfold set_error in Stream.set_error-IsValid d.valid;
            counted = d.counted;
            in_stream = d.in_stream;
            bytes = d.bytes;
            same_capacity = d.same_capacity;
          };
          nodes = v.valid.reassembler.nodes;
          small = v.valid.reassembler.small;
        };
        knows = v.valid.knows;
      };
      isn_small = v.isn_small;
      short = v.short;
      small = v.small;
      read = v.read;
    }

give_up-Errs : (c : TcpConnection) → Errs c.receiver (give_up c).receiver
unfolding give_up send_empty_segment unclear_shutdown collect_output
give_up-Errs c =
    if_both (λ (d : TcpConnection). Errs c.receiver d.receiver)
      (ltb max_retx_attempts c.sender.consecutive_retransmissions) (λ _. errs) λ _. same

test_end-Errs : (c : TcpConnection) → Errs c.receiver (test_end c).receiver
unfolding test_end
test_end-Errs c =
    let (_, e, _) = rest_same (give_up c) in subst (Errs c.receiver) (sym e) (give_up-Errs c)

route_open-receiver :
    (c : TcpConnection) (seg : TcpSegment)
    → (route_open c seg).receiver ≡ (TcpReceiver.segment_received c.receiver seg).0
unfolding route_open route_ack route_reply
route_open-receiver c seg = ground arith

route-Receives :
    {stream : List ℕ} {isn : WrappingInt32} {taken : ℕ} (c : TcpConnection) (seg : TcpSegment)
    → Receives stream isn taken c.receiver
    → OfPeer stream isn seg
    → Receives stream isn taken (segment_receive_route c seg).receiver
unfolding segment_receive_route unclear_shutdown
route-Receives {stream} {isn} {taken} c seg v o =
    let P : TcpConnection → Type 0 = λ d. Receives stream isn taken d.receiver in
    if_both P (listen c)
      (λ _.
        if_both P (not seg.header.syn) (λ _. v) λ _. segment_received-Receives c.receiver seg v o)
      λ _.
        if_both P seg.header.rst (λ _. Errs-Receives errs v)
          λ _.
            subst (Receives stream isn taken) (sym (route_open-receiver c seg))
              (segment_received-Receives c.receiver seg v o)

-- What an event of the peer must be: a segment of its stream.
abbrev pub FromPeer : List ℕ → WrappingInt32 → Event → Type 0
FromPeer stream isn (receives seg) = OfPeer stream isn seg
FromPeer stream isn _ = Unit {0}

-- A peer's segments, writes, time, the end of the input, connecting and destroying: the receiver holds
-- the peer's stream as before, and what has been read of it stays.
pub react-Receives :
    (stream : List ℕ) (isn : WrappingInt32) (taken : ℕ) (c : TcpConnection) (e : Event)
    → Receives stream isn taken c.receiver
    → FromPeer stream isn e
    → Receives stream isn taken (react c e).receiver
unfolding react segment_received write_data tick end_input_stream connect destroy collect_output
    send_empty_segment unclear_shutdown
react-Receives stream isn taken c (receives seg) v o =
    Errs-Receives (test_end-Errs _)
      (route-Receives (record c { time_when_last_segment_received = c.now_time }) seg v o)
react-Receives stream isn taken c (writes_data text) v o = Errs-Receives (test_end-Errs _) v
react-Receives stream isn taken c (passes ms) v o = Errs-Receives (test_end-Errs _) v
react-Receives stream isn taken c ends_input v o = Errs-Receives (test_end-Errs _) v
react-Receives stream isn taken c connects v o =
    if_both (λ (d : TcpConnection). Receives stream isn taken d.receiver) (listen c) (λ _. v) λ _. v
react-Receives stream isn taken c destroys v o =
    if_both (λ (d : TcpConnection). Receives stream isn taken d.receiver) (active c)
      (λ _. Errs-Receives errs v) λ _. v
react-Receives stream isn taken c pops v o = v
