-- ===== src/TcpReceiver/Reader.antt =====
-- What `TCPReceiver::segment_received` of libsponge/tcp_receiver.cc leaves to the reader of the stream.
use cs144_lab_assignment.Common.{
  ◌≡◌, refl, sym, subst, Bool, true, false, not, ◌&&◌, Option, none, some, if_both, ◌==◌,
  if◌then◌else◌, to_nat, sub64, arith, inl, inr, Option-cases,
}
use cs144_lab_assignment.Buffer.{str}
use cs144_lab_assignment.WrappingIntegers.{WrappingInt32, unwrap}
use cs144_lab_assignment.StreamReassembler.Delivery.{
  byte_read-push_substring, capacity-push_substring,
}
use cs144_lab_assignment.TcpSegment.{TcpSegment, length_in_sequence_space}
use cs144_lab_assignment.TcpReceiver.{
  TcpReceiver, absolute_ackno, listen, syn_recv, fin_recv, place, receive_open, segment_received,
}
use cs144_lab_assignment.TcpReceiver.Delivery.{with_isn}

-- What the reader's side of a receiver keeps.
abbrev pub SameReader : TcpReceiver → TcpReceiver → Type 0
SameReader r r' =
    (r'.reassembler.capacity ≡ r.reassembler.capacity)
    × (r'.reassembler.output.byte_read ≡ r.reassembler.output.byte_read)

place-SameReader :
    (r : TcpReceiver) (isn : WrappingInt32) (seg : TcpSegment) → SameReader r (place r isn seg).0
unfolding place
place-SameReader r isn seg =
    let index =
      sub64 (unwrap seg.header.seqno isn (absolute_ackno r)) (to_nat (not seg.header.syn)) in
    let capacity = capacity-push_substring r.reassembler (str seg.payload) index seg.header.fin in
    let read = byte_read-push_substring r.reassembler (str seg.payload) index seg.header.fin in
    (ground (arith, capacity), ground (arith, read))

receive_open-SameReader : (r : TcpReceiver) (seg : TcpSegment) → SameReader r (receive_open r seg).0
unfolding receive_open
receive_open-SameReader r seg = elim (Option-cases r.isn) [
  | inl e ↦ rw e (refl, refl)
  | inr (isn, e) ↦
      subst
        (λ (o : Option WrappingInt32).
          SameReader r
            (elim o as (λ _. TcpReceiver × Bool) [
              | none ↦ (r, false)
              | some isn ↦
                  if seg.header.fin && fin_recv r
                  then (r, false)
                  else if syn_recv r
                  then place r isn seg
                  else (r, true)
            ]).0)
        (sym e)
        (let P : TcpReceiver × Bool → Type 0 = λ o. SameReader r o.0 in
          if_both P (seg.header.fin && fin_recv r) (λ _. (refl, refl))
            λ _. if_both P (syn_recv r) (λ _. place-SameReader r isn seg) λ _. (refl, refl))
]

-- A segment changes nothing of what has been read, and no capacity.
pub segment_received-SameReader :
    (r : TcpReceiver) (seg : TcpSegment) → SameReader r (segment_received r seg).0
unfolding segment_received
segment_received-SameReader r seg =
    let P : TcpReceiver × Bool → Type 0 = λ o. SameReader r o.0 in
    if_both P seg.header.syn
      (λ _.
        if_both P (not (listen r)) (λ _. (refl, refl))
          λ _.
            if_both P (length_in_sequence_space seg == 1) (λ _. (refl, refl))
              λ _. receive_open-SameReader (with_isn r (some seg.header.seqno)) seg)
      λ _. receive_open-SameReader r seg
