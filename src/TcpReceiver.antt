-- ===== src/TcpReceiver.antt =====
-- libsponge/tcp_receiver.hh and tcp_receiver.cc: the receiving half of a connection.
pub mod Delivery
pub mod Acceptance
pub mod Reader
use cs144_lab_assignment.Common.{
  ℕ, Bool, true, false, not, ◌&&◌, Option, none, some, ltb, leb, ◌==◌, to_nat, if◌then◌else◌, add64,
  sub64,
}
use cs144_lab_assignment.WrappingIntegers.{WrappingInt32, wrap, unwrap}
use cs144_lab_assignment.Buffer.{str, size}
use cs144_lab_assignment.ByteStream.{ByteStream, input_ended, remaining_capacity}
use cs144_lab_assignment.StreamReassembler.{StreamReassembler, push_substring, empty}
use cs144_lab_assignment.StreamReassembler
use cs144_lab_assignment.TcpSegment.{TcpSegment, length_in_sequence_space}

pub record TcpReceiver : Type 0 where
  pub reassembler : StreamReassembler
  pub capacity : ℕ
  pub isn : Option WrappingInt32

-- `TCPReceiver(capacity)`
unfoldable pub init : ℕ → TcpReceiver
init capacity = record {
  reassembler = StreamReassembler.init capacity;
  capacity = capacity;
  isn = none;
}

abbrev pub has_value {ℓ} : {A : Type ℓ} → Option A → Bool
has_value none = false
has_value (some a) = true

abbrev pub stream_out : TcpReceiver → ByteStream
stream_out r = r.reassembler.output

-- `_ackno()`: the absolute sequence number of the first byte that is missing.
unfoldable pub absolute_ackno : TcpReceiver → ℕ
absolute_ackno r =
    add64 (add64 r.reassembler.assembled_bytes (to_nat (has_value r.isn)))
      (to_nat (empty r.reassembler))

unfoldable pub ackno : TcpReceiver → Option WrappingInt32
ackno r = elim r.isn [ none ↦ none | some isn ↦ some (wrap (absolute_ackno r) isn) ]

unfoldable pub window_size : TcpReceiver → ℕ
window_size r = remaining_capacity (stream_out r)

unfoldable pub unassembled_bytes : TcpReceiver → ℕ
unassembled_bytes r = StreamReassembler.unassembled_bytes r.reassembler

-- `LISTEN()`
unfoldable pub listen : TcpReceiver → Bool
unfolding ackno
listen r = not (has_value (ackno r))

-- `SYN_RECV()`
unfoldable pub syn_recv : TcpReceiver → Bool
unfolding ackno
syn_recv r = has_value (ackno r) && not (input_ended (stream_out r))

-- `FIN_RECV()`
unfoldable pub fin_recv : TcpReceiver → Bool
fin_recv r = input_ended (stream_out r)

-- The last part of `segment_received`, under `if(SYN_RECV())`, with the value of `isn()`.
unfoldable pub place : TcpReceiver → WrappingInt32 → TcpSegment → TcpReceiver × Bool
place r isn seg =
    let abs_seqno = unwrap seg.header.seqno isn (absolute_ackno r) in
    let index = sub64 abs_seqno (to_nat (not seg.header.syn)) in
    let end = add64 (add64 abs_seqno (size seg.payload)) (to_nat seg.header.syn) in
    let pushed = record r {
      reassembler = push_substring r.reassembler (str seg.payload) index seg.header.fin;
    } in
    if ltb end (absolute_ackno r)
    then (r, false)
    else if leb (add64 (absolute_ackno r) (window_size r)) abs_seqno
        && not (window_size r == 0 && length_in_sequence_space seg == 0)
    then (r, false)
    else (pushed, true)

-- `segment_received` behind the first test, from "still LISTEN" on. The value of `isn()` is there
-- whenever the receiver does not listen.
unfoldable pub receive_open : TcpReceiver → TcpSegment → TcpReceiver × Bool
receive_open r seg = elim r.isn [
  | none ↦ (r, false)
  | some isn ↦
      if seg.header.fin && fin_recv r
      then (r, false)
      else if syn_recv r
      then place r isn seg
      else (r, true)
]

unfoldable pub segment_received : TcpReceiver → TcpSegment → TcpReceiver × Bool
segment_received r seg =
    let r' = record r { isn = some seg.header.seqno } in
    if seg.header.syn
    then (if not (listen r)
        then (r, false)
        else if length_in_sequence_space seg == 1
        then (r', true)
        else receive_open r' seg)
    else receive_open r seg
