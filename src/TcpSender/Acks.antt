-- ===== src/TcpSender/Acks.antt =====
-- Acknowledgments and ticks of libsponge/tcp_sender.cc, and the invariants of the sender.
use cs144_lab_assignment.Common.{
  ℕ, ◌-◌, ◌≤◌, ◌<◌, ◌^◌, ◌≡◌, refl, Bool, ltb, leb, if_both, ltb→le, leb→lt, arith,
}
use cs144_lab_assignment.WrappingIntegers.{WrappingInt32, unwrap}
use cs144_lab_assignment.TcpSender.{
  TcpSender, pop_outstanding_segment, acknowledge, ack_received, retransmit, tick,
}
use cs144_lab_assignment.TcpSender.Timer.{time_expired, is_expired, set_new_timer, stop}
use cs144_lab_assignment.TcpSender.Outstanding.{pop_acked-Left}
use cs144_lab_assignment.TcpSender.Valid.{IsValid, IsTimed}
use cs144_lab_assignment.TcpSender.Window.{fill_window-WindowFilled}

-- Dropping what a new acknowledgment covers, whatever happens to the timeouts.
pop_outstanding_segment-IsValid :
    (s : TcpSender) (rto attempts new_ackno : ℕ)
    → IsValid s
    → s.ackno ≤ new_ackno
    → new_ackno ≤ s.next_seqno
    → IsValid (
        pop_outstanding_segment
          (record s { rto = rto; consecutive_retransmissions = attempts; ackno = new_ackno }))
unfolding pop_outstanding_segment
pop_outstanding_segment-IsValid s rto attempts new_ackno v ge le =
    let n : s.next_seqno < 2 ^ 64 = ground (arith, v.numbers, v.small, v.stream.read_le) in
    let (flight, chain, acked, front) =
      pop_acked-Left (s.next_seqno - s.bytes_in_flight) s.next_seqno new_ackno s.bytes_in_flight
        s.outstanding_segment v.chain (omega (arith, v.flight)) (omega (arith, v.acked)) n in
    record {
      stream = v.stream;
      numbers = v.numbers;
      unopened = v.unopened;
      finished = v.finished;
      small = v.small;
      window_small = v.window_small;
      flight = flight;
      chain = chain;
      acked = acked;
      ackno_le = le;
      front = front;
    }

-- The invariant says nothing of the queue, of the timeouts and of the timer.
pub IsValid_same :
    (s s' : TcpSender)
    → s' ≡ record s {
      segments_out = s'.segments_out;
      consecutive_retransmissions = s'.consecutive_retransmissions;
      rto = s'.rto;
      timer = s'.timer;
    }
    → IsValid s
    → IsValid s'
IsValid_same s s' e v = rw e (record {
  stream = v.stream;
  numbers = v.numbers;
  unopened = v.unopened;
  finished = v.finished;
  small = v.small;
  window_small = v.window_small;
  flight = v.flight;
  chain = v.chain;
  acked = v.acked;
  ackno_le = v.ackno_le;
  front = v.front;
})

acknowledge-IsValid :
    (s : TcpSender) (new_ackno : ℕ)
    → IsValid s
    → s.ackno ≤ new_ackno
    → new_ackno ≤ s.next_seqno
    → IsValid (acknowledge s new_ackno)
unfolding acknowledge
acknowledge-IsValid s new_ackno v ge le =
    IsValid_same _ _ refl
      (fill_window-WindowFilled _ (
        pop_outstanding_segment-IsValid s s.initial_retransmission_timeout 0 new_ackno v ge
          le)).valid

acknowledge-IsTimed : (s : TcpSender) (new_ackno : ℕ) → IsTimed (acknowledge s new_ackno)
unfolding acknowledge set_new_timer stop
acknowledge-IsTimed s new_ackno = ground arith

window_size-IsValid :
    (s : TcpSender) (window : ℕ)
    → IsValid s
    → window < 2 ^ 16
    → IsValid (record s { window_size = window })
window_size-IsValid s window v h = record {
  stream = v.stream;
  numbers = v.numbers;
  unopened = v.unopened;
  finished = v.finished;
  small = v.small;
  window_small = h;
  flight = v.flight;
  chain = v.chain;
  acked = v.acked;
  ackno_le = v.ackno_le;
  front = v.front;
}

pub ack_received-IsValid :
    (s : TcpSender) (ackno : WrappingInt32) (window : ℕ)
    → IsValid s
    → window < 2 ^ 16
    → IsValid (ack_received s ackno window).0
unfolding ack_received
ack_received-IsValid s ackno window v h =
    let n = unwrap ackno s.isn s.ackno in
    let w = window_size-IsValid s window v h in
    if_both (λ (o : TcpSender × Bool). IsValid o.0) (ltb s.next_seqno n) (λ _. v)
      λ t.
        if_both (λ (o : TcpSender × Bool). IsValid o.0) (leb n s.ackno) (λ _. w)
          λ u.
            let gt : s.ackno < n = leb→lt _ _ u in
            acknowledge-IsValid (record s { window_size = window }) n w (omega arith) (ltb→le _ _ t)

pub ack_received-IsTimed :
    (s : TcpSender) (ackno : WrappingInt32) (window : ℕ)
    → IsTimed s
    → IsTimed (ack_received s ackno window).0
unfolding ack_received
ack_received-IsTimed s ackno window t =
    let n = unwrap ackno s.isn s.ackno in
    if_both (λ (o : TcpSender × Bool). IsTimed o.0) (ltb s.next_seqno n) (λ _. t)
      λ _.
        if_both (λ (o : TcpSender × Bool). IsTimed o.0) (leb n s.ackno) (λ _. t)
          λ _. acknowledge-IsTimed (record s { window_size = window }) n

pub tick-IsValid : (s : TcpSender) (ms : ℕ) → IsValid s → IsValid (tick s ms)
tick-IsValid s ms v =
    IsValid_same s (tick s ms) (unfold tick retransmit time_expired set_new_timer in ground arith) v

pub tick-IsTimed : (s : TcpSender) (ms : ℕ) → IsTimed s → IsTimed (tick s ms)
unfolding tick retransmit time_expired is_expired set_new_timer
tick-IsTimed s ms t = ground arith
