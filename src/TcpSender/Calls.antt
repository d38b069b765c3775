-- ===== src/TcpSender/Calls.antt =====
-- Sequences of calls of the sender of libsponge/tcp_sender.cc, and its invariants.
use cs144_lab_assignment.Common.{
  ℕ, ◌+◌, ◌<◌, ◌^◌, ◌≡◌, refl, ◌∙◌, true, false, List, [], ◌∷◌, Option, length, arith,
}
use cs144_lab_assignment.WrappingIntegers.{WrappingInt32}
use cs144_lab_assignment.ByteStream.{ByteStream, write, end_input, set_error, eof}
use cs144_lab_assignment.ByteStream.Valid as Stream
use cs144_lab_assignment.TcpSender.{
  TcpSender, init, fill_window, ack_received, tick, send_empty_segment,
}
use cs144_lab_assignment.TcpSender.Valid.{IsValid, IsTimed, init-IsValid}
use cs144_lab_assignment.TcpSender.Window.{fill_window-WindowFilled, fill_window-IsTimed}
use cs144_lab_assignment.TcpSender.Acks.{
  IsValid_same, ack_received-IsValid, ack_received-IsTimed, tick-IsValid, tick-IsTimed,
}

-- What the owner of the sender can do. `ends` and `fails` act on `stream_in()`, and `takes` stands for
-- the owner's pops of `segments_out`.
pub data Call : Type 0 where
  writes : List ℕ → Call
  ends fails fills empties takes : Call
  acks : WrappingInt32 → ℕ → Call
  ticks : ℕ → Call

unfoldable pub call : TcpSender → Call → TcpSender
call s (writes text) = record s { stream = (write s.stream text).0 }
call s ends = record s { stream = end_input s.stream }
call s fails = record s { stream = set_error s.stream }
call s fills = fill_window s
call s empties = send_empty_segment s
call s takes = record s { segments_out = [] }
call s (acks ackno window) = (ack_received s ackno window).0
call s (ticks ms) = tick s ms

-- A writer that has not ended the stream and does not write more than the sequence numbers count;
-- windows of 16 bits.
abbrev pub Allowed : TcpSender → Call → Type 0
Allowed s (writes text) =
    (s.stream.end ≡ false) × (s.stream.byte_written + length text + 2 ^ 17 < 2 ^ 64)
Allowed s (acks ackno window) = window < 2 ^ 16
Allowed s _ = Unit {0}

stream-IsValid :
    (s : TcpSender) (b : ByteStream)
    → IsValid s
    → Stream.IsValid b
    → b.byte_read ≡ s.stream.byte_read
    → (s.fin ≡ true → eof b ≡ true)
    → b.byte_written + 2 ^ 17 < 2 ^ 64
    → IsValid (record s { stream = b })
stream-IsValid s b v w read fin small = record {
  stream = w;
  numbers = rw read v.numbers;
  unopened = λ e. (read ∙ (v.unopened e).0, (v.unopened e).1);
  finished = fin;
  small = small;
  window_small = v.window_small;
  flight = v.flight;
  chain = v.chain;
  acked = v.acked;
  ackno_le = v.ackno_le;
  front = v.front;
}

-- Every allowed call keeps the invariant of the sender and the one of its timer.
pub call-IsValid :
    (s : TcpSender) (c : Call)
    → IsValid s
    → IsTimed s
    → Allowed s c
    → IsValid (call s c) × IsTimed (call s c)
unfolding call
call-IsValid s (writes text) v t h =
    let total : s.stream.byte_written + length text < 2 ^ 64 = omega arith in
    let w = Stream.write-Wrote text v.stream (omega arith) total in
    (
      stream-IsValid s (write s.stream text).0 v
          (Stream.write-IsValid text v.stream (omega arith) total) w.same_read
          (λ f. let e = v.finished f in unfold eof in ground (arith, h.0))
          (omega (arith, w.written, w.count)),
      t,
    )
call-IsValid s ends v t h = (
  stream-IsValid s (end_input s.stream) v (Stream.end_input-IsValid v.stream)
      (unfold end_input in refl) (λ f. let e = v.finished f in unfold eof end_input in ground arith)
      (unfold end_input in v.small),
  t,
)
call-IsValid s fails v t h = (
  stream-IsValid s (set_error s.stream) v (Stream.set_error-IsValid v.stream)
      (unfold set_error in refl) (λ f. let e = v.finished f in unfold eof set_error in ground arith)
      (unfold set_error in v.small),
  t,
)
call-IsValid s fills v t h = ((fill_window-WindowFilled s v).valid, fill_window-IsTimed s t)
call-IsValid s empties v t h = unfold send_empty_segment in (IsValid_same s _ refl v, t)
call-IsValid s takes v t h = (IsValid_same s _ refl v, t)
call-IsValid s (acks ackno window) v t h =
    (ack_received-IsValid s ackno window v h, ack_received-IsTimed s ackno window t)
call-IsValid s (ticks ms) v t h = (tick-IsValid s ms v, tick-IsTimed s ms t)

pub run : TcpSender → List Call → TcpSender
run s [] = s
run s (c ∷ cs) = run (call s c) cs

abbrev pub AllAllowed : TcpSender → List Call → Type 0
AllAllowed s [] = Unit {0}
AllAllowed s (c ∷ cs) = Allowed s c × AllAllowed (call s c) cs

run-IsValid :
    (cs : List Call) (s : TcpSender)
    → IsValid s
    → IsTimed s
    → AllAllowed s cs
    → IsValid (run s cs) × IsTimed (run s cs)
unfolding run
run-IsValid [] s v t h = (v, t)
run-IsValid (c ∷ cs) s v t h =
    let (v', t') = call-IsValid s c v t h.0 in run-IsValid cs (call s c) v' t' h.1

-- After any allowed sequence of calls on a new sender of a capacity below 2 ^ 64: the outstanding
-- segments are those in flight, contiguous up to the next sequence number; the first of them holds the
-- acknowledgment number; SYN, the bytes read and FIN make up all numbers sent; and the timer runs
-- exactly while a segment is outstanding.
pub run-init-IsValid :
    (capacity retx_timeout : ℕ) (fixed_isn : Option WrappingInt32) (random : WrappingInt32)
    → (cs : List Call) → capacity < 2 ^ 64
    → AllAllowed (init capacity retx_timeout fixed_isn random) cs
    → IsValid (run (init capacity retx_timeout fixed_isn random) cs)
      × IsTimed (run (init capacity retx_timeout fixed_isn random) cs)
run-init-IsValid capacity retx_timeout fixed_isn random cs h allowed =
    let (v, t) = init-IsValid capacity retx_timeout fixed_isn random h in
    run-IsValid cs (init capacity retx_timeout fixed_isn random) v t allowed
