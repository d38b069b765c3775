-- ===== src/TcpSender.antt =====
-- libsponge/tcp_sender.hh and tcp_sender.cc: the sending half of a connection.
pub mod Timer
pub mod Round
pub mod Progress
pub mod Outstanding
pub mod Valid
pub mod Window
pub mod Acks
pub mod Calls
pub mod Writer
pub mod Retransmission
pub mod Backoff
pub mod Labels
use cs144_lab_assignment.Common.{
  ℕ, zero, suc, ◌+◌, ◌*◌, min, Bool, true, false, not, ◌&&◌, ◌||◌, List, [], ◌∷◌, ◌++◌, Option,
  none, some, ltb, leb, ◌==◌, to_nat, if◌then◌else◌, u32, add32, add64, sub64,
}
use cs144_lab_assignment.WrappingIntegers.{WrappingInt32, wrap, unwrap}
use cs144_lab_assignment.Buffer.{of_string}
use cs144_lab_assignment.Buffer
use cs144_lab_assignment.ByteStream.{ByteStream, buffer_empty, bytes_read, bytes_written, eof, read}
use cs144_lab_assignment.ByteStream
use cs144_lab_assignment.TcpConfig.{max_payload_size, max_retx_attempts}
use cs144_lab_assignment.TcpHeader
use cs144_lab_assignment.TcpSegment.{TcpSegment, length_in_sequence_space}
use cs144_lab_assignment.TcpSegment
use Timer.{RetransmissionTimer, time_expired, is_expired, set_new_timer, stop}

-- An element of `_outstanding_segment`: the absolute sequence number and the segment.
abbrev pub Outstanding : Type 0
Outstanding = ℕ × TcpSegment

pub record TcpSender : Type 0 where
  pub isn : WrappingInt32
  pub segments_out : List TcpSegment
  pub initial_retransmission_timeout : ℕ
  pub stream : ByteStream
  pub next_seqno : ℕ
  pub bytes_in_flight : ℕ
  pub consecutive_retransmissions : ℕ
  pub ackno : ℕ
  pub rto : ℕ
  pub outstanding_segment : List Outstanding
  pub timer : RetransmissionTimer
  pub window_size : ℕ
  pub syn : Bool
  pub fin : Bool

-- `TCPSender(capacity, retx_timeout, fixed_isn)`; `random` is what `random_device` gives.
unfoldable pub init : ℕ → ℕ → Option WrappingInt32 → WrappingInt32 → TcpSender
init capacity retx_timeout fixed_isn random = record {
  isn = elim fixed_isn [ none ↦ random | some isn ↦ isn ];
  segments_out = [];
  initial_retransmission_timeout = retx_timeout;
  stream = ByteStream.init capacity;
  next_seqno = 0;
  bytes_in_flight = 0;
  consecutive_retransmissions = 0;
  ackno = 0;
  rto = retx_timeout;
  outstanding_segment = [];
  timer = record { remaining_time = 0; expired = false; stopped = true };
  window_size = 1;
  syn = false;
  fin = false;
}

-- `CLOSED()`
unfoldable pub closed : TcpSender → Bool
closed s = s.next_seqno == 0

-- `SYN_SENT()`
unfoldable pub syn_sent : TcpSender → Bool
syn_sent s = ltb 0 s.next_seqno && s.next_seqno == s.bytes_in_flight

-- `SYN_ACKED()`
unfoldable pub syn_acked : TcpSender → Bool
syn_acked s = ltb s.bytes_in_flight s.next_seqno && not (eof s.stream)

-- `SYN_ACKED_FIN_TO_SEND()`
unfoldable pub fin_to_send : TcpSender → Bool
fin_to_send s = ltb s.next_seqno (add64 (bytes_written s.stream) 2) && eof s.stream

-- `FIN_SENT()`
unfoldable pub fin_sent : TcpSender → Bool
fin_sent s =
    eof s.stream && s.next_seqno == add64 (bytes_written s.stream) 2 && ltb 0 s.bytes_in_flight

-- `FIN_ACKED()`
unfoldable pub fin_acked : TcpSender → Bool
fin_acked s =
    eof s.stream && s.next_seqno == add64 (bytes_written s.stream) 2 && s.bytes_in_flight == 0

-- `_outstanding_segment.insert`: ascending sequence numbers, and a number that is there stays.
unfoldable pub insert : Outstanding → List Outstanding → List Outstanding
insert o [] = o ∷ []
insert o (p ∷ ps) =
    if ltb p.0 o.0 then p ∷ insert o ps else if ltb o.0 p.0 then o ∷ p ∷ ps else p ∷ ps

-- The loop of `pop_outstanding_segment`: the bytes in flight and the segments that are left.
unfoldable pub pop_acked : ℕ → ℕ → List Outstanding → ℕ × List Outstanding
pop_acked ackno flight [] = (flight, [])
pop_acked ackno flight (o ∷ os) =
    let rest = pop_acked ackno (sub64 flight (length_in_sequence_space o.1)) os in
    if leb (add64 o.0 (length_in_sequence_space o.1)) ackno then rest else (flight, o ∷ os)

unfoldable pub pop_outstanding_segment : TcpSender → TcpSender
pop_outstanding_segment s =
    let (flight, left) = pop_acked s.ackno s.bytes_in_flight s.outstanding_segment in
    record s { bytes_in_flight = flight; outstanding_segment = left }

-- The variables of one round of the loop of `fill_window`: the sender, the segment under
-- construction and the sequence numbers that it uses.
pub record Draft : Type 0 where
  pub sender : TcpSender
  pub segment : TcpSegment
  pub used : ℕ

-- "Set SYN when CLOSED"
unfoldable pub draft_syn : TcpSender → ℕ → Draft
draft_syn s window =
    if leb 1 window && closed s
    then record {
      sender = record s { syn = true };
      segment = record TcpSegment.empty { header = record TcpHeader.default { syn = true } };
      used = 1;
    }
    else record { sender = s; segment = TcpSegment.empty; used = 0 }

-- `seg.header().seqno = wrap(…)` and the payload, if there is room.
unfoldable pub draft_payload : ℕ → ℕ → Draft → Draft
draft_payload window first d =
    let s = d.sender in
    let header = record d.segment.header { seqno = wrap first s.isn } in
    let (stream, bytes) = read s.stream (min (sub64 window d.used) max_payload_size) in
    if ltb d.used window
    then record {
      sender = record s { stream = stream };
      segment = record { header = header; payload = of_string bytes };
      used = add64 d.used (Buffer.size (of_string bytes));
    }
    else record d { segment = record d.segment { header = header } }

-- "Set FIN when SYN_ACKED_FIN_TO_SEND"
unfoldable pub draft_fin : ℕ → Draft → Draft
draft_fin window d =
    if leb (add64 d.used 1) window && fin_to_send d.sender
    then record {
      sender = record d.sender { fin = true };
      segment = record d.segment { header = record d.segment.header { fin = true } };
      used = add64 d.used 1;
    }
    else d

unfoldable pub draft : TcpSender → ℕ → ℕ → Draft
draft s window first = draft_fin window (draft_payload window first (draft_syn s window))

-- The end of the round: the segment is queued, outstanding and timed.
unfoldable pub commit : ℕ → Draft → TcpSender
commit first d =
    let s = d.sender in
    let seg = d.segment in
    record s {
      segments_out = s.segments_out ++ seg ∷ [];
      outstanding_segment = insert (first, seg) s.outstanding_segment;
      bytes_in_flight = add64 s.bytes_in_flight (length_in_sequence_space seg);
      next_seqno = add64 first (length_in_sequence_space seg);
      timer = if s.timer.stopped then set_new_timer s.timer s.rto else s.timer;
    }

-- The sequence number of the next segment.
abbrev pub first_seqno : TcpSender → ℕ
first_seqno s = add64 (to_nat s.syn) (bytes_read s.stream)

-- The test of the loop of `fill_window`.
unfoldable pub wants_to_send : TcpSender → ℕ → Bool
wants_to_send s window =
    ltb 0 window
    && (closed s || ((syn_sent s || syn_acked s) && not (buffer_empty s.stream)) || fin_to_send s)

-- The loop of `fill_window`, on fuel: what is left of the window.
unfoldable pub fill_loop : ℕ → TcpSender → ℕ → TcpSender × ℕ
fill_loop zero s window = (s, window)
fill_loop (suc fuel) s window =
    let d = draft s window (first_seqno s) in
    let rest = fill_loop fuel (commit (first_seqno s) d) (sub64 window d.used) in
    if wants_to_send s window then rest else (s, window)

-- The room that `fill_window` computes: nothing if the window is full. A window of 0 counts as 1.
unfoldable pub room : TcpSender → ℕ
room s =
    let window = if s.window_size == 0 then 1 else s.window_size in
    if leb (add64 s.ackno window) s.next_seqno then 0 else sub64 (add64 s.ackno window) s.next_seqno

unfoldable pub fill_window : TcpSender → TcpSender
fill_window s = (fill_loop (room s) s (room s)).0

abbrev pub is_empty {ℓ} : {A : Type ℓ} → List A → Bool
is_empty [] = true
is_empty (x ∷ xs) = false

-- `ack_received` for an acknowledgment that is new.
unfoldable pub acknowledge : TcpSender → ℕ → TcpSender
acknowledge s new_ackno =
    let s' = fill_window (
      pop_outstanding_segment (record s {
        rto = s.initial_retransmission_timeout;
        consecutive_retransmissions = 0;
        ackno = new_ackno;
      })) in
    record s' {
      timer =
          if is_empty s'.outstanding_segment then stop s'.timer else set_new_timer s'.timer s'.rto;
    }

unfoldable pub ack_received : TcpSender → WrappingInt32 → ℕ → TcpSender × Bool
ack_received s ackno window_size =
    let new_ackno = unwrap ackno s.isn s.ackno in
    let s' = record s { window_size = window_size } in
    if ltb s.next_seqno new_ackno
    then (s, false)
    else if leb new_ackno s.ackno
    then (s', true)
    else (acknowledge s' new_ackno, true)

-- The part of `tick` for an expired timer and a front segment.
unfoldable pub retransmit : TcpSender → TcpSegment → TcpSender
retransmit s oldest =
    let backed_off =
      if ltb 0 s.window_size
      then record s {
        consecutive_retransmissions = add32 s.consecutive_retransmissions 1;
        rto = u32 (s.rto * 2);
      }
      else s in
    let sent =
      if leb backed_off.consecutive_retransmissions max_retx_attempts
      then record backed_off { segments_out = backed_off.segments_out ++ oldest ∷ [] }
      else backed_off in
    record sent { timer = set_new_timer sent.timer sent.rto }

unfoldable pub tick : TcpSender → ℕ → TcpSender
tick s ms_since_last_tick =
    let s' = record s { timer = time_expired s.timer (u32 ms_since_last_tick) } in
    if is_expired s'.timer
    then elim s'.outstanding_segment [ [] ↦ s' | o ∷ os ↦ retransmit s' o.1 ]
    else s'

unfoldable pub send_empty_segment : TcpSender → TcpSender
send_empty_segment s = record s {
  segments_out =
      s.segments_out
      ++ record TcpSegment.empty {
        header = record TcpHeader.default { seqno = wrap s.next_seqno s.isn };
      }
        ∷ [];
}
