-- ===== src/TcpSender/Writer.antt =====
-- What the sender of libsponge/tcp_sender.cc leaves to the writer of its stream.
use cs144_lab_assignment.Common.{
  ℕ, zero, suc, ◌≡◌, refl, sym, subst, ◌∙◌, Bool, if_both, ltb, leb, sub64, arith, min, ◌==◌,
}
use cs144_lab_assignment.WrappingIntegers.{WrappingInt32, unwrap}
use cs144_lab_assignment.ByteStream.{ByteStream, read, pop_output, buffer_size}
use cs144_lab_assignment.TcpConfig.{max_payload_size}
use cs144_lab_assignment.TcpSegment.{TcpSegment}
use cs144_lab_assignment.TcpSender.{
  TcpSender, Draft, draft, draft_syn, draft_payload, draft_fin, commit, first_seqno, fill_loop,
  room, fill_window, wants_to_send, acknowledge, ack_received, tick, retransmit,
  pop_outstanding_segment,
}

-- The bytes written and the end of the input, which only the writer changes.
abbrev pub SameWriter : ByteStream → ByteStream → Type 0
SameWriter b b' = (b'.byte_written ≡ b.byte_written) × (b'.end ≡ b.end)

pub pop_output-SameWriter : (b : ByteStream) (n : ℕ) → SameWriter b (pop_output b n)
unfolding pop_output
pop_output-SameWriter b n =
    if_both (SameWriter b) (min n (buffer_size b) == 0) (λ _. (refl, refl)) λ _. (refl, refl)

read-SameWriter : (b : ByteStream) (n : ℕ) → SameWriter b (read b n).0
unfolding read
read-SameWriter b n = pop_output-SameWriter b (min n (buffer_size b))

draft_payload-SameWriter :
    (window first : ℕ) (d : Draft)
    → SameWriter d.sender.stream (draft_payload window first d).sender.stream
unfolding draft_payload
draft_payload-SameWriter window first d =
    if_both (λ (o : Draft). SameWriter d.sender.stream o.sender.stream) (ltb d.used window)
      (λ _. read-SameWriter d.sender.stream (min (sub64 window d.used) max_payload_size))
      λ _. (refl, refl)

draft_syn-same : (s : TcpSender) (window : ℕ) → (draft_syn s window).sender.stream ≡ s.stream
unfolding draft_syn
draft_syn-same s window = ground arith

draft_fin-same : (window : ℕ) (d : Draft) → (draft_fin window d).sender.stream ≡ d.sender.stream
unfolding draft_fin
draft_fin-same window d = ground arith

draft-SameWriter :
    (s : TcpSender) (window first : ℕ) → SameWriter s.stream (draft s window first).sender.stream
unfolding draft
draft-SameWriter s window first =
    let d = draft_payload window first (draft_syn s window) in
    subst (SameWriter s.stream) (sym (draft_fin-same window d)) (
      subst (λ (b : ByteStream). SameWriter b d.sender.stream) (draft_syn-same s window)
        (draft_payload-SameWriter window first (draft_syn s window)))

fill_loop-SameWriter :
    (fuel : ℕ) (s : TcpSender) (window : ℕ) → SameWriter s.stream (fill_loop fuel s window).0.stream
unfolding fill_loop commit
fill_loop-SameWriter zero s window = (refl, refl)
fill_loop-SameWriter (suc fuel) s window =
    let d = draft s window (first_seqno s) in
    let (w, e) = draft-SameWriter s window (first_seqno s) in
    let (w', e') = fill_loop-SameWriter fuel (commit (first_seqno s) d) (sub64 window d.used) in
    if_both (λ (o : TcpSender × ℕ). SameWriter s.stream o.0.stream) (wants_to_send s window)
      (λ _. (w' ∙ w, e' ∙ e)) λ _. (refl, refl)

pub fill_window-SameWriter : (s : TcpSender) → SameWriter s.stream (fill_window s).stream
unfolding fill_window
fill_window-SameWriter s = fill_loop-SameWriter (room s) s (room s)

acknowledge-SameWriter : (s : TcpSender) (n : ℕ) → SameWriter s.stream (acknowledge s n).stream
unfolding acknowledge pop_outstanding_segment
acknowledge-SameWriter s n = fill_window-SameWriter _

pub ack_received-SameWriter :
    (s : TcpSender) (ackno : WrappingInt32) (window : ℕ)
    → SameWriter s.stream (ack_received s ackno window).0.stream
unfolding ack_received
ack_received-SameWriter s ackno window =
    let P : TcpSender × Bool → Type 0 = λ o. SameWriter s.stream o.0.stream in
    let new_ackno = unwrap ackno s.isn s.ackno in
    let s' = record s { window_size = window } in
    if_both P (ltb s.next_seqno new_ackno) (λ _. (refl, refl))
      λ _.
        if_both P (leb new_ackno s.ackno) (λ _. (refl, refl))
          λ _. acknowledge-SameWriter s' new_ackno

retransmit-same : (s : TcpSender) (seg : TcpSegment) → (retransmit s seg).stream ≡ s.stream
unfolding retransmit
retransmit-same s seg = ground arith

pub tick-SameWriter : (s : TcpSender) (ms : ℕ) → SameWriter s.stream (tick s ms).stream
unfolding tick retransmit
tick-SameWriter s ms = (ground arith, ground arith)
