-- ===== src/TcpSender/Progress.antt =====
-- What a round of the loop of `TCPSender::fill_window` of libsponge/tcp_sender.cc uses up.
use cs144_lab_assignment.TcpSegment
use cs144_lab_assignment.Buffer.Laws.{size-of_string}
use cs144_lab_assignment.Common.{
  ◌⊎◌, inl, inr, Bool-cases, length-drop, ℕ, ◌+◌, ◌-◌, ◌≤◌, ◌<◌, ◌^◌, ◌≡◌, ap, min, true, false,
  length, sub64, arith,
}
use cs144_lab_assignment.ByteStream.{buffer_empty, read, eof, bytes_written}
use cs144_lab_assignment.ByteStream.Valid.{contents, read_lem, read-IsValid, buffer_size-length}
use cs144_lab_assignment.ByteStream.Valid as Stream
use cs144_lab_assignment.TcpConfig.{max_payload_size}
use cs144_lab_assignment.TcpSegment.{TcpSegment}
use cs144_lab_assignment.TcpSender.{
  TcpSender, Draft, closed, fin_to_send, wants_to_send, draft_syn, draft_payload, draft_fin, draft,
}
use cs144_lab_assignment.TcpSender.Round.{draft_syn-Stage, length-read, fin-draft_payload, Start}

-- If the end mark is sent, the stream is at its end.
pub draft_eof :
    (s : TcpSender) (window first : ℕ)
    → s.fin ≡ false
    → (draft s window first).sender.fin ≡ true
    → eof (draft s window first).sender.stream ≡ true
unfolding draft draft_fin fin_to_send
draft_eof s window first h = ground (arith, fin-draft_payload s window first h)

used-draft_fin :
    (window : ℕ) (d : Draft)
    → window < 2 ^ 16
    → d.used ≤ window
    → d.used ≤ (draft_fin window d).used
unfolding draft_fin
used-draft_fin window d h le = ground arith

used-draft_payload :
    (window first : ℕ) (d : Draft)
    → Stream.IsValid d.sender.stream
    → window < 2 ^ 16
    → d.used ≤ window
    → (draft_payload window first d).used
      ≡ d.used + min (min (window - d.used) max_payload_size) (length (contents d.sender.stream))
unfolding draft_payload
used-draft_payload window first d v small le =
    let got = (read d.sender.stream (min (sub64 window d.used) max_payload_size)).1 in
    let size = size-of_string got in
    let (count, _) = length-read (min (sub64 window d.used) max_payload_size) v in ground arith

-- The draft before the payload of a sender that is open.
abbrev blank : TcpSender → Draft
blank s = record { sender = s; segment = TcpSegment.empty; used = 0 }

fin_to_send-draft_payload :
    (s : TcpSender) (window first : ℕ)
    → Stream.IsValid s.stream
    → fin_to_send s ≡ true
    → (fin_to_send (draft_payload window first (blank s)).sender ≡ true)
      × (length (contents s.stream) ≡ 0)
unfolding fin_to_send draft_payload eof bytes_written
fin_to_send-draft_payload s window first v fin =
    let len = min (sub64 window 0) max_payload_size in
    let (_, p) = read_lem len v in
    let before = buffer_size-length v in
    let after = buffer_size-length (read-IsValid len v) in
    let size = length-drop len (contents s.stream) in
    let left = ap length p.bytes in let w = p.same_written in let e = p.same_end in ground arith

draft_fin_sends :
    (window : ℕ) (d : Draft)
    → fin_to_send d.sender ≡ true
    → d.used ≡ 0
    → 0 < window
    → 0 < (draft_fin window d).used
unfolding draft_fin
draft_fin_sends window d h z pos = ground arith

open_progress :
    (s : TcpSender) (window first : ℕ)
    → Start s
    → 0 < window
    → window < 2 ^ 16
    → (buffer_empty s.stream ≡ false) ⊎ (fin_to_send s ≡ true)
    → 0 < (draft_fin window (draft_payload window first (blank s))).used
open_progress s window first st pos small (inl h) =
    let n = used-draft_payload window first (blank s) st.valid small (omega arith) in
    let held = buffer_size-length st.valid in
    let some_held : 0 < length (contents s.stream) = unfold buffer_empty in ground arith in
    let m = used-draft_fin window (draft_payload window first (blank s)) small (omega (arith, n)) in
    omega arith
open_progress s window first st pos small (inr h) =
    let n = used-draft_payload window first (blank s) st.valid small (omega arith) in
    let (f, z) = fin_to_send-draft_payload s window first st.valid h in
    draft_fin_sends window (draft_payload window first (blank s)) f (omega arith) pos

closed_progress :
    (s : TcpSender) (window first : ℕ)
    → Start s
    → 0 < window
    → window < 2 ^ 16
    → closed s ≡ true
    → 0 < (draft s window first).used
unfolding draft
closed_progress s window first st pos small h =
    let one : (draft_syn s window).used ≡ 1 = unfold draft_syn in ground arith in
    let syn = draft_syn-Stage s window st pos in
    let n = used-draft_payload window first (draft_syn s window) syn.valid small syn.fits in
    let m =
      used-draft_fin window (draft_payload window first (draft_syn s window)) small (omega arith) in
    omega arith

-- What the test of the loop says.
wants_cases :
    (s : TcpSender) (window : ℕ)
    → wants_to_send s window ≡ true
    → closed s ≡ false
    → (buffer_empty s.stream ≡ false) ⊎ (fin_to_send s ≡ true)
unfolding wants_to_send
wants_cases s window wants h = ground arith

-- A round that the loop's test allows, for a window of 16 bits and a sender that has not sent FIN, uses
-- up at least one number of the window.
pub draft_progress :
    (s : TcpSender) (window first : ℕ)
    → Start s
    → window < 2 ^ 16
    → wants_to_send s window ≡ true
    → 0 < (draft s window first).used
unfolding draft
draft_progress s window first st small wants =
    let pos : 0 < window = unfold wants_to_send in ground arith in
    elim (Bool-cases (closed s)) [
      | inl h ↦ closed_progress s window first st pos small h
      | inr h ↦
          let same : draft_syn s window ≡ blank s = unfold draft_syn in ground arith in
          rw same (open_progress s window first st pos small (wants_cases s window wants h))
    ]
