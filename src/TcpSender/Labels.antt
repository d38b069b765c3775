-- ===== src/TcpSender/Labels.antt =====
-- The segment of a round of `TCPSender::fill_window` of libsponge/tcp_sender.cc.
use cs144_lab_assignment.Common.{
  ℕ, ◌-◌, ◌≤◌, ◌<◌, ◌^◌, ◌≡◌, ap, ◌∙◌, true, min, [], take, ltb, to_nat, if_both, sub64, arith,
}
use cs144_lab_assignment.WrappingIntegers.{wrap}
use cs144_lab_assignment.Buffer.{str}
use cs144_lab_assignment.Buffer.Laws.{str-of_string}
use cs144_lab_assignment.ByteStream.{ByteStream, read}
use cs144_lab_assignment.ByteStream.Valid.{contents, read_lem}
use cs144_lab_assignment.ByteStream.Valid as Stream
use cs144_lab_assignment.TcpConfig.{max_payload_size}
use cs144_lab_assignment.TcpSegment.{TcpSegment, length_in_sequence_space}
use cs144_lab_assignment.TcpSender.{
  TcpSender, Draft, closed, wants_to_send, first_seqno, draft_syn, draft_payload, draft_fin, draft,
}
use cs144_lab_assignment.TcpSender.Round.{draft-Labelled, draft_syn_same}
use cs144_lab_assignment.TcpSender.Valid.{IsValid, round-Stage, first_seqno-next}

-- The segment that continues what has been sent: the next sequence number, SYN if nothing has been sent,
-- and the next bytes of the stream, as many as the window and a segment have room for and the stream has.
pub record Continues (s : TcpSender) (window : ℕ) (seg : TcpSegment) : Type 0 where
  pub seqno : seg.header.seqno ≡ wrap s.next_seqno s.isn
  pub opens : seg.header.syn ≡ closed s
  pub payload :
      str seg.payload ≡ take (min (window - to_nat (closed s)) max_payload_size) (contents s.stream)
  pub fits : length_in_sequence_space seg ≤ window

draft_syn_lem :
    (s : TcpSender) (window : ℕ)
    → 0 < window
    → ((draft_syn s window).segment.header.syn ≡ closed s)
      × ((draft_syn s window).used ≡ to_nat (closed s))
      × (str (draft_syn s window).segment.payload ≡ [])
unfolding draft_syn str
draft_syn_lem s window pos = (ground arith, ground arith, ground arith)

-- The payload of a round, from what is used of the window.
payload-draft_payload :
    (window first : ℕ) (d : Draft)
    → Stream.IsValid d.sender.stream
    → window < 2 ^ 16
    → d.used ≤ window
    → str d.segment.payload ≡ []
    → str (draft_payload window first d).segment.payload
      ≡ take (min (window - d.used) max_payload_size) (contents d.sender.stream)
unfolding draft_payload
payload-draft_payload window first d v small le none =
    let len = min (sub64 window d.used) max_payload_size in
    let same : sub64 window d.used ≡ window - d.used = omega arith in
    let rest = λ (n : ℕ). take (min n max_payload_size) (contents d.sender.stream) in
    if_both (λ (o : Draft). str o.segment.payload ≡ rest (window - d.used)) (ltb d.used window)
      (λ _. str-of_string (read d.sender.stream len).1 ∙ (read_lem len v).0 ∙ ap rest same)
      λ e. let full : min (window - d.used) max_payload_size ≡ 0 = ground arith in rw (full) none

draft_payload_syn :
    (window first : ℕ) (d : Draft)
    → (draft_payload window first d).segment.header.syn ≡ d.segment.header.syn
unfolding draft_payload
draft_payload_syn window first d = ground arith

draft_fin_same :
    (window : ℕ) (d : Draft)
    → ((draft_fin window d).segment.payload ≡ d.segment.payload)
      × ((draft_fin window d).segment.header.syn ≡ d.segment.header.syn)
unfolding draft_fin
draft_fin_same window d = (ground arith, ground arith)

-- Whenever the loop of `fill_window` goes on, for a valid sender and a window below 2 ^ 16, the
-- segment of the round has the next sequence number, and SYN exactly if nothing has been sent. Its
-- payload is the next unread bytes of the stream: as many as MAX_PAYLOAD_SIZE and the window behind
-- the SYN allow, or all. The segment fits the window.
pub round-Continues :
    (s : TcpSender) (window : ℕ)
    → IsValid s
    → window < 2 ^ 16
    → wants_to_send s window ≡ true
    → Continues s window (draft s window (first_seqno s)).segment
unfolding draft
round-Continues s window v small wants =
    let first : ℕ = first_seqno s in
    let d0 : Draft = draft_syn s window in
    let d1 : Draft = draft_payload window first d0 in
    let pos : 0 < window = unfold wants_to_send in ground arith in
    let st = round-Stage s window v small wants in
    let (syn, used, none) = draft_syn_lem s window pos in
    let (stream, isn) = draft_syn_same s window in
    let (payload, keeps) = draft_fin_same window d1 in
    let le : d0.used ≤ window = ground (arith, used) in
    let v0 : Stream.IsValid d0.sender.stream = rw stream v.stream in
    record {
      seqno =
          (draft-Labelled s window first v.stream).1
          ∙ ap (λ (n : ℕ). wrap n s.isn) (first_seqno-next s window v small wants);
      opens = keeps ∙ draft_payload_syn window first d0 ∙ syn;
      payload =
          ap str payload
          ∙ payload-draft_payload window first d0 v0 small le none
          ∙ ap (λ (n : ℕ). take (min (window - n) max_payload_size) (contents d0.sender.stream))
              used
          ∙ ap
              (λ (b : ByteStream).
                take (min (window - to_nat (closed s)) max_payload_size) (contents b))
              stream;
      fits = omega (arith, st.counted, st.fits);
    }
