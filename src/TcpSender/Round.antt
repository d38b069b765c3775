-- ===== src/TcpSender/Round.antt =====
-- One round of the loop of `TCPSender::fill_window` of libsponge/tcp_sender.cc.
use cs144_lab_assignment.Common.{
  ℕ, ◌+◌, ◌≤◌, ◌<◌, ◌^◌, ◌≡◌, refl, ap, ◌∙◌, min, true, false, ◌&&◌, length, length-take, ltb, leb,
  ltb→lt, to_nat, if_both, add64, sub64, arith,
}
use cs144_lab_assignment.WrappingIntegers.{WrappingInt32, wrap}
use cs144_lab_assignment.Buffer.{str}
use cs144_lab_assignment.Buffer.Laws.{size-of_string, str-of_string}
use cs144_lab_assignment.ByteStream.{ByteStream, read}
use cs144_lab_assignment.ByteStream.Valid.{contents, read_lem, read-IsValid}
use cs144_lab_assignment.ByteStream.Valid as Stream
use cs144_lab_assignment.TcpConfig.{max_payload_size}
use cs144_lab_assignment.TcpSegment.{length_in_sequence_space}
use cs144_lab_assignment.TcpSender.{
  TcpSender, Draft, closed, fin_to_send, draft_syn, draft_payload, draft_fin, draft,
}

-- The draft so far: its sequence numbers are counted, fit the window, and are what the sender has
-- moved on by. Of the sender only `_syn`, `_fin` and the stream have changed.
pub record Stage (s : TcpSender) (window : ℕ) (d : Draft) : Type 0 where
  pub valid : Stream.IsValid d.sender.stream
  pub counted : length_in_sequence_space d.segment ≡ d.used
  pub fits : d.used ≤ window
  pub moved :
      to_nat d.sender.syn + d.sender.stream.byte_read + to_nat d.sender.fin ≡ s.next_seqno + d.used
  pub syn_set : d.sender.syn ≡ true
  pub same_written : d.sender.stream.byte_written ≡ s.stream.byte_written
  pub same_end : d.sender.stream.end ≡ s.stream.end
  pub others :
      d.sender ≡ record s { syn = d.sender.syn; stream = d.sender.stream; fin = d.sender.fin }

-- What a round starts from: the sender's numbers before it, none of them for the end mark.
pub record Start (s : TcpSender) : Type 0 where
  pub valid : Stream.IsValid s.stream
  pub numbers : to_nat s.syn + s.stream.byte_read ≡ s.next_seqno
  pub not_fin : s.fin ≡ false
  pub not_read : s.syn ≡ false → s.stream.byte_read ≡ 0
  pub small : s.stream.byte_written + 2 ^ 17 < 2 ^ 64

pub draft_syn-Stage :
    (s : TcpSender) (window : ℕ) → Start s → 0 < window → Stage s window (draft_syn s window)
unfolding draft_syn closed length_in_sequence_space str
draft_syn-Stage s window st pos = ground (arith, st.not_read)

-- How many bytes `read` gives, from a valid stream.
pub length-read :
    {b : ByteStream} (len : ℕ)
    → Stream.IsValid b
    → (length (read b len).1 ≡ min len (length (contents b)))
      × ((read b len).0.byte_read ≡ b.byte_read + min len (length (contents b)))
length-read {b} len v =
    let (bytes, p) = read_lem len v in (ap length bytes ∙ length-take len (contents b), p.count)

draft_payload-Stage :
    (s : TcpSender) (window first : ℕ) (d : Draft)
    → window < 2 ^ 16
    → length (str d.segment.payload) ≡ 0
    → Stage s window d
    → Stage s window (draft_payload window first d)
unfolding draft_payload length_in_sequence_space
draft_payload-Stage s window first d small none st =
    let got = (read d.sender.stream (min (sub64 window d.used) max_payload_size)).1 in
    let size = size-of_string got in
    let body = ap length (str-of_string got) in
    let len = min (sub64 window d.used) max_payload_size in
    let (bytes, p) = read_lem len st.valid in
    let (count, moved) = length-read len st.valid in
    let v = read-IsValid len st.valid in
    if_both (Stage s window) (ltb d.used window)
      (λ t.
        let lt : d.used < window = ltb→lt _ _ t in
        record {
          valid = v;
          counted = omega (arith, st.counted);
          fits = omega arith;
          moved = omega (arith, st.moved);
          syn_set = st.syn_set;
          same_written = p.same_written ∙ st.same_written;
          same_end = p.same_end ∙ st.same_end;
          others =
              ap (λ (o : TcpSender). record o { stream = (read d.sender.stream len).0 }) st.others;
        })
      λ _. record {
        valid = st.valid;
        counted = st.counted;
        fits = st.fits;
        moved = st.moved;
        syn_set = st.syn_set;
        same_written = st.same_written;
        same_end = st.same_end;
        others = st.others;
      }

draft_fin-Stage :
    (s : TcpSender) (window : ℕ) (d : Draft)
    → window < 2 ^ 16
    → d.segment.header.fin ≡ false
    → d.sender.fin ≡ false
    → Stage s window d
    → Stage s window (draft_fin window d)
unfolding draft_fin length_in_sequence_space
draft_fin-Stage s window d small h f st =
    if_both (Stage s window) (leb (add64 d.used 1) window && fin_to_send d.sender)
      (λ t. record {
        valid = st.valid;
        counted = ground (arith, st.counted);
        fits = ground arith;
        moved = ground (arith, st.moved);
        syn_set = st.syn_set;
        same_written = st.same_written;
        same_end = st.same_end;
        others = ap (λ (o : TcpSender). record o { fin = true }) st.others;
      })
      λ _. st

-- What is still unset when the end mark is considered.
pub fin-draft_payload :
    (s : TcpSender) (window first : ℕ)
    → s.fin ≡ false
    → let d = draft_payload window first (draft_syn s window) in
      (d.segment.header.fin ≡ false) × (d.sender.fin ≡ false)
unfolding draft_payload draft_syn
fin-draft_payload s window first h = ground arith

payload-draft_syn :
    (s : TcpSender) (window : ℕ) → length (str (draft_syn s window).segment.payload) ≡ 0
unfolding draft_syn str
payload-draft_syn s window = ground arith

-- A finished draft: every sequence number is accounted for.
pub draft-Stage :
    (s : TcpSender) (window first : ℕ)
    → Start s
    → 0 < window
    → window < 2 ^ 16
    → Stage s window (draft s window first)
unfolding draft
draft-Stage s window first st pos small =
    let syn = draft_syn-Stage s window st pos in
    let payload =
      draft_payload-Stage s window first (draft_syn s window) small (payload-draft_syn s window)
        syn in
    let (h, f) = fin-draft_payload s window first st.not_fin in
    draft_fin-Stage s window (draft_payload window first (draft_syn s window)) small h f payload

-- The payload of a draft and its sequence number.
abbrev Labelled : WrappingInt32 → Draft → Type 0
Labelled seqno d =
    (length (str d.segment.payload) ≤ max_payload_size) × (d.segment.header.seqno ≡ seqno)

draft_payload-Labelled :
    (window first : ℕ) (d : Draft)
    → Stream.IsValid d.sender.stream
    → length (str d.segment.payload) ≡ 0
    → Labelled (wrap first d.sender.isn) (draft_payload window first d)
unfolding draft_payload
draft_payload-Labelled window first d v none =
    let got = (read d.sender.stream (min (sub64 window d.used) max_payload_size)).1 in
    let body = ap length (str-of_string got) in
    let (count, _) = length-read (min (sub64 window d.used) max_payload_size) v in
    if_both (Labelled (wrap first d.sender.isn)) (ltb d.used window) (λ _. (omega arith, refl))
      λ _. (omega arith, refl)

draft_fin-Labelled :
    (window : ℕ) (seqno : WrappingInt32) (d : Draft)
    → Labelled seqno d
    → Labelled seqno (draft_fin window d)
unfolding draft_fin
draft_fin-Labelled window seqno d l =
    if_both (Labelled seqno) (leb (add64 d.used 1) window && fin_to_send d.sender) (λ _. l) λ _. l

pub draft_syn_same :
    (s : TcpSender) (window : ℕ)
    → ((draft_syn s window).sender.stream ≡ s.stream) × ((draft_syn s window).sender.isn ≡ s.isn)
unfolding draft_syn
draft_syn_same s window = ground arith

-- From a valid stream, the segment of a round carries at most `MAX_PAYLOAD_SIZE` bytes, under the
-- wrapped sequence number of its first byte.
pub draft-Labelled :
    (s : TcpSender) (window first : ℕ)
    → Stream.IsValid s.stream
    → (length (str (draft s window first).segment.payload) ≤ max_payload_size)
      × ((draft s window first).segment.header.seqno ≡ wrap first s.isn)
unfolding draft draft_syn
draft-Labelled s window first v =
    let (stream, isn) = draft_syn_same s window in
    draft_fin-Labelled window (wrap first s.isn) (draft_payload window first (draft_syn s window)) (
      rw isn at (
        draft_payload-Labelled window first (draft_syn s window) (rw stream v)
          (payload-draft_syn s window)))
