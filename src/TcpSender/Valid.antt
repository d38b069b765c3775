-- ===== src/TcpSender/Valid.antt =====
-- The invariant of the sender of libsponge/tcp_sender.cc, and a round of `fill_window`.
use cs144_lab_assignment.Common.{
  ap₂, ℕ, ◌+◌, ◌-◌, ◌≤◌, ◌<◌, ◌^◌, ◌≡◌, refl, ap, sym, ◌∙◌, true, false, List, Option, to_nat,
  Bool-cases, inl, inr, arith,
}
use cs144_lab_assignment.WrappingIntegers.{WrappingInt32}
use cs144_lab_assignment.ByteStream.{eof}
use cs144_lab_assignment.ByteStream
use cs144_lab_assignment.ByteStream.Valid as Stream
use cs144_lab_assignment.TcpSegment.{length_in_sequence_space}
use cs144_lab_assignment.TcpSender.{
  Outstanding, insert, TcpSender, Draft, init, closed, syn_sent, syn_acked, fin_to_send,
  wants_to_send, draft, commit, first_seqno, is_empty,
}
use cs144_lab_assignment.TcpSender.Timer.{set_new_timer}
use cs144_lab_assignment.TcpSender.Round.{Start, Stage, draft-Stage}
use cs144_lab_assignment.TcpSender.Progress.{draft_eof, draft_progress}
use cs144_lab_assignment.TcpSender.Outstanding.{
  Chain-at, FrontOpen-at, Chain, FrontOpen, insert-Chain, insert-FrontOpen, is_empty-insert,
}

-- The sequence numbers: SYN, the bytes read from the stream and FIN, all of them sent; what is in
-- flight is the end of them, held by the outstanding segments; the acknowledgment number lies inside
-- the first of these. The stream is so short that no sequence number wraps at 2 ^ 64.
pub record IsValid (s : TcpSender) : Type 0 where
  pub stream : Stream.IsValid s.stream
  pub numbers : to_nat s.syn + s.stream.byte_read + to_nat s.fin ≡ s.next_seqno
  pub unopened : s.syn ≡ false → (s.stream.byte_read ≡ 0) × (s.fin ≡ false)
  pub finished : s.fin ≡ true → eof s.stream ≡ true
  pub small : s.stream.byte_written + 2 ^ 17 < 2 ^ 64
  pub window_small : s.window_size < 2 ^ 16
  pub flight : s.bytes_in_flight ≤ s.next_seqno
  pub chain : Chain (s.next_seqno - s.bytes_in_flight) s.outstanding_segment s.next_seqno
  pub acked : s.next_seqno - s.bytes_in_flight ≤ s.ackno
  pub ackno_le : s.ackno ≤ s.next_seqno
  pub front : FrontOpen s.ackno s.outstanding_segment

-- The timer runs exactly while a segment is outstanding.
abbrev pub IsTimed : TcpSender → Type 0
IsTimed s = s.timer.stopped ≡ is_empty s.outstanding_segment

pub init-IsValid :
    (capacity retx_timeout : ℕ) (fixed_isn : Option WrappingInt32) (random : WrappingInt32)
    → capacity < 2 ^ 64
    → IsValid (init capacity retx_timeout fixed_isn random)
      × IsTimed (init capacity retx_timeout fixed_isn random)
unfolding init ByteStream.init
init-IsValid capacity retx_timeout fixed_isn random h = (
  record {
    stream = Stream.init-IsValid capacity h;
    numbers = refl;
    unopened = λ _. (refl, refl);
    finished = λ e. cc;
    small = omega arith;
    window_small = omega arith;
    flight = omega arith;
    chain = refl;
    acked = omega arith;
    ackno_le = omega arith;
    front = tt;
  },
  refl,
)

-- After the end mark the loop's test fails.
not_fin_of_wants :
    (s : TcpSender) (window : ℕ) → IsValid s → wants_to_send s window ≡ true → s.fin ≡ false
unfolding wants_to_send closed syn_sent syn_acked fin_to_send eof ByteStream.bytes_written
not_fin_of_wants s window v wants = elim (Bool-cases s.fin) [
  | inr h ↦ h
  | inl h ↦
      let f = v.finished h in
      let e = ap to_nat h in
      let syn : s.syn ≡ true = elim (Bool-cases s.syn) [
        | inl y ↦ y
        | inr n ↦ cc ((v.unopened n).1)
      ] in
      let o = ap to_nat syn in ground (arith, v.numbers, v.stream.read_le)
]

pub wants-Start : (s : TcpSender) (window : ℕ) → IsValid s → wants_to_send s window ≡ true → Start s
wants-Start s window v wants =
    let h = not_fin_of_wants s window v wants in
    record {
      valid = v.stream;
      numbers = ground (arith, v.numbers);
      not_fin = h;
      not_read = λ e. (v.unopened e).0;
      small = v.small;
    }

-- What `commit` does, for a draft of some sequence numbers that starts where the sender stands.
module _ (s : TcpSender) (window : ℕ) (v : IsValid s) (small : window < 2 ^ 16)
    (wants : wants_to_send s window ≡ true) where
  abbrev pub round : Draft
  round = draft s window (first_seqno s)

  pub first_seqno-next : first_seqno s ≡ s.next_seqno
  first_seqno-next =
      let st = wants-Start s window v wants in
      let n : to_nat s.syn + s.stream.byte_read ≡ s.next_seqno = st.numbers in
      let le : to_nat s.syn ≤ 1 = ground arith in
      unfold ByteStream.bytes_read in omega (arith, v.stream.read_le, v.small)

  pub round-Stage : Stage s window round
  round-Stage =
      draft-Stage s window (first_seqno s) (wants-Start s window v wants)
        (unfold wants_to_send in ground arith) small

  pub round_progress : 0 < round.used
  round_progress =
      draft_progress s window (first_seqno s) (wants-Start s window v wants) small wants

  -- The next sequence number after the round: it moves on by what the segment uses.
  pub next-commit : (commit (first_seqno s) round).next_seqno ≡ s.next_seqno + round.used
  unfolding commit
  next-commit =
      let st = round-Stage in
      let first = first_seqno-next in
      let le : to_nat round.sender.syn + to_nat round.sender.fin ≤ 2 = ground arith in
      omega (arith, st.counted, st.moved, st.same_written, st.valid.read_le, v.small)

  flight-commit : (commit (first_seqno s) round).bytes_in_flight ≡ s.bytes_in_flight + round.used
  unfolding commit
  flight-commit =
      let st = round-Stage in
      let le : to_nat round.sender.syn + to_nat round.sender.fin ≤ 2 = ground arith in
      let same = ap (λ (o : TcpSender). o.bytes_in_flight) st.others in
      omega (arith, st.counted, st.moved, st.same_written, st.valid.read_le, v.small, v.flight)

  os-commit :
      (commit (first_seqno s) round).outstanding_segment
      ≡ insert (s.next_seqno, round.segment) s.outstanding_segment
  unfolding commit
  os-commit =
      ap₂ (λ (i : ℕ) (os : List Outstanding). insert (i, round.segment) os) first_seqno-next
        (ap (λ (o : TcpSender). o.outstanding_segment) round-Stage.others)

  pub ackno-commit : (commit (first_seqno s) round).ackno ≡ s.ackno
  unfolding commit
  ackno-commit = ap (λ (o : TcpSender). o.ackno) round-Stage.others

  pub window_size-commit : (commit (first_seqno s) round).window_size ≡ s.window_size
  unfolding commit
  window_size-commit = ap (λ (o : TcpSender). o.window_size) round-Stage.others

  pub commit-IsValid : IsValid (commit (first_seqno s) round)
  commit-IsValid =
      let st = round-Stage in
      let more = round_progress in
      let n = next-commit in
      let f = flight-commit in
      let start : (commit (first_seqno s) round).next_seqno
            - (commit (first_seqno s) round).bytes_in_flight
          ≡ s.next_seqno - s.bytes_in_flight =
        omega arith in
      let len : length_in_sequence_space round.segment ≡ round.used = st.counted in
      record {
        stream = unfold commit in st.valid;
        numbers = unfold commit in (st.moved ∙ sym n);
        unopened = λ e. unfold commit in cc (st.syn_set);
        finished = λ e.
            unfold commit in
            draft_eof s window (first_seqno s) (wants-Start s window v wants).not_fin e;
        small = unfold commit in omega (arith, st.same_written, v.small);
        window_small = omega (arith, window_size-commit, v.window_small);
        flight = omega (arith, v.flight);
        chain = Chain-at start os-commit (n ∙ ap (λ (k : ℕ). s.next_seqno + k) (sym len)) (
            insert-Chain (s.next_seqno - s.bytes_in_flight) s.next_seqno round.segment
              s.outstanding_segment v.chain (omega arith));
        acked = omega (arith, ackno-commit, v.acked);
        ackno_le = omega (arith, ackno-commit, v.ackno_le);
        front = FrontOpen-at ackno-commit os-commit (
            insert-FrontOpen (s.next_seqno - s.bytes_in_flight) s.next_seqno s.ackno round.segment
              s.outstanding_segment v.chain (omega (arith, v.ackno_le)) v.front);
      }

-- A round leaves a segment outstanding and the timer running.
pub commit-IsTimed : (first : ℕ) (d : Draft) → IsTimed (commit first d)
unfolding commit set_new_timer
commit-IsTimed first d =
    ground (arith, is_empty-insert (first, d.segment) d.sender.outstanding_segment)
