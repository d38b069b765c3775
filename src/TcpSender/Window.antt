-- ===== src/TcpSender/Window.antt =====
-- The loop of `TCPSender::fill_window` of libsponge/tcp_sender.cc, and the peer's window.
use cs144_lab_assignment.Common.{
  ℕ, zero, suc, ◌+◌, ◌-◌, ◌≤◌, ◌<◌, ◌^◌, ◌≡◌, refl, ap, sym, ◌∙◌, ◌⊎◌, false, ◌==◌, if◌then◌else◌,
  if_both, Bool-cases, inl, inr, sub64, arith,
}
use cs144_lab_assignment.TcpSender.{
  TcpSender, wants_to_send, draft, commit, first_seqno, fill_loop, fill_window, room,
}
use cs144_lab_assignment.TcpSender.Valid.{
  IsValid, IsTimed, round-Stage, round_progress, next-commit, ackno-commit, window_size-commit,
  commit-IsValid, commit-IsTimed,
}

-- What the loop has done when it ends by its test: the invariant holds, the window shrank by what was
-- sent, and neither the acknowledgment number nor the window size of the peer changed.
pub record Filled (s : TcpSender) (window : ℕ) (out : TcpSender × ℕ) : Type 0 where
  pub valid : IsValid out.0
  pub stopped : wants_to_send out.0 out.1 ≡ false
  pub sent : out.0.next_seqno + out.1 ≡ s.next_seqno + window
  pub forward : s.next_seqno ≤ out.0.next_seqno
  pub same_ackno : out.0.ackno ≡ s.ackno
  pub same_window : out.0.window_size ≡ s.window_size

-- With a fuel of at least the window, of 16 bits, the loop ends by its own test, from any valid sender;
-- it keeps the invariant, and the window has shrunk by what was sent.
pub fill_loop-Filled :
    (fuel : ℕ) (s : TcpSender) (window : ℕ)
    → IsValid s
    → window < 2 ^ 16
    → window ≤ fuel
    → Filled s window (fill_loop fuel s window)
unfolding fill_loop
fill_loop-Filled zero s window v small le = record {
  valid = v;
  stopped = unfold wants_to_send in ground arith;
  sent = refl;
  forward = omega arith;
  same_ackno = refl;
  same_window = refl;
}
fill_loop-Filled (suc fuel) s window v small le = elim (Bool-cases (wants_to_send s window)) [
  | inr h ↦ rw h (record {
    valid = v;
    stopped = h;
    sent = refl;
    forward = omega arith;
    same_ackno = refl;
    same_window = refl;
  })
  | inl h ↦
      let st = round-Stage s window v small h in
      let more = round_progress s window v small h in
      let n = next-commit s window v small h in
      let used = (draft s window (first_seqno s)).used in
      let left : sub64 window used ≡ window - used = omega (arith, st.fits) in
      let rest =
        fill_loop-Filled fuel (commit (first_seqno s) (draft s window (first_seqno s)))
          (sub64 window used) (commit-IsValid s window v small h) (omega arith) (omega arith) in
      rw h (record {
        valid = rest.valid;
        stopped = rest.stopped;
        sent = omega (arith, rest.sent, st.fits);
        forward = omega (arith, rest.forward);
        same_ackno = rest.same_ackno ∙ ackno-commit s window v small h;
        same_window = rest.same_window ∙ window_size-commit s window v small h;
      })
]

-- The window that `fill_window` keeps to: that of the peer, but 1 for a window of 0.
abbrev pub effective : TcpSender → ℕ
effective s = if s.window_size == 0 then 1 else s.window_size

room_lem :
    (s : TcpSender)
    → IsValid s
    → (room s ≡ s.ackno + effective s - s.next_seqno) × (room s < 2 ^ 16)
unfolding room
room_lem s v = ground (arith, v.ackno_le, v.small, v.numbers, v.window_small, v.stream.read_le)

-- What `fill_window` does: it keeps the invariant, stops with nothing to send or with the window full,
-- and sends nothing past the window.
pub record WindowFilled (s s' : TcpSender) : Type 0 where
  pub valid : IsValid s'
  pub stopped : wants_to_send s' (s'.ackno + effective s' - s'.next_seqno) ≡ false
  pub within : (s'.next_seqno ≡ s.next_seqno) ⊎ (s'.next_seqno ≤ s'.ackno + effective s')
  pub forward : s.next_seqno ≤ s'.next_seqno
  pub same_ackno : s'.ackno ≡ s.ackno
  pub same_window : s'.window_size ≡ s.window_size

pub fill_window-WindowFilled : (s : TcpSender) → IsValid s → WindowFilled s (fill_window s)
unfolding fill_window
fill_window-WindowFilled s v =
    let (size, small) = room_lem s v in
    let f = fill_loop-Filled (room s) s (room s) v small (omega arith) in
    let s' = (fill_loop (room s) s (room s)).0 in
    let same : effective s' ≡ effective s = ap (λ (w : ℕ). if w == 0 then 1 else w) f.same_window in
    let left : (fill_loop (room s) s (room s)).1 ≡ s'.ackno + effective s' - s'.next_seqno =
      omega (arith, f.sent, f.forward, f.same_ackno) in
    record {
      valid = f.valid;
      stopped = ap (wants_to_send s') (sym left) ∙ f.stopped;
      within = omega (arith, f.sent, f.forward, f.same_ackno);
      forward = f.forward;
      same_ackno = f.same_ackno;
      same_window = f.same_window;
    }

fill_loop-IsTimed :
    (fuel : ℕ) (s : TcpSender) (window : ℕ) → IsTimed s → IsTimed (fill_loop fuel s window).0
unfolding fill_loop
fill_loop-IsTimed zero s window t = t
fill_loop-IsTimed (suc fuel) s window t =
    if_both (λ (o : TcpSender × ℕ). IsTimed o.0) (wants_to_send s window)
      (λ _.
        fill_loop-IsTimed fuel (commit (first_seqno s) (draft s window (first_seqno s)))
          (sub64 window (draft s window (first_seqno s)).used)
          (commit-IsTimed (first_seqno s) (draft s window (first_seqno s))))
      λ _. t

-- `fill_window` keeps the timer running exactly while a segment is outstanding.
pub fill_window-IsTimed : (s : TcpSender) → IsTimed s → IsTimed (fill_window s)
unfolding fill_window
fill_window-IsTimed s t = fill_loop-IsTimed (room s) s (room s) t
