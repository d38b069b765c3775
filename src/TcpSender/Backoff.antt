-- ===== src/TcpSender/Backoff.antt =====
-- The retransmissions of libsponge/tcp_sender.cc over any ticks without an acknowledgment.
use cs144_lab_assignment.Common.{
  ℕ, ◌+◌, ◌-◌, ◌*◌, ◌^◌, ◌≤◌, ◌<◌, ◌≡◌, refl, ap, sym, subst, ◌∙◌, true, false, List, [], ◌∷◌, sum,
  ◌++◌, append-nil, append_assoc, length, ltb, leb, arith, u32, add32,
}
use cs144_lab_assignment.TcpConfig.{max_retx_attempts}
use cs144_lab_assignment.TcpSegment.{TcpSegment}
use cs144_lab_assignment.TcpSender.{TcpSender, Outstanding, tick}
use cs144_lab_assignment.TcpSender.Timer.{RetransmissionTimer}
use cs144_lab_assignment.TcpSender.Retransmission.{tick_retransmits, tick_waits}

-- A sender whose timer has the given time left, with the oldest outstanding segment.
pub record Waits (remaining : ℕ) (oldest : Outstanding) (s : TcpSender) : Type 0 where
  pub others : List Outstanding
  pub outstanding : s.outstanding_segment ≡ oldest ∷ others
  pub timed : s.timer ≡ record { remaining_time = remaining; expired = false; stopped = false }

-- What stays the same while time passes: the window, the timeout, the attempts and the queue.
abbrev pub Quiet : TcpSender → TcpSender → Type 0
Quiet s s' =
    (s'.window_size ≡ s.window_size)
    × (s'.rto ≡ s.rto)
    × (s'.consecutive_retransmissions ≡ s.consecutive_retransmissions)
    × (s'.segments_out ≡ s.segments_out)

-- All ticks in turn.
pub tick_all : TcpSender → List ℕ → TcpSender
tick_all s [] = s
tick_all s (ms ∷ mss) = tick_all (tick s ms) mss

tick-Waits :
    (s : TcpSender) (ms remaining : ℕ) (oldest : Outstanding)
    → Waits remaining oldest s
    → remaining < 2 ^ 32
    → ms < remaining
    → Waits (remaining - ms) oldest (tick s ms) × Quiet s (tick s ms)
tick-Waits s ms remaining oldest w small lt =
    let time = ap (λ (t : RetransmissionTimer). t.remaining_time) w.timed in
    let e =
      tick_waits s ms (ap (λ (t : RetransmissionTimer). t.expired) w.timed)
        (ap (λ (t : RetransmissionTimer). t.stopped) w.timed) (omega (arith, time))
        (omega (arith, time)) in
    rw (e, time)
      (
        record { others = w.others; outstanding = w.outstanding; timed = refl },
        (refl, refl, refl, refl),
      )

ticks-Waits :
    (mss : List ℕ) (s : TcpSender) (remaining : ℕ) (oldest : Outstanding)
    → Waits remaining oldest s
    → remaining < 2 ^ 32
    → sum mss < remaining
    → Waits (remaining - sum mss) oldest (tick_all s mss) × Quiet s (tick_all s mss)
unfolding tick_all
ticks-Waits [] s remaining oldest w small lt =
    let same : remaining ≡ remaining - 0 = omega arith in
    (subst (λ (n : ℕ). Waits n oldest s) same w, (refl, refl, refl, refl))
ticks-Waits (ms ∷ mss) s remaining oldest w small lt =
    let (w', (a, b, c, d)) = tick-Waits s ms remaining oldest w small (omega arith) in
    let (w'', (a', b', c', d')) =
      ticks-Waits mss (tick s ms) (remaining - ms) oldest w' (omega arith) (omega arith) in
    let same : remaining - ms - sum mss ≡ remaining - (ms + sum mss) = omega arith in
    (
      subst (λ (n : ℕ). Waits n oldest (tick_all (tick s ms) mss)) same w'',
      (a' ∙ a, b' ∙ b, c' ∙ c, d' ∙ d),
    )

-- The time between two retransmissions: ticks before the timer runs out, and the one that uses it up.
abbrev pub Wait : Type 0
Wait = List ℕ × ℕ

-- The waits are as long as the timer asks, with the timeout doubled after each.
abbrev pub Paced : ℕ → ℕ → List Wait → Type 0
Paced remaining rto [] = Unit {0}
Paced remaining rto (w ∷ ws) =
    (sum w.0 < remaining)
    × (remaining ≤ sum w.0 + w.1)
    × (w.1 < 2 ^ 32)
    × (2 * rto < 2 ^ 32)
    × Paced (2 * rto) (2 * rto) ws

pub wait_all : TcpSender → List Wait → TcpSender
wait_all s [] = s
wait_all s (w ∷ ws) = wait_all (tick (tick_all s w.0) w.1) ws

-- A copy of the segment for each wait.
pub copies : TcpSegment → List Wait → List TcpSegment
copies seg [] = []
copies seg (w ∷ ws) = seg ∷ copies seg ws

pub double : ℕ → List Wait → ℕ
double rto [] = rto
double rto (w ∷ ws) = double (2 * rto) ws

-- A sender that has sent a segment again after each of some waits.
pub record BackedOff (oldest : Outstanding) (ws : List Wait) (s s' : TcpSender) : Type 0 where
  pub sent : s'.segments_out ≡ s.segments_out ++ copies oldest.1 ws
  pub backed_off : s'.rto ≡ double s.rto ws
  pub attempts : s'.consecutive_retransmissions ≡ s.consecutive_retransmissions + length ws
  pub still : (others : List Outstanding) × (s'.outstanding_segment ≡ oldest ∷ others)

-- A wait that uses up the timer.
wait-Sent :
    (w : Wait) (s : TcpSender) (remaining : ℕ) (oldest : Outstanding)
    → Waits remaining oldest s
    → remaining < 2 ^ 32
    → 0 < s.window_size
    → s.consecutive_retransmissions < max_retx_attempts
    → sum w.0 < remaining
    → remaining ≤ sum w.0 + w.1
    → w.1 < 2 ^ 32
    → 2 * s.rto < 2 ^ 32
    → let s' = tick (tick_all s w.0) w.1 in
      Waits (2 * s.rto) oldest s'
      × (s'.window_size ≡ s.window_size)
      × (s'.rto ≡ 2 * s.rto)
      × (s'.consecutive_retransmissions ≡ s.consecutive_retransmissions + 1)
      × (s'.segments_out ≡ s.segments_out ++ oldest.1 ∷ [])
wait-Sent w s remaining oldest waits small window attempts before over short wide =
    let s1 : TcpSender = tick_all s w.0 in
    let (w1, (a, b, c, d)) = ticks-Waits w.0 s remaining oldest waits small before in
    let time = ap (λ (t : RetransmissionTimer). t.remaining_time) w1.timed in
    let e =
      tick_retransmits s1 w.1 oldest w1.others w1.outstanding
        (ap (λ (t : RetransmissionTimer). t.stopped) w1.timed) short (omega (arith, time)) in
    let open' : ltb 0 s1.window_size ≡ true = ground (arith, a) in
    let rto : u32 (s1.rto * 2) ≡ 2 * s.rto = omega (arith, b) in
    let count : add32 s1.consecutive_retransmissions 1 ≡ s.consecutive_retransmissions + 1 =
      omega (arith, c) in
    let allowed : leb (s.consecutive_retransmissions + 1) max_retx_attempts ≡ true = ground arith in
    rw (e, open', rto, count, allowed)
      (
        record { others = w1.others; outstanding = w1.outstanding; timed = refl },
        a,
        refl,
        refl,
        ap (λ (l : List TcpSegment). l ++ oldest.1 ∷ []) d,
      )

-- A sender with an outstanding segment, whose peer's window is open, through waits of any numbers of
-- ticks, each of which uses up the timer only with its last tick, while the attempts are allowed and
-- the timeout fits 32 bits: the oldest segment is sent once for each wait and nothing else is, each
-- wait being twice as long as the timeout before it; the timeout has doubled and the attempts have
-- grown by 1 with each.
pub wait_all-BackedOff :
    (ws : List Wait) (s : TcpSender) (remaining : ℕ) (oldest : Outstanding)
    → Waits remaining oldest s
    → remaining < 2 ^ 32
    → 0 < s.window_size
    → s.consecutive_retransmissions + length ws ≤ max_retx_attempts
    → Paced remaining s.rto ws
    → BackedOff oldest ws s (wait_all s ws)
unfolding wait_all copies double
wait_all-BackedOff [] s remaining oldest w small window attempts p = record {
  sent = sym (append-nil s.segments_out);
  backed_off = refl;
  attempts = omega arith;
  still = (w.others, w.outstanding);
}
wait_all-BackedOff (x ∷ ws) s remaining oldest w small window attempts p =
    let (before, over, short, wide, rest) = p in
    let (w', same, rto, count, sent) =
      wait-Sent x s remaining oldest w small window (omega arith) before over short wide in
    let s' : TcpSender = tick (tick_all s x.0) x.1 in
    let r =
      wait_all-BackedOff ws s' (2 * s.rto) oldest w' wide (omega (arith, same))
        (omega (arith, count)) (rw rto rest) in
    record {
      sent =
          r.sent
          ∙ ap (λ (l : List TcpSegment). l ++ copies oldest.1 ws) sent
          ∙ append_assoc s.segments_out (oldest.1 ∷ []) (copies oldest.1 ws);
      backed_off = r.backed_off ∙ ap (λ (n : ℕ). double n ws) rto;
      attempts = omega (arith, r.attempts, count);
      still = r.still;
    }
