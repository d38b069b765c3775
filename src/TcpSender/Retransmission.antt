-- ===== src/TcpSender/Retransmission.antt =====
-- `TCPSender::tick` of libsponge/tcp_sender.cc and the retransmission timer.
use cs144_lab_assignment.Common.{
  ℕ, ◌-◌, ◌*◌, ◌^◌, ◌≤◌, ◌<◌, ◌≡◌, false, List, [], ◌∷◌, ◌++◌, ltb, leb, if◌then◌else◌, arith,
  add32, u32,
}
use cs144_lab_assignment.TcpConfig.{max_retx_attempts}
use cs144_lab_assignment.TcpSender.{TcpSender, Outstanding, retransmit, tick}
use cs144_lab_assignment.TcpSender.Timer.{time_expired, is_expired, set_new_timer}

-- The timeout and the count of attempts after a retransmission: doubled and one more, but unchanged
-- while the peer's window is 0.
abbrev pub next_rto : TcpSender → ℕ
next_rto s = if ltb 0 s.window_size then u32 (s.rto * 2) else s.rto

abbrev pub next_attempts : TcpSender → ℕ
next_attempts s =
    if ltb 0 s.window_size
    then add32 s.consecutive_retransmissions 1
    else s.consecutive_retransmissions

-- A tick of less than 2 ^ 32 ms that uses up a running timer sends the oldest outstanding segment
-- again, unless there were too many attempts; it doubles the timeout and counts the attempt, unless the
-- peer's window is 0; and it restarts the timer with that timeout.
pub tick_retransmits :
    (s : TcpSender) (ms : ℕ) (oldest : Outstanding) (others : List Outstanding)
    → s.outstanding_segment ≡ oldest ∷ others
    → s.timer.stopped ≡ false
    → ms < 2 ^ 32
    → s.timer.remaining_time ≤ ms
    → tick s ms ≡ record s {
      segments_out =
          if leb (next_attempts s) max_retx_attempts
          then s.segments_out ++ oldest.1 ∷ []
          else s.segments_out;
      consecutive_retransmissions = next_attempts s;
      rto = next_rto s;
      timer = record { remaining_time = next_rto s; expired = false; stopped = false };
    }
unfolding tick retransmit time_expired is_expired set_new_timer
tick_retransmits s ms oldest others e running small over = ground arith

-- A tick before a running timer that has not expired runs out only lowers the time that is left.
pub tick_waits :
    (s : TcpSender) (ms : ℕ)
    → s.timer.expired ≡ false
    → s.timer.stopped ≡ false
    → s.timer.remaining_time < 2 ^ 32
    → ms < s.timer.remaining_time
    → tick s ms ≡ record s {
      timer = record {
        remaining_time = s.timer.remaining_time - ms;
        expired = false;
        stopped = false;
      };
    }
unfolding tick time_expired is_expired
tick_waits s ms fresh running small before = ground arith
