-- ===== src/TcpSender/Timer.antt =====
-- `TCPSender::RetransmissionTimer` of libsponge/tcp_sender.hh. Times are `uint32_t`.
use cs144_lab_assignment.Common.{ℕ, Bool, true, false, not, ◌&&◌, leb, if◌then◌else◌, sub32}

pub record RetransmissionTimer : Type 0 where
  pub remaining_time : ℕ
  pub expired : Bool
  pub stopped : Bool

unfoldable pub time_expired : RetransmissionTimer → ℕ → RetransmissionTimer
time_expired t time_to_expire =
    if t.stopped
    then t
    else if leb t.remaining_time time_to_expire
    then record t { expired = true }
    else record t { remaining_time = sub32 t.remaining_time time_to_expire }

unfoldable pub is_expired : RetransmissionTimer → Bool
is_expired t = t.expired && not t.stopped

unfoldable pub set_new_timer : RetransmissionTimer → ℕ → RetransmissionTimer
set_new_timer t initial_time = record {
  remaining_time = initial_time;
  expired = false;
  stopped = false;
}

unfoldable pub stop : RetransmissionTimer → RetransmissionTimer
stop t = record { remaining_time = 0; expired = false; stopped = true }
