-- ===== src/TcpReceiver/Acceptance.antt =====
-- Which segments `TCPReceiver::segment_received` of libsponge/tcp_receiver.cc lets through to the
-- reassembler.
use cs144_lab_assignment.Common.{ℕ, ◌+◌, ◌≤◌, ◌<◌, ◌≡◌, ◌⊎◌, Bool, true, false, if◌then◌else◌}
use cs144_lab_assignment.StreamReassembler.Delivery as Reassembler
use cs144_lab_assignment.TcpSegment.{TcpSegment}
use cs144_lab_assignment.TcpReceiver.{TcpReceiver}

-- How a segment stands to the window, by the sequence numbers that they have, and what becomes of it.
-- The first three are what a receiver has to let through: a number in common with the window, an empty
-- segment inside the window, and an empty segment at the acknowledgment number of a window of 0.
pub data Judged (ackno window position len : ℕ) (fin : Bool) : Bool → Type 0 where
  shares :
      (number : ℕ)
      → position ≤ number
      → number < position + len
      → ackno ≤ number
      → number < ackno + window
      → Judged ackno window position len fin true
  empty_inside :
      len ≡ 0
      → ackno ≤ position
      → position < ackno + window
      → Judged ackno window position len fin true
  empty_at_ackno :
      len ≡ 0 → window ≡ 0 → position ≡ ackno → Judged ackno window position len fin true
  -- What the code lets through besides: an empty segment anywhere behind a window of 0, and a segment without FIN that ends
  -- where the window begins.
  empty_behind : len ≡ 0 → window ≡ 0 → ackno < position → Judged ackno window position len fin true
  ends_at_ackno :
      position + len ≡ ackno → 0 < len → fin ≡ false → Judged ackno window position len fin true
  old : position + len < ackno → Judged ackno window position len fin false
  old_fin : position + len ≡ ackno → fin ≡ true → Judged ackno window position len fin false
  behind :
      ackno + window ≤ position
      → (0 < window) ⊎ (0 < len)
      → Judged ackno window position len fin false

abbrev answer : TcpReceiver → TcpReceiver → Bool → TcpReceiver × Bool
answer pushed r through = if through then (pushed, true) else (r, false)
