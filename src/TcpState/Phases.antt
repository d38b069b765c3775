-- ===== src/TcpState/Phases.antt =====
-- The state predicates of the two halves and the summaries of libsponge/tcp_helpers/tcp_state.cc.
use cs144_lab_assignment.Common.{ℕ, ◌+◌, ◌≤◌, ◌≡◌, false, not, ◌&&◌, if◌then◌else◌, to_nat, arith}
use cs144_lab_assignment.ByteStream.{bytes_written, eof}
use cs144_lab_assignment.TcpReceiver.{TcpReceiver, stream_out}
use cs144_lab_assignment.TcpReceiver
use cs144_lab_assignment.TcpSender.{TcpSender, fin_to_send}
use cs144_lab_assignment.TcpSender
use cs144_lab_assignment.TcpSender.Valid as Sender
use cs144_lab_assignment.TcpState.{ReceiverSummary, SenderSummary, receiver_summary, sender_summary}

-- The number of the sender's predicates that hold.
unfoldable pub sender_states : TcpSender → ℕ
sender_states s =
    to_nat (TcpSender.closed s)
    + to_nat (TcpSender.syn_sent s)
    + to_nat (TcpSender.syn_acked s)
    + to_nat (fin_to_send s)
    + to_nat (TcpSender.fin_sent s)
    + to_nat (TcpSender.fin_acked s)

bounds :
    (s : TcpSender)
    → Sender.IsValid s
    → (s.next_seqno ≤ s.stream.byte_written + 2) × (s.bytes_in_flight ≤ s.next_seqno)
bounds s v =
    let syn : to_nat s.syn ≤ 1 = ground arith in
    let fin : to_nat s.fin ≤ 1 = ground arith in
    (omega (arith, v.numbers, v.stream.read_le), v.flight)

-- A valid sender is always in some state: at least one of the six state predicates holds, and at most
-- two do (those on FIN do not ask whether SYN was sent or acknowledged).
pub sender_states_bounds :
    (s : TcpSender) → Sender.IsValid s → (1 ≤ sender_states s) × (sender_states s ≤ 2)
unfolding sender_states TcpSender.closed TcpSender.syn_sent TcpSender.syn_acked fin_to_send
    TcpSender.fin_sent TcpSender.fin_acked eof bytes_written
sender_states_bounds s v =
    let top = bounds s v in
    let numbers = v.numbers in (ground (arith, v.small), ground (arith, v.small))

-- The summary of a valid sender whose stream has no error is the state whose predicate holds, where
-- "FIN to send" counts as acknowledged SYN.
pub sender_summary_lem :
    (s : TcpSender)
    → Sender.IsValid s
    → s.stream.error ≡ false
    → sender_summary s ≡ (
        if TcpSender.closed s
        then SenderSummary.closed
        else if TcpSender.syn_sent s
        then SenderSummary.syn_sent
        else if TcpSender.fin_sent s
        then SenderSummary.fin_sent
        else if TcpSender.fin_acked s
        then SenderSummary.fin_acked
        else SenderSummary.syn_acked)
unfolding sender_summary TcpSender.closed TcpSender.syn_sent TcpSender.fin_sent TcpSender.fin_acked
    eof bytes_written
sender_summary_lem s v fine = let top = bounds s v in ground (arith, v.small)

-- The summary of a receiver whose stream has no error is the state whose predicate holds: first of
-- all LISTEN, then FIN_RECV, then SYN_RECV.
pub receiver_summary_lem :
    (r : TcpReceiver)
    → (stream_out r).error ≡ false
    → (receiver_summary r ≡ (
        if TcpReceiver.listen r
        then ReceiverSummary.listen
        else if TcpReceiver.fin_recv r
        then ReceiverSummary.fin_recv
        else ReceiverSummary.syn_recv))
      × (TcpReceiver.syn_recv r ≡ not (TcpReceiver.listen r) && not (TcpReceiver.fin_recv r))
unfolding receiver_summary TcpReceiver.listen TcpReceiver.fin_recv TcpReceiver.syn_recv
receiver_summary_lem r fine = (ground arith, ground arith)
