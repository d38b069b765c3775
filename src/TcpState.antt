-- ===== src/TcpState.antt =====
-- libsponge/tcp_helpers/tcp_state.hh and tcp_state.cc: a summary of a connection, to compare with the
-- state names of the TCP specification. The summary strings are the constructors of two types.
pub mod Phases
use cs144_lab_assignment.Common.{
  ℕ, Bool, true, false, not, ◌&&◌, ltb, ◌==◌, if◌then◌else◌, add64, to_nat,
}
use cs144_lab_assignment.ByteStream.{input_ended, bytes_written, eof}
use cs144_lab_assignment.TcpReceiver.{TcpReceiver, stream_out, has_value, ackno}
use cs144_lab_assignment.TcpSender.{TcpSender}
use cs144_lab_assignment.TcpConnection.{TcpConnection, active}

-- `TCPReceiverStateSummary`
pub data ReceiverSummary : Type 0 where
  error listen syn_recv fin_recv : ReceiverSummary

-- `TCPSenderStateSummary`
pub data SenderSummary : Type 0 where
  error closed syn_sent syn_acked fin_sent fin_acked : SenderSummary

pub record TcpState : Type 0 where
  pub sender : SenderSummary
  pub receiver : ReceiverSummary
  pub active : Bool
  pub linger_after_streams_finish : Bool

-- `TCPState::State`
pub data State : Type 0 where
  listen syn_rcvd syn_sent established close_wait last_ack fin_wait_1 fin_wait_2 closing time_wait
        closed reset :
      State

-- `TCPState(state)`
unfoldable pub official : State → TcpState
official State.listen = record {
  sender = SenderSummary.closed;
  receiver = ReceiverSummary.listen;
  active = true;
  linger_after_streams_finish = true;
}
official State.syn_rcvd = record {
  sender = SenderSummary.syn_sent;
  receiver = ReceiverSummary.syn_recv;
  active = true;
  linger_after_streams_finish = true;
}
official State.syn_sent = record {
  sender = SenderSummary.syn_sent;
  receiver = ReceiverSummary.listen;
  active = true;
  linger_after_streams_finish = true;
}
official State.established = record {
  sender = SenderSummary.syn_acked;
  receiver = ReceiverSummary.syn_recv;
  active = true;
  linger_after_streams_finish = true;
}
official State.close_wait = record {
  sender = SenderSummary.syn_acked;
  receiver = ReceiverSummary.fin_recv;
  active = true;
  linger_after_streams_finish = false;
}
official State.last_ack = record {
  sender = SenderSummary.fin_sent;
  receiver = ReceiverSummary.fin_recv;
  active = true;
  linger_after_streams_finish = false;
}
official State.closing = record {
  sender = SenderSummary.fin_sent;
  receiver = ReceiverSummary.fin_recv;
  active = true;
  linger_after_streams_finish = true;
}
official State.fin_wait_1 = record {
  sender = SenderSummary.fin_sent;
  receiver = ReceiverSummary.syn_recv;
  active = true;
  linger_after_streams_finish = true;
}
official State.fin_wait_2 = record {
  sender = SenderSummary.fin_acked;
  receiver = ReceiverSummary.syn_recv;
  active = true;
  linger_after_streams_finish = true;
}
official State.time_wait = record {
  sender = SenderSummary.fin_acked;
  receiver = ReceiverSummary.fin_recv;
  active = true;
  linger_after_streams_finish = true;
}
official State.reset = record {
  sender = SenderSummary.error;
  receiver = ReceiverSummary.error;
  active = false;
  linger_after_streams_finish = false;
}
official State.closed = record {
  sender = SenderSummary.fin_acked;
  receiver = ReceiverSummary.fin_recv;
  active = false;
  linger_after_streams_finish = false;
}

-- `state_summary(const TCPReceiver &)`
unfoldable pub receiver_summary : TcpReceiver → ReceiverSummary
receiver_summary r =
    if (stream_out r).error
    then ReceiverSummary.error
    else if not (has_value (ackno r))
    then ReceiverSummary.listen
    else if input_ended (stream_out r)
    then ReceiverSummary.fin_recv
    else ReceiverSummary.syn_recv

-- `state_summary(const TCPSender &)`
unfoldable pub sender_summary : TcpSender → SenderSummary
sender_summary s =
    if s.stream.error
    then SenderSummary.error
    else if s.next_seqno == 0
    then SenderSummary.closed
    else if s.next_seqno == s.bytes_in_flight
    then SenderSummary.syn_sent
    else if not (eof s.stream)
    then SenderSummary.syn_acked
    else if ltb s.next_seqno (add64 (bytes_written s.stream) 2)
    then SenderSummary.syn_acked
    else if ltb 0 s.bytes_in_flight
    then SenderSummary.fin_sent
    else SenderSummary.fin_acked

-- `TCPState(sender, receiver, active, linger)`
unfoldable pub summary : TcpSender → TcpReceiver → Bool → Bool → TcpState
summary sender receiver active linger = record {
  sender = sender_summary sender;
  receiver = receiver_summary receiver;
  active = active;
  linger_after_streams_finish = if active then linger else false;
}

-- `TCPConnection::state`
unfoldable pub state : TcpConnection → TcpState
state c = summary c.sender c.receiver (active c) c.linger_after_streams_finish

-- The summary strings of a type all differ: a number for each stands for the comparison.
abbrev sender_string : SenderSummary → ℕ
sender_string SenderSummary.error = 0
sender_string SenderSummary.closed = 1
sender_string SenderSummary.syn_sent = 2
sender_string SenderSummary.syn_acked = 3
sender_string SenderSummary.fin_sent = 4
sender_string SenderSummary.fin_acked = 5

abbrev receiver_string : ReceiverSummary → ℕ
receiver_string ReceiverSummary.error = 0
receiver_string ReceiverSummary.listen = 1
receiver_string ReceiverSummary.syn_recv = 2
receiver_string ReceiverSummary.fin_recv = 3

-- `TCPState::operator==`
unfoldable pub same_state : TcpState → TcpState → Bool
same_state a b =
    to_nat a.active == to_nat b.active
    && to_nat a.linger_after_streams_finish == to_nat b.linger_after_streams_finish
    && sender_string a.sender == sender_string b.sender
    && receiver_string a.receiver == receiver_string b.receiver
