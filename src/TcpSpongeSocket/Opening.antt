-- ===== src/TcpSpongeSocket/Opening.antt =====
-- `TCPSpongeSocket::connect` of libsponge/tcp_helpers/tcp_sponge_socket.cc.
use cs144_lab_assignment.Common.{ℕ, ◌≡◌, refl, true, none, sym, subst}
use cs144_lab_assignment.Adapters.{Adapter}
use cs144_lab_assignment.FdAdapter.{FdAdapterConfig}
use cs144_lab_assignment.TcpConfig.{TcpConfig}
use cs144_lab_assignment.WrappingIntegers.{WrappingInt32}
use cs144_lab_assignment.TcpConnection
use cs144_lab_assignment.Buffer
use cs144_lab_assignment.ByteStream
use cs144_lab_assignment.StreamReassembler
use cs144_lab_assignment.TcpReceiver
use cs144_lab_assignment.TcpSegment
use cs144_lab_assignment.TcpSender
use cs144_lab_assignment.TcpConnection.{TcpConnection}
use cs144_lab_assignment.TcpState
use cs144_lab_assignment.TcpState.{same_state}
use cs144_lab_assignment.TcpSpongeSocket.{Environment}
use cs144_lab_assignment.TcpSpongeSocket.Lifecycle.{
  SpongeSocket, looped, initialize_tcp, start_connecting, connect, tcp_loop, is_in,
}
use cs144_lab_assignment.TcpState.{
  State, official, state, summary, sender_summary, receiver_summary,
}

connect_state :
    (cfg : TcpConfig) (random : WrappingInt32)
    → state (TcpConnection.connect (TcpConnection.init cfg random)) ≡ official State.syn_sent
unfolding state official summary sender_summary receiver_summary TcpConnection.active
    TcpConnection.connect TcpConnection.listen TcpReceiver.listen TcpConnection.init
    TcpReceiver.init TcpSender.closed TcpSender.init TcpConnection.collect_output
    TcpSender.fill_window StreamReassembler.init TcpSender.fill_loop ByteStream.init TcpSender.room
    TcpSender.wants_to_send TcpSender.commit TcpSender.draft TcpSender.draft_fin Buffer.of_string
    Buffer.size Buffer.str ByteStream.buffer_empty ByteStream.buffer_size ByteStream.bytes_read
    ByteStream.bytes_written ByteStream.eof ByteStream.peek_output ByteStream.pop_output
    ByteStream.read TcpReceiver.ackno TcpSegment.length_in_sequence_space TcpSender.draft_payload
    TcpSender.draft_syn TcpSender.fin_to_send TcpSender.syn_acked TcpSender.syn_sent
connect_state cfg random = refl

start_connecting_state :
    (A : Adapter) (env : Environment) (s : SpongeSocket A env) (cfg : TcpConfig)
    (random : WrappingInt32) (c_ad : FdAdapterConfig)
    → is_in State.syn_sent (start_connecting A env s cfg random c_ad).thread ≡ true
unfolding start_connecting initialize_tcp
start_connecting_state A env s cfg random c_ad =
    subst (λ (st : TcpState.TcpState). same_state st (official State.syn_sent) ≡ true)
      (sym (connect_state cfg random)) (unfold same_state official in refl)

-- `connect` of a socket whose connection has not been initialized finds the state that it expects, and
-- loops until another one is reached.
pub connect_lem :
    (A : Adapter) (env : Environment) (fuel : ℕ) (s : SpongeSocket A env) (cfg : TcpConfig)
    (random : WrappingInt32) (c_ad : FdAdapterConfig)
    → s.running ≡ none
    → connect A env fuel s cfg random c_ad
      ≡ looped
          (tcp_loop A env fuel (is_in State.syn_sent) (start_connecting A env s cfg random c_ad))
unfolding connect
connect_lem A env fuel s cfg random c_ad h =
    rw (connect, h, start_connecting_state A env s cfg random c_ad) refl
