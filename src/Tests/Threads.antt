-- ===== src/Tests/Threads.antt =====
-- The socket over a connection, and the copying of streams, at concrete inputs.
use cs144_lab_assignment.Common.{
  ℕ, zero, suc, ◌≤◌, ◌<◌, ◌^◌, ◌≡◌, refl, subst, true, false, List, [], ◌∷◌, ◌++◌, none, some,
  arith, ◌==◌, ◌||◌, if◌then◌else◌,
}
use cs144_lab_assignment.Adapters.{Adapter, FdHolder, tick_nothing}
use cs144_lab_assignment.Buffer.{str, of_string}
use cs144_lab_assignment.ByteStream.Valid.{contents}
use cs144_lab_assignment.EventLoop.{PollFd, PollReturn, ready, wait_next_event}
use cs144_lab_assignment.EventLoop.Invariant.{Leaves, wait_next_event-Leaves}
use cs144_lab_assignment.EventLoop.Rules.{rules_of}
use cs144_lab_assignment.FdAdapter.{Address, FdAdapterBase}
use cs144_lab_assignment.FileDescriptor.{
  FdWrapper, ReadReturn, got, read_fails, read, register_read, register_write,
}
use cs144_lab_assignment.FileDescriptor.Reading.{offered}
use cs144_lab_assignment.SystemCall.{ok, throws, returned, unix_error}
use cs144_lab_assignment.TcpConfig
use cs144_lab_assignment.TcpConnection.{init, remaining_outbound_capacity}
use cs144_lab_assignment.TcpConnection.Inbound.{OfPeer, Receives, react-Receives}
use cs144_lab_assignment.TcpConnection.Valid.{receives, react}
use cs144_lab_assignment.TcpHeader
use cs144_lab_assignment.TcpSegment.{TcpSegment}
use cs144_lab_assignment.TcpSpongeSocket.{
  Environment, Thread, RuleName, datagram_in, owner_in, owner_out, datagram_out, rule, read_owner,
}
use cs144_lab_assignment.TcpSpongeSocket.Invariant.{Honest, Modest, IsValid, read_owner_throws}
use cs144_lab_assignment.TcpSpongeSocket.Lifecycle.{
  Looped, SpongeSocket, looped, connect, listen_and_accept, tcp_main, initialize_tcp,
}
use cs144_lab_assignment.TcpSpongeSocket.Rules.{Ensured, rule-Respects}
use cs144_lab_assignment.TcpSpongeSocket.Sound.{reached}
use cs144_lab_assignment.TcpSpongeSocket.Delivery.{
  IsShort, Delivers, connect-Delivers, listen_and_accept-Delivers, initialize_tcp-Sound,
}
use cs144_lab_assignment.Tests.Connection.{syn_segment, stream}
use cs144_lab_assignment.WrappingIntegers.{wrap}
use cs144_lab_assignment.BidirectionalStreamCopy.{Kernel}
use cs144_lab_assignment.BidirectionalStreamCopy.Main.{bidirectional_stream_copy}
use cs144_lab_assignment.BidirectionalStreamCopy.Conservation as Copying

abbrev descriptor : FdWrapper
descriptor = record { fd = 3; eof = false; closed = false; read_count = 0; write_count = 0 }

abbrev both_bytes : TcpSegment
both_bytes = record {
  header = record TcpHeader.default { fin = true; ack = true; seqno = 21; ackno = 1 };
  payload = of_string stream;
}

-- Segments of the peer, whose isn is 20: its SYN first, and then its bytes.
abbrev segment_at : ℕ → TcpSegment
segment_at zero = syn_segment
segment_at (suc n) = both_bytes

segment_at-OfPeer : (n : ℕ) → OfPeer stream 20 (segment_at n)
unfolding wrap str of_string
segment_at-OfPeer zero = record {
  index = 0;
  part = (omega arith, refl);
  opening = λ e. refl;
  labelled = refl;
}
segment_at-OfPeer (suc n) = record {
  index = 0;
  part = (omega arith, refl);
  opening = λ e. refl;
  labelled = refl;
}

segment_at-win : (n : ℕ) → (segment_at n).header.win < 2 ^ 16
segment_at-win zero = omega arith
segment_at-win (suc n) = omega arith

-- An adapter that reads these segments, and to which every write succeeds.
abbrev scripted : Adapter
scripted = record {
  Self = FdHolder;
  base = λ a. a.holder_base;
  with_base = λ a b. record a { holder_base = b };
  fd = λ a. a.holder_fd;
  read = λ n a. (record a { holder_fd = register_read a.holder_fd }, ok (some (segment_at n)));
  write = λ n a seg. (record a { holder_fd = register_write a.holder_fd }, seg, none);
  tick = tick_nothing;
}

scripted-Honest : Honest scripted stream 20
scripted-Honest n a seg h =
    let same : segment_at n ≡ seg = ground arith in
    subst (λ (s : TcpSegment). OfPeer stream 20 s × (s.header.win < 2 ^ 16)) same
      (segment_at-OfPeer n, segment_at-win n)

-- The owner has written two bytes, which the second system call reads.
abbrev two_bytes : ℕ → ReadReturn
two_bytes n = if n == 1 then got (7 ∷ 8 ∷ []) else read_fails 11

two_bytes-few : (n : ℕ) → (offered two_bytes n ≤ 2) × (n ≤ 1 → offered two_bytes n ≡ 0)
unfolding offered
two_bytes-few zero = (omega arith, λ h. refl)
two_bytes-few (suc n) = let (le, none_yet) = two_bytes-few n in (ground arith, λ h. ground arith)

-- Everything is ready but for the owner's bytes, which are in the first round.
abbrev all_ready : ℕ → List PollFd → PollReturn
all_ready round ps =
    ready
      (λ n. record { error = false; readable = n == 0 || round == 0; writable = true; hup = false })

abbrev env : Environment
env = record {
  thread_read = two_bytes;
  thread_write = λ n i vs. returned 1;
  thread_shutdown = λ n. returned 0;
  poll = all_ready;
  timestamp_ms = λ n. n;
  abort = λ n. false;
}

env-Modest : Modest env
env-Modest n = omega (arith, (two_bytes-few n).0)

abbrev address : Address
address = record { ipv4_numeric = 2852019457; port = 1234 }

abbrev base : FdAdapterBase
base = record {
  cfg = record { source = address; destination = address; loss_rate_dn = 0; loss_rate_up = 0 };
  listening = false;
}

abbrev socket : SpongeSocket scripted env
socket = record {
  thread_data = descriptor;
  datagram_adapter = record { holder_base = base; holder_fd = descriptor };
  running = none;
}

default-IsShort : IsShort stream 20 TcpConfig.default
default-IsShort = record {
  isn_small = omega arith;
  short = omega arith;
  recv_small = omega arith;
  send_small = omega arith;
}

connect-Delivers_example :
    (l : Looped scripted) × (connect scripted env 3 socket TcpConfig.default 0 base.cfg ≡ looped l)
    × Delivers stream (reached (tcp_main scripted env 5 (reached l))).thread
connect-Delivers_example =
    connect-Delivers scripted env stream 20 scripted-Honest env-Modest 3 5 socket TcpConfig.default
      0 base.cfg default-IsShort refl

listen_and_accept-Delivers_example :
    (l : Looped scripted) × (listen_and_accept scripted env 3 socket TcpConfig.default 0 base.cfg
      ≡ looped l)
    × Delivers stream (reached (tcp_main scripted env 5 (reached l))).thread
listen_and_accept-Delivers_example =
    listen_and_accept-Delivers scripted env stream 20 scripted-Honest env-Modest 3 5 socket
      TcpConfig.default 0 base.cfg default-IsShort refl

-- A new thread, and its rules.
abbrev all_rules : List RuleName
all_rules = datagram_in ∷ owner_in ∷ owner_out ∷ datagram_out ∷ []

abbrev thread : Thread scripted
thread = record {
  tcp = init TcpConfig.default 0;
  thread_data = descriptor;
  datagram_adapter = record { holder_base = base; holder_fd = descriptor };
  inbound_shutdown = false;
  outbound_shutdown = false;
  fully_acked = false;
  system_calls = 0;
  from_owner = [];
  to_owner = [];
}

thread-IsValid : IsValid env stream 20 thread
unfolding initialize_tcp
thread-IsValid =
    (initialize_tcp-Sound scripted env stream 20 scripted-Honest env-Modest TcpConfig.default 0
      descriptor (record { holder_base = base; holder_fd = descriptor }) default-IsShort).valid

wait_example :
    let out = wait_next_event (all_ready 0) (rules_of (rule scripted env) all_rules) thread in
    Leaves (rule scripted env) (IsValid env stream 20) all_rules out.rules out.state
wait_example =
    wait_next_event-Leaves (rule scripted env) (IsValid env stream 20) Ensured
      (rule-Respects scripted env stream 20 scripted-Honest env-Modest) (all_ready 0) all_rules
      thread
      (
        (ground arith, (ground arith, (ground arith, tt))),
        ((ground arith, (ground arith, tt)), ((ground arith, tt), (tt, tt))),
      )
      thread-IsValid

react-Receives_example : Receives stream 20 0 (react thread.tcp (receives syn_segment)).receiver
react-Receives_example =
    react-Receives stream 20 0 thread.tcp (receives syn_segment) thread-IsValid.receives
      (segment_at-OfPeer 0)

-- The first system call gives the owner's read an error.
read_owner_example :
    (read descriptor (two_bytes 0) (remaining_outbound_capacity thread.tcp)).1
    ≡ throws (unix_error 11)
read_owner_example =
    read_owner_throws scripted env stream 20 scripted-Honest env-Modest thread (unix_error 11)
      thread-IsValid refl (unfold read_owner read in refl)

-- Both sources give two bytes.
abbrev kernel : Kernel
kernel = record {
  input_read = two_bytes;
  socket_read = two_bytes;
  socket_write = λ n i vs. returned 1;
  output_write = λ n i vs. returned 1;
  socket_shutdown = λ n. returned 0;
  output_close = λ n. returned 0;
  poll = all_ready;
}

kernel-Modest : Copying.Modest kernel
kernel-Modest = record {
  input = λ n. omega (arith, (two_bytes-few n).0);
  socket = λ n. omega (arith, (two_bytes-few n).0);
}

copy_example :
    let c =
      (Copying.reached
        (bidirectional_stream_copy kernel 4 descriptor descriptor descriptor)).copy in
    (c.from_input ≡ c.to_socket ++ contents c.outbound)
    × (c.from_socket ≡ c.to_output ++ contents c.inbound)
copy_example =
    Copying.bidirectional_stream_copy_lem kernel kernel-Modest 4 descriptor descriptor descriptor
