-- ===== src/TcpSpongeSocket.antt =====
-- libsponge/tcp_helpers/tcp_sponge_socket.hh and tcp_sponge_socket.cc: the thread that runs a
-- TCPConnection between an owner, at the other end of a socket pair, and a datagram adapter. What the
-- kernel, the clock and the owner's `_abort` answer is given by the number of the call. The messages on
-- cerr are left out.
pub mod Core
pub mod Owner
pub mod Invariant
pub mod Rules
pub mod Sound
pub mod Delivery
pub mod Opening
pub mod Transports
pub mod Lifecycle
use cs144_lab_assignment.Common.{
  ℕ, ◌+◌, Bool, true, false, not, ◌&&◌, ◌||◌, List, [], ◌∷◌, ◌++◌, Option, none, some, length, ltb,
  ◌==◌, if◌then◌else◌, min,
}
use cs144_lab_assignment.ByteStream.{
  ByteStream, buffer_size, buffer_empty, peek_output, pop_output, eof,
}
use cs144_lab_assignment.Adapters.{Adapter}
use cs144_lab_assignment.EventLoop.{
  Rule, Callback, PollFd, PollReturn, in_direction, out_direction, no_cancel,
}
use cs144_lab_assignment.FileDescriptor.{FdWrapper, ReadReturn, Writev}
use cs144_lab_assignment.FileDescriptor
use cs144_lab_assignment.Socket.{shutdown, shut_wr}
use cs144_lab_assignment.SystemCall.{Exception, runtime_error, Result, ok, throws, SysReturn}
use cs144_lab_assignment.TcpConnection.{
  TcpConnection, active, bytes_in_flight, remaining_outbound_capacity, segment_received, write_data,
  end_input_stream,
}
use cs144_lab_assignment.TcpReceiver.{stream_out}
use cs144_lab_assignment.TcpSegment.{TcpSegment}

-- What the rest of the system answers: the kernel by the number of the system call, and in each round of
-- `_tcp_loop` poll, the clock and the owner's `_abort`.
pub record Environment : Type 0 where
  pub thread_read : ℕ → ReadReturn
  pub thread_write : ℕ → Writev
  pub thread_shutdown : ℕ → SysReturn
  pub poll : ℕ → List PollFd → PollReturn
  pub timestamp_ms : ℕ → ℕ
  pub abort : ℕ → Bool

-- The state that the rules work on, with the connection that `_tcp` holds. Besides, the number of system
-- calls made, the bytes read from the owner and the bytes that the kernel has taken for the owner.
pub record Thread (A : Adapter) : Type 0 where
  pub tcp : TcpConnection
  pub thread_data : FdWrapper
  pub datagram_adapter : A.Self
  pub inbound_shutdown : Bool
  pub outbound_shutdown : Bool
  pub fully_acked : Bool
  pub system_calls : ℕ
  pub from_owner : List ℕ
  pub to_owner : List ℕ

-- `_tcp->inbound_stream()`
abbrev pub inbound_stream : TcpConnection → ByteStream
inbound_stream c = stream_out c.receiver

-- `inbound.pop_output(bytes_written)`
unfoldable pub pop_inbound : TcpConnection → ℕ → TcpConnection
pop_inbound c n = record c {
  receiver = record c.receiver {
    reassembler = record c.receiver.reassembler { output = pop_output (inbound_stream c) n };
  };
}

-- `min(size_t(65536), …)`
abbrev pub most_to_write : ℕ
most_to_write = 65536

-- The four rules of `_initialize_TCP`.
pub data RuleName : Type 0 where
  datagram_in owner_in owner_out datagram_out : RuleName

module _ (A : Adapter) (env : Environment) where
  abbrev Step : Type 0
  Step = Callback (Thread A)

  -- Rule 1: the segment that was read, if any, goes to the connection.
  unfoldable pub hand_over : Thread A → Option TcpSegment → Thread A
  hand_over t none = t
  hand_over t (some seg) = record t { tcp = segment_received t.tcp seg }

  unfoldable pub note_acked : Thread A → Thread A
  note_acked t =
      if t.thread_data.eof && bytes_in_flight t.tcp == 0 && not t.fully_acked
      then record t { fully_acked = true }
      else t

  unfoldable pub read_datagram : Step
  read_datagram t =
      let (adapter, seg) = A.read t.system_calls t.datagram_adapter in
      let t' = record t { datagram_adapter = adapter; system_calls = t.system_calls + 1 } in
      elim seg [ throws e ↦ (t', some e) | ok seg' ↦ (note_acked (hand_over t' seg'), none) ]

  -- Rule 2: the end of the owner's bytes, also when the rule is cancelled.
  unfoldable pub end_outbound : Thread A → Thread A
  end_outbound t = record t { tcp = end_input_stream t.tcp; outbound_shutdown = true }

  -- The bytes that were read go to the connection.
  unfoldable pub write_outbound : Thread A → List ℕ → Thread A × Option Exception
  write_outbound t bytes =
      let (tcp, amount_written) = write_data t.tcp bytes in
      let t' = record t { tcp = tcp; from_owner = t.from_owner ++ bytes } in
      if not (amount_written == length bytes)
      then (t', some runtime_error)
      else ((if t'.thread_data.eof then end_outbound t' else t'), none)

  unfoldable pub read_owner : Step
  read_owner t =
      let (fd, result) =
        FileDescriptor.read t.thread_data (env.thread_read t.system_calls)
          (remaining_outbound_capacity t.tcp) in
      let t' = record t { thread_data = fd; system_calls = t.system_calls + 1 } in
      elim result [ throws e ↦ (t', some e) | ok bytes ↦ write_outbound t' bytes ]

  -- Rule 3: the end of the bytes for the owner.
  unfoldable pub end_inbound : Step
  end_inbound t =
      let (fd, thrown) = shutdown t.thread_data (env.thread_shutdown t.system_calls) shut_wr in
      let t' = record t { thread_data = fd; system_calls = t.system_calls + 1 } in
      if eof (inbound_stream t.tcp) || (inbound_stream t.tcp).error
      then elim thrown [
        | some e ↦ (t', some e)
        | none ↦ (record t' { inbound_shutdown = true }, none)
      ]
      else (t, none)

  -- What `write` has come to: a number of bytes that were written, or an exception.
  unfoldable pub pop_written : Thread A → Option (Result ℕ) → Thread A × Option Exception
  pop_written t none = (t, none)
  pop_written t (some (throws e)) = (t, some e)
  pop_written t (some (ok bytes_written)) =
      end_inbound (record t { tcp = pop_inbound t.tcp bytes_written })

  unfoldable pub write_owner : Step
  write_owner t =
      let inbound = inbound_stream t.tcp in
      let buffer = peek_output inbound (min most_to_write (buffer_size inbound)) in
      let out =
        FileDescriptor.write (env.thread_write t.system_calls) t.thread_data (buffer ∷ []) false in
      pop_written
        (record t {
          thread_data = out.descriptor;
          system_calls = t.system_calls + 1;
          to_owner = t.to_owner ++ out.taken;
        })
        out.result

  -- Rule 4: the loop over `segments_out()`. The adapter changes the front segment before it sends it.
  abbrev pub with_queue : Thread A → List TcpSegment → Thread A
  with_queue t segments = record t { tcp = record t.tcp { segments_out = segments } }

  unfoldable pub send_segments : List TcpSegment → Step
  send_segments [] t = (with_queue t [], none)
  send_segments (seg ∷ segments) t =
      let (adapter, seg', thrown) = A.write t.system_calls t.datagram_adapter seg in
      let t' = record t { datagram_adapter = adapter; system_calls = t.system_calls + 1 } in
      elim thrown [
        | some e ↦ (with_queue t' (seg' ∷ segments), some e)
        | none ↦ send_segments segments t'
      ]

  unfoldable pub write_datagrams : Step
  write_datagrams t = send_segments t.tcp.segments_out t

  -- The interest of each rule.
  unfoldable pub wants_owner_in : Thread A → Bool
  wants_owner_in t =
      active t.tcp && not t.outbound_shutdown && ltb 0 (remaining_outbound_capacity t.tcp)

  unfoldable pub wants_owner_out : Thread A → Bool
  wants_owner_out t =
      let inbound = inbound_stream t.tcp in
      not (buffer_empty inbound) || ((eof inbound || inbound.error) && not t.inbound_shutdown)

  unfoldable pub wants_datagram_out : Thread A → Bool
  wants_datagram_out t = elim t.tcp.segments_out [ [] ↦ false | seg ∷ segments ↦ true ]

  -- The rules that `_initialize_TCP` adds.
  unfoldable pub rule : RuleName → Rule (Thread A)
  unfolding read_datagram read_owner write_owner write_datagrams end_outbound wants_owner_in
      wants_owner_out wants_datagram_out
  rule datagram_in = record {
    fd = λ t. A.fd t.datagram_adapter;
    direction = in_direction;
    callback = read_datagram;
    interest = λ t. active t.tcp;
    cancel = no_cancel;
  }
  rule owner_in = record {
    fd = λ t. t.thread_data;
    direction = in_direction;
    callback = read_owner;
    interest = wants_owner_in;
    cancel = λ t. (end_outbound t, none);
  }
  rule owner_out = record {
    fd = λ t. t.thread_data;
    direction = out_direction;
    callback = write_owner;
    interest = wants_owner_out;
    cancel = no_cancel;
  }
  rule datagram_out = record {
    fd = λ t. A.fd t.datagram_adapter;
    direction = out_direction;
    callback = write_datagrams;
    interest = wants_datagram_out;
    cancel = no_cancel;
  }
