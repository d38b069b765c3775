-- ===== src/Adapters.antt =====
-- The datagram adapters as TCPSpongeSocket uses them: the interface that its parameter `AdaptT` has to
-- meet, the adapter over UDP of libsponge/tcp_helpers/fd_adapter.hh and fd_adapter.cc, the adapter over
-- a TUN device of libsponge/tcp_helpers/tuntap_adapter.hh, and the one of lossy_fd_adapter.hh around
-- another. The answers of the kernel and the random numbers are functions of the number of the call.
use cs144_lab_assignment.Common.{ℕ, ◌-◌, ◌^◌, true, false, Option, none, some, if◌then◌else◌}
use cs144_lab_assignment.Buffer.{of_string, views_of, BufferList}
use cs144_lab_assignment.FdAdapter.{FdAdapterBase, should_drop}
use cs144_lab_assignment.FdAdapter
use cs144_lab_assignment.FileDescriptor.{FdWrapper, ReadReturn, Writev}
use cs144_lab_assignment.FileDescriptor
use cs144_lab_assignment.Ipv4Datagram
use cs144_lab_assignment.NetParser.{is_error}
use cs144_lab_assignment.Socket.{RecvReturn, recv, default_mtu, sendto}
use cs144_lab_assignment.SystemCall.{Exception, runtime_error, Result, ok, throws, SysReturn}
use cs144_lab_assignment.TcpOverIp.{unwrap_tcp_in_ip, wrap_tcp_in_ip}
use cs144_lab_assignment.TcpSegment.{TcpSegment}

-- `AdaptT`: its base with the configuration, the descriptor that it converts to, and its methods. A write
-- also shows the segment that the caller sees changed, and what is thrown, if anything.
pub record Adapter : Type 1 where
  pub Self : Type 0
  pub base : Self → FdAdapterBase
  pub with_base : Self → FdAdapterBase → Self
  pub fd : Self → FdWrapper
  pub read : ℕ → Self → Self × Result (Option TcpSegment)
  pub write : ℕ → Self → TcpSegment → Self × TcpSegment × Option Exception
  pub tick : Self → ℕ → Self

-- An adapter of the library, around a descriptor.
pub record FdHolder : Type 0 where
  pub holder_base : FdAdapterBase
  pub holder_fd : FdWrapper

abbrev with_fd : FdHolder → FdWrapper → FdHolder
with_fd a f = record a { holder_fd = f }

-- `FdAdapterBase::tick`
abbrev pub tick_nothing : FdHolder → ℕ → FdHolder
tick_nothing a ms = a

-- `TCPOverUDPSocketAdapter::read`
unfoldable pub udp_read : RecvReturn → FdHolder → FdHolder × Result (Option TcpSegment)
udp_read answer a =
    let (f, datagram) = recv a.holder_fd answer default_mtu in
    elim datagram [
      | throws e ↦ (with_fd a f, throws e)
      | ok d ↦
          let (base, seg) = FdAdapter.read a.holder_base d.0 (of_string d.1) in
          (record { holder_base = base; holder_fd = f }, ok seg)
    ]

-- The end of a `write` over UDP: the serialized segment is sent, or `serialize` has thrown.
abbrev udp_send : SysReturn → FdHolder → Option BufferList → FdHolder × Option Exception
udp_send answer a none = (a, some runtime_error)
udp_send answer a (some bytes) =
    let (f, thrown) = sendto a.holder_fd answer (views_of bytes) in (with_fd a f, thrown)

-- `TCPOverUDPSocketAdapter::write`
unfoldable pub udp_write :
    SysReturn → FdHolder → TcpSegment → FdHolder × TcpSegment × Option Exception
udp_write answer a seg =
    let (seg', _, bytes) = FdAdapter.write a.holder_base seg in
    let (a', thrown) = udp_send answer a bytes in (a', seg', thrown)

-- `TCPOverUDPSocketAdapter`
abbrev pub udp_adapter : (ℕ → RecvReturn) → (ℕ → SysReturn) → Adapter
udp_adapter recvfrom sendmsg = record {
  Self = FdHolder;
  base = λ a. a.holder_base;
  with_base = λ a b. record a { holder_base = b };
  fd = λ a. a.holder_fd;
  read = λ n. udp_read (recvfrom n);
  write = λ n. udp_write (sendmsg n);
  tick = tick_nothing;
}

-- `numeric_limits<size_t>::max()`, the default limit of `read`.
abbrev pub no_limit : ℕ
no_limit = 2 ^ 64 - 1

-- `TCPOverIPv4OverTunFdAdapter::read`
unfoldable pub tun_read : ReadReturn → FdHolder → FdHolder × Result (Option TcpSegment)
tun_read answer a =
    let (f, bytes) = FileDescriptor.read a.holder_fd answer no_limit in
    elim bytes [
      | throws e ↦ (with_fd a f, throws e)
      | ok b ↦
          let (ip_dgram, result) = Ipv4Datagram.parse Ipv4Datagram.empty (of_string b) in
          let (base, seg) = unwrap_tcp_in_ip a.holder_base ip_dgram in
          if is_error result
          then (with_fd a f, ok none)
          else (record { holder_base = base; holder_fd = f }, ok seg)
    ]

abbrev write_exception : Option (Result ℕ) → Option Exception
write_exception none = none
write_exception (some (ok n)) = none
write_exception (some (throws e)) = some e

-- The end of a `write` to the device; `serialize` of the segment or of the datagram may have thrown.
abbrev tun_send : Writev → FdHolder → Option BufferList → FdHolder × Option Exception
tun_send writev a none = (a, some runtime_error)
tun_send writev a (some bytes) =
    let out = FileDescriptor.write writev a.holder_fd (views_of bytes) true in
    (with_fd a out.descriptor, write_exception out.result)

-- `TCPOverIPv4OverTunFdAdapter::write`
unfoldable pub tun_write : Writev → FdHolder → TcpSegment → FdHolder × TcpSegment × Option Exception
tun_write writev a seg =
    let (seg', ip_dgram) = wrap_tcp_in_ip a.holder_base seg in
    let bytes : Option BufferList = elim ip_dgram [
      | none ↦ none
      | some d ↦ Ipv4Datagram.serialize d
    ] in
    let (a', thrown) = tun_send writev a bytes in (a', seg', thrown)

-- `TCPOverIPv4OverTunFdAdapter`
abbrev pub tun_adapter : (ℕ → ReadReturn) → (ℕ → Writev) → Adapter
tun_adapter read writev = record {
  Self = FdHolder;
  base = λ a. a.holder_base;
  with_base = λ a b. record a { holder_base = b };
  fd = λ a. a.holder_fd;
  read = λ n. tun_read (read n);
  write = λ n. tun_write (writev n);
  tick = tick_nothing;
}

-- `LossyFdAdapter::read` around the adapter's own.
unfoldable pub drop_read :
    (A : Adapter) → ℕ → A.Self × Result (Option TcpSegment) → A.Self × Result (Option TcpSegment)
drop_read A rand (a, throws e) = (a, throws e)
drop_read A rand (a, ok ret) =
    if should_drop (A.base a).cfg false rand then (a, ok none) else (a, ok ret)

-- `LossyFdAdapter<AdapterT>`
abbrev pub lossy_adapter : Adapter → (ℕ → ℕ) → Adapter
lossy_adapter A rand = record {
  Self = A.Self;
  base = A.base;
  with_base = A.with_base;
  fd = A.fd;
  read = λ n a. drop_read A (rand n) (A.read n a);
  write = λ n a seg.
      if should_drop (A.base a).cfg true (rand n) then (a, seg, none) else A.write n a seg;
  tick = A.tick;
}
