-- ===== src/FdAdapter.antt =====
-- libsponge/tcp_helpers/fd_adapter.hh, fd_adapter.cc, lossy_fd_adapter.hh and the adapters'
-- configuration of tcp_config.hh: segments in UDP payloads, and the random loss of segments. What the
-- socket receives, and the random numbers, are arguments; what is sent to the socket is a result.
pub mod RoundTrip
use cs144_lab_assignment.Common.{
  ℕ, ◌%◌, ◌^◌, Bool, true, false, not, ◌&&◌, Option, none, some, ltb, ◌==◌, if◌then◌else◌,
}
use cs144_lab_assignment.Buffer.{Buffer, BufferList}
use cs144_lab_assignment.NetParser.{is_error}
use cs144_lab_assignment.TcpSegment.{TcpSegment}
use cs144_lab_assignment.TcpSegment

-- An IPv4 `Address`: `ipv4_numeric()` and `port()`.
pub record Address : Type 0 where
  pub ipv4_numeric : ℕ
  pub port : ℕ

-- `Address::operator!=`
abbrev pub differs : Address → Address → Bool
differs a b = not (a.ipv4_numeric == b.ipv4_numeric && a.port == b.port)

pub record FdAdapterConfig : Type 0 where
  pub source : Address
  pub destination : Address
  pub loss_rate_dn : ℕ
  pub loss_rate_up : ℕ

pub record FdAdapterBase : Type 0 where
  pub cfg : FdAdapterConfig
  pub listening : Bool

unfoldable pub set_listening : FdAdapterBase → Bool → FdAdapterBase
set_listening a l = record a { listening = l }

-- `config_mutable().destination = …`
abbrev pub set_destination : FdAdapterBase → Address → FdAdapterBase
set_destination a destination = record a { cfg = record a.cfg { destination = destination } }

-- The end of `TCPOverUDPSocketAdapter::read`, for a valid segment.
unfoldable pub accept_datagram :
    FdAdapterBase → Address → TcpSegment → FdAdapterBase × Option TcpSegment
accept_datagram a source_address seg =
    if a.listening
    then (if seg.header.syn && not seg.header.rst
        then (set_listening (set_destination a source_address) false, some seg)
        else (a, none))
    else (a, some seg)

-- `TCPOverUDPSocketAdapter::read` of a datagram that the socket received.
unfoldable pub read : FdAdapterBase → Address → Buffer → FdAdapterBase × Option TcpSegment
read a source_address payload =
    let (seg, result) = TcpSegment.parse TcpSegment.empty payload 0 in
    if not a.listening && differs source_address a.cfg.destination
    then (a, none)
    else if is_error result
    then (a, none)
    else accept_datagram a source_address seg

-- The segment with the ports of the configuration.
unfoldable pub with_ports : FdAdapterBase → TcpSegment → TcpSegment
with_ports a seg = record seg {
  header = record seg.header { sport = a.cfg.source.port; dport = a.cfg.destination.port };
}

-- `TCPOverUDPSocketAdapter::write`: the segment, which the caller sees changed, and what is sent to
-- which address; `none` is the exception of `serialize`.
unfoldable pub write : FdAdapterBase → TcpSegment → TcpSegment × Address × Option BufferList
write a seg = let seg' = with_ports a seg in (seg', a.cfg.destination, TcpSegment.serialize seg' 0)

-- `LossyFdAdapter::_should_drop`, with the random number that it draws.
unfoldable pub should_drop : FdAdapterConfig → Bool → ℕ → Bool
should_drop cfg uplink rand =
    let loss = if uplink then cfg.loss_rate_up else cfg.loss_rate_dn in
    not (loss == 0) && ltb (rand % 2 ^ 16) loss

-- `LossyFdAdapter::read`: the adapter has read before the segment is dropped.
unfoldable pub lossy_read : FdAdapterBase → ℕ → Address → Buffer → FdAdapterBase × Option TcpSegment
lossy_read a rand source_address payload =
    let (a', ret) = read a source_address payload in
    if should_drop a'.cfg false rand then (a', none) else (a', ret)

-- `LossyFdAdapter::write`: nothing is sent of a segment that is dropped.
unfoldable pub lossy_write :
    FdAdapterBase → ℕ → TcpSegment → TcpSegment × Address × Option BufferList
lossy_write a rand seg =
    if should_drop a.cfg true rand then (seg, a.cfg.destination, none) else write a seg
