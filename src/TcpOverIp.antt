-- ===== src/TcpOverIp.antt =====
-- `TCPOverIPv4Adapter` of libsponge/tcp_helpers/tcp_over_ip.hh and tcp_over_ip.cc.
pub mod Filter
pub mod RoundTrip
use cs144_lab_assignment.Common.{
  ◌+◌, ◌*◌, ◌%◌, ◌^◌, false, not, ◌&&◌, Option, none, some, ◌==◌, if◌then◌else◌,
}
use cs144_lab_assignment.Buffer.{Buffer, size, to_buffer}
use cs144_lab_assignment.FdAdapter.{FdAdapterBase, set_listening, with_ports}
use cs144_lab_assignment.Ipv4Header.{Ipv4Header, proto_tcp, pseudo_cksum}
use cs144_lab_assignment.Ipv4Datagram.{Ipv4Datagram}
use cs144_lab_assignment.Ipv4Datagram
use cs144_lab_assignment.NetParser.{is_error}
use cs144_lab_assignment.TcpSegment.{TcpSegment}
use cs144_lab_assignment.TcpSegment

-- The two assignments to `config_mutable()`, and `set_listening(false)`.
unfoldable pub connect_to : FdAdapterBase → Ipv4Header → TcpSegment → FdAdapterBase
connect_to a header seg =
    set_listening
      (record a {
        cfg = record a.cfg {
          source = record { ipv4_numeric = header.dst; port = a.cfg.source.port };
          destination = record { ipv4_numeric = header.src; port = seg.header.sport };
        };
      })
      false

-- The last test of `unwrap_tcp_in_ip`.
unfoldable pub from_peer : FdAdapterBase → TcpSegment → FdAdapterBase × Option TcpSegment
from_peer a seg =
    if not (seg.header.sport == a.cfg.destination.port) then (a, none) else (a, some seg)

-- `unwrap_tcp_in_ip` behind the parsing.
unfoldable pub accept_segment :
    FdAdapterBase → Ipv4Header → TcpSegment → FdAdapterBase × Option TcpSegment
accept_segment a header seg =
    if not (seg.header.dport == a.cfg.source.port)
    then (a, none)
    else if a.listening
    then (if seg.header.syn && not seg.header.rst
        then from_peer (connect_to a header seg) seg
        else (a, none))
    else from_peer a seg

-- `unwrap_tcp_in_ip` behind the tests of the datagram's header, for a payload in one buffer.
unfoldable pub accept_payload :
    FdAdapterBase → Ipv4Header → Buffer → FdAdapterBase × Option TcpSegment
accept_payload a header payload =
    let (seg, result) = TcpSegment.parse TcpSegment.empty payload (pseudo_cksum header) in
    if is_error result then (a, none) else accept_segment a header seg

-- `TCPOverIPv4Adapter::unwrap_tcp_in_ip`. A payload of several buffers is an exception in C++, which
-- this gives as no segment: `IPv4Datagram::parse` makes payloads of one buffer.
unfoldable pub unwrap_tcp_in_ip : FdAdapterBase → Ipv4Datagram → FdAdapterBase × Option TcpSegment
unwrap_tcp_in_ip a ip_dgram =
    let header = ip_dgram.header in
    if not a.listening && not (header.dst == a.cfg.source.ipv4_numeric)
    then (a, none)
    else if not a.listening && not (header.src == a.cfg.destination.ipv4_numeric)
    then (a, none)
    else if not (header.proto == proto_tcp)
    then (a, none)
    else (elim (to_buffer ip_dgram.payload) [
      | none ↦ (a, none)
      | some payload ↦ accept_payload a header payload
    ])

-- The header of the datagram that `wrap_tcp_in_ip` makes.
unfoldable pub datagram_header : FdAdapterBase → TcpSegment → Ipv4Header
datagram_header a seg = record Ipv4Datagram.empty.header {
  src = a.cfg.source.ipv4_numeric;
  dst = a.cfg.destination.ipv4_numeric;
  len = (5 * 4 + seg.header.doff * 4 + size seg.payload) % 2 ^ 16;
}

-- `TCPOverIPv4Adapter::wrap_tcp_in_ip`: the segment, which the caller sees changed, and the datagram;
-- `none` is the exception of `serialize`.
unfoldable pub wrap_tcp_in_ip : FdAdapterBase → TcpSegment → TcpSegment × Option Ipv4Datagram
wrap_tcp_in_ip a seg =
    let seg' = with_ports a seg in
    let header = datagram_header a seg' in
    (
      seg',
      elim (TcpSegment.serialize seg' (pseudo_cksum header)) as (λ _. Option Ipv4Datagram) [
        | none ↦ none
        | some payload ↦ some (record { header = header; payload = payload })
      ],
    )
