-- ===== src/TcpOverIp/RoundTrip.antt =====
-- `unwrap_tcp_in_ip` of libsponge/tcp_helpers/tcp_over_ip.cc after `wrap_tcp_in_ip`.
use cs144_lab_assignment.Common.{
  ℕ, ◌+◌, ◌*◌, ◌^◌, ◌<◌, ◌≡◌, refl, ap, ◌∙◌, false, not, ◌&&◌, [], ◌∷◌, Option, none, some, ◌==◌,
  length, All, arith,
}
use cs144_lab_assignment.Buffer.{Buffer, BufferList, str, size, of_string, concatenate, to_buffer}
use cs144_lab_assignment.Buffer.Laws as Laws
use cs144_lab_assignment.NetParser.{is_error, no_error}
use cs144_lab_assignment.FdAdapter.{Address, FdAdapterBase, with_ports}
use cs144_lab_assignment.TcpHeader.RoundTrip as Tcp
use cs144_lab_assignment.TcpHeader.{TcpHeader}
use cs144_lab_assignment.TcpSegment.{TcpSegment}
use cs144_lab_assignment.TcpSegment
use cs144_lab_assignment.TcpSegment.Bytes as Bytes
use cs144_lab_assignment.TcpSegment.RoundTrip as Segment
use cs144_lab_assignment.Ipv4Header.{Ipv4Header, payload_length, pseudo_cksum}
use cs144_lab_assignment.Ipv4Header.RoundTrip as Ip
use cs144_lab_assignment.Ipv4Datagram.{Ipv4Datagram}
use cs144_lab_assignment.Ipv4Datagram
use cs144_lab_assignment.Ipv4Datagram.RoundTrip as Datagram
use cs144_lab_assignment.Ipv4Datagram.Bytes as Layout
use cs144_lab_assignment.TcpOverIp.{
  accept_segment, accept_payload, from_peer, unwrap_tcp_in_ip, datagram_header, wrap_tcp_in_ip,
}

-- A segment that fits, of bytes, between addresses of 32 bits.
pub record Sendable (a : FdAdapterBase) (seg : TcpSegment) : Type 0 where
  pub header : Tcp.IsValid (with_ports a seg).header
  pub payload_bytes : All (λ (b : ℕ). b < 256) (str seg.payload)
  pub short : length (str seg.payload) < 2 ^ 15
  pub source_small : a.cfg.source.ipv4_numeric < 2 ^ 32
  pub destination_small : a.cfg.destination.ipv4_numeric < 2 ^ 32

-- The other end of the connection: the addresses are swapped, and it does not listen.
pub record IsPeer (a b : FdAdapterBase) : Type 0 where
  pub quiet : b.listening ≡ false
  pub source : b.cfg.source ≡ a.cfg.destination
  pub destination : b.cfg.destination ≡ a.cfg.source

module _ (a : FdAdapterBase) (seg : TcpSegment) (s : Sendable a seg) where
  abbrev sent : TcpSegment
  sent = with_ports a seg

  abbrev header : Ipv4Header
  header = datagram_header a sent

  abbrev initial : ℕ
  initial = pseudo_cksum header

  segment-Fits : Segment.Fits sent initial
  unfolding with_ports pseudo_cksum payload_length datagram_header size
  segment-Fits = record {
    header = s.header;
    payload_bytes = s.payload_bytes;
    short = s.short;
    initial_small = omega arith;
  }

  abbrev payload : BufferList
  payload =
      of_string
        (Bytes.header_bytes (Bytes.with_cksum sent.header (Segment.right_cksum sent initial)))
      ∷ sent.payload
      ∷ []

  abbrev datagram : Ipv4Datagram
  datagram = record { header = header; payload = payload }

  wrapped : (wrap_tcp_in_ip a seg).1 ≡ some datagram
  unfolding wrap_tcp_in_ip
  wrapped =
      ap
        (λ (o : Option BufferList). elim o as (λ _. Option Ipv4Datagram) [
          | none ↦ none
          | some p ↦ some (record { header = header; payload = p })
        ])
        (Segment.serialize_segment_lem sent initial segment-Fits)

  concatenated :
      concatenate payload
      ≡ Bytes.bytes sent.header (Segment.right_cksum sent initial) (str sent.payload)
  concatenated =
      Segment.concatenate-assembled
        (Bytes.with_cksum sent.header (Segment.right_cksum sent initial)) sent.payload

  header-IsValid : Ip.IsValid header
  unfolding with_ports datagram_header size
  header-IsValid = record {
    ver = refl;
    hlen_min = omega arith;
    hlen_max = omega arith;
    tos = omega arith;
    len = omega arith;
    id = omega arith;
    offset = omega arith;
    ttl = omega arith;
    proto = omega arith;
    cksum = omega arith;
    src = s.source_small;
    dst = s.destination_small;
  }

  datagram-Fits : Layout.Fits datagram
  unfolding with_ports datagram_header size
  datagram-Fits =
      let len : length (concatenate payload) ≡ 4 * seg.header.doff + length (str seg.payload) =
        ap length concatenated ∙ Segment.length-serialized sent initial segment-Fits in
      let max : seg.header.doff < 16 = s.header.doff_max in
      record { header = header-IsValid; whole = omega (arith, s.short) }

  -- What the peer has to get: the segment with the ports and some checksum.
  abbrev pub Delivered : FdAdapterBase → FdAdapterBase × Option TcpSegment → Type 0
  Delivered b read =
      (read.0 ≡ b)
      × ((got : TcpSegment) × (cksum : ℕ) × (read.1 ≡ some got)
          × (got.header ≡ record sent.header { cksum = cksum })
          × (str got.payload ≡ str seg.payload))

  accepted :
      (b : FdAdapterBase) (ip_header : Ipv4Header) (got : TcpSegment)
      → IsPeer a b
      → got.header.sport ≡ a.cfg.source.port
      → got.header.dport ≡ a.cfg.destination.port
      → accept_segment b ip_header got ≡ (b, some got)
  unfolding accept_segment from_peer
  accepted b ip_header got p sport dport =
      let to_us = ap (λ (x : Address). x.port) p.source in
      let from_us = ap (λ (x : Address). x.port) p.destination in
      let quiet = p.quiet in ground arith

  -- The tests of `unwrap_tcp_in_ip`, once the segment is parsed.
  unwrap-Ready :
      (b : FdAdapterBase) (cksum : ℕ) (buf : Buffer)
      → IsPeer a b
      → (TcpSegment.parse TcpSegment.empty buf initial).1 ≡ no_error
      → (TcpSegment.parse TcpSegment.empty buf initial).0.header.sport ≡ a.cfg.source.port
      → (TcpSegment.parse TcpSegment.empty buf initial).0.header.dport ≡ a.cfg.destination.port
      → unwrap_tcp_in_ip b (record { header = record header { cksum = cksum }; payload = buf ∷ [] })
        ≡ (b, some (TcpSegment.parse TcpSegment.empty buf initial).0)
  unfolding unwrap_tcp_in_ip accept_payload to_buffer pseudo_cksum payload_length datagram_header
  unwrap-Ready b cksum buf p fine sport dport =
      let no_stop : is_error (TcpSegment.parse TcpSegment.empty buf initial).1 ≡ false =
        ap is_error fine in
      let to_us = ap (λ (x : Address). x.ipv4_numeric) p.source in
      let from_us = ap (λ (x : Address). x.ipv4_numeric) p.destination in
      let us : (not b.listening
            && not (a.cfg.destination.ipv4_numeric == b.cfg.source.ipv4_numeric))
          ≡ false =
        ground arith in
      let peer : (not b.listening
            && not (a.cfg.source.ipv4_numeric == b.cfg.destination.ipv4_numeric))
          ≡ false =
        ground arith in
      rw (us, peer, no_stop) (accepted b _ _ p sport dport)

  unwrapped :
      (b : FdAdapterBase) (cksum : ℕ) (buf : Buffer)
      → IsPeer a b
      → Laws.IsValid buf
      → str buf ≡ concatenate payload
      → Delivered b (
          unwrap_tcp_in_ip b
            (record { header = record header { cksum = cksum }; payload = buf ∷ [] }))
  unwrapped b cksum buf p w e =
      let (same, text, fine) =
        Segment.parse-bytes TcpSegment.empty sent initial buf segment-Fits w (e ∙ concatenated) in
      let got : TcpSegment = (TcpSegment.parse TcpSegment.empty buf initial).0 in
      let sport : got.header.sport ≡ a.cfg.source.port =
        ap (λ (h : TcpHeader). h.sport) same ∙ (unfold with_ports in refl) in
      let dport : got.header.dport ≡ a.cfg.destination.port =
        ap (λ (h : TcpHeader). h.dport) same ∙ (unfold with_ports in refl) in
      let taken = unwrap-Ready b cksum buf p fine sport dport in
      rw taken (
        refl,
        (got, Segment.right_cksum sent initial, refl, same, text ∙ (unfold with_ports in refl)),
      )

-- A segment that is wrapped and serialized by one adapter, and parsed and unwrapped by its peer, which
-- does not listen, arrives: with the ports of the connection and a checksum in its header, and its
-- payload as it was; and the peer's adapter stays as it is.
pub unwrap_tcp_in_ip-wrap_tcp_in_ip :
    (a b : FdAdapterBase) (seg : TcpSegment) (d0 : Ipv4Datagram)
    → Sendable a seg
    → IsPeer a b
    → (d : Ipv4Datagram) × (bs : BufferList) × ((wrap_tcp_in_ip a seg).1 ≡ some d)
      × (Ipv4Datagram.serialize d ≡ some bs)
      × ((Ipv4Datagram.parse d0 (of_string (concatenate bs))).1 ≡ no_error)
      × (let read = unwrap_tcp_in_ip b (Ipv4Datagram.parse d0 (of_string (concatenate bs))).0 in
          (read.0 ≡ b)
          × ((got : TcpSegment) × (cksum : ℕ) × (read.1 ≡ some got)
              × (got.header ≡ record (with_ports a seg).header { cksum = cksum })
              × (str got.payload ≡ str seg.payload)))
unwrap_tcp_in_ip-wrap_tcp_in_ip a b seg d0 s p =
    let (bs, cksum, serialized, (h, (buf, one, valid, text), fine), _) =
      Datagram.parse_datagram-serialize d0 (datagram a seg s) (datagram-Fits a seg s) in
    let same : (Ipv4Datagram.parse d0 (of_string (concatenate bs))).0
        ≡ record { header = record (header a seg s) { cksum = cksum }; payload = buf ∷ [] } =
      λ i. record { header = h i; payload = one i } in
    (
      datagram a seg s,
      bs,
      wrapped a seg s,
      serialized,
      fine,
      rw same (unwrapped a seg s b cksum buf p valid text),
    )
