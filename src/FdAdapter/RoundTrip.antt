-- ===== src/FdAdapter/RoundTrip.antt =====
-- `TCPOverUDPSocketAdapter` of libsponge/tcp_helpers/fd_adapter.cc: writing and reading a segment.
use cs144_lab_assignment.Common.{ℕ, ◌≡◌, refl, ap, false, Option, some, arith}
use cs144_lab_assignment.Buffer.{BufferList, str, of_string, concatenate}
use cs144_lab_assignment.NetParser.{is_error}
use cs144_lab_assignment.TcpSegment.{TcpSegment}
use cs144_lab_assignment.TcpSegment
use cs144_lab_assignment.TcpSegment.RoundTrip as Segment
use cs144_lab_assignment.FdAdapter.{
  Address, FdAdapterBase, accept_datagram, differs, read, with_ports, write,
}

-- What the peer gets: the segment with the ports of the sender and some checksum.
abbrev pub Arrives : TcpSegment → FdAdapterBase → FdAdapterBase × Option TcpSegment → Type 0
Arrives sent b out =
    (out.0 ≡ b)
    × ((got : TcpSegment) × (cksum : ℕ) × (out.1 ≡ some got)
        × (got.header ≡ record sent.header { cksum = cksum })
        × (str got.payload ≡ str sent.payload))

differs_self : (x : Address) → differs x x ≡ false
differs_self x = ground arith

-- A segment that one adapter writes, and that its peer, which does not listen, reads from the
-- sender's address, arrives with the ports and a checksum in its header and its payload as it was; the
-- peer's adapter stays as it is.
pub read-write :
    (a b : FdAdapterBase) (seg : TcpSegment)
    → Segment.Fits (with_ports a seg) 0
    → b.listening ≡ false
    → b.cfg.destination ≡ a.cfg.source
    → (bs : BufferList) × ((write a seg).2 ≡ some bs)
      × Arrives (with_ports a seg) b (read b a.cfg.source (of_string (concatenate bs)))
unfolding write read accept_datagram
read-write a b seg f quiet peer =
    let (bs, cksum, serialized, (header, payload, fine)) =
      Segment.parse_segment-serialize TcpSegment.empty (with_ports a seg) 0 f in
    let same : differs a.cfg.source b.cfg.destination ≡ false =
      rw peer (differs_self a.cfg.source) in
    let no_stop = ap is_error fine in
    (bs, serialized, rw (quiet, same, no_stop) (refl, (_, cksum, refl, header, payload)))
