-- ===== src/TcpSpongeSocket/Transports.antt =====
-- The adapters of libsponge/tcp_helpers under a TCPSpongeSocket: what they read.
use cs144_lab_assignment.Common.{
  ℕ, ◌<◌, ◌^◌, ◌≡◌, ap, subst, false, List, Option, some, length, if_both, ltb, arith, inl, inr,
}
use cs144_lab_assignment.Adapters.{
  Adapter, FdHolder, udp_adapter, udp_read, lossy_adapter, drop_read,
}
use cs144_lab_assignment.Buffer.{Buffer, of_string}
use cs144_lab_assignment.FdAdapter.{Address, FdAdapterBase, should_drop, accept_datagram}
use cs144_lab_assignment.FdAdapter
use cs144_lab_assignment.FileDescriptor.{FdWrapper}
use cs144_lab_assignment.NetParser.{is_error}
use cs144_lab_assignment.Socket.{RecvReturn, received, recv_fails, recv, default_mtu}
use cs144_lab_assignment.SystemCall.{Result, Result-cases, ok, throws, SysReturn}
use cs144_lab_assignment.TcpConnection.Inbound.{OfPeer}
use cs144_lab_assignment.TcpSegment.{TcpSegment}
use cs144_lab_assignment.TcpSegment
use cs144_lab_assignment.WrappingIntegers.{WrappingInt32}
use cs144_lab_assignment.TcpSpongeSocket.Invariant.{Honest}

ok_inj {ℓ} : {A : Type ℓ} {a b : A} → ok a ≡ ok b → a ≡ b
ok_inj h = ground arith

-- A lossy adapter around one that reads only segments of the peer's stream reads only such segments.
pub lossy_adapter-Honest :
    (A : Adapter) (rand : ℕ → ℕ) (stream : List ℕ) (isn : WrappingInt32)
    → Honest A stream isn
    → Honest (lossy_adapter A rand) stream isn
unfolding drop_read
lossy_adapter-Honest A rand stream isn honest n a seg =
    dropped (A.read n a).0 (A.read n a).1 (λ r. honest n a seg r)
  where
    dropped :
        (a' : A.Self) (r : Result (Option TcpSegment))
        → (r ≡ ok (some seg) → OfPeer stream isn seg × (seg.header.win < 2 ^ 16))
        → (drop_read A (rand n) (a', r)).1 ≡ ok (some seg)
        → OfPeer stream isn seg × (seg.header.win < 2 ^ 16)
    dropped a' (throws e) h = h
    dropped a' (ok ret) h =
        if_both
          (λ (o : A.Self × Result (Option TcpSegment)).
            o.1 ≡ ok (some seg) → OfPeer stream isn seg × (seg.header.win < 2 ^ 16))
          (should_drop (A.base a').cfg false (rand n)) (λ _ r. absurd (ground arith)) λ _ r. h r

-- Datagrams whose payload, where it parses, is a segment of the peer's stream.
abbrev pub PeerDatagrams : (ℕ → RecvReturn) → List ℕ → WrappingInt32 → Type 0
PeerDatagrams recvfrom stream isn =
    (n : ℕ) (source : Address) (payload : List ℕ)
    → recvfrom n ≡ received source payload
    → let (seg, result) = TcpSegment.parse TcpSegment.empty (of_string payload) 0 in
      is_error result ≡ false → OfPeer stream isn seg × (seg.header.win < 2 ^ 16)

-- What `FdAdapter.read` gives is the segment that was parsed.
read_parsed :
    (a : FdAdapterBase) (source : Address) (payload : Buffer) (seg : TcpSegment)
    → (FdAdapter.read a source payload).1 ≡ some seg
    → let (seg', result) = TcpSegment.parse TcpSegment.empty payload 0 in
      (is_error result ≡ false) × (seg' ≡ seg)
unfolding FdAdapter.read accept_datagram
read_parsed a source payload seg h = (ground arith, ground arith)

recv_given :
    (f : FdWrapper) (answer : RecvReturn) (mtu : ℕ) (d : Address × List ℕ)
    → (recv f answer mtu).1 ≡ ok d
    → answer ≡ received d.0 d.1
unfolding recv
recv_given f (recv_fails errno) mtu d = λ h. absurd (ground arith)
recv_given f (received source payload) mtu d =
    if_both
      (λ (o : FdWrapper × Result (Address × List ℕ)).
        o.1 ≡ ok d → received source payload ≡ received d.0 d.1)
      (ltb mtu (length payload)) (λ _ h. absurd (ground arith))
      λ _ h. ap (λ (x : Address × List ℕ). received x.0 x.1) (ok_inj h)

udp_read-peer :
    (stream : List ℕ) (isn : WrappingInt32) (answer : RecvReturn) (a : FdHolder) (seg : TcpSegment)
    → ((source : Address) (payload : List ℕ)
        → answer ≡ received source payload
        → let (seg', result) = TcpSegment.parse TcpSegment.empty (of_string payload) 0 in
          is_error result ≡ false → OfPeer stream isn seg' × (seg'.header.win < 2 ^ 16))
    → (udp_read answer a).1 ≡ ok (some seg)
    → OfPeer stream isn seg × (seg.header.win < 2 ^ 16)
unfolding udp_read
udp_read-peer stream isn answer a seg peer =
    elim (Result-cases (recv a.holder_fd answer default_mtu).1) [
      | inl (e, r) ↦ rw (udp_read, r) (λ h. absurd (ground arith))
      | inr (d, r) ↦
          rw (udp_read, r)
            (λ h.
              let (fine, same) = read_parsed a.holder_base d.0 (of_string d.1) seg (ok_inj h) in
              subst (λ (s : TcpSegment). OfPeer stream isn s × (s.header.win < 2 ^ 16)) same
                (peer d.0 d.1 (recv_given a.holder_fd answer default_mtu d r) fine))
    ]

-- The adapter over UDP reads only segments of the peer's stream, if the datagrams that the socket
-- receives and that parse are such segments.
pub udp_adapter-Honest :
    (recvfrom : ℕ → RecvReturn) (sendmsg : ℕ → SysReturn) (stream : List ℕ) (isn : WrappingInt32)
    → PeerDatagrams recvfrom stream isn
    → Honest (udp_adapter recvfrom sendmsg) stream isn
udp_adapter-Honest recvfrom sendmsg stream isn peer n a seg =
    udp_read-peer stream isn (recvfrom n) a seg (peer n)
