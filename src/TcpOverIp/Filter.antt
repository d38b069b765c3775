-- ===== src/TcpOverIp/Filter.antt =====
-- Which segments `unwrap_tcp_in_ip` of libsponge/tcp_helpers/tcp_over_ip.cc lets through.
use cs144_lab_assignment.Common.{
  ◌≡◌, ◌⊎◌, refl, true, false, not, ◌&&◌, Option, none, some, ◌==◌, if_both, inl, inr, arith,
}
use cs144_lab_assignment.Buffer.{Buffer, to_buffer}
use cs144_lab_assignment.FdAdapter.{FdAdapterBase, set_listening}
use cs144_lab_assignment.Ipv4Header.{proto_tcp, pseudo_cksum}
use cs144_lab_assignment.Ipv4Datagram.{Ipv4Datagram}
use cs144_lab_assignment.NetParser.{is_error}
use cs144_lab_assignment.TcpSegment.{TcpSegment}
use cs144_lab_assignment.TcpSegment
use cs144_lab_assignment.TcpOverIp.{
  connect_to, from_peer, accept_segment, accept_payload, unwrap_tcp_in_ip,
}

-- A segment comes from the peer of the adapter as it is afterwards; the adapter is unchanged, or it
-- listened, the segment opens a connection, and the adapter does not listen any more.
pub record Related (a : FdAdapterBase) (d : Ipv4Datagram) (a' : FdAdapterBase) (seg : TcpSegment)
    : Type 0 where
  pub quiet : a'.listening ≡ false
  pub to_us : d.header.dst ≡ a'.cfg.source.ipv4_numeric
  pub from_peer : d.header.src ≡ a'.cfg.destination.ipv4_numeric
  pub to_port : seg.header.dport ≡ a'.cfg.source.port
  pub from_port : seg.header.sport ≡ a'.cfg.destination.port
  pub own_port : a'.cfg.source.port ≡ a.cfg.source.port
  pub opens : (a' ≡ a) ⊎ ((a.listening ≡ true) × (seg.header.syn ≡ true) × (seg.header.rst ≡ false))

-- What `unwrap_tcp_in_ip` may return: nothing and an unchanged adapter, or a related segment.
abbrev pub Sound : FdAdapterBase → Ipv4Datagram → FdAdapterBase × Option TcpSegment → Type 0
Sound a d (a', none) = a' ≡ a
Sound a d (a', some seg) = Related a d a' seg

accept_segment-Sound :
    (a : FdAdapterBase) (d : Ipv4Datagram) (seg : TcpSegment)
    → (a.listening ≡ false
        → (d.header.dst ≡ a.cfg.source.ipv4_numeric)
          × (d.header.src ≡ a.cfg.destination.ipv4_numeric))
    → Sound a d (accept_segment a d.header seg)
unfolding accept_segment from_peer connect_to set_listening
accept_segment-Sound a d seg ours =
    if_both (Sound a d) (not (seg.header.dport == a.cfg.source.port)) (λ _. refl)
      λ p.
        let to_port : seg.header.dport ≡ a.cfg.source.port = ground arith in
        if_both (Sound a d) a.listening
          (λ l.
            if_both (Sound a d) (seg.header.syn && not seg.header.rst)
              (λ s.
                if_both (Sound a d) (not (seg.header.sport == seg.header.sport)) (λ n. ground arith)
                  λ _. record {
                    quiet = refl;
                    to_us = refl;
                    from_peer = refl;
                    to_port = to_port;
                    from_port = refl;
                    own_port = refl;
                    opens = inr (l, ground arith, ground arith);
                  })
              λ _. refl)
          λ q.
            if_both (Sound a d) (not (seg.header.sport == a.cfg.destination.port)) (λ _. refl)
              λ n. record {
                quiet = q;
                to_us = (ours q).0;
                from_peer = (ours q).1;
                to_port = to_port;
                from_port = ground arith;
                own_port = refl;
                opens = inl refl;
              }

-- Every segment that `unwrap_tcp_in_ip` returns comes from the adapter's peer and goes to its address
-- and port; a listening adapter takes the peer from a segment with SYN and without RST, and listens
-- no longer; and when there is no segment the adapter is as it was.
pub unwrap_tcp_in_ip-Sound :
    (a : FdAdapterBase) (d : Ipv4Datagram) → Sound a d (unwrap_tcp_in_ip a d)
unfolding unwrap_tcp_in_ip accept_payload
unwrap_tcp_in_ip-Sound a d =
    let us = not a.listening && not (d.header.dst == a.cfg.source.ipv4_numeric) in
    let peer = not a.listening && not (d.header.src == a.cfg.destination.ipv4_numeric) in
    if_both (Sound a d) us (λ _. refl)
      λ u.
        if_both (Sound a d) peer (λ _. refl)
          λ w.
            if_both (Sound a d) (not (d.header.proto == proto_tcp)) (λ _. refl)
              λ _. payload-Sound (to_buffer d.payload) (λ l. (ground arith, ground arith))
  where
    payload-Sound :
        (o : Option Buffer)
        → (a.listening ≡ false
            → (d.header.dst ≡ a.cfg.source.ipv4_numeric)
              × (d.header.src ≡ a.cfg.destination.ipv4_numeric))
        → Sound a d (elim o as (λ _. FdAdapterBase × Option TcpSegment) [
          | none ↦ (a, none)
          | some payload ↦ accept_payload a d.header payload
        ])
    payload-Sound none ours = refl
    payload-Sound (some payload) ours =
        if_both (Sound a d)
          (is_error (TcpSegment.parse TcpSegment.empty payload (pseudo_cksum d.header)).1)
          (λ _. refl) λ _. accept_segment-Sound a d _ ours
