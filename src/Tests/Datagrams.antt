-- ===== src/Tests/Datagrams.antt =====
-- Whole segments and datagrams, and the adapters, at concrete inputs.
use cs144_lab_assignment.Common.{
  ℕ, ◌<◌, ◌^◌, ◌≡◌, refl, true, false, [], ◌∷◌, some, length, All, arith,
}
use cs144_lab_assignment.Buffer.{BufferList, str, of_string, concatenate}
use cs144_lab_assignment.NetParser.{no_error, init}
use cs144_lab_assignment.TcpHeader
use cs144_lab_assignment.TcpHeader.RoundTrip as Header
use cs144_lab_assignment.TcpSegment.{TcpSegment}
use cs144_lab_assignment.TcpSegment
use cs144_lab_assignment.TcpSegment.RoundTrip.{parse_segment-serialize}
use cs144_lab_assignment.TcpSegment.RoundTrip as Segment
use cs144_lab_assignment.Ipv4Header
use cs144_lab_assignment.Ipv4Datagram.{Ipv4Datagram}
use cs144_lab_assignment.Ipv4Datagram
use cs144_lab_assignment.Ipv4Datagram.Bytes.{OneBuffer}
use cs144_lab_assignment.Ipv4Datagram.RoundTrip.{parse-assemble, parse_datagram-serialize}
use cs144_lab_assignment.Ipv4Datagram.Bytes as Layout
use cs144_lab_assignment.FdAdapter.{Address, FdAdapterBase, with_ports, read, write}
use cs144_lab_assignment.FdAdapter.RoundTrip.{Arrives, read-write}
use cs144_lab_assignment.TcpOverIp.{unwrap_tcp_in_ip, wrap_tcp_in_ip}
use cs144_lab_assignment.TcpOverIp.Filter.{Sound, unwrap_tcp_in_ip-Sound}
use cs144_lab_assignment.TcpOverIp.RoundTrip.{unwrap_tcp_in_ip-wrap_tcp_in_ip}

abbrev segment : TcpSegment
segment = record {
  header = record TcpHeader.default { syn = true; seqno = 4294967295; win = 64000 };
  payload = of_string (104 ∷ 105 ∷ []);
}

-- An adapter and its peer.
abbrev here : Address
here = record { ipv4_numeric = 2852019457; port = 1234 }

abbrev there : Address
there = record { ipv4_numeric = 2852019465; port = 80 }

abbrev adapter : FdAdapterBase
adapter = record {
  cfg = record { source = here; destination = there; loss_rate_dn = 0; loss_rate_up = 0 };
  listening = false;
}

abbrev peer : FdAdapterBase
peer = record {
  cfg = record { source = there; destination = here; loss_rate_dn = 0; loss_rate_up = 0 };
  listening = false;
}

header-IsValid : Header.IsValid (with_ports adapter segment).header
unfolding with_ports
header-IsValid = record {
  sport = omega arith;
  dport = omega arith;
  seqno = omega arith;
  ackno = omega arith;
  doff_min = omega arith;
  doff_max = omega arith;
  win = omega arith;
  cksum = omega arith;
  uptr = omega arith;
}

payload_bytes : All (λ (b : ℕ). b < 256) (str segment.payload)
unfolding str of_string
payload_bytes = (omega arith, (omega arith, tt))

payload_short : length (str segment.payload) < 2 ^ 15
unfolding str of_string
payload_short = omega arith

sent-Fits : Segment.Fits (with_ports adapter segment) 0
sent-Fits = record {
  header = header-IsValid;
  payload_bytes = unfold with_ports in payload_bytes;
  short = unfold with_ports in payload_short;
  initial_small = omega arith;
}

parse_segment-serialize_example :
    (bs : BufferList) × (cksum : ℕ) × (TcpSegment.serialize (with_ports adapter segment) 0
      ≡ some bs)
    × (let read = TcpSegment.parse TcpSegment.empty (of_string (concatenate bs)) 0 in
        (read.0.header ≡ record (with_ports adapter segment).header { cksum = cksum })
        × (str read.0.payload ≡ str (with_ports adapter segment).payload)
        × (read.1 ≡ no_error))
parse_segment-serialize_example =
    parse_segment-serialize TcpSegment.empty (with_ports adapter segment) 0 sent-Fits

read-write_example :
    (bs : BufferList) × ((write adapter segment).2 ≡ some bs)
    × Arrives (with_ports adapter segment) peer (read peer here (of_string (concatenate bs)))
read-write_example = read-write adapter peer segment sent-Fits refl refl

unwrap_tcp_in_ip-wrap_tcp_in_ip_example :
    (d : Ipv4Datagram) × (bs : BufferList) × ((wrap_tcp_in_ip adapter segment).1 ≡ some d)
    × (Ipv4Datagram.serialize d ≡ some bs)
    × ((Ipv4Datagram.parse Ipv4Datagram.empty (of_string (concatenate bs))).1 ≡ no_error)
    × (let read =
          unwrap_tcp_in_ip peer
            (Ipv4Datagram.parse Ipv4Datagram.empty (of_string (concatenate bs))).0 in
        (read.0 ≡ peer)
        × ((got : TcpSegment) × (cksum : ℕ) × (read.1 ≡ some got)
            × (got.header ≡ record (with_ports adapter segment).header { cksum = cksum })
            × (str got.payload ≡ str segment.payload)))
unwrap_tcp_in_ip-wrap_tcp_in_ip_example =
    unwrap_tcp_in_ip-wrap_tcp_in_ip adapter peer segment Ipv4Datagram.empty
      (record {
        header = header-IsValid;
        payload_bytes = payload_bytes;
        short = payload_short;
        source_small = omega arith;
        destination_small = omega arith;
      })
      (record { quiet = refl; source = refl; destination = refl })

abbrev datagram : Ipv4Datagram
datagram = record {
  header = record Ipv4Header.default { len = 26; src = 5; dst = 6; hlen = 6 };
  payload = of_string (104 ∷ 105 ∷ []) ∷ [];
}

datagram-Fits : Layout.Fits datagram
unfolding concatenate str of_string
datagram-Fits = record {
  header = record {
    ver = refl;
    hlen_min = omega arith;
    hlen_max = omega arith;
    tos = omega arith;
    len = omega arith;
    id = omega arith;
    offset = omega arith;
    ttl = omega arith;
    proto = omega arith;
    cksum = omega arith;
    src = omega arith;
    dst = omega arith;
  };
  whole = refl;
}

-- A checksum that is wrong.
parse-assemble_example :
    (bs : BufferList) × (Ipv4Datagram.assemble datagram 12345 ≡ some bs)
    × (let read = Ipv4Datagram.parse Ipv4Datagram.empty (of_string (concatenate bs)) in
        (read.0.header ≡ record datagram.header { cksum = 12345 })
        × OneBuffer (concatenate datagram.payload) read.0.payload
        × (read.1 ≡ no_error))
parse-assemble_example =
    parse-assemble Ipv4Datagram.empty datagram 12345 datagram-Fits (omega arith)

parse_datagram-serialize_example :
    (bs : BufferList) × (cksum : ℕ) × (Ipv4Datagram.serialize datagram ≡ some bs)
    × (let read = Ipv4Datagram.parse Ipv4Datagram.empty (of_string (concatenate bs)) in
        (read.0.header ≡ record datagram.header { cksum = cksum })
        × OneBuffer (concatenate datagram.payload) read.0.payload
        × (read.1 ≡ no_error))
    × ((Ipv4Header.parse Ipv4Header.default (init (of_string (concatenate bs)))).2 ≡ no_error)
parse_datagram-serialize_example =
    parse_datagram-serialize Ipv4Datagram.empty datagram datagram-Fits

unwrap_tcp_in_ip-Sound_example : Sound peer datagram (unwrap_tcp_in_ip peer datagram)
unwrap_tcp_in_ip-Sound_example = unwrap_tcp_in_ip-Sound peer datagram
