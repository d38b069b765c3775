-- ===== src/TcpSegment.antt =====
-- libsponge/tcp_helpers/tcp_segment.hh and tcp_segment.cc.
pub mod Bytes
pub mod RoundTrip
use cs144_lab_assignment.Common.{
  ℕ, ◌+◌, List, [], ◌∷◌, Option, none, some, length, ◌==◌, to_nat, if◌then◌else◌,
}
use cs144_lab_assignment.Buffer.{Buffer, BufferList, str, of_string}
use cs144_lab_assignment.Buffer
use cs144_lab_assignment.InternetChecksum
use cs144_lab_assignment.NetParser.{ParseResult, bad_checksum}
use cs144_lab_assignment.NetParser
use cs144_lab_assignment.TcpHeader.{TcpHeader}
use cs144_lab_assignment.TcpHeader

pub record TcpSegment : Type 0 where
  pub header : TcpHeader
  pub payload : Buffer

-- `TCPSegment()`
abbrev pub empty : TcpSegment
empty = record { header = TcpHeader.default; payload = Buffer.empty }

-- `TCPSegment::parse` into a segment: the segment and the result. A bad checksum changes nothing, and
-- what stops the parser is in the parser.
unfoldable pub parse : TcpSegment → Buffer → ℕ → TcpSegment × ParseResult
parse seg buffer datagram_layer_checksum =
    let check = InternetChecksum.add (InternetChecksum.init datagram_layer_checksum) (str buffer) in
    if InternetChecksum.value check == 0
    then (let (p, h, _) = TcpHeader.parse (NetParser.init buffer) in
        (record { header = h; payload = p.buffer }, p.result))
    else (seg, bad_checksum)

unfoldable pub length_in_sequence_space : TcpSegment → ℕ
length_in_sequence_space seg =
    length (str seg.payload) + to_nat seg.header.syn + to_nat seg.header.fin

-- The checksum that `serialize` puts into the header: over the header with a zero checksum, and the
-- payload.
unfoldable pub checksum : List ℕ → List ℕ → ℕ → ℕ
checksum header payload datagram_layer_checksum =
    let c0 = InternetChecksum.init datagram_layer_checksum in
    InternetChecksum.value (InternetChecksum.add (InternetChecksum.add c0 header) payload)

-- The header with its checksum in it, and the payload behind it.
unfoldable pub assemble : TcpSegment → ℕ → Option BufferList
assemble seg cksum = elim (TcpHeader.serialize (record seg.header { cksum = cksum })) [
  | none ↦ none
  | some bytes ↦ some (Buffer.append (of_string bytes ∷ []) (seg.payload ∷ []))
]

-- `TCPSegment::serialize`; `none` is the exception of the header's `serialize`.
unfoldable pub serialize : TcpSegment → ℕ → Option BufferList
serialize seg datagram_layer_checksum =
    elim (TcpHeader.serialize (record seg.header { cksum = 0 })) [
      | none ↦ none
      | some zeroed ↦ assemble seg (checksum zeroed (str seg.payload) datagram_layer_checksum)
    ]
