-- ===== src/Ipv4Datagram.antt =====
-- libsponge/tcp_helpers/ipv4_datagram.hh and ipv4_datagram.cc.
pub mod Bytes
pub mod RoundTrip
use cs144_lab_assignment.Common.{ℕ, not, List, [], ◌∷◌, Option, none, some, ◌==◌, if◌then◌else◌}
use cs144_lab_assignment.Buffer.{Buffer, BufferList, of_string, list_size}
use cs144_lab_assignment.Buffer
use cs144_lab_assignment.InternetChecksum
use cs144_lab_assignment.NetParser.{ParseResult, packet_too_short}
use cs144_lab_assignment.NetParser
use cs144_lab_assignment.Ipv4Header.{Ipv4Header, payload_length}
use cs144_lab_assignment.Ipv4Header

pub record Ipv4Datagram : Type 0 where
  pub header : Ipv4Header
  pub payload : BufferList

-- `IPv4Datagram()`
abbrev pub empty : Ipv4Datagram
empty = record { header = Ipv4Header.default; payload = [] }

-- `IPv4Datagram::parse` into a datagram: the datagram and the result. What the header's `parse`
-- returns is dropped.
unfoldable pub parse : Ipv4Datagram → Buffer → Ipv4Datagram × ParseResult
parse d buffer =
    let (p, h, _) = Ipv4Header.parse d.header (NetParser.init buffer) in
    let payload = p.buffer ∷ [] in
    (
      record { header = h; payload = payload },
      (if not (list_size payload == payload_length h) then packet_too_short else p.result),
    )

-- The checksum of a header that has been serialized with a zero checksum.
unfoldable pub checksum : List ℕ → ℕ
checksum header_zero_checksum =
    InternetChecksum.value (InternetChecksum.add (InternetChecksum.init 0) header_zero_checksum)

-- The header with its checksum in it, and the payload behind it.
unfoldable pub assemble : Ipv4Datagram → ℕ → Option BufferList
assemble d cksum = elim (Ipv4Header.serialize (record d.header { cksum = cksum })) [
  | none ↦ none
  | some bytes ↦ some (Buffer.append (of_string bytes ∷ []) d.payload)
]

-- `IPv4Datagram::serialize`; `none` is a `runtime_error`, of its own or of the header's `serialize`.
unfoldable pub serialize : Ipv4Datagram → Option BufferList
serialize d =
    if not (list_size d.payload == payload_length d.header)
    then none
    else (elim (Ipv4Header.serialize (record d.header { cksum = 0 })) [
      | none ↦ none
      | some zeroed ↦ assemble d (checksum zeroed)
    ])
