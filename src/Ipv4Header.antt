-- ===== src/Ipv4Header.antt =====
-- libsponge/tcp_helpers/ipv4_header.hh and ipv4_header.cc. The two printing functions are left out.
pub mod RoundTrip
use cs144_lab_assignment.Common.{
  ℕ, ◌+◌, ◌-◌, ◌*◌, ◌/◌, ◌%◌, ◌^◌, Bool, true, false, not, ◌||◌, List, [], Option, none, some, take,
  ltb, ◌==◌, to_nat, if◌then◌else◌, add32,
}
use cs144_lab_assignment.Buffer.{str, size}
use cs144_lab_assignment.InternetChecksum
use cs144_lab_assignment.NetParser.{
  NetParser, ParseResult, no_error, bad_checksum, packet_too_short, wrong_ip_version,
  header_too_short, truncated_packet, u8, u16, u32, skip, error, put_u8, put_u16, put_u32,
}
use cs144_lab_assignment.TcpHeader.{flag, resize}

pub record Ipv4Header : Type 0 where
  pub ver : ℕ
  pub hlen : ℕ
  pub tos : ℕ
  pub len : ℕ
  pub id : ℕ
  pub df : Bool
  pub mf : Bool
  pub offset : ℕ
  pub ttl : ℕ
  pub proto : ℕ
  pub cksum : ℕ
  pub src : ℕ
  pub dst : ℕ

-- `IPv4Header::LENGTH`
abbrev pub header_length : ℕ
header_length = 20

-- `IPv4Header::PROTO_TCP`
abbrev pub proto_tcp : ℕ
proto_tcp = 6

-- The header with the initial values of its fields.
abbrev pub default : Ipv4Header
default = record {
  ver = 4;
  hlen = 5;
  tos = 0;
  len = 0;
  id = 0;
  df = true;
  mf = false;
  offset = 0;
  ttl = 128;
  proto = proto_tcp;
  cksum = 0;
  src = 0;
  dst = 0;
}

-- The fields that `parse` reads, from the parser: the new parser and the header.
unfoldable pub parse_fields : NetParser → NetParser × Ipv4Header
parse_fields p0 =
    let (p1, first_byte) = u8 p0 in
    let (p2, tos) = u8 p1 in
    let (p3, len) = u16 p2 in
    let (p4, id) = u16 p3 in
    let (p5, fo_val) = u16 p4 in
    let (p6, ttl) = u8 p5 in
    let (p7, proto) = u8 p6 in
    let (p8, cksum) = u16 p7 in
    let (p9, src) = u32 p8 in
    let (p10, dst) = u32 p9 in
    (
      p10,
      record {
        ver = first_byte / 2 ^ 4;
        hlen = first_byte % 2 ^ 4;
        tos = tos;
        len = len;
        id = id;
        df = flag fo_val 14;
        mf = flag fo_val 13;
        offset = fo_val % 2 ^ 13;
        ttl = ttl;
        proto = proto;
        cksum = cksum;
        src = src;
        dst = dst;
      },
    )

-- The value of the checksum over the header in the bytes that the parser had at first.
unfoldable pub header_checksum : List ℕ → ℕ → ℕ
header_checksum original hlen =
    InternetChecksum.value
      (InternetChecksum.add (InternetChecksum.init 0) (take (4 * hlen) original))

-- The part of `parse` behind the tests of the fields, for the size in bytes and the bytes at first.
unfoldable pub finish_parse : NetParser → Ipv4Header → List ℕ → NetParser × Ipv4Header × ParseResult
finish_parse q h original =
    let q' = skip q (h.hlen * 4 - header_length) in
    (
      q',
      h,
      (if error q'
          then q'.result
          else if header_checksum original h.hlen == 0
          then no_error
          else bad_checksum),
    )

-- `IPv4Header::parse` into a header: the new parser, the new header and the result. Data that is too
-- short for a header leaves the header as it was.
unfoldable pub parse : Ipv4Header → NetParser → NetParser × Ipv4Header × ParseResult
parse h0 p =
    let data_size = size p.buffer in
    let (q, h) = parse_fields p in
    if ltb data_size header_length
    then (p, h0, packet_too_short)
    else if ltb data_size (4 * h.hlen)
    then (q, h, packet_too_short)
    else if not (h.ver == 4)
    then (q, h, wrong_ip_version)
    else if ltb h.hlen 5
    then (q, h, header_too_short)
    else if not (data_size == h.len)
    then (q, h, truncated_packet)
    else finish_parse q h (str p.buffer)

-- The bytes with the version and the header length, and with the flags and the offset. The masks are
-- disjoint, so `|` is a sum.
unfoldable pub first_byte : Ipv4Header → ℕ
first_byte h = (h.ver * 2 ^ 4 + h.hlen % 2 ^ 4) % 2 ^ 8

unfoldable pub fragment_word : Ipv4Header → ℕ
fragment_word h = to_nat h.df * 2 ^ 14 + to_nat h.mf * 2 ^ 13 + h.offset % 2 ^ 13

-- The string of `serialize` before the last `resize`.
unfoldable pub fixed_part : Ipv4Header → List ℕ
fixed_part h =
    let s1 = put_u8 [] (first_byte h) in
    let s2 = put_u8 s1 h.tos in
    let s3 = put_u16 s2 h.len in
    let s4 = put_u16 s3 h.id in
    let s5 = put_u16 s4 (fragment_word h) in
    let s6 = put_u8 s5 h.ttl in
    let s7 = put_u8 s6 h.proto in
    let s8 = put_u16 s7 h.cksum in let s9 = put_u32 s8 h.src in put_u32 s9 h.dst

-- `IPv4Header::serialize`; `none` is a `runtime_error`.
unfoldable pub serialize : Ipv4Header → Option (List ℕ)
serialize h =
    if not (h.ver == 4) || ltb (4 * h.hlen) header_length
    then none
    else some (resize (fixed_part h) (4 * h.hlen))

unfoldable pub payload_length : Ipv4Header → ℕ
payload_length h = (h.len + 2 ^ 16 - 4 * h.hlen) % 2 ^ 16

unfoldable pub pseudo_cksum : Ipv4Header → ℕ
pseudo_cksum h =
    let source = add32 (h.src / 2 ^ 16) (h.src % 2 ^ 16) in
    let both = add32 source (add32 (h.dst / 2 ^ 16) (h.dst % 2 ^ 16)) in
    add32 (add32 both h.proto) (payload_length h)
