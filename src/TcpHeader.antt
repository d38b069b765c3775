-- ===== src/TcpHeader.antt =====
-- libsponge/tcp_helpers/tcp_header.hh and tcp_header.cc. The three printing functions are left out,
-- but for `operator==`.
pub mod RoundTrip
use cs144_lab_assignment.Common.{
  ℕ, ◌+◌, ◌-◌, ◌*◌, ◌/◌, ◌%◌, ◌^◌, Bool, true, false, ◌&&◌, not, List, [], ◌++◌, Option, none, some,
  length, take, replicate, ltb, ◌==◌, to_nat, if◌then◌else◌,
}
use cs144_lab_assignment.WrappingIntegers.{WrappingInt32}
use cs144_lab_assignment.NetParser.{
  NetParser, ParseResult, no_error, header_too_short, u8, u16, u32, skip, error, put_u8, put_u16,
  put_u32,
}

pub record TcpHeader : Type 0 where
  pub sport : ℕ
  pub dport : ℕ
  pub seqno : WrappingInt32
  pub ackno : WrappingInt32
  pub doff : ℕ
  pub urg : Bool
  pub ack : Bool
  pub psh : Bool
  pub rst : Bool
  pub syn : Bool
  pub fin : Bool
  pub win : ℕ
  pub cksum : ℕ
  pub uptr : ℕ

-- `TCPHeader::LENGTH`
abbrev pub header_length : ℕ
header_length = 20

-- The header with the initial values of its fields.
abbrev pub default : TcpHeader
default = record {
  sport = 0;
  dport = 0;
  seqno = 0;
  ackno = 0;
  doff = 5;
  urg = false;
  ack = false;
  psh = false;
  rst = false;
  syn = false;
  fin = false;
  win = 0;
  cksum = 0;
  uptr = 0;
}

-- `static_cast<bool>(fl_b & (1 << k))`
abbrev pub flag : ℕ → ℕ → Bool
flag fl_b k = fl_b / 2 ^ k % 2 == 1

-- The fields that `parse` reads, from the parser: the new parser and the header.
unfoldable pub parse_fields : NetParser → NetParser × TcpHeader
parse_fields p0 =
    let (p1, sport) = u16 p0 in
    let (p2, dport) = u16 p1 in
    let (p3, seqno) = u32 p2 in
    let (p4, ackno) = u32 p3 in
    let (p5, offset) = u8 p4 in
    let (p6, fl_b) = u8 p5 in
    let (p7, win) = u16 p6 in
    let (p8, cksum) = u16 p7 in
    let (p9, uptr) = u16 p8 in
    (
      p9,
      record {
        sport = sport;
        dport = dport;
        seqno = seqno;
        ackno = ackno;
        doff = offset / 2 ^ 4;
        urg = flag fl_b 5;
        ack = flag fl_b 4;
        psh = flag fl_b 3;
        rst = flag fl_b 2;
        syn = flag fl_b 1;
        fin = flag fl_b 0;
        win = win;
        cksum = cksum;
        uptr = uptr;
      },
    )

-- `TCPHeader::parse`: the new parser, the new header and the result.
unfoldable pub parse : NetParser → NetParser × TcpHeader × ParseResult
parse p =
    let (q, h) = parse_fields p in
    if ltb h.doff 5
    then (q, h, header_too_short)
    else (let q' = skip q (h.doff * 4 - header_length) in
        (q', h, (if error q' then q'.result else no_error)))

-- The byte with the flags. The masks are disjoint, so `|` is a sum.
unfoldable pub flag_byte : TcpHeader → ℕ
flag_byte h =
    to_nat h.urg * 32
    + to_nat h.ack * 16
    + to_nat h.psh * 8
    + to_nat h.rst * 4
    + to_nat h.syn * 2
    + to_nat h.fin

-- `std::string::resize`, which cuts a text off or fills it up with zeros.
abbrev pub resize : List ℕ → ℕ → List ℕ
resize s n = if ltb n (length s) then take n s else s ++ replicate (n - length s) 0

-- The string of `serialize` before the last `resize`.
unfoldable pub fixed_part : TcpHeader → List ℕ
fixed_part h =
    let s1 = put_u16 [] h.sport in
    let s2 = put_u16 s1 h.dport in
    let s3 = put_u32 s2 h.seqno in
    let s4 = put_u32 s3 h.ackno in
    let s5 = put_u8 s4 (h.doff * 2 ^ 4 % 2 ^ 8) in
    let s6 = put_u8 s5 (flag_byte h) in
    let s7 = put_u16 s6 h.win in let s8 = put_u16 s7 h.cksum in put_u16 s8 h.uptr

-- `TCPHeader::serialize`; `none` is the `runtime_error` for a header that is too short.
unfoldable pub serialize : TcpHeader → Option (List ℕ)
serialize h = if ltb h.doff 5 then none else some (resize (fixed_part h) (4 * h.doff))

abbrev same_flag : Bool → Bool → Bool
same_flag true b = b
same_flag false b = not b

-- `TCPHeader::operator==`, which leaves out the checksum and the ports.
unfoldable pub equals : TcpHeader → TcpHeader → Bool
equals h other =
    h.seqno == other.seqno
    && h.ackno == other.ackno
    && h.doff == other.doff
    && same_flag h.urg other.urg
    && same_flag h.ack other.ack
    && same_flag h.psh other.psh
    && same_flag h.rst other.rst
    && same_flag h.syn other.syn
    && same_flag h.fin other.fin
    && h.win == other.win
    && h.uptr == other.uptr
