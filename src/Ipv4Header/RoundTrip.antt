-- ===== src/Ipv4Header/RoundTrip.antt =====
-- `IPv4Header::parse` of libsponge/tcp_helpers/ipv4_header.cc after `serialize`.
use cs144_lab_assignment.Common.{
  ℕ, ◌+◌, ◌-◌, ◌*◌, ◌/◌, ◌%◌, ◌^◌, ◌≤◌, ◌<◌, ◌≡◌, refl, ap, sym, subst, ◌∙◌, Bool, false, not, ◌||◌,
  List, ◌++◌, some, length, length-append, length-replicate, replicate, ltb, ◌==◌, to_nat,
  if◌then◌else◌, arith,
}
use cs144_lab_assignment.Buffer.{str, size}
use cs144_lab_assignment.NetParser.{
  NetParser, ParseResult, packet_too_short, wrong_ip_version, header_too_short, truncated_packet,
  no_error, bad_checksum, error, is_error, to_bytes, put_u8, put_u16, put_u32, skip,
}
use cs144_lab_assignment.NetParser.Laws.{Holds, u8-to_bytes, u16-to_bytes, u32-to_bytes, skip-Holds}
use cs144_lab_assignment.TcpHeader.{flag}
use cs144_lab_assignment.Ipv4Header.{
  Ipv4Header, header_length, parse_fields, parse, finish_parse, header_checksum, first_byte,
  fragment_word, fixed_part, serialize,
}

-- The fields fit the widths that they have in a datagram; the header length is at least its minimum.
pub record IsValid (h : Ipv4Header) : Type 0 where
  pub ver : h.ver ≡ 4
  pub hlen_min : 5 ≤ h.hlen
  pub hlen_max : h.hlen < 16
  pub tos : h.tos < 2 ^ 8
  pub len : h.len < 2 ^ 16
  pub id : h.id < 2 ^ 16
  pub offset : h.offset < 2 ^ 13
  pub ttl : h.ttl < 2 ^ 8
  pub proto : h.proto < 2 ^ 8
  pub cksum : h.cksum < 2 ^ 16
  pub src : h.src < 2 ^ 32
  pub dst : h.dst < 2 ^ 32

first_byte_lem :
    (h : Ipv4Header)
    → IsValid h
    → (first_byte h < 2 ^ 8) × (first_byte h / 2 ^ 4 ≡ h.ver) × (first_byte h % 2 ^ 4 ≡ h.hlen)
unfolding first_byte
first_byte_lem h v =
    let ver : h.ver ≡ 4 = v.ver in
    let max : h.hlen < 16 = v.hlen_max in (omega arith, omega arith, omega arith)

fragment_word_lem :
    (h : Ipv4Header)
    → IsValid h
    → (fragment_word h < 2 ^ 16)
      × (flag (fragment_word h) 14 ≡ h.df)
      × (flag (fragment_word h) 13 ≡ h.mf)
      × (fragment_word h % 2 ^ 13 ≡ h.offset)
unfolding fragment_word
fragment_word_lem h v = word h.df h.mf h.offset v.offset
  where
    word :
        (a b : Bool) (k : ℕ)
        → k < 2 ^ 13
        → let n = to_nat a * 2 ^ 14 + to_nat b * 2 ^ 13 + k % 2 ^ 13 in
          (n < 2 ^ 16) × (flag n 14 ≡ a) × (flag n 13 ≡ b) × (n % 2 ^ 13 ≡ k)
    word a b k small = (ground arith, ground arith, ground arith, ground arith)

-- The fields before the checksum, and those behind it, before the rest of the buffer.
abbrev pub front : Ipv4Header → List ℕ → List ℕ
front h rest =
    to_bytes 1 (first_byte h)
    ++ (to_bytes 1 h.tos
        ++ (to_bytes 2 h.len
            ++ (to_bytes 2 h.id
                ++ (to_bytes 2 (fragment_word h)
                    ++ (to_bytes 1 h.ttl ++ (to_bytes 1 h.proto ++ rest))))))

abbrev pub addresses : Ipv4Header → List ℕ → List ℕ
addresses h rest = to_bytes 4 h.src ++ (to_bytes 4 h.dst ++ rest)

abbrev pub layout : Ipv4Header → List ℕ → List ℕ
layout h rest = front h (to_bytes 2 h.cksum ++ addresses h rest)

pub fixed_part-layout : (h : Ipv4Header) (rest : List ℕ) → fixed_part h ++ rest ≡ layout h rest
unfolding fixed_part put_u8 put_u16 put_u32
fixed_part-layout h rest = refl

pub length-fixed_part : (h : Ipv4Header) → length (fixed_part h) ≡ header_length
unfolding fixed_part put_u8 put_u16 put_u32
length-fixed_part h = refl

parse_fields-layout :
    (h : Ipv4Header) (rest : List ℕ) (p : NetParser)
    → IsValid h
    → Holds (layout h rest) p
    → Holds rest (parse_fields p).0 × ((parse_fields p).1 ≡ h)
unfolding parse_fields
parse_fields-layout h rest p v q =
    let (small, ver, hlen) = first_byte_lem h v in
    let (short, df, mf, offset) = fragment_word_lem h v in
    let (q1, e1) = u8-to_bytes (first_byte h) _ p small q in
    let (q2, e2) = u8-to_bytes h.tos _ _ v.tos q1 in
    let (q3, e3) = u16-to_bytes h.len _ _ v.len q2 in
    let (q4, e4) = u16-to_bytes h.id _ _ v.id q3 in
    let (q5, e5) = u16-to_bytes (fragment_word h) _ _ short q4 in
    let (q6, e6) = u8-to_bytes h.ttl _ _ v.ttl q5 in
    let (q7, e7) = u8-to_bytes h.proto _ _ v.proto q6 in
    let (q8, e8) = u16-to_bytes h.cksum _ _ v.cksum q7 in
    let (q9, e9) = u32-to_bytes h.src _ _ v.src q8 in
    let (q10, e10) = u32-to_bytes h.dst rest _ v.dst q9 in
    (
      q10,
      λ i. record {
        ver = (ap (λ (n : ℕ). n / 2 ^ 4) e1 ∙ ver) i;
        hlen = (ap (λ (n : ℕ). n % 2 ^ 4) e1 ∙ hlen) i;
        tos = e2 i;
        len = e3 i;
        id = e4 i;
        df = (ap (λ (n : ℕ). flag n 14) e5 ∙ df) i;
        mf = (ap (λ (n : ℕ). flag n 13) e5 ∙ mf) i;
        offset = (ap (λ (n : ℕ). n % 2 ^ 13) e5 ∙ offset) i;
        ttl = e6 i;
        proto = e7 i;
        cksum = e8 i;
        src = e9 i;
        dst = e10 i;
      },
    )

-- The bytes of the options, which `serialize` writes as zeros.
abbrev pub options : Ipv4Header → List ℕ
options h = replicate (4 * h.hlen - header_length) 0

pub serialize_lem : (h : Ipv4Header) → IsValid h → serialize h ≡ some (fixed_part h ++ options h)
unfolding serialize
serialize_lem h v =
    let min : 5 ≤ h.hlen = v.hlen_min in rw (allowed, length-fixed_part h, no_cut) refl
  where
    allowed : (not (h.ver == 4) || ltb (4 * h.hlen) header_length) ≡ false
    allowed = let min : 5 ≤ h.hlen = v.hlen_min in let ver : h.ver ≡ 4 = v.ver in ground arith

    no_cut : ltb (4 * h.hlen) header_length ≡ false
    no_cut = let min : 5 ≤ h.hlen = v.hlen_min in ground arith

finish_parse-options :
    (h : Ipv4Header) (rest original : List ℕ) (q : NetParser)
    → IsValid h
    → Holds (options h ++ rest) q
    → let r = finish_parse q h original in
      Holds rest r.0
      × (r.1 ≡ h)
      × (r.2 ≡ (if header_checksum original h.hlen == 0 then no_error else bad_checksum))
unfolding finish_parse error
finish_parse-options h rest original q v fields =
    let size : length (options h) ≡ h.hlen * 4 - header_length =
      length-replicate (4 * h.hlen - header_length) 0 ∙ (omega arith) in
    let after : Holds rest (skip q (h.hlen * 4 - header_length)) =
      skip-Holds (options h) rest _ _ fields size in
    let no_stop : is_error (skip q (h.hlen * 4 - header_length)).result ≡ false =
      ap is_error after.fine in
    (after, refl, rw no_stop refl)

-- A parser that holds the bytes of a valid header and a payload of the length that the header claims:
-- `parse` gives the header back and leaves the payload, and its result is the test of the checksum.
pub parse-layout :
    (h0 h : Ipv4Header) (rest : List ℕ) (p : NetParser)
    → IsValid h
    → h.len ≡ 4 * h.hlen + length rest
    → Holds (layout h (options h ++ rest)) p
    → let r = parse h0 p in
      Holds rest r.0
      × (r.1 ≡ h)
      × (r.2 ≡ (
          if header_checksum (layout h (options h ++ rest)) h.hlen == 0
          then no_error
          else bad_checksum))
unfolding parse size
parse-layout h0 h rest p v whole q =
    let (fields, e) = parse_fields-layout h (options h ++ rest) p v q in
    let min : 5 ≤ h.hlen = v.hlen_min in
    let ver : h.ver ≡ 4 = v.ver in
    let data_size : length (str p.buffer) ≡ h.len =
      ap length q.held
      ∙ sym (ap length (fixed_part-layout h (options h ++ rest)))
      ∙ length-append (fixed_part h) (options h ++ rest)
      ∙ (omega (
        arith,
        length-fixed_part h,
        length-append (options h) rest,
        length-replicate {A = ℕ} (4 * h.hlen - header_length) 0,
      )) in
    let long : ltb (length (str p.buffer)) header_length ≡ false = ground arith in
    let enough : ltb (length (str p.buffer)) (4 * h.hlen) ≡ false = ground arith in
    let version : not (h.ver == 4) ≡ false = ground arith in
    let minimum : ltb h.hlen 5 ≡ false = ground arith in
    let exact : not (length (str p.buffer) == h.len) ≡ false = ground arith in
    subst
      (λ (g : Ipv4Header). Result (
        if ltb (length (str p.buffer)) header_length
        then (p, h0, packet_too_short)
        else if ltb (length (str p.buffer)) (4 * g.hlen)
        then ((parse_fields p).0, g, packet_too_short)
        else if not (g.ver == 4)
        then ((parse_fields p).0, g, wrong_ip_version)
        else if ltb g.hlen 5
        then ((parse_fields p).0, g, header_too_short)
        else if not (length (str p.buffer) == g.len)
        then ((parse_fields p).0, g, truncated_packet)
        else finish_parse (parse_fields p).0 g (str p.buffer)))
      (sym e)
      (rw (long, enough, version, minimum, exact, q.held)
        (finish_parse-options h rest (layout h (options h ++ rest)) (parse_fields p).0 v fields))
  where
    Result : NetParser × Ipv4Header × ParseResult → Type 0
    Result r =
        Holds rest r.0
        × (r.1 ≡ h)
        × (r.2 ≡ (
            if header_checksum (layout h (options h ++ rest)) h.hlen == 0
            then no_error
            else bad_checksum))
