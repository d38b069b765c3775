-- ===== src/TcpHeader/RoundTrip.antt =====
-- `TCPHeader::parse` of libsponge/tcp_helpers/tcp_header.cc after `serialize`.
use cs144_lab_assignment.Common.{
  ℕ, ◌+◌, ◌-◌, ◌*◌, ◌/◌, ◌%◌, ◌^◌, ◌≤◌, ◌<◌, ◌≡◌, refl, ap, subst, ◌∙◌, Bool, false, List, ◌++◌,
  some, append_assoc, length, length-replicate, length-append, replicate, ltb, to_nat, arith,
}
use cs144_lab_assignment.NetParser.{
  NetParser, no_error, error, is_error, init, to_bytes, put_u8, put_u16, put_u32, skip,
}
use cs144_lab_assignment.Buffer.{str, of_string}
use cs144_lab_assignment.Buffer.Laws.{str-of_string, of_string-IsValid}
use cs144_lab_assignment.NetParser.Laws.{
  Holds, init-Holds, u8-to_bytes, u16-to_bytes, u32-to_bytes, skip-Holds,
}
use cs144_lab_assignment.TcpHeader.{
  TcpHeader, header_length, flag, flag_byte, fixed_part, serialize, parse_fields, parse,
}

-- The fields fit the widths of their types, and `doff` the four bits that it has in a segment.
pub record IsValid (h : TcpHeader) : Type 0 where
  pub sport : h.sport < 2 ^ 16
  pub dport : h.dport < 2 ^ 16
  pub seqno : h.seqno < 2 ^ 32
  pub ackno : h.ackno < 2 ^ 32
  pub doff_min : 5 ≤ h.doff
  pub doff_max : h.doff < 16
  pub win : h.win < 2 ^ 16
  pub cksum : h.cksum < 2 ^ 16
  pub uptr : h.uptr < 2 ^ 16

flag_byte_lem :
    (h : TcpHeader)
    → (flag_byte h < 2 ^ 8)
      × (flag (flag_byte h) 5 ≡ h.urg)
      × (flag (flag_byte h) 4 ≡ h.ack)
      × (flag (flag_byte h) 3 ≡ h.psh)
      × (flag (flag_byte h) 2 ≡ h.rst)
      × (flag (flag_byte h) 1 ≡ h.syn)
      × (flag (flag_byte h) 0 ≡ h.fin)
unfolding flag_byte
flag_byte_lem h = flags h.urg h.ack h.psh h.rst h.syn h.fin
  where
    flags :
        (a b c d e f : Bool)
        → let n =
            to_nat a * 32 + to_nat b * 16 + to_nat c * 8 + to_nat d * 4 + to_nat e * 2 + to_nat f in
          (n < 2 ^ 8)
          × (flag n 5 ≡ a)
          × (flag n 4 ≡ b)
          × (flag n 3 ≡ c)
          × (flag n 2 ≡ d)
          × (flag n 1 ≡ e)
          × (flag n 0 ≡ f)
    flags a b c d e f = (
      ground arith,
      ground arith,
      ground arith,
      ground arith,
      ground arith,
      ground arith,
      ground arith,
    )

-- The fields one after the other, before the rest of the buffer.
abbrev pub layout : TcpHeader → List ℕ → List ℕ
layout h rest =
    to_bytes 2 h.sport
    ++ (to_bytes 2 h.dport
        ++ (to_bytes 4 h.seqno
            ++ (to_bytes 4 h.ackno
                ++ (to_bytes 1 (h.doff * 2 ^ 4 % 2 ^ 8)
                    ++ (to_bytes 1 (flag_byte h)
                        ++ (to_bytes 2 h.win
                            ++ (to_bytes 2 h.cksum ++ (to_bytes 2 h.uptr ++ rest))))))))

pub fixed_part-layout : (h : TcpHeader) (rest : List ℕ) → fixed_part h ++ rest ≡ layout h rest
unfolding fixed_part put_u8 put_u16 put_u32
fixed_part-layout h rest = refl

pub length-fixed_part : (h : TcpHeader) → length (fixed_part h) ≡ header_length
unfolding fixed_part put_u8 put_u16 put_u32
length-fixed_part h = refl

parse_fields-layout :
    (h : TcpHeader) (rest : List ℕ) (p : NetParser)
    → IsValid h
    → Holds (layout h rest) p
    → Holds rest (parse_fields p).0 × ((parse_fields p).1 ≡ h)
unfolding parse_fields
parse_fields-layout h rest p v q =
    let (q1, e1) = u16-to_bytes h.sport _ p v.sport q in
    let (q2, e2) = u16-to_bytes h.dport _ _ v.dport q1 in
    let (q3, e3) = u32-to_bytes h.seqno _ _ v.seqno q2 in
    let (q4, e4) = u32-to_bytes h.ackno _ _ v.ackno q3 in
    let (q5, e5) = u8-to_bytes (h.doff * 2 ^ 4 % 2 ^ 8) _ _ (omega arith) q4 in
    let (q6, e6) = u8-to_bytes (flag_byte h) _ _ (flag_byte_lem h).0 q5 in
    let (q7, e7) = u16-to_bytes h.win _ _ v.win q6 in
    let (q8, e8) = u16-to_bytes h.cksum _ _ v.cksum q7 in
    let (q9, e9) = u16-to_bytes h.uptr rest _ v.uptr q8 in
    let (_, urg, ack, psh, rst, syn, fin) = flag_byte_lem h in
    let min : 5 ≤ h.doff = v.doff_min in
    let max : h.doff < 16 = v.doff_max in
    let back : h.doff * 2 ^ 4 % 2 ^ 8 / 2 ^ 4 ≡ h.doff = omega arith in
    let bit : (k : ℕ) → flag _ k ≡ flag (flag_byte h) k = λ k. ap (λ (n : ℕ). flag n k) e6 in
    (
      q9,
      λ i. record {
        sport = e1 i;
        dport = e2 i;
        seqno = e3 i;
        ackno = e4 i;
        doff = (ap (λ (n : ℕ). n / 2 ^ 4) e5 ∙ back) i;
        urg = (bit 5 ∙ urg) i;
        ack = (bit 4 ∙ ack) i;
        psh = (bit 3 ∙ psh) i;
        rst = (bit 2 ∙ rst) i;
        syn = (bit 1 ∙ syn) i;
        fin = (bit 0 ∙ fin) i;
        win = e7 i;
        cksum = e8 i;
        uptr = e9 i;
      },
    )

-- The bytes of the options, which `serialize` writes as zeros.
abbrev pub options : TcpHeader → List ℕ
options h = replicate (4 * h.doff - header_length) 0

pub serialize_lem : (h : TcpHeader) → IsValid h → serialize h ≡ some (fixed_part h ++ options h)
unfolding serialize
serialize_lem h v =
    let min : 5 ≤ h.doff = v.doff_min in rw (long_enough, length-fixed_part h, no_cut) refl
  where
    long_enough : ltb h.doff 5 ≡ false
    long_enough = let min : 5 ≤ h.doff = v.doff_min in ground arith

    no_cut : ltb (4 * h.doff) header_length ≡ false
    no_cut = let min : 5 ≤ h.doff = v.doff_min in ground arith

pub parse-layout :
    (h : TcpHeader) (rest : List ℕ) (p : NetParser)
    → IsValid h
    → Holds (layout h (options h ++ rest)) p
    → Holds rest (parse p).0 × ((parse p).1 ≡ h) × ((parse p).2 ≡ no_error)
unfolding parse error
parse-layout h rest p v q =
    let (fields, e) = parse_fields-layout h (options h ++ rest) p v q in
    let min : 5 ≤ h.doff = v.doff_min in
    let same : (parse_fields p).1.doff ≡ h.doff = ap (λ (g : TcpHeader). g.doff) e in
    let enough : ltb (parse_fields p).1.doff 5 ≡ false = ground arith in
    let size : length (options h) ≡ (parse_fields p).1.doff * 4 - header_length =
      length-replicate (4 * h.doff - header_length) 0 ∙ (omega arith) in
    let after : Holds rest (skip (parse_fields p).0 ((parse_fields p).1.doff * 4 - header_length)) =
      skip-Holds (options h) rest _ _ fields size in
    let no_stop : error (skip (parse_fields p).0 ((parse_fields p).1.doff * 4 - header_length))
        ≡ false =
      ap is_error after.fine in
    rw (enough) (after, e, rw no_stop refl)

-- A header whose fields fit their widths, with a data offset from 5 to 15, is serialized; and whatever
-- bytes follow the serialized header, the parser gives that header back without an error, with just the
-- bytes (fewer than 2 ^ 32) that follow left in its buffer.
pub parse-serialize :
    (h : TcpHeader) (rest : List ℕ)
    → IsValid h
    → length rest < 2 ^ 32
    → (bytes : List ℕ) × (serialize h ≡ some bytes)
      × (let read = parse (init (of_string (bytes ++ rest))) in
          (str read.0.buffer ≡ rest) × (read.1 ≡ h) × (read.2 ≡ no_error))
parse-serialize h rest v short =
    let bytes = fixed_part h ++ options h in
    let p : NetParser = init (of_string (bytes ++ rest)) in
    let whole : bytes ++ rest ≡ layout h (options h ++ rest) =
      append_assoc (fixed_part h) (options h) rest ∙ fixed_part-layout h (options h ++ rest) in
    let min : 5 ≤ h.doff = v.doff_min in
    let max : h.doff < 16 = v.doff_max in
    let size : length (bytes ++ rest) < 2 ^ 64 =
      rw
        (
          length-append bytes rest,
          length-append (fixed_part h) (options h),
          length-fixed_part h,
          length-replicate {A = ℕ} (4 * h.doff - header_length) 0,
        )
        (omega arith) in
    let start : Holds (bytes ++ rest) p =
      subst (λ (b : List ℕ). Holds b p) (str-of_string (bytes ++ rest))
        (init-Holds (of_string (bytes ++ rest)) (of_string-IsValid (bytes ++ rest) size)) in
    let (after, same, fine) =
      parse-layout h rest p v (subst (λ (b : List ℕ). Holds b p) whole start) in
    (bytes, serialize_lem h v, (after.held, same, fine))
