-- ===== src/Ipv4Datagram/Bytes.antt =====
-- The bytes of an IPv4 datagram, for libsponge/tcp_helpers/ipv4_datagram.cc.
use cs144_lab_assignment.Common.{
  ℕ, ◌+◌, ◌-◌, ◌*◌, ◌^◌, ◌≤◌, ◌<◌, ◌≡◌, refl, ap, sym, subst, ◌∙◌, false, not, List, [], ◌∷◌, ◌++◌,
  append_assoc, append-nil, length, length-append, length-replicate, take, take-append_ge, ◌==◌,
  add64, arith,
}
use cs144_lab_assignment.Buffer.Laws as Laws
use cs144_lab_assignment.Buffer.{Buffer, BufferList, str, size, of_string, concatenate, list_size}
use cs144_lab_assignment.Buffer.Laws.{str-of_string, of_string-IsValid}
use cs144_lab_assignment.InternetChecksum
use cs144_lab_assignment.NetParser.{no_error, init}
use cs144_lab_assignment.NetParser.Laws.{Holds, init-Holds}
use cs144_lab_assignment.Ipv4Header.{
  Ipv4Header, header_length, payload_length, fixed_part, header_checksum,
}
use cs144_lab_assignment.Ipv4Header
use cs144_lab_assignment.Ipv4Header.RoundTrip.{
  IsValid, options, layout, fixed_part-layout, length-fixed_part, parse-layout,
}
use cs144_lab_assignment.Ipv4Datagram.{Ipv4Datagram, parse, checksum}

pub list_size-concatenate :
    (bs : BufferList) → length (concatenate bs) < 2 ^ 64 → list_size bs ≡ length (concatenate bs)
unfolding list_size concatenate size
list_size-concatenate [] h = refl
list_size-concatenate (b ∷ bs) h =
    let len = length-append (str b) (concatenate bs) in
    let rest = list_size-concatenate bs (omega arith) in omega arith

-- A payload of one buffer, which holds these bytes.
abbrev pub OneBuffer : List ℕ → BufferList → Type 0
OneBuffer text payload = (b : Buffer) × (payload ≡ b ∷ []) × Laws.IsValid b × (str b ≡ text)

-- A datagram whose header fits, with the payload that the header claims.
pub record Fits (d : Ipv4Datagram) : Type 0 where
  pub header : IsValid d.header
  pub whole : d.header.len ≡ 4 * d.header.hlen + length (concatenate d.payload)

-- The header with a checksum.
abbrev pub with_cksum : Ipv4Header → ℕ → Ipv4Header
with_cksum h cksum = record h { cksum = cksum }

pub with_cksum-IsValid :
    (h : Ipv4Header) (cksum : ℕ) → IsValid h → cksum < 2 ^ 16 → IsValid (with_cksum h cksum)
with_cksum-IsValid h cksum v small = record {
  ver = v.ver;
  hlen_min = v.hlen_min;
  hlen_max = v.hlen_max;
  tos = v.tos;
  len = v.len;
  id = v.id;
  offset = v.offset;
  ttl = v.ttl;
  proto = v.proto;
  cksum = small;
  src = v.src;
  dst = v.dst;
}

-- The bytes of a header.
abbrev pub header_bytes : Ipv4Header → List ℕ
header_bytes h = fixed_part h ++ options h

length-header_bytes : (h : Ipv4Header) → IsValid h → length (header_bytes h) ≡ 4 * h.hlen
length-header_bytes h v =
    let min : 5 ≤ h.hlen = v.hlen_min in
    omega (
      arith,
      length-append (fixed_part h) (options h),
      length-fixed_part h,
      length-replicate {A = ℕ} (4 * h.hlen - header_length) 0,
    )

-- What a parser reads from the header and the payload.
module _ (h : Ipv4Header) (rest : List ℕ) (v : IsValid h)
    (whole : h.len ≡ 4 * h.hlen + length rest) where
  abbrev bytes : List ℕ
  bytes = header_bytes h ++ rest

  whole-layout : bytes ≡ layout h (options h ++ rest)
  whole-layout =
      append_assoc (fixed_part h) (options h) rest ∙ fixed_part-layout h (options h ++ rest)

  pub start-Holds : Holds (layout h (options h ++ rest)) (init (of_string bytes))
  start-Holds =
      let len = length-append (header_bytes h) rest in
      let front = length-header_bytes h v in
      let small : length bytes < 2 ^ 64 = omega (arith, v.len) in
      subst (λ (b : List ℕ). Holds b (init (of_string bytes))) (str-of_string bytes ∙ whole-layout)
        (init-Holds (of_string bytes) (of_string-IsValid bytes small))

  -- The header's result: a test of the checksum over the header alone.
  pub header_checksum-bytes :
      header_checksum (layout h (options h ++ rest)) h.hlen ≡ checksum (header_bytes h)
  unfolding header_checksum checksum
  header_checksum-bytes =
      let front = length-header_bytes h v in
      let cut : take (4 * h.hlen) bytes ≡ header_bytes h =
        take-append_ge (4 * h.hlen) (header_bytes h) rest (omega arith)
        ∙ (rw (left) (append-nil (header_bytes h))) in
      ap (λ (l : List ℕ). InternetChecksum.value (InternetChecksum.add (InternetChecksum.init 0) l))
        (ap (take (4 * h.hlen)) (sym whole-layout) ∙ cut)
    where
      left : 4 * h.hlen - length (header_bytes h) ≡ 0
      left = let front = length-header_bytes h v in omega arith

  pub parse-bytes :
      (d0 : Ipv4Datagram)
      → let read = parse d0 (of_string bytes) in
        (read.0.header ≡ h) × OneBuffer rest read.0.payload × (read.1 ≡ no_error)
  unfolding parse concatenate list_size payload_length size
  parse-bytes d0 =
      let (after, same, result) =
        parse-layout d0.header h rest (init (of_string bytes)) v whole start-Holds in
      let len : length (str (Ipv4Header.parse d0.header (init (of_string bytes))).0.buffer)
          ≡ length rest =
        ap length after.held in
      let claimed : payload_length (Ipv4Header.parse d0.header (init (of_string bytes))).1
          ≡ length rest =
        ap payload_length same ∙ (omega (arith, v.len)) in
      let fits : not (
            add64 (length (str (Ipv4Header.parse d0.header (init (of_string bytes))).0.buffer)) 0
            == payload_length (Ipv4Header.parse d0.header (init (of_string bytes))).1)
          ≡ false =
        ground (arith, v.len) in
      (same, (_, refl, after.valid, after.held), rw fits after.fine)
