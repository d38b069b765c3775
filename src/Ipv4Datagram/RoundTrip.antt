-- ===== src/Ipv4Datagram/RoundTrip.antt =====
-- `IPv4Datagram::parse` of libsponge/tcp_helpers/ipv4_datagram.cc after `serialize`.
use cs144_lab_assignment.Common.{
  ℕ, zero, suc, replicate, ◌+◌, ◌-◌, ◌*◌, ◌/◌, ◌%◌, ◌^◌, ◌<◌, ◌≡◌, refl, ap, ap₂, ◌∙◌, Bool, true,
  false, not, List, [], ◌∷◌, ◌++◌, Option, none, some, length, ◌==◌, arith,
}
use cs144_lab_assignment.Buffer.{Buffer, BufferList, size, of_string, concatenate, list_size}
use cs144_lab_assignment.Buffer
use cs144_lab_assignment.Buffer.Laws.{str-of_string}
use cs144_lab_assignment.InternetChecksum.{weight}
use cs144_lab_assignment.InternetChecksum
use cs144_lab_assignment.InternetChecksum.Value.{total, parity_after, value-inserted, value_small}
use cs144_lab_assignment.NetParser.{no_error, init, to_bytes}
use cs144_lab_assignment.Ipv4Header.{
  Ipv4Header, first_byte, fragment_word, header_length, payload_length, header_checksum,
}
use cs144_lab_assignment.Ipv4Header
use cs144_lab_assignment.Ipv4Header.RoundTrip.{
  IsValid, options, layout, front, addresses, fixed_part-layout, serialize_lem, parse-layout,
}
use cs144_lab_assignment.Ipv4Datagram.{Ipv4Datagram, parse, checksum, assemble, serialize}
use cs144_lab_assignment.Ipv4Datagram.Bytes.{
  parse-bytes, header_checksum-bytes, start-Holds, list_size-concatenate, OneBuffer, Fits,
  with_cksum, with_cksum-IsValid, header_bytes,
}

assemble_lem :
    (d : Ipv4Datagram) (cksum : ℕ)
    → IsValid (with_cksum d.header cksum)
    → assemble d cksum ≡ some (of_string (header_bytes (with_cksum d.header cksum)) ∷ d.payload)
unfolding assemble Buffer.append
assemble_lem d cksum v =
    ap
      (λ (o : Option (List ℕ)). elim o as (λ _. Option BufferList) [
        | none ↦ none
        | some bytes ↦ some (Buffer.append (of_string bytes ∷ []) d.payload)
      ])
      (serialize_lem (with_cksum d.header cksum) v)

concatenate-assembled :
    (h : Ipv4Header) (payload : BufferList)
    → concatenate (of_string (header_bytes h) ∷ payload) ≡ header_bytes h ++ concatenate payload
unfolding concatenate
concatenate-assembled h payload = rw (str-of_string (header_bytes h)) refl

-- Whatever checksum is put into the header, the datagram is read back without an error: header,
-- checksum and payload. So a wrong checksum is not noticed.
pub parse-assemble :
    (d0 d : Ipv4Datagram) (cksum : ℕ)
    → Fits d
    → cksum < 2 ^ 16
    → (bs : BufferList) × (assemble d cksum ≡ some bs)
      × (let read = parse d0 (of_string (concatenate bs)) in
          (read.0.header ≡ record d.header { cksum = cksum })
          × OneBuffer (concatenate d.payload) read.0.payload
          × (read.1 ≡ no_error))
parse-assemble d0 d cksum f small =
    let h = with_cksum d.header cksum in
    let v = with_cksum-IsValid d.header cksum f.header small in
    (
      of_string (header_bytes h) ∷ d.payload,
      assemble_lem d cksum v,
      rw (concatenate-assembled h d.payload) (parse-bytes h (concatenate d.payload) v f.whole d0),
    )

-- The bytes before the checksum, and those behind it.
abbrev before : Ipv4Header → List ℕ
before h = front h []

abbrev after : Ipv4Header → List ℕ
after h = addresses h (options h)

header_bytes-split :
    (h : Ipv4Header) (cksum : ℕ)
    → cksum < 2 ^ 16
    → header_bytes (with_cksum h cksum) ≡ before h ++ cksum / 256 ∷ cksum % 256 ∷ after h
unfolding to_bytes first_byte fragment_word
header_bytes-split h cksum small =
    let high : cksum / 256 ^ 1 % 256 ≡ cksum / 256 = omega arith in
    let low : cksum / 256 ^ 0 % 256 ≡ cksum % 256 = omega arith in
    fixed_part-layout (with_cksum h cksum) (options h)
    ∙ ap₂ (λ (i j : ℕ). before h ++ i ∷ j ∷ after h) high low

even : (h : Ipv4Header) → parity_after false (before h) ≡ false
unfolding parity_after to_bytes
even h = refl

total-zeros : (parity : Bool) (n : ℕ) → total parity (replicate n 0) ≡ 0
unfolding total weight
total-zeros true zero = refl
total-zeros false zero = refl
total-zeros true (suc n) = omega (arith, total-zeros false n)
total-zeros false (suc n) = omega (arith, total-zeros true n)

-- The bytes of a header are few, so that the sum of their words does not wrap around.
total-bound : (h : Ipv4Header) → total false (before h ++ 0 ∷ 0 ∷ after h) + 2 ^ 16 < 2 ^ 32
unfolding total weight to_bytes
total-bound h = let zeros = total-zeros false (4 * h.hlen - header_length) in omega arith

-- The checksum that `serialize` puts into a header.
abbrev right_cksum : Ipv4Header → ℕ
right_cksum h = checksum (before h ++ 0 ∷ 0 ∷ after h)

right_cksum_small : (h : Ipv4Header) → right_cksum h < 2 ^ 16
unfolding checksum
right_cksum_small h =
    let le =
      value_small (InternetChecksum.add (InternetChecksum.init 0) (before h ++ 0 ∷ 0 ∷ after h)) in
    omega arith

checksum-right_cksum : (h : Ipv4Header) → checksum (header_bytes (with_cksum h (right_cksum h))) ≡ 0
unfolding checksum
checksum-right_cksum h =
    ap checksum (header_bytes-split h (right_cksum h) (right_cksum_small h))
    ∙ value-inserted 0 (before h) (after h) (even h) (let b = total-bound h in omega arith)

serialize_datagram_lem :
    (d : Ipv4Datagram) → Fits d → serialize d ≡ assemble d (right_cksum d.header)
unfolding serialize payload_length
serialize_datagram_lem d f =
    let size : list_size d.payload ≡ length (concatenate d.payload) =
      list_size-concatenate d.payload (omega (arith, f.whole, f.header.len)) in
    let claimed : not (list_size d.payload == payload_length d.header) ≡ false =
      ground (arith, f.whole, f.header.len) in
    rw claimed (
      ap
        (λ (o : Option (List ℕ)). elim o as (λ _. Option BufferList) [
          | none ↦ none
          | some zeroed ↦ assemble d (checksum zeroed)
        ])
        (serialize_lem (with_cksum d.header 0)
          (with_cksum-IsValid d.header 0 f.header (omega arith)))
      ∙ ap (λ (l : List ℕ). assemble d (checksum l)) (header_bytes-split d.header 0 (omega arith)))

-- A datagram whose header fits and claims the length that it has is serialized, with a checksum over
-- the header that the header's parser accepts; and the datagram that is read back has the header with
-- that checksum, the same payload, and no error.
pub parse_datagram-serialize :
    (d0 d : Ipv4Datagram)
    → Fits d
    → (bs : BufferList) × (cksum : ℕ) × (serialize d ≡ some bs)
      × (let read = parse d0 (of_string (concatenate bs)) in
          (read.0.header ≡ record d.header { cksum = cksum })
          × OneBuffer (concatenate d.payload) read.0.payload
          × (read.1 ≡ no_error))
      × ((Ipv4Header.parse d0.header (init (of_string (concatenate bs)))).2 ≡ no_error)
parse_datagram-serialize d0 d f =
    let cksum = right_cksum d.header in
    let small = right_cksum_small d.header in
    let h = with_cksum d.header cksum in
    let v = with_cksum-IsValid d.header cksum f.header small in
    let rest = concatenate d.payload in
    let good : header_checksum (layout h (options h ++ rest)) h.hlen ≡ 0 =
      header_checksum-bytes h rest v f.whole ∙ checksum-right_cksum d.header in
    let (_, _, result) = parse-layout d0.header h rest _ v f.whole (start-Holds h rest v f.whole) in
    (
      of_string (header_bytes h) ∷ d.payload,
      cksum,
      serialize_datagram_lem d f ∙ assemble_lem d cksum v,
      rw (concatenate-assembled h d.payload) (parse-bytes h rest v f.whole d0),
      rw (concatenate-assembled h d.payload) (result ∙ (rw good refl)),
    )
