-- ===== src/TcpSegment/RoundTrip.antt =====
-- `TCPSegment::parse` of libsponge/tcp_helpers/tcp_segment.cc after `serialize`.
use cs144_lab_assignment.Common.{
  ℕ, ◌+◌, ◌*◌, ◌^◌, ◌<◌, ◌≡◌, refl, ap, sym, subst, ◌∙◌, List, [], ◌∷◌, ◌++◌, Option, none, some,
  append-nil, length, arith, All,
}
use cs144_lab_assignment.Buffer.{Buffer, BufferList, str, of_string, concatenate}
use cs144_lab_assignment.Buffer
use cs144_lab_assignment.Buffer.Laws as Laws
use cs144_lab_assignment.Buffer.Laws.{str-of_string, of_string-IsValid}
use cs144_lab_assignment.InternetChecksum.{InternetChecksum, add, value}
use cs144_lab_assignment.InternetChecksum
use cs144_lab_assignment.InternetChecksum.Value.{value-inserted, value_small}
use cs144_lab_assignment.NetParser.{no_error, init}
use cs144_lab_assignment.NetParser.Laws.{Holds, init-Holds}
use cs144_lab_assignment.TcpHeader.{TcpHeader}
use cs144_lab_assignment.TcpHeader.RoundTrip.{IsValid, options, layout, serialize_lem, parse-layout}
use cs144_lab_assignment.TcpSegment.{TcpSegment, parse, checksum, assemble, serialize}
use cs144_lab_assignment.TcpSegment.Bytes.{
  with_cksum, with_cksum-IsValid, header_bytes, before, after, bytes, bytes-layout, bytes-split,
  even, length-bytes, whole-bound,
}

-- A segment whose header fits, of bytes, and short enough for the sum of its words.
pub record Fits (seg : TcpSegment) (datagram_layer_checksum : ℕ) : Type 0 where
  pub header : IsValid seg.header
  pub payload_bytes : All (λ (b : ℕ). b < 256) (str seg.payload)
  pub short : length (str seg.payload) < 2 ^ 15
  pub initial_small : datagram_layer_checksum < 2 ^ 20

-- The checksum that `serialize` puts into the header.
abbrev pub right_cksum : TcpSegment → ℕ → ℕ
right_cksum seg initial = value (
    add (InternetChecksum.init initial)
      (before seg.header ++ 0 ∷ 0 ∷ after seg.header (str seg.payload)))

module _ (seg : TcpSegment) (initial : ℕ) (f : Fits seg initial) where
  cksum_small : right_cksum seg initial < 2 ^ 16
  cksum_small =
      let le = value_small (
        add (InternetChecksum.init initial)
          (before seg.header ++ 0 ∷ 0 ∷ after seg.header (str seg.payload))) in
      omega arith

  value-bytes :
      value (
        add
          (InternetChecksum.init initial)
          (bytes seg.header (right_cksum seg initial) (str seg.payload)))
      ≡ 0
  value-bytes =
      let b = whole-bound seg.header (str seg.payload) f.header f.payload_bytes in
      ap (λ (l : List ℕ). value (add (InternetChecksum.init initial) l))
        (bytes-split seg.header (right_cksum seg initial) (str seg.payload) cksum_small)
      ∙ value-inserted initial (before seg.header) (after seg.header (str seg.payload))
          (even seg.header) (omega (arith, f.short, f.initial_small))

  -- A buffer with the bytes of the serialized segment.
  read-Holds :
      (b : Buffer)
      → Laws.IsValid b
      → str b ≡ bytes seg.header (right_cksum seg initial) (str seg.payload)
      → Holds
          (layout
            (with_cksum seg.header (right_cksum seg initial))
            (options seg.header ++ str seg.payload))
          (init b)
  read-Holds b v e =
      subst (λ (l : List ℕ). Holds l (init b))
        (e ∙ bytes-layout seg.header (right_cksum seg initial) (str seg.payload)) (init-Holds b v)

add-append : (xs ys : List ℕ) (c : InternetChecksum) → add c (xs ++ ys) ≡ add (add c xs) ys
unfolding add
add-append [] ys c = refl
add-append (x ∷ xs) ys c = add-append xs ys _

-- The checksum over the header and then the payload is the one over the bytes.
checksum-right_cksum :
    (seg : TcpSegment) (initial : ℕ)
    → checksum (header_bytes (with_cksum seg.header 0)) (str seg.payload) initial
      ≡ right_cksum seg initial
unfolding checksum
checksum-right_cksum seg initial = ap value (
    sym (
      add-append (header_bytes (with_cksum seg.header 0)) (str seg.payload)
        (InternetChecksum.init initial))
    ∙ ap (add (InternetChecksum.init initial))
        (bytes-split seg.header 0 (str seg.payload) (omega arith)))

assemble_segment_lem :
    (seg : TcpSegment) (cksum : ℕ)
    → IsValid (with_cksum seg.header cksum)
    → assemble seg cksum
      ≡ some (of_string (header_bytes (with_cksum seg.header cksum)) ∷ seg.payload ∷ [])
unfolding assemble Buffer.append
assemble_segment_lem seg cksum v =
    ap
      (λ (o : Option (List ℕ)). elim o as (λ _. Option BufferList) [
        | none ↦ none
        | some bytes ↦ some (Buffer.append (of_string bytes ∷ []) (seg.payload ∷ []))
      ])
      (serialize_lem (with_cksum seg.header cksum) v)

pub serialize_segment_lem :
    (seg : TcpSegment) (initial : ℕ)
    → Fits seg initial
    → serialize seg initial
      ≡ some (
          of_string (header_bytes (with_cksum seg.header (right_cksum seg initial)))
          ∷ seg.payload
          ∷ [])
unfolding serialize
serialize_segment_lem seg initial f =
    ap
      (λ (o : Option (List ℕ)). elim o as (λ _. Option BufferList) [
        | none ↦ none
        | some zeroed ↦ assemble seg (checksum zeroed (str seg.payload) initial)
      ])
      (serialize_lem (with_cksum seg.header 0)
        (with_cksum-IsValid seg.header 0 f.header (omega arith)))
    ∙ ap (assemble seg) (checksum-right_cksum seg initial)
    ∙ assemble_segment_lem seg (right_cksum seg initial) (
        with_cksum-IsValid seg.header (right_cksum seg initial) f.header
          (cksum_small seg initial f))

pub concatenate-assembled :
    (h : TcpHeader) (payload : Buffer)
    → concatenate (of_string (header_bytes h) ∷ payload ∷ []) ≡ header_bytes h ++ str payload
unfolding concatenate
concatenate-assembled h payload =
    rw (str-of_string (header_bytes h)) (ap (◌++◌ (header_bytes h)) (append-nil (str payload)))

pub parse-bytes :
    (seg0 seg : TcpSegment) (initial : ℕ) (b : Buffer)
    → Fits seg initial
    → Laws.IsValid b
    → str b ≡ bytes seg.header (right_cksum seg initial) (str seg.payload)
    → let read = parse seg0 b initial in
      (read.0.header ≡ with_cksum seg.header (right_cksum seg initial))
      × (str read.0.payload ≡ str seg.payload)
      × (read.1 ≡ no_error)
unfolding parse
parse-bytes seg0 seg initial b f w e =
    let h = with_cksum seg.header (right_cksum seg initial) in
    let v =
      with_cksum-IsValid seg.header (right_cksum seg initial) f.header
        (cksum_small seg initial f) in
    let (left, same, _) = parse-layout h (str seg.payload) _ v (read-Holds seg initial f b w e) in
    rw (e, value-bytes seg initial f) (same, left.held, left.fine)

pub length-serialized :
    (seg : TcpSegment) (initial : ℕ)
    → Fits seg initial
    → length (bytes seg.header (right_cksum seg initial) (str seg.payload))
      ≡ 4 * seg.header.doff + length (str seg.payload)
length-serialized seg initial f =
    length-bytes seg.header (right_cksum seg initial) (str seg.payload) f.header

-- A segment that fits is serialized, with a checksum that the parser accepts; parsed back it has the
-- same header but for that checksum, the same payload, and no error.
pub parse_segment-serialize :
    (seg0 seg : TcpSegment) (datagram_layer_checksum : ℕ)
    → Fits seg datagram_layer_checksum
    → (bs : BufferList) × (cksum : ℕ) × (serialize seg datagram_layer_checksum ≡ some bs)
      × (let read = parse seg0 (of_string (concatenate bs)) datagram_layer_checksum in
          (read.0.header ≡ record seg.header { cksum = cksum })
          × (str read.0.payload ≡ str seg.payload)
          × (read.1 ≡ no_error))
parse_segment-serialize seg0 seg initial f =
    let h = with_cksum seg.header (right_cksum seg initial) in
    let text = bytes seg.header (right_cksum seg initial) (str seg.payload) in
    let max : seg.header.doff < 16 = f.header.doff_max in
    let len = length-serialized seg initial f in
    let small : length text < 2 ^ 64 = omega (arith, f.short) in
    (
      of_string (header_bytes h) ∷ seg.payload ∷ [],
      right_cksum seg initial,
      serialize_segment_lem seg initial f,
      rw (concatenate-assembled h seg.payload) (
          parse-bytes seg0 seg initial (of_string text) f (of_string-IsValid text small)
            (str-of_string text)),
    )
