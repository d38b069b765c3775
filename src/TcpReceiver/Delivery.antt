-- ===== src/TcpReceiver/Delivery.antt =====
-- `TCPReceiver::segment_received` of libsponge/tcp_receiver.cc on the segments of a peer that sends a
-- stream.
use cs144_lab_assignment.Common.{
  ℕ, ◌+◌, ◌≤◌, ◌<◌, ◌^◌, ◌≡◌, refl, ap, sym, ◌∙◌, Bool, true, false, not, ◌&&◌, ◌||◌, List, Option,
  none, some, length, if_both, ltb, leb, ◌==◌, if◌then◌else◌, to_nat, sub64, arith, ◌⊎◌, inl, inr,
  subst,
}
use cs144_lab_assignment.Buffer.{str, size}
use cs144_lab_assignment.WrappingIntegers.{WrappingInt32, wrap, unwrap}
use cs144_lab_assignment.WrappingIntegers.Unwrap.{distance, unwrap-wrap}
use cs144_lab_assignment.StreamReassembler.{push_substring, empty}
use cs144_lab_assignment.ByteStream.Valid.{remaining_capacity-add}
use cs144_lab_assignment.StreamReassembler.Prefix.{PartOf}
use cs144_lab_assignment.StreamReassembler.Delivery as Reassembler
use cs144_lab_assignment.TcpSegment.{TcpSegment, length_in_sequence_space}
use cs144_lab_assignment.TcpReceiver.{
  TcpReceiver, absolute_ackno, has_value, window_size, listen, syn_recv, fin_recv, place,
  receive_open, segment_received,
}

-- A segment of the stream, with SYN at position 0 and the byte at an index at position index + 1; the
-- position is less than 2 ^ 31 away from the acknowledged one. All numbers fit 64 bits.
pub record Carries (stream : List ℕ) (isn : WrappingInt32) (r : TcpReceiver) (index : ℕ)
    (seg : TcpSegment) : Type 0 where
  pub part : PartOf stream index (str seg.payload)
  pub opening : seg.header.syn ≡ true → index ≡ 0
  pub labelled : seg.header.seqno ≡ wrap (index + to_nat (not seg.header.syn)) isn
  pub near : distance (index + to_nat (not seg.header.syn)) (absolute_ackno r) < 2 ^ 31
  pub isn_small : isn < 2 ^ 32
  pub small : r.reassembler.capacity + length stream + 4 < 2 ^ 64

-- The tests of `place`, without the wrap-around.
unfoldable pub acceptable : TcpReceiver → ℕ → TcpSegment → Bool
acceptable r position seg =
    let ackno = absolute_ackno r in
    let window = window_size r in
    let size = length (str seg.payload) in
    leb ackno (position + size + to_nat seg.header.syn)
    && (ltb position (ackno + window) || (window == 0 && length_in_sequence_space seg == 0))

-- The bounds of the receiver's numbers.
pub ackno_bound :
    {stream : List ℕ} (r : TcpReceiver)
    → Reassembler.IsValid stream r.reassembler
    → r.reassembler.capacity + length stream + 4 < 2 ^ 64
    → (absolute_ackno r ≤ length stream + 2) × (window_size r ≤ r.reassembler.capacity)
unfolding absolute_ackno window_size
ackno_bound {stream} r v small =
    let d = v.delivered in
    let room = remaining_capacity-add d.valid in
    let ended : to_nat (empty r.reassembler) ≤ 1 = ground arith in
    let begun : to_nat (has_value r.isn) ≤ 1 = ground arith in
    (omega (arith, d.counted, d.in_stream), omega (arith, d.same_capacity))

-- A receiver that knows the peer's isn puts an acceptable segment of the peer's stream into the
-- reassembler at its index in the stream, and leaves any other segment of the stream alone.
pub place_lem :
    (stream : List ℕ) (isn : WrappingInt32) (r : TcpReceiver) (index : ℕ) (seg : TcpSegment)
    → Reassembler.IsValid stream r.reassembler
    → Carries stream isn r index seg
    → place r isn seg ≡ (
        if acceptable r (index + to_nat (not seg.header.syn)) seg
        then (
          record r {
            reassembler = push_substring r.reassembler (str seg.payload) index seg.header.fin;
          },
          true,
        )
        else (r, false))
unfolding place acceptable size
place_lem stream isn r index seg v c =
    let position : ℕ = index + to_nat (not seg.header.syn) in
    let (ack, window) = ackno_bound r v c.small in
    let syn : to_nat (not seg.header.syn) + to_nat seg.header.syn ≡ 1 = ground arith in
    let in_stream : index + length (str seg.payload) ≤ length stream = c.part.0 in
    let abs : unwrap seg.header.seqno isn (absolute_ackno r) ≡ position =
      ap (λ (n : ℕ). unwrap n isn (absolute_ackno r)) c.labelled
      ∙ unwrap-wrap position isn (absolute_ackno r) c.isn_small (omega (arith, c.small))
          (omega (arith, c.small)) c.near in
    let at : sub64 position (to_nat (not seg.header.syn)) ≡ index = omega (arith, c.small) in
    let pushed = push_substring r.reassembler (str seg.payload) index seg.header.fin in
    rw (abs, at) (ground (arith, c.small))

-- The receiver with a given isn.
abbrev pub with_isn : TcpReceiver → Option WrappingInt32 → TcpReceiver
with_isn r o = record r { isn = o }

-- What a receiver keeps for a stream: the invariant of its reassembler, and the peer's isn, if any.
pub record IsValid (stream : List ℕ) (isn : WrappingInt32) (r : TcpReceiver) : Type 0 where
  pub reassembler : Reassembler.IsValid stream r.reassembler
  pub knows : (r.isn ≡ none) ⊎ (r.isn ≡ some isn)

place-IsValid :
    (stream : List ℕ) (isn : WrappingInt32) (r : TcpReceiver) (index : ℕ) (seg : TcpSegment)
    → IsValid stream isn r
    → Carries stream isn r index seg
    → IsValid stream isn (place r isn seg).0
place-IsValid stream isn r index seg v c = rw (place_lem stream isn r index seg v.reassembler c) (
    if_both (λ (o : TcpReceiver × Bool). IsValid stream isn o.0)
      (acceptable r (index + to_nat (not seg.header.syn)) seg)
      (λ _. record {
        reassembler =
            Reassembler.push_substring-IsValid (str seg.payload) index seg.header.fin v.reassembler
              c.part;
        knows = v.knows;
      })
      λ _. v)

receive_open-IsValid :
    (stream : List ℕ) (isn : WrappingInt32) (r : TcpReceiver) (index : ℕ) (seg : TcpSegment)
    → IsValid stream isn (with_isn r (some isn))
    → Carries stream isn (with_isn r (some isn)) index seg
    → IsValid stream isn (receive_open (with_isn r (some isn)) seg).0
unfolding receive_open
receive_open-IsValid stream isn r index seg v c =
    let r' = with_isn r (some isn) in
    let P : TcpReceiver × Bool → Type 0 = λ o. IsValid stream isn o.0 in
    if_both P (seg.header.fin && fin_recv r') (λ _. v)
      λ _. if_both P (syn_recv r') (λ _. place-IsValid stream isn r' index seg v c) λ _. v

-- Every segment of the peer's stream, less than 2 ^ 31 positions away from the acknowledged one, with
-- or without SYN and FIN, in whatever state the receiver is: the reassembler still holds and delivers
-- the peer's stream, and the isn is the peer's.
pub segment_received-IsValid :
    (stream : List ℕ) (isn : WrappingInt32) (r : TcpReceiver) (index : ℕ) (seg : TcpSegment)
    → IsValid stream isn r
    → Carries stream isn (with_isn r (some isn)) index seg
    → IsValid stream isn (segment_received r seg).0
unfolding segment_received
segment_received-IsValid stream isn r index seg v c =
    let v' : IsValid stream isn (with_isn r (some isn)) = record {
      reassembler = v.reassembler;
      knows = inr refl;
    } in
    let P : TcpReceiver × Bool → Type 0 = λ o. IsValid stream isn o.0 in
    let opened : IsValid stream isn (receive_open (with_isn r (some isn)) seg).0 =
      receive_open-IsValid stream isn r index seg v' c in
    let no_isn : IsValid stream isn (with_isn r none) = record {
      reassembler = v.reassembler;
      knows = inl refl;
    } in
    let Q : Option WrappingInt32 → Type 0 =
      λ o. IsValid stream isn (receive_open (with_isn r o) seg).0 in
    let known : IsValid stream isn (receive_open r seg).0 = elim v.knows [
      | inl e ↦ subst Q (sym e) (unfold receive_open in no_isn)
      | inr e ↦ subst Q (sym e) opened
    ] in
    if_both P seg.header.syn
      (λ s.
        let first : seg.header.seqno ≡ isn =
          unfold wrap in ground (arith, c.labelled, c.opening s, c.isn_small) in
        subst
          (λ (n : WrappingInt32). P (
            if not (listen r)
            then (r, false)
            else if length_in_sequence_space seg == 1
            then (with_isn r (some n), true)
            else receive_open (with_isn r (some n)) seg))
          (sym first)
          (if_both P (not (listen r)) (λ _. v)
            λ _. if_both P (length_in_sequence_space seg == 1) (λ _. v') λ _. opened))
      λ _. known
