-- ===== src/StreamReassembler/Counting.antt =====
-- `_stored_bytes` and `_used_byte` of libsponge/stream_reassembler.cc against the positions that the
-- reassembler has.
use Prim.{¬◌}
use cs144_lab_assignment.Common.{
  ℕ, ◌+◌, ◌≤◌, ◌<◌, ◌^◌, ◌≡◌, refl, ap, subst, ◌∙◌, ◌⊎◌, inl, inr, Bool, Bool-cases, List, [], ◌∷◌,
  length, take, length-take, ltb, leb, ltb→lt, ltb→le, leb→le, leb→lt, ◌==◌, ◌||◌, if_both, add64,
  sub64, All, arith,
}
use cs144_lab_assignment.ByteStream.{bytes_read}
use cs144_lab_assignment.StreamReassembler.{
  StreamReassembler, Progress, take_front, assemble, accept, push_within, push_substring,
  close_if_empty, empty, window_end,
}
use cs144_lab_assignment.StreamReassembler.Accounting.{
  total, Free, IsFree, subtract-IsFree, total-subtract, Free-subtract, subtract-Free,
}
use cs144_lab_assignment.StreamReassembler.Coverage.{Holds}
use cs144_lab_assignment.StreamReassembler.Coverage
use cs144_lab_assignment.StreamReassembler.Delivery.{IsValid}
use cs144_lab_assignment.StreamReassembler.Mirror.{put}
use cs144_lab_assignment.StreamReassembler.Nodes.{Node, store_text}
use cs144_lab_assignment.StreamReassembler.Prefix.{PartOf, PartOf-take}
use cs144_lab_assignment.StreamReassembler.Pushing.{
  Covered, IsOrdered, Mirrors-lower, accept-Extends, stored-small,
}
use cs144_lab_assignment.StreamReassembler.Ranges.{overlap, subtract}
use cs144_lab_assignment.StreamReassembler.Collecting.{positions}
use cs144_lab_assignment.StreamReassembler.Taking.{store_range_lem}
use cs144_lab_assignment.StreamReassembler.Segments.{store_range}
use cs144_lab_assignment.StreamReassembler.Stored.{store_text-Stored}

-- A position is one of a text at an index.
abbrev Within : ℕ → List ℕ → ℕ → Type 0
Within i text index = (index ≤ i) × (i < index + length text)

put_only :
    (i id : ℕ) (text : List ℕ) (index : ℕ) (ns : List Node)
    → Holds i (put id text index ns)
    → Holds i ns ⊎ Within i text index
unfolding put
put_only i id text index [] =
    λ h. elim h [ Coverage.here le lt ↦ inr (le, lt) | Coverage.later h' ↦ inl h' ]
put_only i id text index (n ∷ ns) =
    let Was : List Node → Type 0 = λ l. Holds i l → Holds i (n ∷ ns) ⊎ Within i text index in
    let new : (m : Node) (ms : List Node)
        → m.text ≡ text
        → m.index ≡ index
        → (Holds i ms → Holds i (n ∷ ns))
        → Was (m ∷ ms) =
      λ m ms t x back h. elim h [
        | Coverage.here le lt ↦ inr (omega arith, omega (arith, ap length t))
        | Coverage.later h' ↦ inl (back h')
      ] in
    if_both Was (ltb n.index index)
      (λ _ h. elim h [
        | Coverage.here le lt ↦ inl (Coverage.here le lt)
        | Coverage.later h' ↦ elim (put_only i id text index ns h') [
          | inl w ↦ inl (Coverage.later w)
          | inr w ↦ inr w
        ]
      ])
      λ _.
        if_both Was (n.index == index)
          (λ _.
            if_both Was (ltb (length n.text) (length text)) (λ _. new _ ns refl refl Coverage.later)
              λ _ h. inl h)
          λ _. new _ (n ∷ ns) refl refl (λ h. h)

take_front_only :
    (i : ℕ) (n : Node) (p : Progress)
    → n.index ≤ p.assembled
    → n.index + length n.text < 2 ^ 64
    → i < (take_front n p).assembled
    → (i < p.assembled) ⊎ Within i n.text n.index
unfolding take_front
take_front_only i n p le small =
    if_both (λ (q : Progress). i < q.assembled → (i < p.assembled) ⊎ Within i n.text n.index)
      (ltb p.assembled (add64 n.index (length n.text)))
      (λ _ (lt : i < add64 n.index (length n.text)). elim (Bool-cases (ltb i p.assembled)) [
        | inl old ↦ inl (ltb→lt _ _ old)
        | inr new ↦ let ge : p.assembled ≤ i = ltb→le _ _ new in inr (omega arith, omega arith)
      ])
      λ _ lt. inl lt

assemble_only :
    (i : ℕ) (ns : List Node) (p : Progress)
    → All (λ (n : Node). n.index + length n.text < 2 ^ 64) ns
    → (i < (assemble ns p).0.assembled) ⊎ Holds i (assemble ns p).1
    → (i < p.assembled) ⊎ Holds i ns
unfolding assemble
assemble_only i [] p small = λ c. c
assemble_only i (n ∷ ns) p small =
    if_both
      (λ (o : Progress × List Node).
        (i < o.0.assembled) ⊎ Holds i o.1 → (i < p.assembled) ⊎ Holds i (n ∷ ns))
      (leb n.index p.assembled)
      (λ le c. elim (assemble_only i ns (take_front n p) small.1 c) [
        | inl lt ↦ elim (take_front_only i n p (leb→le _ _ le) small.0 lt) [
          | inl old ↦ inl old
          | inr w ↦ inr (Coverage.here w.0 w.1)
        ]
        | inr h ↦ inr (Coverage.later h)
      ])
      λ _ c. c

-- The free positions below the largest number of a `size_t` are those that the reassembler has not
-- got, and `stored_bytes` is the number of the others.
pub record Accounts (r : StreamReassembler) : Type 0 where
  pub free : IsFree 0 r.used_byte
  pub counted : r.stored_bytes + total r.used_byte ≡ positions
  pub none_twice : (i : ℕ) → Free i r.used_byte → ¬ (Covered r i)
  pub all : (i : ℕ) → i < positions → Free i r.used_byte ⊎ Covered r i

close_if_empty-Accounts : {r : StreamReassembler} → Accounts r → Accounts (close_if_empty r)
unfolding close_if_empty
close_if_empty-Accounts {r} a =
    if_both Accounts (empty r)
      (λ _. record { free = a.free; counted = a.counted; none_twice = a.none_twice; all = a.all })
      λ _. a

-- Ending the output changes nothing of what is there.
Covered-close_if_empty :
    (i : ℕ) (r : StreamReassembler) → Covered (close_if_empty r) i → Covered r i
unfolding close_if_empty
Covered-close_if_empty i r =
    if_both (λ (q : StreamReassembler). Covered q i → Covered r i) (empty r) (λ _ c. c) λ _ c. c

accept-Accounts :
    {stream : List ℕ} {r : StreamReassembler} (text : List ℕ) (index : ℕ)
    → IsValid stream r
    → IsOrdered r
    → PartOf stream index text
    → index + length text ≤ r.capacity + r.output.byte_read
    → Accounts r
    → Accounts (accept r text index)
unfolding accept
accept-Accounts {stream} {r} text index v o part lim a =
    let end = index + length text in
    let wide : add64 index (length text) ≡ end = omega (arith, part.0, v.small) in
    let (nodes, m) = store_text-Stored text index r.store (Mirrors-lower (omega arith) o) in
    let fewer = total-subtract r.used_byte 0 index end (omega arith) a.free.0 in
    let taken : store_range r.stored_bytes r.used_byte index (add64 index (length text))
        ≡ (r.stored_bytes + overlap r.used_byte index end, subtract r.used_byte index end) =
      ap (store_range r.stored_bytes r.used_byte index) wide
      ∙ store_range_lem r.stored_bytes r.used_byte index end a.free.0 a.free.1 (omega arith)
          (omega (arith, fewer, a.counted)) in
    let p : Progress = record {
      out = r.output;
      assembled = r.assembled_bytes;
      entries = (store_text r.store text index).existed;
    } in
    let small = stored-small text index v part lim in
    let x = accept-Extends text index positions v o part lim in
    close_if_empty-Accounts (
      rw taken (record {
        free = subtract-IsFree r.used_byte 0 index end (omega arith) a.free;
        counted = omega (arith, fewer, a.counted);
        none_twice = λ i f c.
            let (was, out) = subtract-Free i r.used_byte 0 index end a.free.0 (omega arith) f in
            elim (assemble_only i (store_text r.store text index).nodes p small c) [
              | inl lt ↦ a.none_twice i was (inl lt)
              | inr h ↦
                  elim (put_only i r.store.next_id text index r.store.nodes
                    (subst (Holds i) nodes h)) [
                      | inl old ↦ a.none_twice i was (inr old)
                      | inr (ge, lt) ↦ elim out [
                        | inl before ↦ absurd (omega arith)
                        | inr behind ↦ absurd (omega arith)
                      ]
                    ]
            ];
        all = λ i below. elim (a.all i below) [
          | inr c ↦ inr (Covered-close_if_empty i _ (x.keeps i c))
          | inl f ↦ elim (Bool-cases (ltb i index)) [
            | inl before ↦ inl (Free-subtract i r.used_byte index end f (inl (ltb→lt _ _ before)))
            | inr ge ↦ elim (Bool-cases (ltb i end)) [
              | inl lt ↦
                  inr (Covered-close_if_empty i _ (x.adds i (ltb→le _ _ ge) (ltb→lt _ _ lt) below))
              | inr behind ↦ inl (Free-subtract i r.used_byte index end f (inr (ltb→le _ _ behind)))
            ]
          ]
        ];
      }))

-- Pushing a part of the stream keeps the account.
pub push_substring-Accounts :
    {stream : List ℕ} {r : StreamReassembler} (text : List ℕ) (index : ℕ) (eof : Bool)
    → IsValid stream r
    → IsOrdered r
    → PartOf stream index text
    → Accounts r
    → Accounts (push_substring r text index eof)
unfolding push_substring push_within
push_substring-Accounts {stream} {r} text index eof v o part a =
    let d = v.delivered in
    let room : window_end r ≡ r.capacity + r.output.byte_read =
      unfold window_end bytes_read in omega (arith, d.valid.read_le, d.in_stream, v.small) in
    if_both Accounts (leb (window_end r) index) (λ _. a)
      λ out.
        let lt : index < window_end r = leb→lt _ _ out in
        if_both Accounts (ltb (window_end r) (add64 index (length text)))
          (λ _.
            let cut = take (sub64 (window_end r) index) text in
            if_both Accounts (leb (add64 index (length cut)) r.assembled_bytes)
              (λ _. close_if_empty-Accounts a)
              λ _.
                accept-Accounts cut index v o (PartOf-take stream text index _ part)
                  (omega (arith, length-take (sub64 (window_end r) index) text)) a)
          λ fits.
            let le : add64 index (length text) ≤ window_end r = ltb→le _ _ fits in
            let r' : StreamReassembler = record r { eof = r.eof || eof } in
            let a' : Accounts r' = record {
              free = a.free;
              counted = a.counted;
              none_twice = a.none_twice;
              all = a.all;
            } in
            if_both Accounts (leb (add64 index (length text)) r.assembled_bytes)
              (λ _. close_if_empty-Accounts a')
              λ _.
                accept-Accounts {r = r'} text index
                  (record { delivered = v.delivered; nodes = v.nodes; small = v.small }) o part
                  (omega arith) a'
