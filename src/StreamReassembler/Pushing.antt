-- ===== src/StreamReassembler/Pushing.antt =====
-- `push_substring` of libsponge/stream_reassembler.cc and the positions that the reassembler has.
use cs144_lab_assignment.Common.{
  All, ℕ, suc, ◌+◌, ◌≤◌, ◌<◌, ◌^◌, ◌≡◌, sym, subst, ◌⊎◌, inl, inr, Bool, List, [], ◌∷◌, length,
  take, length-take, ltb, leb, ◌||◌, All-map, if_both, add64, sub64, ltb→le, leb→le, leb→lt, arith,
}
use cs144_lab_assignment.ByteStream.{bytes_read}
use cs144_lab_assignment.StreamReassembler.{
  StreamReassembler, Progress, accept, close_if_empty, push_within, push_substring, window_end,
  empty,
}
use cs144_lab_assignment.StreamReassembler.Delivery.{IsValid}
use cs144_lab_assignment.StreamReassembler.Mirror.{Ascending, put}
use cs144_lab_assignment.StreamReassembler.Stored.{Mirrors, store_text-Stored}
use cs144_lab_assignment.StreamReassembler.Nodes.{Node, Store, store_text}
use cs144_lab_assignment.StreamReassembler.Prefix.{PartOf, PartOf-take, NodeFits, store_text-Fits}
use cs144_lab_assignment.StreamReassembler.Coverage.{Holds, put-keeps, put-adds, assemble-Assembled}

-- The byte at the position is assembled or stored.
abbrev pub Covered : StreamReassembler → ℕ → Type 0
Covered r i = (i < r.assembled_bytes) ⊎ Holds i r.store.nodes

-- The map mirrors the list, and every node begins behind the assembled bytes and a gap.
abbrev pub IsOrdered : StreamReassembler → Type 0
IsOrdered r = Mirrors (suc r.assembled_bytes) r.store

-- What a push of a text comes to: no position is lost, and those of the text before `limit` are there.
pub record Extends (r r' : StreamReassembler) (text : List ℕ) (index limit : ℕ) : Type 0 where
  pub ordered : IsOrdered r'
  pub keeps : (i : ℕ) → Covered r i → Covered r' i
  pub adds : (i : ℕ) → index ≤ i → i < index + length text → i < limit → Covered r' i

pub Ascending-lower :
    (low low' : ℕ) (ns : List Node) → low' ≤ low → Ascending low ns → Ascending low' ns
Ascending-lower low low' [] h a = tt
Ascending-lower low low' (n ∷ ns) h a = (omega (arith, a.0), a.1)

pub Mirrors-lower : {low low' : ℕ} {s : Store} → low' ≤ low → Mirrors low s → Mirrors low' s
Mirrors-lower {low} {low'} {s} h m = record {
  entries = m.entries;
  ascending = Ascending-lower low low' s.nodes h m.ascending;
  separate = m.separate;
  used = m.used;
}

close_if_empty-Extends :
    {r r' : StreamReassembler} {text : List ℕ} {index limit : ℕ}
    → Extends r r' text index limit
    → Extends r (close_if_empty r') text index limit
unfolding close_if_empty
close_if_empty-Extends {r} {r'} {text} {index} {limit} x =
    if_both (λ (q : StreamReassembler). Extends r q text index limit) (empty r')
      (λ _. record { ordered = x.ordered; keeps = x.keeps; adds = x.adds }) λ _. x

-- No node ends behind the positions of 64 bits.
pub stored-small :
    {stream : List ℕ} {r : StreamReassembler} (text : List ℕ) (index : ℕ)
    → IsValid stream r
    → PartOf stream index text
    → index + length text ≤ r.capacity + r.output.byte_read
    → All (λ (n : Node). n.index + length n.text < 2 ^ 64) (store_text r.store text index).nodes
stored-small {stream} {r} text index v part lim =
    All-map {Q = λ (n : Node). n.index + length n.text < 2 ^ 64}
      (λ (n : Node) (f : NodeFits stream (r.capacity + r.output.byte_read) n).
        omega (arith, f.0.0, v.small))
      (store_text r.store text index).nodes
      (store_text-Fits stream r.capacity v.small (r.capacity + r.output.byte_read) index text
        r.store (part, lim) v.nodes)

pub accept-Extends :
    {stream : List ℕ} {r : StreamReassembler} (text : List ℕ) (index limit : ℕ)
    → IsValid stream r
    → IsOrdered r
    → PartOf stream index text
    → index + length text ≤ r.capacity + r.output.byte_read
    → Extends r (accept r text index) text index limit
unfolding accept
accept-Extends {stream} {r} text index limit v o part lim =
    let s : Store = store_text r.store text index in
    let p : Progress = record {
      out = r.output;
      assembled = r.assembled_bytes;
      entries = s.existed;
    } in
    let (nodes, m) = store_text-Stored text index r.store (Mirrors-lower (omega arith) o) in
    let a =
      assemble-Assembled s.nodes p 0 m.entries m.ascending (stored-small text index v part lim) in
    let stored : (i : ℕ)
        → Holds i (put r.store.next_id text index r.store.nodes)
        → Holds i s.nodes =
      λ i h. subst (Holds i) (sym nodes) h in
    close_if_empty-Extends (record {
      ordered = record {
        entries = a.entries;
        ascending = a.ascending;
        separate = a.separate m.separate;
        used = a.used s.next_id m.used;
      };
      keeps = λ i c. elim c [
        | inl lt ↦ inl (omega (arith, a.forward))
        | inr h ↦ a.kept i (stored i (put-keeps i r.store.next_id text index r.store.nodes h))
      ];
      adds = λ i le lt _.
          a.kept i (stored i (put-adds i r.store.next_id text index r.store.nodes le lt));
    })

push_within-Extends :
    {stream : List ℕ} {r : StreamReassembler} (text : List ℕ) (index limit : ℕ)
    → IsValid stream r
    → IsOrdered r
    → PartOf stream index text
    → index + length text ≤ r.capacity + r.output.byte_read
    → Extends r (push_within r text index) text index limit
unfolding push_within
push_within-Extends {stream} {r} text index limit v o part lim =
    if_both (λ (q : StreamReassembler). Extends r q text index limit)
      (leb (add64 index (length text)) r.assembled_bytes)
      (λ old.
        let le : add64 index (length text) ≤ r.assembled_bytes = leb→le _ _ old in
        close_if_empty-Extends (record {
          ordered = o;
          keeps = λ i c. c;
          adds = λ i _ lt _. inl (omega (arith, part.0, v.small));
        }))
      λ _. accept-Extends text index limit v o part lim

-- Pushing a part of the stream loses no position, adds those of the text before the end of the window,
-- and keeps the order of what is stored.
pub push_substring-Extends :
    {stream : List ℕ} {r : StreamReassembler} (text : List ℕ) (index : ℕ) (eof : Bool)
    → IsValid stream r
    → IsOrdered r
    → PartOf stream index text
    → Extends r (push_substring r text index eof) text index (r.capacity + r.output.byte_read)
unfolding push_substring
push_substring-Extends {stream} {r} text index eof v o part =
    let d = v.delivered in
    let limit = r.capacity + r.output.byte_read in
    let room : window_end r ≡ limit =
      unfold window_end bytes_read in omega (arith, d.valid.read_le, d.in_stream, v.small) in
    if_both (λ (q : StreamReassembler). Extends r q text index limit) (leb (window_end r) index)
      (λ behind.
        let le : window_end r ≤ index = leb→le _ _ behind in
        record { ordered = o; keeps = λ i c. c; adds = λ i ge _ below. absurd (omega arith) })
      λ out.
        let lt : index < window_end r = leb→lt _ _ out in
        if_both (λ (q : StreamReassembler). Extends r q text index limit)
          (ltb (window_end r) (add64 index (length text)))
          (λ _.
            let cut = take (sub64 (window_end r) index) text in
            let size = length-take (sub64 (window_end r) index) text in
            let x =
              push_within-Extends cut index limit v o (PartOf-take stream text index _ part)
                (omega (arith, size)) in
            record {
              ordered = x.ordered;
              keeps = x.keeps;
              adds = λ i ge below_end below_limit. x.adds i ge (omega (arith, size)) below_limit;
            })
          λ fits.
            let le : add64 index (length text) ≤ window_end r = ltb→le _ _ fits in
            let x =
              push_within-Extends {r = record r { eof = r.eof || eof }} text index limit
                (record { delivered = v.delivered; nodes = v.nodes; small = v.small }) o part
                (omega arith) in
            record { ordered = x.ordered; keeps = x.keeps; adds = x.adds }
