-- ===== src/StreamReassembler/Coverage.antt =====
-- The positions of the stream that the list of nodes of libsponge/stream_reassembler.cc holds, before and
-- after the assembling loop.
use cs144_lab_assignment.Common.{
  ℕ, suc, ◌+◌, ◌≤◌, ◌<◌, ◌^◌, ◌≡◌, ap, ◌∙◌, ◌⊎◌, inl, inr, List, [], ◌∷◌, length, ltb, leb, ◌==◌,
  All, if_both, add64, ltb→lt, ltb→le, leb→lt, ==→eq, arith,
}
use cs144_lab_assignment.StreamReassembler.{Progress, take_front, assemble}
use cs144_lab_assignment.StreamReassembler.Mirror.{entries_of, Ascending, Separate, put}
use cs144_lab_assignment.StreamReassembler.Nodes.{Node, Entry, erase}

-- Some node of the list has the byte at the position.
pub data Holds (i : ℕ) : List Node → Type 0 where
  here : {n : Node} {ns : List Node} → n.index ≤ i → i < n.index + length n.text → Holds i (n ∷ ns)
  later : {n : Node} {ns : List Node} → Holds i ns → Holds i (n ∷ ns)

-- Putting a text in loses no position and adds those of the text.
pub put-keeps :
    (i id : ℕ) (text : List ℕ) (index : ℕ) (ns : List Node)
    → Holds i ns
    → Holds i (put id text index ns)
unfolding put
put-keeps i id text index [] h = elim h [ ]
put-keeps i id text index (n ∷ ns) (here le lt) =
    if_both (Holds i) (ltb n.index index) (λ _. here le lt)
      λ _.
        if_both (Holds i) (n.index == index)
          (λ e.
            let same : n.index ≡ index = ==→eq _ _ e in
            if_both (Holds i) (ltb (length n.text) (length text))
              (λ longer. here (omega arith) (omega (arith, ltb→lt _ _ longer))) λ _. here le lt)
          λ _. later (here le lt)
put-keeps i id text index (n ∷ ns) (later h) =
    if_both (Holds i) (ltb n.index index) (λ _. later (put-keeps i id text index ns h))
      λ _.
        if_both (Holds i) (n.index == index)
          (λ _. if_both (Holds i) (ltb (length n.text) (length text)) (λ _. later h) λ _. later h)
          λ _. later (later h)

pub put-adds :
    (i id : ℕ) (text : List ℕ) (index : ℕ) (ns : List Node)
    → index ≤ i
    → i < index + length text
    → Holds i (put id text index ns)
unfolding put
put-adds i id text index [] le lt = here le lt
put-adds i id text index (n ∷ ns) le lt =
    if_both (Holds i) (ltb n.index index) (λ _. later (put-adds i id text index ns le lt))
      λ _.
        if_both (Holds i) (n.index == index)
          (λ e.
            let same : n.index ≡ index = ==→eq _ _ e in
            if_both (Holds i) (ltb (length n.text) (length text)) (λ _. here le lt)
              λ longer. here (omega arith) (omega (arith, ltb→le _ _ longer)))
          λ _. here le lt

-- What the assembling loop leaves of a list of nodes.
pub record Assembled (ns : List Node) (p p' : Progress) (left : List Node) : Type 0 where
  pub entries : p'.entries ≡ entries_of left
  pub ascending : Ascending (suc p'.assembled) left
  pub separate : Separate ns → Separate left
  pub used : (k : ℕ) → All (λ (n : Node). n.id < k) ns → All (λ (n : Node). n.id < k) left
  pub forward : p.assembled ≤ p'.assembled
  pub kept : (i : ℕ) → Holds i ns → (i < p'.assembled) ⊎ Holds i left

-- The front node is off the map, and nothing of it is behind the assembled bytes any more.
take_front_lem :
    (n : Node) (ns : List Node) (p : Progress)
    → p.entries ≡ entries_of (n ∷ ns)
    → n.index + length n.text < 2 ^ 64
    → ((take_front n p).entries ≡ entries_of ns)
      × (p.assembled ≤ (take_front n p).assembled)
      × (n.index + length n.text ≤ (take_front n p).assembled)
unfolding take_front
take_front_lem n ns p e small =
    let erased : erase p.entries n.index ≡ entries_of ns =
      ap (λ (es : List Entry). erase es n.index) e ∙ (unfold erase in ground arith) in
    if_both
      (λ (q : Progress).
        (q.entries ≡ entries_of ns)
        × (p.assembled ≤ q.assembled)
        × (n.index + length n.text ≤ q.assembled))
      (ltb p.assembled (add64 n.index (length n.text)))
      (λ lt.
        let more : p.assembled < add64 n.index (length n.text) = ltb→lt _ _ lt in
        (erased, omega arith, omega arith))
      λ ge.
        let le : add64 n.index (length n.text) ≤ p.assembled = ltb→le _ _ ge in
        (erased, omega arith, omega arith)

pub assemble-Assembled :
    (ns : List Node) (p : Progress) (low : ℕ)
    → p.entries ≡ entries_of ns
    → Ascending low ns
    → All (λ (n : Node). n.index + length n.text < 2 ^ 64) ns
    → let (p', left) = assemble ns p in Assembled ns p p' left
unfolding assemble
assemble-Assembled [] p low e a f = record {
  entries = e;
  ascending = tt;
  separate = λ s. s;
  used = λ k u. u;
  forward = omega arith;
  kept = λ i h. inr h;
}
assemble-Assembled (n ∷ ns) p low e a f =
    if_both (λ (o : Progress × List Node). Assembled (n ∷ ns) p o.0 o.1) (leb n.index p.assembled)
      (λ _.
        let (entries, forward, done) = take_front_lem n ns p e f.0 in
        let r = assemble-Assembled ns (take_front n p) (suc n.index) entries a.1 f.1 in
        record {
          entries = r.entries;
          ascending = r.ascending;
          separate = λ s. r.separate s.1;
          used = λ k u. r.used k u.1;
          forward = omega (arith, r.forward);
          kept = λ i h. elim h [
            | here le lt ↦ inl (omega (arith, r.forward))
            | later h' ↦ r.kept i h'
          ];
        })
      λ behind.
        let lt : p.assembled < n.index = leb→lt _ _ behind in
        record {
          entries = e;
          ascending = (omega arith, a.1);
          separate = λ s. s;
          used = λ k u. u;
          forward = omega arith;
          kept = λ i h. inr h;
        }
