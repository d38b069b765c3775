-- ===== src/StreamReassembler/Prefix.antt =====
-- The loops of `push_substring` of libsponge/stream_reassembler.cc against a stream: a list of bytes
-- of which every text stored is to be a part, at its index.
use cs144_lab_assignment.Common.{
  Option-cases, inl, inr, ◌==◌, ℕ, ◌+◌, ◌-◌, ◌≤◌, ◌<◌, ◌^◌, ◌≡◌, ap, ap₂, sym, ◌∙◌, List, [], ◌∷◌,
  ◌++◌, length, take, drop, take_all, take-take, drop-take, drop-drop, take-add, length-take,
  length-drop, All, All-append, if_both, ltb, leb, ltb→lt, leb→le, add64, sub64, arith,
}
use cs144_lab_assignment.ByteStream.{ByteStream, write}
use cs144_lab_assignment.ByteStream.Valid.{contents, write-Wrote, write-IsValid}
use cs144_lab_assignment.ByteStream.Valid as Stream
use cs144_lab_assignment.StreamReassembler.{Progress, fresh_part, take_front, assemble}
use cs144_lab_assignment.StreamReassembler.Nodes.{
  lower_bound, Node, Store, store_text, overwrite_shorter, insert_before,
}

-- The text is the part of the stream that begins at the index.
abbrev pub PartOf : List ℕ → ℕ → List ℕ → Type 0
PartOf stream index text =
    (index + length text ≤ length stream) × (text ≡ take (length text) (drop index stream))

PartOf-drop :
    (stream text : List ℕ) (index d : ℕ)
    → PartOf stream index text
    → d ≤ length text
    → take (length text - d) (drop d text) ≡ take (length text - d) (drop (index + d) stream)
PartOf-drop stream text index d (_, e) h =
    take_all (length text - d) (drop d text) (omega (arith, length-drop d text))
    ∙ ap (drop d) e
    ∙ drop-take d (length text) (drop index stream)
    ∙ ap (take (length text - d)) (drop-drop d index stream)

pub PartOf-take :
    (stream text : List ℕ) (index k : ℕ)
    → PartOf stream index text
    → PartOf stream index (take k text)
PartOf-take stream text index k (h, e) = (
  omega (arith, length-take k text),
  ap (take k) e
      ∙ take-take k (length text) (drop index stream)
      ∙ ap (λ (n : ℕ). take n (drop index stream)) (sym (length-take k text)),
)

-- A node holds a part of the stream that ends before the limit.
abbrev pub NodeFits : List ℕ → ℕ → Node → Type 0
NodeFits stream limit n = PartOf stream n.index n.text × (n.index + length n.text ≤ limit)

-- What is behind the assembled bytes in a node is what is behind them in the stream.
fresh_part-PartOf :
    (stream : List ℕ) (n : Node) (assembled : ℕ)
    → PartOf stream n.index n.text
    → n.index ≤ assembled
    → assembled < n.index + length n.text
    → length stream < 2 ^ 64
    → fresh_part n assembled ≡ take (n.index + length n.text - assembled) (drop assembled stream)
fresh_part-PartOf stream n assembled part le lt small =
    let d : ℕ = assembled - n.index in
    let skip : sub64 assembled n.index ≡ d = omega arith in
    let count : sub64 (add64 n.index (length n.text)) assembled ≡ length n.text - d = omega arith in
    let left : length n.text - d ≡ n.index + length n.text - assembled = omega arith in
    let from : n.index + d ≡ assembled = omega arith in
    ap₂ (λ (i j : ℕ). take i (drop j n.text)) count skip
    ∙ PartOf-drop stream n.text n.index d part (omega arith)
    ∙ ap₂ (λ (i j : ℕ). take i (drop j stream)) left from

-- The output holds the unread rest of the first `assembled` bytes of the stream.
pub record Delivered (stream : List ℕ) (capacity : ℕ) (out : ByteStream) (assembled : ℕ)
    : Type 0 where
  pub valid : Stream.IsValid out
  pub counted : assembled ≡ out.byte_written
  pub in_stream : out.byte_written ≤ length stream
  pub bytes : contents out ≡ take (out.byte_written - out.byte_read) (drop out.byte_read stream)
  pub same_capacity : out.capacity ≡ capacity

-- Two adjoining parts of a list make one.
take-drop-append :
    (r w k : ℕ) (xs : List ℕ)
    → r ≤ w
    → take (w - r) (drop r xs) ++ take k (drop w xs) ≡ take (w + k - r) (drop r xs)
take-drop-append r w k xs h =
    let from : r + (w - r) ≡ w = omega arith in
    let both : w - r + k ≡ w + k - r = omega arith in
    ap (λ (i : ℕ). take (w - r) (drop r xs) ++ take k (drop i xs)) (sym from)
    ∙ ap (λ (l : List ℕ). take (w - r) (drop r xs) ++ take k l) (sym (drop-drop (w - r) r xs))
    ∙ sym (take-add k (w - r) (drop r xs))
    ∙ ap (λ (i : ℕ). take i (drop r xs)) both

module _ (stream : List ℕ) (capacity : ℕ) (small : capacity + length stream < 2 ^ 64) where
  -- Writing the next bytes of the stream extends the prefix; nothing is cut off before the limit.
  Delivered-write :
      (out : ByteStream) (assembled k : ℕ)
      → Delivered stream capacity out assembled
      → assembled + k ≤ length stream
      → assembled + k ≤ capacity + out.byte_read
      → let w = write out (take k (drop assembled stream)) in
        Delivered stream capacity w.0 (assembled + k) × (w.0.byte_read ≡ out.byte_read)
  Delivered-write out assembled k d h lim =
      let text = take k (drop assembled stream) in
      let len : length text ≡ k =
        length-take k (drop assembled stream) ∙ omega (arith, length-drop assembled stream) in
      let w = write-Wrote text d.valid (omega arith) (omega arith) in
      let all : (write out text).1 ≡ k = omega (arith, w.count) in
      let size : (write out text).0.byte_written ≡ assembled + k = omega (arith, w.written) in
      (
        record {
          valid = write-IsValid text d.valid (omega arith) (omega arith);
          counted = sym size;
          in_stream = omega arith;
          bytes =
              w.bytes
              ∙ ap₂ ◌++◌ d.bytes (take_all (write out text).1 text (omega arith))
              ∙ ap (λ (i : ℕ). take (i - out.byte_read) (drop out.byte_read stream) ++ text)
                  (sym d.counted)
              ∙ take-drop-append out.byte_read assembled k stream (omega arith)
              ∙ ap₂ (λ (i j : ℕ). take (i - j) (drop j stream)) (sym size) (sym w.same_read);
          same_capacity = w.same_capacity ∙ d.same_capacity;
        },
        w.same_read,
      )

  -- One round of the loop keeps this, and reads nothing.
  abbrev pub Keeps : ℕ → Progress → Type 0
  Keeps read p = Delivered stream capacity p.out p.assembled × (p.out.byte_read ≡ read)

  take_front-Keeps :
      (n : Node) (p : Progress) (read : ℕ)
      → Keeps read p
      → NodeFits stream (capacity + read) n
      → n.index ≤ p.assembled
      → Keeps read (take_front n p)
  unfolding take_front
  take_front-Keeps n p read (d, e) (part, lim) le =
      if_both (Keeps read) (ltb p.assembled (add64 n.index (length n.text)))
        (λ t.
          let lt : p.assembled < n.index + length n.text = omega (arith, ltb→lt _ _ t) in
          let end : p.assembled + (n.index + length n.text - p.assembled)
              ≡ add64 n.index (length n.text) =
            omega arith in
          let (d', e') =
            Delivered-write p.out p.assembled (n.index + length n.text - p.assembled) d
              (omega arith) (omega arith) in
          rw (fresh_part-PartOf stream n p.assembled part le lt (omega arith), ← end) (d', e' ∙ e))
        λ _. (d, e)

  pub assemble-Keeps :
      (ns : List Node) (p : Progress) (read : ℕ)
      → Keeps read p
      → All (NodeFits stream (capacity + read)) ns
      → Keeps read (assemble ns p).0 × All (NodeFits stream (capacity + read)) (assemble ns p).1
  unfolding assemble
  assemble-Keeps [] p read k u = (k, tt)
  assemble-Keeps (n ∷ ns) p read k u =
      if_both
        (λ (o : Progress × List Node). Keeps read o.0 × All (NodeFits stream (capacity + read)) o.1)
        (leb n.index p.assembled)
        (λ le.
          assemble-Keeps ns (take_front n p) read (take_front-Keeps n p read k u.0 (leb→le _ _ le))
            u.1)
        λ _. (k, u)

  overwrite_shorter-Fits :
      (lim id index : ℕ) (text : List ℕ) (ns : List Node)
      → PartOf stream index text × (index + length text ≤ lim)
      → All (NodeFits stream lim) ns
      → All (NodeFits stream lim) (overwrite_shorter id text index ns)
  unfolding overwrite_shorter
  overwrite_shorter-Fits lim id index text [] f u = tt
  overwrite_shorter-Fits lim id index text (n ∷ ns) f u =
      if_both (All (NodeFits stream lim)) (n.id == id)
        (λ _.
          if_both (All (NodeFits stream lim)) (ltb (length n.text) (length text)) (λ _. (f, u.1))
            λ _. u)
        λ _. (u.0, overwrite_shorter-Fits lim id index text ns f u.1)

  insert_before-Fits :
      (lim id : ℕ) (new : Node) (ns : List Node)
      → NodeFits stream lim new
      → All (NodeFits stream lim) ns
      → All (NodeFits stream lim) (insert_before id new ns)
  unfolding insert_before
  insert_before-Fits lim id new [] f u = tt
  insert_before-Fits lim id new (n ∷ ns) f u =
      if_both (All (NodeFits stream lim)) (n.id == id) (λ _. (f, u))
        λ _. (u.0, insert_before-Fits lim id new ns f u.1)

  pub store_text-Fits :
      (lim index : ℕ) (text : List ℕ) (s : Store)
      → PartOf stream index text × (index + length text ≤ lim)
      → All (NodeFits stream lim) s.nodes
      → All (NodeFits stream lim) (store_text s text index).nodes
  unfolding store_text
  store_text-Fits lim index text s f u = elim (Option-cases (lower_bound s.existed index)) [
    | inl e ↦ rw (e, store_text) (All-append (NodeFits stream lim) s.nodes _ u (f, tt))
    | inr (entry, e) ↦
        rw (e, store_text)
          (if_both (λ (t : Store). All (NodeFits stream lim) t.nodes) (entry.0 == index)
            (λ _. overwrite_shorter-Fits lim entry.1 index text s.nodes f u)
            λ _. insert_before-Fits lim entry.1 _ s.nodes f u)
  ]
