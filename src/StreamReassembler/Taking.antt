-- ===== src/StreamReassembler/Taking.antt =====
-- The set operations of libsponge/stream_reassembler.cc on `_used_byte`, as a subtraction of ranges.
use cs144_lab_assignment.Common.{
  ℕ, ◌+◌, ◌≤◌, ◌<◌, ◌^◌, ◌≡◌, refl, ap, ◌∙◌, true, false, Bool-cases, inl, inr, List, [], ◌∷◌, ltb,
  ltb→lt, if_both, All, All-append, All-map, arith,
}
use cs144_lab_assignment.StreamReassembler.Segments.{
  Segment, Changes, less, same, insert, erase, erase_all, insert_all, store_range,
}
use cs144_lab_assignment.StreamReassembler.Ranges.{
  Sorted, apart, pieces, subtract, overlap, touched, untouched, all_pieces, Sorted-lower, scan_all,
}
use cs144_lab_assignment.StreamReassembler.Collecting.{positions, changes, fold-collects}

-- Inserting in front of what is behind.
insert_front :
    (q : Segment) (low : ℕ) (ps : List Segment) → Sorted low ps → q.0 < low → insert q ps ≡ q ∷ ps
unfolding insert
insert_front q low [] s h = refl
insert_front q low (p ∷ ps) s h =
    let a : less p q ≡ false = ground (arith, s.0) in
    let b : same p q ≡ false = ground (arith, s.0) in rw (a, b) refl

-- Ranges behind a front one are inserted and erased behind it.
insert_all_behind :
    (qs : List Segment) (p : Segment) (ps : List Segment)
    → All (λ (q : Segment). p.0 < q.0) qs
    → insert_all qs (p ∷ ps) ≡ p ∷ insert_all qs ps
unfolding insert_all insert
insert_all_behind [] p ps a = refl
insert_all_behind (q ∷ qs) p ps a =
    let e : less p q ≡ true = ground (arith, a.0) in rw e (insert_all_behind qs p (insert q ps) a.1)

erase_all_behind :
    (qs : List Segment) (p : Segment) (ps : List Segment)
    → All (λ (q : Segment). p.0 < q.0) qs
    → erase_all qs (p ∷ ps) ≡ p ∷ erase_all qs ps
unfolding erase_all erase
erase_all_behind [] p ps a = refl
erase_all_behind (q ∷ qs) p ps a =
    let e : same p q ≡ false = ground (arith, a.0) in rw e (erase_all_behind qs p (erase q ps) a.1)

abbrev Above : ℕ → List Segment → Type 0
Above low ps = All (λ (q : Segment). low ≤ q.0) ps

touched-Above : (ps : List Segment) (low l r : ℕ) → Sorted low ps → Above low (touched ps l r)
unfolding touched
touched-Above [] low l r s = tt
touched-Above (p ∷ ps) low l r s =
    let rest = touched-Above ps low l r (Sorted-lower p.1 low ps (omega (arith, s.0, s.1)) s.2) in
    if_both (Above low) (apart p l r) (λ _. rest) λ _. (s.0, rest)

all_pieces-Above : (ps : List Segment) (low l r : ℕ) → Sorted low ps → Above low (all_pieces ps l r)
unfolding all_pieces
all_pieces-Above [] low l r s = tt
all_pieces-Above (p ∷ ps) low l r s =
    let rest =
      all_pieces-Above ps low l r (Sorted-lower p.1 low ps (omega (arith, s.0, s.1)) s.2) in
    if_both (Above low) (apart p l r) (λ _. rest)
      λ meets.
        let lt : p.0 < r = ground arith in
        All-append (λ (q : Segment). low ≤ q.0) (pieces p l r) (all_pieces ps l r)
          (elim (Bool-cases (ltb p.0 l)) [
            | inl a ↦ elim (Bool-cases (ltb r p.1)) [
              | inl b ↦ rw (a, b) (s.0, (omega (arith, s.0), tt))
              | inr b ↦ rw (a, b) (s.0, tt)
            ]
            | inr a ↦ elim (Bool-cases (ltb r p.1)) [
              | inl b ↦ rw (a, b) (omega (arith, s.0), tt)
              | inr b ↦ rw (a, b) tt
            ]
          ])
          rest

Sorted-untouched : (ps : List Segment) (low l r : ℕ) → Sorted low ps → Sorted low (untouched ps l r)
unfolding untouched
Sorted-untouched [] low l r s = tt
Sorted-untouched (p ∷ ps) low l r s =
    if_both (Sorted low) (apart p l r) (λ _. (s.0, s.1, Sorted-untouched ps p.1 l r s.2))
      λ _. Sorted-untouched ps low l r (Sorted-lower p.1 low ps (omega (arith, s.0, s.1)) s.2)

Above-behind :
    (low a : ℕ) (qs : List Segment) → a < low → Above low qs → All (λ (q : Segment). a < q.0) qs
Above-behind low a qs lt u =
    All-map {Q = λ (q : Segment). a < q.0} (λ (q : Segment) (le : low ≤ q.0). omega arith) qs u

erase_all-touched :
    (ps : List Segment) (low l r : ℕ)
    → Sorted low ps
    → erase_all (touched ps l r) ps ≡ untouched ps l r
unfolding touched untouched erase_all
erase_all-touched [] low l r s = refl
erase_all-touched (p ∷ ps) low l r s =
    let rest = erase_all-touched ps p.1 l r s.2 in
    elim (Bool-cases (apart p l r)) [
      | inl e ↦
          rw (touched, untouched, e)
            (erase_all_behind (touched ps l r) p ps
                (Above-behind p.1 p.0 _ s.1 (touched-Above ps p.1 l r s.2))
              ∙ ap (◌∷◌ p) rest)
      | inr e ↦
          let here : erase p (p ∷ ps) ≡ ps = unfold erase in ground arith in
          rw (touched, untouched, e) (ap (erase_all (touched ps l r)) here ∙ rest)
    ]

-- Inserting a range and then others behind it, in front of what is behind it too.
insert_one :
    (q : Segment) (qs : List Segment) (low : ℕ) (ps : List Segment)
    → Sorted low ps
    → q.0 < low
    → All (λ (x : Segment). q.0 < x.0) qs
    → insert_all (q ∷ qs) ps ≡ q ∷ insert_all qs ps
unfolding insert_all
insert_one q qs low ps s lt a =
    ap (insert_all qs) (insert_front q low ps s lt) ∙ insert_all_behind qs q ps a

insert_all-pieces :
    (ps : List Segment) (low l r : ℕ)
    → Sorted low ps
    → l ≤ r
    → insert_all (all_pieces ps l r) (untouched ps l r) ≡ subtract ps l r
unfolding all_pieces untouched subtract insert_all
insert_all-pieces [] low l r s h = refl
insert_all-pieces (p ∷ ps) low l r s h =
    let rest = insert_all-pieces ps p.1 l r s.2 h in
    let qs = all_pieces ps l r in
    let u = untouched ps l r in
    let above = all_pieces-Above ps p.1 l r s.2 in
    let left = Sorted-untouched ps p.1 l r s.2 in
    elim (Bool-cases (apart p l r)) [
      | inl e ↦
          rw (all_pieces, untouched, subtract, e)
            (insert_all_behind qs p u (Above-behind p.1 p.0 qs s.1 above) ∙ ap (◌∷◌ p) rest)
      | inr e ↦
          let lt : p.0 < r = ground arith in
          elim (Bool-cases (ltb r p.1)) [
            | inl b ↦
                let right : insert_all ((r, p.1) ∷ qs) u ≡ (r, p.1) ∷ subtract ps l r =
                  insert_one (r, p.1) qs p.1 u left (ltb→lt _ _ b)
                    (Above-behind p.1 r qs (ltb→lt _ _ b) above)
                  ∙ ap (◌∷◌ (r, p.1)) rest in
                elim (Bool-cases (ltb p.0 l)) [
                  | inl a ↦
                      rw (all_pieces, untouched, subtract, e, a, b)
                        (insert_one (p.0, l) ((r, p.1) ∷ qs) p.1 u left s.1
                            (lt, Above-behind p.1 p.0 qs s.1 above)
                          ∙ ap (◌∷◌ (p.0, l)) right)
                  | inr a ↦ rw (all_pieces, untouched, subtract, e, a, b) right
                ]
            | inr b ↦ elim (Bool-cases (ltb p.0 l)) [
              | inl a ↦
                  rw (all_pieces, untouched, subtract, e, a, b)
                    (insert_one (p.0, l) qs p.1 u left s.1 (Above-behind p.1 p.0 qs s.1 above)
                      ∙ ap (◌∷◌ (p.0, l)) rest)
              | inr a ↦ rw (all_pieces, untouched, subtract, e, a, b) rest
            ]
          ]
    ]

-- `store_range` takes the range out of the free ranges, and adds to the bytes stored those of the range
-- that were free.
pub store_range_lem :
    (stored : ℕ) (ps : List Segment) (l r : ℕ)
    → Sorted 0 ps
    → All (λ (p : Segment). p.1 ≤ positions) ps
    → l ≤ r
    → stored + overlap ps l r < 2 ^ 64
    → store_range stored ps l r ≡ (stored + overlap ps l r, subtract ps l r)
unfolding store_range
store_range_lem stored ps l r s wide h small =
    let c : Changes = changes stored [] [] in
    let all = scan_all ps l r c s h ∙ fold-collects ps 0 l r c s wide h small in
    ap (λ (d : Changes). (d.stored_bytes, insert_all d.to_insert (erase_all d.to_erase ps))) all
    ∙ ap (λ (left : List Segment). (stored + overlap ps l r, insert_all (all_pieces ps l r) left))
        (erase_all-touched ps 0 l r s)
    ∙ ap (λ (left : List Segment). (stored + overlap ps l r, left)) (insert_all-pieces ps 0 l r s h)
