-- ===== src/StreamReassembler/Collecting.antt =====
-- What the loop of libsponge/stream_reassembler.cc over `_used_byte` collects.
use cs144_lab_assignment.Common.{
  ℕ, ◌+◌, ◌-◌, ◌≤◌, ◌<◌, ◌^◌, ◌≡◌, refl, ap, sym, ◌∙◌, false, Bool-cases, inl, inr, List, [], ◌∷◌,
  ◌++◌, append-nil, append_assoc, ltb, leb, add64, sub64, min, All, arith,
}
use cs144_lab_assignment.StreamReassembler.Segments.{
  Segment, Changes, remove_segment, push_nonempty,
}
use cs144_lab_assignment.StreamReassembler.Ranges.{
  Sorted, apart, pieces, from, overlap, touched, all_pieces, fold,
}

push_nonempty-append :
    (xs : List Segment) (a b : ℕ) → push_nonempty xs a b ≡ xs ++ push_nonempty [] a b
push_nonempty-append xs a b = elim (Bool-cases (ltb a b)) [
  | inl e ↦ rw e refl
  | inr e ↦ rw e (sym (append-nil xs))
]

pieces-append :
    (xs : List Segment) (p : Segment) (l r : ℕ)
    → push_nonempty (push_nonempty xs p.0 l) r p.1 ≡ xs ++ pieces p l r
pieces-append xs p l r =
    push_nonempty-append (push_nonempty xs p.0 l) r p.1
    ∙ ap (λ (ys : List Segment). ys ++ push_nonempty [] r p.1) (push_nonempty-append xs p.0 l)
    ∙ append_assoc xs (push_nonempty [] p.0 l) (push_nonempty [] r p.1)
    ∙ ap (◌++◌ xs) (sym (push_nonempty-append (push_nonempty [] p.0 l) r p.1))

-- What a range that is met adds.
abbrev with_range : Segment → ℕ → ℕ → Changes → Changes
with_range p l r c = record {
  stored_bytes = c.stored_bytes + (min r p.1 - from p l);
  to_erase = c.to_erase ++ p ∷ [];
  to_insert = c.to_insert ++ pieces p l r;
}

remove_segment_lem :
    (p : Segment) (l r : ℕ) (c : Changes)
    → l ≤ r
    → p.0 < p.1
    → c.stored_bytes + (min r p.1 - from p l) < 2 ^ 64
    → p.1 < 2 ^ 64
    → apart p l r ≡ false
    → remove_segment p l r c ≡ with_range p l r c
unfolding remove_segment
remove_segment_lem p l r c h lt small wide meets = elim (Bool-cases (leb p.0 l)) [
  | inl e ↦
      let count : add64 c.stored_bytes (sub64 (min r p.1) l) ≡ c.stored_bytes + (min r p.1 - l) =
        ground arith in
      rw (meets, e, count, pieces-append c.to_insert p l r) refl
  | inr e ↦
      let count : add64 c.stored_bytes (sub64 (min r p.1) p.0)
          ≡ c.stored_bytes + (min r p.1 - p.0) =
        ground arith in
      let none_left : ltb p.0 l ≡ false = ground arith in
      rw (meets, e, count, none_left, push_nonempty-append c.to_insert r p.1) refl
]

-- Free ranges end before this, the last position that a `size_t` can hold.
abbrev pub positions : ℕ
positions = 2 ^ 64 - 1

abbrev pub changes : ℕ → List Segment → List Segment → Changes
changes stored es is = record { stored_bytes = stored; to_erase = es; to_insert = is }

changes-eq :
    {s s' : ℕ} {es es' is is' : List Segment}
    → s ≡ s'
    → es ≡ es'
    → is ≡ is'
    → changes s es is ≡ changes s' es' is'
changes-eq {s} {s'} {es} {es'} {is} {is'} a b c =
    ap (λ (x : ℕ). changes x es is) a
    ∙ ap (λ (x : List Segment). changes s' x is) b
    ∙ ap (changes s' es') c

-- What the loop collects.
pub fold-collects :
    (ps : List Segment) (low l r : ℕ) (c : Changes)
    → Sorted low ps
    → All (λ (p : Segment). p.1 ≤ positions) ps
    → l ≤ r
    → c.stored_bytes + overlap ps l r < 2 ^ 64
    → fold ps l r c ≡ record {
      stored_bytes = c.stored_bytes + overlap ps l r;
      to_erase = c.to_erase ++ touched ps l r;
      to_insert = c.to_insert ++ all_pieces ps l r;
    }
unfolding fold overlap touched all_pieces
fold-collects [] low l r c s wide h =
    λ small. changes-eq (omega arith) (sym (append-nil c.to_erase)) (sym (append-nil c.to_insert))
fold-collects (p ∷ ps) low l r c s wide h = elim (Bool-cases (apart p l r)) [
  | inl e ↦
      let skip : remove_segment p l r c ≡ c = unfold remove_segment in ground arith in
      rw (overlap, touched, all_pieces, e, skip)
        λ small. fold-collects ps p.1 l r c s.2 wide.1 h small
  | inr e ↦
      rw (overlap, touched, all_pieces, e)
        λ small.
          let step = remove_segment_lem p l r c h s.1 (omega arith) (omega (arith, wide.0)) e in
          let rest = fold-collects ps p.1 l r (with_range p l r c) s.2 wide.1 h (omega arith) in
          ap (fold ps l r) step
          ∙ rest
          ∙ changes-eq (omega arith) (append_assoc c.to_erase (p ∷ []) (touched ps l r))
              (append_assoc c.to_insert (pieces p l r) (all_pieces ps l r))
]
