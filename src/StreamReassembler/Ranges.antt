-- ===== src/StreamReassembler/Ranges.antt =====
-- What the set `_used_byte` of libsponge/stream_reassembler.cc is for: the ranges that are free, in order
-- and apart, from which each stored range is taken out.
use cs144_lab_assignment.Common.{
  ℕ, zero, suc, ◌+◌, ◌-◌, ◌≤◌, ◌<◌, ◌≡◌, refl, ap, sym, ◌∙◌, true, false, Bool, Bool-cases, inl,
  inr, List, [], ◌∷◌, ◌++◌, leb, ◌==◌, ◌||◌, if◌then◌else◌, if_both, min, drop, arith,
}
use cs144_lab_assignment.StreamReassembler.Segments.{
  Segment, Changes, less, lower_bound, remove_segment, push_nonempty, scan, first_touched,
}

-- The ranges are not empty, in order and apart, from `low` on.
abbrev pub Sorted : ℕ → List Segment → Type 0
Sorted low [] = Unit {0}
Sorted low (p ∷ ps) = (low ≤ p.0) × (p.0 < p.1) × Sorted p.1 ps

-- Whether the range from `l` up to `r` leaves a free range as it is.
abbrev pub apart : Segment → ℕ → ℕ → Bool
apart p l r = leb p.1 l || leb r p.0

-- What is left of a free range that meets the range from `l` up to `r`.
abbrev pub pieces : Segment → ℕ → ℕ → List Segment
pieces p l r = push_nonempty (push_nonempty [] p.0 l) r p.1

-- The free ranges with the range taken out.
unfoldable pub subtract : List Segment → ℕ → ℕ → List Segment
subtract [] l r = []
subtract (p ∷ ps) l r =
    let rest = subtract ps l r in if apart p l r then p ∷ rest else pieces p l r ++ rest

-- Where the part of a free range that is taken begins.
abbrev pub from : Segment → ℕ → ℕ
from p l = if leb p.0 l then l else p.0

-- The bytes of the range that were free.
unfoldable pub overlap : List Segment → ℕ → ℕ → ℕ
overlap [] l r = 0
overlap (p ∷ ps) l r =
    let rest = overlap ps l r in if apart p l r then rest else min r p.1 - from p l + rest

-- The free ranges that meet the range, those that do not, and the pieces of the first.
unfoldable pub touched : List Segment → ℕ → ℕ → List Segment
touched [] l r = []
touched (p ∷ ps) l r = let rest = touched ps l r in if apart p l r then rest else p ∷ rest

unfoldable pub untouched : List Segment → ℕ → ℕ → List Segment
untouched [] l r = []
untouched (p ∷ ps) l r = let rest = untouched ps l r in if apart p l r then p ∷ rest else rest

unfoldable pub all_pieces : List Segment → ℕ → ℕ → List Segment
all_pieces [] l r = []
all_pieces (p ∷ ps) l r =
    let rest = all_pieces ps l r in if apart p l r then rest else pieces p l r ++ rest

-- The loop without its bounds.
unfoldable pub fold : List Segment → ℕ → ℕ → Changes → Changes
fold [] l r c = c
fold (p ∷ ps) l r c = fold ps l r (remove_segment p l r c)

-- Ranges from `r` on are left alone.
fold_behind :
    (ps : List Segment) (low l r : ℕ) (c : Changes) → Sorted low ps → r ≤ low → fold ps l r c ≡ c
unfolding fold
fold_behind [] low l r c s h = refl
fold_behind (p ∷ ps) low l r c s h =
    let skip : remove_segment p l r c ≡ c = unfold remove_segment in ground (arith, s.0) in
    ap (fold ps l r) skip ∙ fold_behind ps p.1 l r c s.2 (omega (arith, s.0, s.1))

-- The loop may go on behind its last position.
scan-fold :
    (ps : List Segment) (low at l r : ℕ) (c : Changes)
    → Sorted low ps
    → scan at (at + lower_bound ps (r, r)) l r ps c ≡ fold ps l r c
unfolding scan lower_bound fold
scan-fold [] low at l r c s = refl
scan-fold (p ∷ ps) low at l r c s = elim (Bool-cases (less p (r, r))) [
  | inl before ↦
      let further : at == at + suc (lower_bound ps (r, r)) ≡ false = ground arith in
      let shift : at + suc (lower_bound ps (r, r)) ≡ suc at + lower_bound ps (r, r) = omega arith in
      rw (lower_bound, before, scan, further, shift)
        (scan-fold ps p.1 (suc at) l r (remove_segment p l r c) s.2)
  | inr behind ↦
      let le : r ≤ p.0 = ground (arith) in
      let here : at == at + 0 ≡ true = ground arith in
      rw (lower_bound, behind, scan, here)
        (sym (fold_behind ps p.1 l r (remove_segment p l r c) s.2 (omega (arith, s.1))))
]

lower_bound-drop :
    (k : ℕ) (ps : List Segment) (q : Segment)
    → k ≤ lower_bound ps q
    → lower_bound ps q ≡ k + lower_bound (drop k ps) q
unfolding lower_bound
lower_bound-drop zero ps q = λ h. omega arith
lower_bound-drop (suc k) [] q = λ h. absurd (omega arith)
lower_bound-drop (suc k) (p ∷ ps) q =
    if_both (λ (n : ℕ). suc k ≤ n → n ≡ suc k + lower_bound (drop k ps) q) (less p q)
      (λ _ h. omega (arith, lower_bound-drop k ps q (omega arith))) λ _ h. omega arith

lower_bound_mono :
    (ps : List Segment) (l r : ℕ) → l ≤ r → lower_bound ps (l, l) ≤ lower_bound ps (r, r)
unfolding lower_bound
lower_bound_mono [] l r h = omega arith
lower_bound_mono (p ∷ ps) l r h = ground (arith, lower_bound_mono ps l r h)

pub Sorted-lower : (low low' : ℕ) (ps : List Segment) → low' ≤ low → Sorted low ps → Sorted low' ps
Sorted-lower low low' [] h s = tt
Sorted-lower low low' (p ∷ ps) h s = (omega (arith, s.0), s.1, s.2)

Sorted-drop : (k low : ℕ) (ps : List Segment) → Sorted low ps → Sorted low (drop k ps)
Sorted-drop zero low ps s = s
Sorted-drop (suc k) low [] s = s
Sorted-drop (suc k) low (p ∷ ps) s =
    Sorted-drop k low ps (Sorted-lower p.1 low ps (omega (arith, s.0, s.1)) s.2)

-- The loop may begin at the front.
fold-drop :
    (ps : List Segment) (low l r : ℕ) (c : Changes)
    → Sorted low ps
    → fold (drop (first_touched ps l) ps) l r c ≡ fold ps l r c
unfolding lower_bound fold
fold-drop [] low l r c s = refl
fold-drop (p ∷ []) low l r c s = elim (Bool-cases (less p (l, l))) [
  | inl before ↦ rw (lower_bound, before) refl
  | inr behind ↦ rw (lower_bound, behind) refl
]
fold-drop (p ∷ q ∷ qs) low l r c s = elim (Bool-cases (less p (l, l))) [
  | inr behind ↦ rw (lower_bound, behind) refl
  | inl before ↦ elim (Bool-cases (less q (l, l))) [
    | inr behind ↦ rw (lower_bound, before, behind) refl
    | inl both ↦
        let le : q.0 ≤ l = ground arith in
        let skip : remove_segment p l r c ≡ c =
          unfold remove_segment in ground (arith, s.1, s.2.0) in
        let rest = fold-drop (q ∷ qs) p.1 l r c s.2 in
        let k = lower_bound qs (l, l) in
        let inner : first_touched (q ∷ qs) l ≡ k = ground arith in
        let outer : first_touched (p ∷ q ∷ qs) l ≡ suc k = ground arith in
        ap (λ (n : ℕ). fold (drop n (p ∷ q ∷ qs)) l r c) outer
        ∙ ap (λ (n : ℕ). fold (drop n (q ∷ qs)) l r c) (sym inner)
        ∙ rest
        ∙ ap (λ (d : Changes). fold qs l r (remove_segment q l r d)) (sym skip)
  ]
]

-- The loop of `push_substring` is one over all the free ranges.
pub scan_all :
    (ps : List Segment) (l r : ℕ) (c : Changes)
    → Sorted 0 ps
    → l ≤ r
    → scan (first_touched ps l) (lower_bound ps (r, r)) l r (drop (first_touched ps l) ps) c
      ≡ fold ps l r c
scan_all ps l r c s h =
    let at = first_touched ps l in
    let le : at ≤ lower_bound ps (r, r) = ground (arith, lower_bound_mono ps l r h) in
    ap (λ (k : ℕ). scan at k l r (drop at ps) c) (lower_bound-drop at ps (r, r) le)
    ∙ scan-fold (drop at ps) 0 at l r c (Sorted-drop at 0 ps s)
    ∙ fold-drop ps 0 l r c s
