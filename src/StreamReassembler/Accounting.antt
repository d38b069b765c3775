-- ===== src/StreamReassembler/Accounting.antt =====
-- The free ranges of libsponge/stream_reassembler.cc with a range taken out: how many bytes are left, and
-- which positions.
use cs144_lab_assignment.Common.{
  ℕ, ◌+◌, ◌-◌, ◌≤◌, ◌<◌, ◌≡◌, refl, ◌⊎◌, inl, inr, Bool-cases, List, [], ◌∷◌, ◌++◌, ltb, leb,
  ltb→lt, ltb→le, if_both, min, All, arith,
}
use cs144_lab_assignment.StreamReassembler.Ranges.{
  Sorted, Sorted-lower, apart, pieces, subtract, overlap, from,
}
use cs144_lab_assignment.StreamReassembler.Collecting.{positions}
use cs144_lab_assignment.StreamReassembler.Segments.{Segment}

-- The number of free positions.
unfoldable pub total : List Segment → ℕ
total [] = 0
total (p ∷ ps) = p.1 - p.0 + total ps

-- A position is free.
pub data Free (i : ℕ) : List Segment → Type 0 where
  here : {p : Segment} {ps : List Segment} → p.0 ≤ i → i < p.1 → Free i (p ∷ ps)
  later : {p : Segment} {ps : List Segment} → Free i ps → Free i (p ∷ ps)

-- Free ranges in order and apart, below the largest number of a `size_t`.
abbrev pub IsFree : ℕ → List Segment → Type 0
IsFree low ps = Sorted low ps × All (λ (p : Segment). p.1 ≤ positions) ps

-- What the pieces of a range and free ranges behind them come to, by which pieces there are.
pieces_both :
    (P : List Segment → Type 0) (p : Segment) (l r : ℕ) (rest : List Segment)
    → (p.0 < l → r < p.1 → P ((p.0, l) ∷ (r, p.1) ∷ rest))
    → (p.0 < l → p.1 ≤ r → P ((p.0, l) ∷ rest))
    → (l ≤ p.0 → r < p.1 → P ((r, p.1) ∷ rest))
    → (l ≤ p.0 → p.1 ≤ r → P rest)
    → P (pieces p l r ++ rest)
pieces_both P p l r rest both left right gone = elim (Bool-cases (ltb p.0 l)) [
  | inl a ↦ elim (Bool-cases (ltb r p.1)) [
    | inl b ↦ rw (a, b) (both (ltb→lt _ _ a) (ltb→lt _ _ b))
    | inr b ↦ rw (a, b) (left (ltb→lt _ _ a) (ltb→le _ _ b))
  ]
  | inr a ↦ elim (Bool-cases (ltb r p.1)) [
    | inl b ↦ rw (a, b) (right (ltb→le _ _ a) (ltb→lt _ _ b))
    | inr b ↦ rw (a, b) (gone (ltb→le _ _ a) (ltb→le _ _ b))
  ]
]

-- Taking a range out keeps the ranges in order and apart.
pub subtract-IsFree :
    (ps : List Segment) (low l r : ℕ) → l ≤ r → IsFree low ps → IsFree low (subtract ps l r)
unfolding subtract
subtract-IsFree [] low l r h f = (tt, tt)
subtract-IsFree (p ∷ ps) low l r h ((le, lt, s), (w, ws)) =
    let (s', ws') = subtract-IsFree ps p.1 l r h (s, ws) in
    if_both (IsFree low) (apart p l r) (λ _. ((le, lt, s'), (w, ws')))
      λ meets.
        let inside : l < p.1 = ground arith in
        let before : p.0 < r = ground arith in
        pieces_both (IsFree low) p l r (subtract ps l r)
          (λ a b. ((le, a, (h, b, s')), (omega arith, (w, ws'))))
          (λ a b. ((le, a, Sorted-lower p.1 l _ (omega arith) s'), (omega arith, ws')))
          (λ a b. ((omega arith, b, s'), (w, ws')))
          λ a b. (Sorted-lower p.1 low _ (omega arith) s', ws')

-- The positions taken out are those of the range that were free.
pub total-subtract :
    (ps : List Segment) (low l r : ℕ)
    → l ≤ r
    → Sorted low ps
    → total (subtract ps l r) + overlap ps l r ≡ total ps
unfolding subtract overlap total
total-subtract [] low l r h s = refl
total-subtract (p ∷ ps) low l r h s =
    let rest = total-subtract ps p.1 l r h s.2 in
    elim (Bool-cases (apart p l r)) [
      | inl e ↦ rw (subtract, overlap, e) (omega (arith, rest))
      | inr e ↦
          let inside : l < p.1 = ground arith in
          let before : p.0 < r = ground arith in
          rw (subtract, overlap, e)
            (pieces_both
              (λ (qs : List Segment).
                total qs + (min r p.1 - from p l + overlap ps l r) ≡ p.1 - p.0 + total ps)
              p l r (subtract ps l r) (λ a b. ground (arith, rest, s.1))
              (λ a b. ground (arith, rest, s.1)) (λ a b. ground (arith, rest, s.1))
              λ a b. ground (arith, rest, s.1))
    ]

-- A position is free afterwards if it was and is not in the range, and only then.
pub Free-subtract :
    (i : ℕ) (ps : List Segment) (l r : ℕ) → Free i ps → (i < l) ⊎ (r ≤ i) → Free i (subtract ps l r)
unfolding subtract
Free-subtract i [] l r f out = elim f [ ]
Free-subtract i (p ∷ ps) l r (here le lt) out =
    if_both (Free i) (apart p l r) (λ _. here le lt)
      λ _.
        pieces_both (Free i) p l r (subtract ps l r)
          (λ a b. elim out [ inl before ↦ here le before | inr behind ↦ later (here behind lt) ])
          (λ a b. elim out [ inl before ↦ here le before | inr behind ↦ absurd (omega arith) ])
          (λ a b. elim out [ inl before ↦ absurd (omega arith) | inr behind ↦ here behind lt ])
          λ a b. elim out [ inl before ↦ absurd (omega arith) | inr behind ↦ absurd (omega arith) ]
Free-subtract i (p ∷ ps) l r (later f) out =
    let rest = Free-subtract i ps l r f out in
    if_both (Free i) (apart p l r) (λ _. later rest)
      λ _.
        pieces_both (Free i) p l r (subtract ps l r) (λ _ _. later (later rest)) (λ _ _. later rest)
          (λ _ _. later rest) λ _ _. rest

pub subtract-Free :
    (i : ℕ) (ps : List Segment) (low l r : ℕ)
    → Sorted low ps
    → l ≤ r
    → Free i (subtract ps l r)
    → Free i ps × ((i < l) ⊎ (r ≤ i))
unfolding subtract
subtract-Free i [] low l r s h = λ f. elim f [ ]
subtract-Free i (p ∷ ps) low l r s h =
    let Was : Type 0 = Free i (p ∷ ps) × ((i < l) ⊎ (r ≤ i)) in
    let tail : Free i (subtract ps l r) → Was =
      λ f. let (was, out) = subtract-Free i ps p.1 l r s.2 h f in (later was, out) in
    if_both (λ (qs : List Segment). Free i qs → Was) (apart p l r)
      (λ e f. elim f [
        | here le lt ↦ (
          here le lt,
          elim (Bool-cases (leb p.1 l)) [
            | inl before ↦ inl (ground arith)
            | inr behind ↦ inr (ground arith)
          ],
        )
        | later f' ↦ tail f'
      ])
      λ e.
        let inside : l < p.1 = ground arith in
        let before : p.0 < r = ground arith in
        pieces_both (λ (qs : List Segment). Free i qs → Was) p l r (subtract ps l r)
          (λ a b f. elim f [
            | here le lt ↦ (here le (omega arith), inl lt)
            | later f' ↦ elim f' [
              | here le lt ↦ (here (omega arith) lt, inr le)
              | later f'' ↦ tail f''
            ]
          ])
          (λ a b f. elim f [ here le lt ↦ (here le (omega arith), inl lt) | later f' ↦ tail f' ])
          (λ a b f. elim f [ here le lt ↦ (here (omega arith) lt, inr le) | later f' ↦ tail f' ])
          λ a b f. tail f

-- Free ranges from `low` on have no position before it.
pub Free_ge : (i low : ℕ) (ps : List Segment) → Sorted low ps → Free i ps → low ≤ i
Free_ge i low [] s f = elim f [ ]
Free_ge i low (p ∷ ps) s (here le lt) = omega (arith, s.0)
Free_ge i low (p ∷ ps) s (later f) = let le = Free_ge i p.1 ps s.2 f in omega (arith, s.0, s.1)
