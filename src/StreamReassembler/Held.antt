-- ===== src/StreamReassembler/Held.antt =====
-- How many positions the nodes of the list `_str_to_assemble` of libsponge/stream_reassembler.cc hold.
use Prim.{¬◌}
use cs144_lab_assignment.Common.{
  ℕ, zero, suc, ◌+◌, ◌-◌, ◌≤◌, ◌<◌, ◌≡◌, refl, ap, ◌∙◌, ◌⊎◌, inl, inr, true, false, Bool,
  Bool-cases, ◌&&◌, ◌||◌, List, [], ◌∷◌, length, ltb, leb, to_nat, arith,
}
use cs144_lab_assignment.StreamReassembler.Accounting.{total, Free, here, later, IsFree, Free_ge}
use cs144_lab_assignment.StreamReassembler.Collecting.{positions}
use cs144_lab_assignment.StreamReassembler.Coverage.{Holds}
use cs144_lab_assignment.StreamReassembler.Coverage
use cs144_lab_assignment.StreamReassembler.Nodes.{Node}
use cs144_lab_assignment.StreamReassembler.Segments.{Segment}

-- Whether the text of some node has the position.
unfoldable pub is_held : List Node → ℕ → Bool
is_held [] i = false
is_held (n ∷ ns) i = leb n.index i && ltb i (n.index + length n.text) || is_held ns i

-- The number of positions that some node has, among the `k` from `start` on.
unfoldable pub count_held : List Node → ℕ → ℕ → ℕ
count_held ns start zero = 0
count_held ns start (suc k) = to_nat (is_held ns start) + count_held ns (suc start) k

is_held-Holds : (ns : List Node) (i : ℕ) → is_held ns i ≡ true → Holds i ns
unfolding is_held
is_held-Holds [] i h = ground arith
is_held-Holds (n ∷ ns) i h = elim (Bool-cases (leb n.index i && ltb i (n.index + length n.text))) [
  | inl e ↦ Coverage.here (ground arith) (ground arith)
  | inr e ↦ Coverage.later (is_held-Holds ns i (ground arith))
]

Holds-is_held : (ns : List Node) (i : ℕ) → Holds i ns → is_held ns i ≡ true
unfolding is_held
Holds-is_held [] i h = elim h [ ]
Holds-is_held (n ∷ ns) i (Coverage.here le lt) = ground arith
Holds-is_held (n ∷ ns) i (Coverage.later h) = ground (arith, Holds-is_held ns i h)

pub count_held-add :
    (ns : List Node) (start m k : ℕ)
    → count_held ns start (m + k) ≡ count_held ns start m + count_held ns (start + m) k
unfolding count_held
count_held-add ns start zero k =
    let sum : 0 + k ≡ k = omega arith in
    let at : start + 0 ≡ start = omega arith in
    omega (arith, ap (count_held ns start) sum, ap (λ (a : ℕ). count_held ns a k) at)
count_held-add ns start (suc m) k =
    let sum : suc m + k ≡ suc (m + k) = omega arith in
    let at : start + suc m ≡ suc start + m = omega arith in
    let rest = count_held-add ns (suc start) m k in
    omega (arith, ap (count_held ns start) sum, ap (λ (a : ℕ). count_held ns a k) at, rest)

count_held_all :
    (ns : List Node) (start k : ℕ)
    → ((i : ℕ) → start ≤ i → i < start + k → Holds i ns)
    → count_held ns start k ≡ k
unfolding count_held
count_held_all ns start zero h = refl
count_held_all ns start (suc k) h =
    let first = Holds-is_held ns start (h start (omega arith) (omega arith)) in
    let rest = count_held_all ns (suc start) k λ i ge lt. h i (omega arith) (omega arith) in
    rw first (omega (arith, rest))

pub count_held_none :
    (ns : List Node) (start k : ℕ)
    → ((i : ℕ) → start ≤ i → i < start + k → ¬ (Holds i ns))
    → count_held ns start k ≡ 0
unfolding count_held
count_held_none ns start zero h = refl
count_held_none ns start (suc k) h =
    let rest = count_held_none ns (suc start) k λ i ge lt. h i (omega arith) (omega arith) in
    elim (Bool-cases (is_held ns start)) [
      | inl e ↦ absurd (h start (omega arith) (omega arith) (is_held-Holds ns start e))
      | inr e ↦ rw e (omega (arith, rest))
    ]

-- Where each position from `low` on is free or held, and not both, the free and the held ones are all
-- the positions.
pub count_held-total :
    (ns : List Node) (ps : List Segment) (low : ℕ)
    → low ≤ positions
    → IsFree low ps
    → ((i : ℕ) → Free i ps → ¬ (Holds i ns))
    → ((i : ℕ) → low ≤ i → i < positions → Free i ps ⊎ Holds i ns)
    → count_held ns low (positions - low) + total ps ≡ positions - low
unfolding total
count_held-total ns [] low h f none_twice all =
    let every =
      count_held_all ns low (positions - low)
        λ i ge lt. elim (all i ge (omega arith)) [ inl f' ↦ elim f' [ ] | inr h' ↦ h' ] in
    omega (arith, every)
count_held-total ns (p ∷ ps) low h ((le, lt, s), (w, ws)) none_twice all =
    let before : count_held ns low (p.0 - low) ≡ p.0 - low =
      count_held_all ns low (p.0 - low) λ i ge lt'. elim (all i ge (omega arith)) [
        | inr h' ↦ h'
        | inl (here le' lt'') ↦ absurd (omega arith)
        | inl (later f) ↦ let ge' = Free_ge i p.1 ps s f in absurd (omega arith)
      ] in
    let inside : count_held ns p.0 (p.1 - p.0) ≡ 0 =
      count_held_none ns p.0 (p.1 - p.0) λ i ge lt'. none_twice i (here ge (omega arith)) in
    let rest =
      count_held-total ns ps p.1 w (s, ws) (λ i f. none_twice i (later f))
        λ i ge small. elim (all i (omega arith) small) [
          | inr h' ↦ inr h'
          | inl (here le' lt'') ↦ absurd (omega arith)
          | inl (later f) ↦ inl f
        ] in
    let outer : positions - low ≡ (p.0 - low) + ((p.1 - p.0) + (positions - p.1)) = omega arith in
    let a : low + (p.0 - low) ≡ p.0 = omega arith in
    let b : p.0 + (p.1 - p.0) ≡ p.1 = omega arith in
    let first =
      ap (count_held ns low) outer
      ∙ count_held-add ns low (p.0 - low) ((p.1 - p.0) + (positions - p.1)) in
    let second =
      ap (λ (i : ℕ). count_held ns i ((p.1 - p.0) + (positions - p.1))) a
      ∙ count_held-add ns p.0 (p.1 - p.0) (positions - p.1) in
    let third = ap (λ (i : ℕ). count_held ns i (positions - p.1)) b in
    omega (arith, first, second, third, before, inside, rest)
