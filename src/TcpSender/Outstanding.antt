-- ===== src/TcpSender/Outstanding.antt =====
-- The set `_outstanding_segment` of libsponge/tcp_sender.cc as a chain of segments.
use cs144_lab_assignment.Common.{
  ℕ, ◌+◌, ◌-◌, ◌≤◌, ◌<◌, ◌^◌, ◌≡◌, refl, ap, sym, false, List, [], ◌∷◌, leb, leb→le, leb→lt,
  if_both, add64, sub64, arith, lt→ltb,
}
use cs144_lab_assignment.TcpSegment.{TcpSegment, length_in_sequence_space}
use cs144_lab_assignment.TcpSender.{Outstanding, insert, pop_acked, is_empty}

-- The segments occupy the sequence numbers from `a` up to `b`, each at least one.
abbrev pub Chain : ℕ → List Outstanding → ℕ → Type 0
Chain a [] b = a ≡ b
Chain a (o ∷ os) b =
    (o.0 ≡ a) × (0 < length_in_sequence_space o.1) × Chain (a + length_in_sequence_space o.1) os b

-- The front segment is not acknowledged in full.
abbrev pub FrontOpen : ℕ → List Outstanding → Type 0
FrontOpen ackno [] = Unit {0}
FrontOpen ackno (o ∷ os) = ackno < o.0 + length_in_sequence_space o.1

pub Chain-at :
    {a a' b b' : ℕ} {os os' : List Outstanding}
    → a ≡ a'
    → os ≡ os'
    → b ≡ b'
    → Chain a' os' b'
    → Chain a os b
Chain-at p q r c = rw (p, q, r) c

pub FrontOpen-at :
    {n n' : ℕ} {os os' : List Outstanding} → n ≡ n' → os ≡ os' → FrontOpen n' os' → FrontOpen n os
FrontOpen-at p q f = rw (p, q) f

Chain-le : (a b : ℕ) (os : List Outstanding) → Chain a os b → a ≤ b
Chain-le a b [] c = omega arith
Chain-le a b (o ∷ os) (i, pos, c) =
    omega (arith, Chain-le (a + length_in_sequence_space o.1) b os c)

-- A chain that takes no sequence numbers has no segments.
pub Chain-empty : (a : ℕ) (os : List Outstanding) → Chain a os a → os ≡ []
Chain-empty a [] c = refl
Chain-empty a (o ∷ os) (i, p, c) =
    let le = Chain-le (a + length_in_sequence_space o.1) a os c in absurd (omega arith)

-- A new segment at the end of the chain goes to the end of the set.
pub insert-Chain :
    (a b : ℕ) (seg : TcpSegment) (os : List Outstanding)
    → Chain a os b
    → 0 < length_in_sequence_space seg
    → Chain a (insert (b, seg) os) (b + length_in_sequence_space seg)
unfolding insert
insert-Chain a b seg [] c pos = (sym c, pos, ap (λ (k : ℕ). k + length_in_sequence_space seg) c)
insert-Chain a b seg (o ∷ os) (i, p, c) pos =
    let le = Chain-le (a + length_in_sequence_space o.1) b os c in
    rw (lt→ltb o.0 b (omega arith))
      (i, p, insert-Chain (a + length_in_sequence_space o.1) b seg os c pos)

pub insert-FrontOpen :
    (a b ackno : ℕ) (seg : TcpSegment) (os : List Outstanding)
    → Chain a os b
    → ackno < b + length_in_sequence_space seg
    → FrontOpen ackno os
    → FrontOpen ackno (insert (b, seg) os)
unfolding insert
insert-FrontOpen a b ackno seg [] c lt f = lt
insert-FrontOpen a b ackno seg (o ∷ os) (i, p, c) lt f =
    let le = Chain-le (a + length_in_sequence_space o.1) b os c in rw (lt→ltb o.0 b (omega arith)) f

pub is_empty-insert : (o : Outstanding) (os : List Outstanding) → is_empty (insert o os) ≡ false
unfolding insert
is_empty-insert o [] = refl
is_empty-insert o (p ∷ os) = ground arith

-- What is left after an acknowledgment: the end of the chain, whose front is open, and its length.
abbrev pub Left : ℕ → ℕ → ℕ × List Outstanding → Type 0
Left b ackno (flight, os) =
    (flight ≤ b) × Chain (b - flight) os b × (b - flight ≤ ackno) × FrontOpen ackno os

pub pop_acked-Left :
    (a b ackno flight : ℕ) (os : List Outstanding)
    → Chain a os b
    → flight + a ≡ b
    → a ≤ ackno
    → b < 2 ^ 64
    → Left b ackno (pop_acked ackno flight os)
unfolding pop_acked
pop_acked-Left a b ackno flight [] c e le small = (omega arith, omega arith, omega arith, tt)
pop_acked-Left a b ackno flight (o ∷ os) (i, p, c) e le small =
    let n = length_in_sequence_space o.1 in
    let more = Chain-le (a + n) b os c in
    let start : b - flight ≡ a = omega arith in
    let fl : sub64 flight n ≡ flight - n = omega arith in
    if_both (Left b ackno) (leb (add64 o.0 n) ackno)
      (λ t.
        let done : add64 o.0 n ≤ ackno = leb→le _ _ t in
        pop_acked-Left (a + n) b ackno (sub64 flight n) os c (omega arith) (omega arith) small)
      λ t.
        let open' : ackno < add64 o.0 n = leb→lt _ _ t in
        (omega arith, rw start (i, p, c), omega arith, omega arith)
