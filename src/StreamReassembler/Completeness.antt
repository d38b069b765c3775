-- ===== src/StreamReassembler/Completeness.antt =====
-- Histories of pushes of the reassembler of libsponge/stream_reassembler.cc that together make up the
-- beginning of a stream.
use cs144_lab_assignment.Common.{
  ℕ, suc, ◌+◌, ◌≤◌, ◌<◌, ◌^◌, ◌≡◌, refl, ap, ◌∙◌, ◌⊎◌, inl, inr, Bool, Bool-cases, List, [], ◌∷◌,
  ◌++◌, length, take, take-take, All, ltb, ltb→lt, ltb→le, min, arith,
}
use cs144_lab_assignment.ByteStream.Valid.{contents}
use cs144_lab_assignment.StreamReassembler.{StreamReassembler, init}
use cs144_lab_assignment.StreamReassembler.Coverage.{Holds, here, later}
use cs144_lab_assignment.StreamReassembler.Pushing.{
  Covered, IsOrdered, push_substring-Extends, Ascending-lower,
}
use cs144_lab_assignment.StreamReassembler.Delivery.{IsValid, init-IsValid, capacity-push_substring}
use cs144_lab_assignment.StreamReassembler.History.{
  Event, pushes, consumes, step, run, Honest, step-IsValid, read_output, run_prefix,
}
use cs144_lab_assignment.StreamReassembler.Mirror.{Ascending}
use cs144_lab_assignment.StreamReassembler.Nodes.{Node}

-- Some push of the history has the byte at the position.
pub data Pushed (i : ℕ) : List Event → Type 0 where
  now :
      {text : List ℕ} {index : ℕ} {eof : Bool} {es : List Event}
      → index ≤ i
      → i < index + length text
      → Pushed i (pushes text index eof ∷ es)
  then : {e : Event} {es : List Event} → Pushed i es → Pushed i (e ∷ es)

-- Nodes that begin behind a position do not hold it.
not_held : (i : ℕ) (ns : List Node) → Ascending (suc i) ns → Holds i ns → i < i
not_held i [] a h = elim h [ ]
not_held i (n ∷ ns) a (here le lt) = omega (arith, a.0)
not_held i (n ∷ ns) a (later h) =
    not_held i ns (Ascending-lower (suc n.index) (suc i) ns (omega (arith, a.0)) a.1) h

-- The first byte that is not assembled has not come yet.
all_assembled :
    (r : StreamReassembler) (n : ℕ)
    → IsOrdered r
    → ((i : ℕ) → i < n → Covered r i)
    → n ≤ r.assembled_bytes
all_assembled r n o c = elim (Bool-cases (ltb r.assembled_bytes n)) [
  | inr ge ↦ ltb→le _ _ ge
  | inl lt ↦ elim (c r.assembled_bytes (ltb→lt _ _ lt)) [
    | inl less ↦ absurd (omega arith)
    | inr h ↦
        let less = not_held r.assembled_bytes r.store.nodes o.ascending h in absurd (omega arith)
  ]
]

-- An event loses no position, and adds those of a push that the capacity has room for.
pub step-Covers :
    {stream : List ℕ} {r : StreamReassembler} (e : Event) (es : List Event)
    → IsValid stream r
    → IsOrdered r
    → Honest stream e
    → IsOrdered (step r e).0
      × ((step r e).0.capacity ≡ r.capacity)
      × ((i : ℕ) → Covered r i → Covered (step r e).0 i)
      × ((i : ℕ) → i < r.capacity → Pushed i (e ∷ es) → Covered (step r e).0 i ⊎ Pushed i es)
unfolding step read_output
step-Covers {stream} {r} (pushes text index eof) es v o h =
    let x = push_substring-Extends text index eof v o h in
    (
      x.ordered,
      capacity-push_substring r text index eof,
      x.keeps,
      λ i lt p. elim p [ now ge below ↦ inl (x.adds i ge below (omega arith)) | then p' ↦ inr p' ],
    )
step-Covers (consumes len) es v o h = (o, refl, λ i c. c, λ i lt p. elim p [ then p' ↦ inr p' ])

run-Covers :
    {stream : List ℕ} (es : List Event) {r : StreamReassembler}
    → IsValid stream r
    → IsOrdered r
    → All (Honest stream) es
    → IsOrdered (run r es).0
      × ((i : ℕ) → i < r.capacity → Covered r i ⊎ Pushed i es → Covered (run r es).0 i)
unfolding run
run-Covers [] v o h = (o, λ i lt c. elim c [ inl c' ↦ c' | inr p ↦ elim p [ ] ])
run-Covers (e ∷ es) {r} v o h =
    let (o', same, keeps, adds) = step-Covers e es v o h.0 in
    let (last, covers) = run-Covers es {r = (step r e).0} (step-IsValid e v h.0).0 o' h.1 in
    (
      last,
      λ i lt c. covers i (omega arith) (elim c [ inl c' ↦ inl (keeps i c') | inr p ↦ adds i lt p ]),
    )

pub init-IsOrdered : (capacity : ℕ) → IsOrdered (init capacity)
unfolding init
init-IsOrdered capacity = record { entries = refl; ascending = tt; separate = tt; used = tt }

-- From an empty reassembler, whose capacity and the length of the stream together are below 2 ^ 64,
-- after pushes of parts of the stream, in any order and with reads between: if all the positions before
-- `n` are in some push, and `n` is within the capacity, then the first `n` bytes of the stream are
-- assembled, and they are the first that the reader got or can still read.
pub run_complete :
    (stream : List ℕ) (capacity n : ℕ) (es : List Event)
    → capacity + length stream < 2 ^ 64
    → All (Honest stream) es
    → n ≤ capacity
    → ((i : ℕ) → i < n → Pushed i es)
    → let (last, bytes) = run (init capacity) es in
      (n ≤ last.assembled_bytes) × (take n (bytes ++ contents last.output) ≡ take n stream)
run_complete stream capacity n es small honest room pushed =
    let same : (init capacity).capacity ≡ capacity = unfold init in refl in
    let (ordered, covers) =
      run-Covers es (init-IsValid stream capacity small) (init-IsOrdered capacity) honest in
    let all =
      all_assembled (run (init capacity) es).0 n ordered
        λ i lt. covers i (omega (arith, same)) (inr (pushed i lt)) in
    let least : min n (run (init capacity) es).0.assembled_bytes ≡ n = omega arith in
    (
      all,
      ap (take n) (run_prefix stream capacity es small honest)
          ∙ take-take n (run (init capacity) es).0.assembled_bytes stream
          ∙ ap (λ (k : ℕ). take k stream) least,
    )
