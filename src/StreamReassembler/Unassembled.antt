-- ===== src/StreamReassembler/Unassembled.antt =====
-- `unassembled_bytes` of libsponge/stream_reassembler.cc after a history of pushes and reads.
use Prim.{¬◌}
use cs144_lab_assignment.Common.{
  ◌∙◌, ap, ◌-◌, ℕ, ◌+◌, ◌<◌, ◌≤◌, ◌^◌, ◌≡◌, inl, inr, Bool-cases, List, [], ◌∷◌, length, ltb,
  ltb→lt, ltb→le, All, arith,
}
use cs144_lab_assignment.StreamReassembler.{StreamReassembler, init, unassembled_bytes}
use cs144_lab_assignment.StreamReassembler.Accounting.{total, Free, here, IsFree}
use cs144_lab_assignment.StreamReassembler.Held.{
  count_held, count_held-total, count_held-add, count_held_none,
}
use cs144_lab_assignment.StreamReassembler.Completeness.{step-Covers, init-IsOrdered}
use cs144_lab_assignment.StreamReassembler.Counting.{Accounts, push_substring-Accounts}
use cs144_lab_assignment.StreamReassembler.Collecting.{positions}
use cs144_lab_assignment.StreamReassembler.Coverage.{Holds}
use cs144_lab_assignment.StreamReassembler.Coverage
use cs144_lab_assignment.StreamReassembler.Delivery.{IsValid, init-IsValid}
use cs144_lab_assignment.StreamReassembler.History.{
  Event, pushes, consumes, step, run, Honest, step-IsValid, read_output,
}
use cs144_lab_assignment.StreamReassembler.Nodes.{Node}
use cs144_lab_assignment.StreamReassembler.Prefix.{NodeFits}
use cs144_lab_assignment.StreamReassembler.Pushing.{IsOrdered}
use cs144_lab_assignment.StreamReassembler.Ranges.{Sorted}
use cs144_lab_assignment.StreamReassembler.Segments.{Segment}

init-Accounts : (capacity : ℕ) → Accounts (init capacity)
unfolding init total
init-Accounts capacity = record {
  free = ((omega arith, omega arith, tt), (omega arith, tt));
  counted = omega arith;
  none_twice = λ i f c. elim c [ inl lt ↦ absurd (omega arith) | inr h ↦ elim h [ ] ];
  all = λ i lt. inl (here (omega arith) lt);
}

step-Accounts :
    {stream : List ℕ} {r : StreamReassembler} (e : Event)
    → IsValid stream r
    → IsOrdered r
    → Honest stream e
    → Accounts r
    → Accounts (step r e).0
unfolding step read_output
step-Accounts (pushes text index eof) v o h a = push_substring-Accounts text index eof v o h a
step-Accounts (consumes len) v o h a = record {
  free = a.free;
  counted = a.counted;
  none_twice = a.none_twice;
  all = a.all;
}

-- What holds of a reassembler after a history.
pub record IsAccounted (stream : List ℕ) (r : StreamReassembler) : Type 0 where
  pub valid : IsValid stream r
  pub accounts : Accounts r

run-IsAccounted :
    {stream : List ℕ} (es : List Event) {r : StreamReassembler}
    → IsAccounted stream r
    → IsOrdered r
    → All (Honest stream) es
    → IsAccounted stream (run r es).0
unfolding run
run-IsAccounted [] a o h = a
run-IsAccounted (e ∷ es) {r} a o h =
    run-IsAccounted es {r = (step r e).0}
      (record {
        valid = (step-IsValid e a.valid h.0).0;
        accounts = step-Accounts e a.valid o h.0 a.accounts;
      })
      (step-Covers e es a.valid o h.0).0 h.1

Holds_lt :
    (stream : List ℕ) (limit i : ℕ) (ns : List Node)
    → All (NodeFits stream limit) ns
    → Holds i ns
    → i < length stream
Holds_lt stream limit i [] u h = elim h [ ]
Holds_lt stream limit i (n ∷ ns) u (Coverage.here le lt) = omega (arith, u.0.0)
Holds_lt stream limit i (n ∷ ns) u (Coverage.later h) = Holds_lt stream limit i ns u.1 h

-- Free ranges of which none has a position before `low` begin there.
Sorted-start :
    (low : ℕ) (ps : List Segment)
    → Sorted 0 ps
    → ((i : ℕ) → i < low → ¬ (Free i ps))
    → Sorted low ps
Sorted-start low [] s none_before = tt
Sorted-start low (p ∷ ps) s none_before = elim (Bool-cases (ltb p.0 low)) [
  | inl lt ↦ absurd (none_before p.0 (ltb→lt _ _ lt) (here (omega arith) s.1))
  | inr ge ↦ (ltb→le _ _ ge, s.1, s.2)
]

module _ (stream : List ℕ) (r : StreamReassembler) (a : IsAccounted stream r) where
  used_byte-IsFree : IsFree r.assembled_bytes r.used_byte
  used_byte-IsFree = (
    Sorted-start r.assembled_bytes r.used_byte a.accounts.free.0
        (λ i lt f. a.accounts.none_twice i f (inl lt)),
    a.accounts.free.1,
  )

  -- Behind the assembled bytes a position is free or held, and not both.
  unassembled_count :
      unassembled_bytes r
      ≡ count_held r.store.nodes r.assembled_bytes (length stream - r.assembled_bytes)
  unfolding unassembled_bytes
  unassembled_count =
      let d = a.valid.delivered in
      let start = r.assembled_bytes in
      let ns = r.store.nodes in
      let le : start ≤ length stream = omega (arith, d.counted, d.in_stream) in
      let every =
        count_held-total ns r.used_byte start (omega (arith, a.valid.small)) used_byte-IsFree
          (λ i f h. a.accounts.none_twice i f (inr h))
          λ i ge small. elim (a.accounts.all i small) [
            | inl f ↦ inl f
            | inr (inl lt) ↦ absurd (omega arith)
            | inr (inr h) ↦ inr h
          ] in
      let split : positions - start ≡ (length stream - start) + (positions - length stream) =
        omega (arith, a.valid.small) in
      let at : start + (length stream - start) ≡ length stream = omega arith in
      let behind : count_held ns (start + (length stream - start)) (positions - length stream) ≡ 0 =
        count_held_none ns (start + (length stream - start)) (positions - length stream)
          λ i ge lt h. let small = Holds_lt stream _ i ns a.valid.nodes h in absurd (omega arith) in
      let parts =
        ap (count_held ns start) split
        ∙ count_held-add ns start (length stream - start) (positions - length stream) in
      omega (arith, every, parts, behind, a.accounts.counted, a.valid.small)

-- From an empty reassembler, whose capacity and the length of the stream together are below 2 ^ 64,
-- after any sequence of pushes of parts of the stream and of reads: `unassembled_bytes` is the number of
-- positions of the stream that are behind the assembled bytes and that some stored text has.
pub unassembled_bytes_lem :
    (stream : List ℕ) (capacity : ℕ) (es : List Event)
    → capacity + length stream < 2 ^ 64
    → All (Honest stream) es
    → let last = (run (init capacity) es).0 in
      unassembled_bytes last
      ≡ count_held last.store.nodes last.assembled_bytes (length stream - last.assembled_bytes)
unassembled_bytes_lem stream capacity es small honest =
    unassembled_count stream (run (init capacity) es).0 (
      run-IsAccounted es
        (record { valid = init-IsValid stream capacity small; accounts = init-Accounts capacity })
        (init-IsOrdered capacity) honest)
