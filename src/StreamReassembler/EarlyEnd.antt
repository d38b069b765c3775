-- ===== src/StreamReassembler/EarlyEnd.antt =====
-- The test `empty()` of libsponge/stream_reassembler.cc when an end mark comes without a text.
use cs144_lab_assignment.Common.{
  ℕ, suc, ◌≤◌, ◌<◌, ◌^◌, ◌≡◌, refl, sym, subst, ◌∙◌, true, false, List, [], ◌∷◌, ltb, leb, ltb→lt,
  leb→le, ◌||◌, ◌==◌, if_both, add64, arith,
}
use cs144_lab_assignment.ByteStream.{end_input}
use cs144_lab_assignment.StreamReassembler.{
  StreamReassembler, Progress, assemble, accept, push_within, push_substring, close_if_empty, empty,
  window_end,
}
use cs144_lab_assignment.StreamReassembler.Mirror.{Ascending}
use cs144_lab_assignment.StreamReassembler.Nodes.{Node, store_text}
use cs144_lab_assignment.StreamReassembler.Pushing.{IsOrdered, Mirrors-lower}
use cs144_lab_assignment.StreamReassembler.Segments.{
  Segment, Changes, remove_segment, scan, store_range,
}
use cs144_lab_assignment.StreamReassembler.Stored.{store_text-Stored, Ascending-put}

-- An empty range adds nothing to the bytes stored.
scan_empty :
    (at last l : ℕ) (ps : List Segment) (c : Changes)
    → c.stored_bytes < 2 ^ 64
    → (scan at last l l ps c).stored_bytes ≡ c.stored_bytes
unfolding scan
scan_empty at last l [] c small = refl
scan_empty at last l ((a, b) ∷ ps) c small =
    let same : (remove_segment (a, b) l l c).stored_bytes ≡ c.stored_bytes =
      unfold remove_segment in ground arith in
    if_both (λ (d : Changes). d.stored_bytes ≡ c.stored_bytes) (at == last) (λ _. same)
      λ _. scan_empty (suc at) last l ps (remove_segment (a, b) l l c) (omega (arith, same)) ∙ same

-- The loop takes no node that begins behind a gap.
assemble_waits :
    (ns : List Node) (p : Progress) → Ascending (suc p.assembled) ns → assemble ns p ≡ (p, ns)
unfolding assemble
assemble_waits [] p a = refl
assemble_waits (n ∷ ns) p a =
    let later : leb n.index p.assembled ≡ false = ground (arith, a.0) in rw later refl

store_range_empty :
    (stored : ℕ) (ps : List Segment) (l : ℕ)
    → stored < 2 ^ 64
    → (store_range stored ps l l).0 ≡ stored
unfolding store_range
store_range_empty stored ps l small = scan_empty _ _ l _ _ small

-- The test holds, and the output is ended.
closes :
    (r : StreamReassembler)
    → r.stored_bytes ≡ r.assembled_bytes
    → r.eof ≡ true
    → (close_if_empty r).output ≡ end_input r.output
unfolding close_if_empty
closes r same ended =
    let test : empty r ≡ true = unfold empty in ground arith in rw (close_if_empty, test) refl

close_if_empty-assembled :
    (r : StreamReassembler) → (close_if_empty r).assembled_bytes ≡ r.assembled_bytes
unfolding close_if_empty
close_if_empty-assembled r = ground arith

-- The output is ended, and nothing more is assembled.
abbrev Ended : StreamReassembler → StreamReassembler → Type 0
Ended r q = (q.output ≡ end_input r.output) × (q.assembled_bytes ≡ r.assembled_bytes)

accept-Ended :
    (r : StreamReassembler) (index : ℕ)
    → IsOrdered r
    → r.stored_bytes ≡ r.assembled_bytes
    → r.eof ≡ true
    → r.assembled_bytes < index
    → index < 2 ^ 64
    → Ended r (accept r [] index)
unfolding accept
accept-Ended r index o same ended ahead small =
    let wide : add64 index 0 ≡ index = omega arith in
    let p : Progress = record {
      out = r.output;
      assembled = r.assembled_bytes;
      entries = (store_text r.store [] index).existed;
    } in
    let (nodes, m) = store_text-Stored [] index r.store (Mirrors-lower (omega arith) o) in
    let waits = assemble_waits (store_text r.store [] index).nodes p (
      subst (Ascending (suc r.assembled_bytes)) (sym nodes) (
        Ascending-put r.store.next_id [] index (suc r.assembled_bytes) r.store.nodes (omega arith)
          o.ascending)) in
    let stored = store_range_empty r.stored_bytes r.used_byte index (omega arith) in
    rw (wide, waits) (closes _ (stored ∙ same) ended, close_if_empty-assembled _)

-- An end mark without a text, at a position of the window behind the bytes that are assembled, ends the
-- output at once when nothing else is stored, although the bytes before that position have not come.
pub end_without_text :
    (r : StreamReassembler) (index : ℕ)
    → IsOrdered r
    → r.stored_bytes ≡ r.assembled_bytes
    → r.assembled_bytes < index
    → index < window_end r
    → ((push_substring r [] index true).output ≡ end_input r.output)
      × ((push_substring r [] index true).assembled_bytes ≡ r.assembled_bytes)
unfolding push_substring push_within
end_without_text r index o same ahead inside =
    let r' : StreamReassembler = record r { eof = r.eof || true } in
    let ended : r'.eof ≡ true = ground arith in
    let small : index < 2 ^ 64 = unfold window_end in omega arith in
    if_both (Ended r) (leb (window_end r) index)
      (λ h. let le : window_end r ≤ index = leb→le _ _ h in absurd (omega arith))
      λ _.
        if_both (Ended r) (ltb (window_end r) (add64 index 0))
          (λ h. let lt : window_end r < add64 index 0 = ltb→lt _ _ h in absurd (omega arith))
          λ _.
            if_both (Ended r) (leb (add64 index 0) r.assembled_bytes)
              (λ h.
                let le : add64 index 0 ≤ r.assembled_bytes = leb→le _ _ h in absurd (omega arith))
              λ _. accept-Ended r' index o same ended ahead small
