-- ===== src/Tests/Streams.antt =====
-- Byte streams, buffers, sequence numbers and the reassembler at concrete inputs.
use cs144_lab_assignment.Common.{
  ℕ, ◌+◌, ◌-◌, ◌≤◌, ◌<◌, ◌≡◌, refl, true, false, inl, inr, Bool-cases, ltb, ltb→lt, ltb→le, List,
  [], ◌∷◌, ◌++◌, take, All, arith,
}
use cs144_lab_assignment.ByteStream.{ByteStream, end_input}
use cs144_lab_assignment.ByteStream
use cs144_lab_assignment.ByteStream.Valid.{contents, init-IsValid}
use cs144_lab_assignment.ByteStream.Valid as Stream
use cs144_lab_assignment.ByteStream.Queue.{run-replies}
use cs144_lab_assignment.ByteStream.Script.{
  Call, writes, peeks, pops, reads, ends, errs, replies, view,
}
use cs144_lab_assignment.ByteStream.Script as Script
use cs144_lab_assignment.WrappingIntegers.{wrap, unwrap}
use cs144_lab_assignment.WrappingIntegers.Unwrap.{distance, unwrap-wrap, unwrap_closest}
use cs144_lab_assignment.StreamReassembler.{unassembled_bytes, init, push_substring, window_end}
use cs144_lab_assignment.StreamReassembler.EarlyEnd.{end_without_text}
use cs144_lab_assignment.StreamReassembler.Held.{count_held}
use cs144_lab_assignment.StreamReassembler.Ranges.{overlap, subtract}
use cs144_lab_assignment.StreamReassembler.Collecting.{positions}
use cs144_lab_assignment.StreamReassembler.Segments.{Segment, store_range}
use cs144_lab_assignment.StreamReassembler.Taking.{store_range_lem}
use cs144_lab_assignment.StreamReassembler.Unassembled.{unassembled_bytes_lem}
use cs144_lab_assignment.StreamReassembler.Completeness.{Pushed, now, then, run_complete}
use cs144_lab_assignment.StreamReassembler.History.{
  Event, pushes, consumes, Honest, run, run_prefix,
}

-- Behind the checkpoint, and over the wrap of the sequence number.
unwrap-wrap_example : unwrap (wrap 4294967299 17) 17 4294967400 ≡ 4294967299
unwrap-wrap_example =
    unwrap-wrap 4294967299 17 4294967400 (omega arith) (omega arith) (omega arith) (omega arith)

unwrap_closest_example :
    (wrap (unwrap 20 17 4294967400) 17 ≡ 20)
    × ((other : ℕ)
        → wrap other 17 ≡ 20
        → distance (unwrap 20 17 4294967400) 4294967400 ≤ distance other 4294967400)
unwrap_closest_example = unwrap_closest 20 17 4294967400 (omega arith) (omega arith) (omega arith)

abbrev hello : List ℕ
hello = 104 ∷ 101 ∷ 108 ∷ 108 ∷ 111 ∷ []

abbrev small_stream : ByteStream
small_stream = ByteStream.init 4

small_stream-IsValid : Stream.IsValid small_stream
small_stream-IsValid = init-IsValid 4 (omega arith)

abbrev script : List Call
script = writes hello ∷ peeks 2 ∷ reads 3 ∷ writes hello ∷ ends ∷ pops 9 ∷ errs ∷ []

run-replies_example : Script.run small_stream script ≡ replies (view small_stream) script
run-replies_example =
    run-replies script {s = small_stream} small_stream-IsValid
      (unfold ByteStream.init in omega arith)

-- The second part first, then one that overlaps both, and two reads.
abbrev history : List Event
history =
    pushes (108 ∷ 111 ∷ []) 3 true
    ∷ consumes 2
    ∷ pushes (104 ∷ 101 ∷ 108 ∷ 108 ∷ []) 0 false
    ∷ consumes 3
    ∷ []

history-Honest : All (Honest hello) history
history-Honest = ((omega arith, refl), (tt, ((omega arith, refl), (tt, tt))))

run_prefix_example :
    let (last, bytes) = run (init 8) history in
    bytes ++ contents last.output ≡ take last.assembled_bytes hello
run_prefix_example = run_prefix hello 8 history (omega arith) history-Honest

history-Pushed : (i : ℕ) → i < 5 → Pushed i history
history-Pushed i lt = elim (Bool-cases (ltb i 4)) [
  | inl early ↦ then (then (now (omega arith) (ltb→lt _ _ early)))
  | inr late ↦ let ge : 4 ≤ i = ltb→le _ _ late in now (omega arith) (omega arith)
]

run_complete_example :
    let (last, bytes) = run (init 8) history in
    (5 ≤ last.assembled_bytes) × (take 5 (bytes ++ contents last.output) ≡ take 5 hello)
run_complete_example =
    run_complete hello 8 5 history (omega arith) history-Honest (omega arith) history-Pushed

unassembled_bytes_example :
    let last = (run (init 8) history).0 in
    unassembled_bytes last
    ≡ count_held last.store.nodes last.assembled_bytes (5 - last.assembled_bytes)
unassembled_bytes_example = unassembled_bytes_lem hello 8 history (omega arith) history-Honest

-- A range over the end of one free range and the beginning of another.
abbrev free_ranges : List Segment
free_ranges = (3, 10) ∷ (12, positions) ∷ []

store_range_example :
    store_range 5 free_ranges 5 14 ≡ (5 + overlap free_ranges 5 14, subtract free_ranges 5 14)
store_range_example =
    store_range_lem 5 free_ranges 5 14 ((omega arith, omega arith, (omega arith, omega arith, tt)))
      (omega arith, (omega arith, tt)) (omega arith) (unfold overlap in omega arith)

-- The end mark of a stream of two bytes, before both of them.
end_without_text_example :
    ((push_substring (init 8) [] 2 true).output ≡ end_input (init 8).output)
    × ((push_substring (init 8) [] 2 true).assembled_bytes ≡ (init 8).assembled_bytes)
unfolding init
end_without_text_example =
    end_without_text (init 8) 2
      (record { entries = refl; ascending = tt; separate = tt; used = tt }) refl (omega arith)
      (unfold window_end ByteStream.bytes_read ByteStream.init in omega arith)
