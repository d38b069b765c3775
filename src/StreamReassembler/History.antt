-- ===== src/StreamReassembler/History.antt =====
-- Histories of pushes and reads of the reassembler of libsponge/stream_reassembler.cc.
use cs144_lab_assignment.ByteStream
use cs144_lab_assignment.Common.{
  append-nil, append_assoc, drop-min, ℕ, ◌+◌, ◌-◌, ◌<◌, ◌^◌, ◌≡◌, ap, ap₂, sym, ◌∙◌, Bool, List, [],
  ◌∷◌, ◌++◌, length, take, drop, take-take, drop-take, drop-drop, take-add, All, All-map, arith,
  min,
}
use cs144_lab_assignment.ByteStream.{ByteStream}
use cs144_lab_assignment.ByteStream.Valid.{contents}
use cs144_lab_assignment.ByteStream.Valid as Stream
use cs144_lab_assignment.StreamReassembler.{StreamReassembler, init, push_substring}
use cs144_lab_assignment.StreamReassembler.Nodes.{Node}
use cs144_lab_assignment.StreamReassembler.Prefix.{PartOf, NodeFits}
use cs144_lab_assignment.StreamReassembler.Delivery.{
  IsValid, init-IsValid, push_substring-IsValid, byte_read-push_substring,
}

-- The reader takes bytes out of `stream_out()`.
unfoldable pub read_output : StreamReassembler → ℕ → StreamReassembler × List ℕ
read_output r len =
    let (out, bytes) = ByteStream.read r.output len in (record r { output = out }, bytes)

-- A read keeps the invariant and returns the next bytes of the stream.
pub read_output-IsValid :
    {stream : List ℕ} {r : StreamReassembler} (len : ℕ)
    → IsValid stream r
    → let (r', bytes) = read_output r len in
      IsValid stream r'
      × (take r'.output.byte_read stream ≡ take r.output.byte_read stream ++ bytes)
unfolding read_output
read_output-IsValid {stream} {r} len v =
    let d = v.delivered in
    let out = r.output in
    let (bytes, p) = Stream.read_lem len d.valid in
    let held : length (contents out) ≡ out.byte_written - out.byte_read = d.valid.held in
    let m : ℕ = min len (length (contents out)) in
    let next : (ByteStream.read out len).0.byte_read ≡ out.byte_read + m = p.count in
    let left : out.byte_written - out.byte_read - m
        ≡ (ByteStream.read out len).0.byte_written - (ByteStream.read out len).0.byte_read =
      omega (arith, next, p.same_written) in
    (
      record {
        delivered = record {
          valid = Stream.read-IsValid len d.valid;
          counted = d.counted ∙ sym p.same_written;
          in_stream = omega (arith, p.same_written, d.in_stream);
          bytes =
              p.bytes
              ∙ sym (drop-min len (contents out))
              ∙ ap (drop m) d.bytes
              ∙ drop-take m (out.byte_written - out.byte_read) (drop out.byte_read stream)
              ∙ ap (take (out.byte_written - out.byte_read - m)) (drop-drop m out.byte_read stream)
              ∙ ap₂ (λ (i j : ℕ). take i (drop j stream)) left (sym next);
          same_capacity = p.same_capacity ∙ d.same_capacity;
        };
        nodes =
            All-map
              (λ (n : Node) (f : NodeFits stream (r.capacity + out.byte_read) n).
                (f.0, omega (arith, f.1, next)))
              r.store.nodes v.nodes;
        small = v.small;
      },
      ap (λ (i : ℕ). take i stream) next
          ∙ take-add m out.byte_read stream
          ∙ ap (◌++◌ (take out.byte_read stream)) (
              ap (λ (i : ℕ). take (min len i) (drop out.byte_read stream)) held
              ∙ sym (take-take len (out.byte_written - out.byte_read) (drop out.byte_read stream))
              ∙ ap (take len) (sym d.bytes)
              ∙ sym bytes),
    )

-- What happens to a reassembler: a push of a text at an index, or a read of its output.
pub data Event : Type 0 where
  pushes : List ℕ → ℕ → Bool → Event
  consumes : ℕ → Event

unfoldable pub step : StreamReassembler → Event → StreamReassembler × List ℕ
unfolding read_output
step r (pushes text index eof) = (push_substring r text index eof, [])
step r (consumes len) = read_output r len

-- All events in turn, and the bytes that the reader got from them.
unfoldable pub run : StreamReassembler → List Event → StreamReassembler × List ℕ
run r [] = (r, [])
run r (e ∷ es) = let (r', now) = step r e in let (last, later) = run r' es in (last, now ++ later)

abbrev pub Honest : List ℕ → Event → Type 0
Honest stream (pushes text index eof) = PartOf stream index text
Honest stream (consumes len) = Unit {0}

pub step-IsValid :
    {stream : List ℕ} {r : StreamReassembler} (e : Event)
    → IsValid stream r
    → Honest stream e
    → let (r', bytes) = step r e in
      IsValid stream r'
      × (take r'.output.byte_read stream ≡ take r.output.byte_read stream ++ bytes)
unfolding step
step-IsValid {stream} {r} (pushes text index eof) v h = (
  push_substring-IsValid text index eof v h,
  ap (λ (i : ℕ). take i stream) (byte_read-push_substring r text index eof)
      ∙ sym (append-nil (take r.output.byte_read stream)),
)
step-IsValid (consumes len) v h = read_output-IsValid len v

run-IsValid :
    {stream : List ℕ} (es : List Event) {r : StreamReassembler}
    → IsValid stream r
    → All (Honest stream) es
    → let (last, bytes) = run r es in
      IsValid stream last
      × (take last.output.byte_read stream ≡ take r.output.byte_read stream ++ bytes)
unfolding run
run-IsValid {stream} [] {r} v h = (v, sym (append-nil (take r.output.byte_read stream)))
run-IsValid {stream} (e ∷ es) {r} v h =
    let (v', now) = step-IsValid e v h.0 in
    let (w, later) = run-IsValid es {r = (step r e).0} v' h.1 in
    (
      w,
      later
          ∙ ap (λ (l : List ℕ). l ++ (run (step r e).0 es).1) now
          ∙ append_assoc (take r.output.byte_read stream) (step r e).1 (run (step r e).0 es).1,
    )

-- From an empty reassembler, whose capacity and the length of the stream together are below 2 ^ 64,
-- after any sequence of pushes of parts of the stream and of reads: what
-- the reader got, followed by what it can still read, is the first `assembled_bytes` bytes of the
-- stream. So nothing is reordered, doubled or left out, and `write` never cut a part off.
pub run_prefix :
    (stream : List ℕ) (capacity : ℕ) (es : List Event)
    → capacity + length stream < 2 ^ 64
    → All (Honest stream) es
    → let (last, bytes) = run (init capacity) es in
      bytes ++ contents last.output ≡ take last.assembled_bytes stream
unfolding init ByteStream.init
run_prefix stream capacity es small h =
    let (v, e) = run-IsValid es (init-IsValid stream capacity small) h in
    let out = (run (init capacity) es).0.output in
    let d = v.delivered in
    let all : out.byte_read + (out.byte_written - out.byte_read)
        ≡ (run (init capacity) es).0.assembled_bytes =
      omega (arith, d.valid.read_le, d.counted) in
    ap₂ ◌++◌ (sym e) d.bytes
    ∙ sym (take-add (out.byte_written - out.byte_read) out.byte_read stream)
    ∙ ap (λ (i : ℕ). take i stream) all
