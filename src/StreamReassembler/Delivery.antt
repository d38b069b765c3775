-- ===== src/StreamReassembler/Delivery.antt =====
-- The invariant of the reassembler of libsponge/stream_reassembler.cc over a stream.
use cs144_lab_assignment.Buffer.{concatenate}
use cs144_lab_assignment.ByteStream
use cs144_lab_assignment.Common.{
  ◌||◌, ℕ, ◌+◌, ◌≤◌, ◌<◌, ◌^◌, ◌≡◌, refl, ◌∙◌, Bool, List, [], ◌∷◌, length, take, length-take, All,
  if_both, ltb, leb, ltb→le, leb→lt, add64, sub64, arith,
}
use cs144_lab_assignment.ByteStream.{bytes_read, ByteStream, write, end_input}
use cs144_lab_assignment.ByteStream.Valid.{end_input-IsValid}
use cs144_lab_assignment.ByteStream.Valid as Stream
use cs144_lab_assignment.StreamReassembler.{
  empty, StreamReassembler, Progress, init, take_front, assemble, accept, push_within,
  push_substring, close_if_empty, window_end,
}
use cs144_lab_assignment.StreamReassembler.Nodes.{Node, store_text}
use cs144_lab_assignment.StreamReassembler.Prefix.{
  PartOf, PartOf-take, NodeFits, Delivered, assemble-Keeps, store_text-Fits,
}

-- The invariant of the reassembler over a stream.
pub record IsValid (stream : List ℕ) (r : StreamReassembler) : Type 0 where
  pub delivered : Delivered stream r.capacity r.output r.assembled_bytes
  pub nodes : All (NodeFits stream (r.capacity + r.output.byte_read)) r.store.nodes
  pub small : r.capacity + length stream < 2 ^ 64

pub init-IsValid :
    (stream : List ℕ) (capacity : ℕ)
    → capacity + length stream < 2 ^ 64
    → IsValid stream (init capacity)
unfolding init ByteStream.init
init-IsValid stream capacity h = record {
  delivered = record {
    valid = Stream.init-IsValid capacity (omega arith);
    counted = refl;
    in_stream = omega arith;
    bytes = unfold concatenate in refl;
    same_capacity = refl;
  };
  nodes = tt;
  small = h;
}

Delivered-end_input :
    {stream : List ℕ} {capacity assembled : ℕ} {out : ByteStream}
    → Delivered stream capacity out assembled
    → Delivered stream capacity (end_input out) assembled
Delivered-end_input d =
    unfold end_input in
    record {
      valid = end_input-IsValid d.valid;
      counted = d.counted;
      in_stream = d.in_stream;
      bytes = d.bytes;
      same_capacity = d.same_capacity;
    }

close_if_empty-IsValid :
    {stream : List ℕ} {r : StreamReassembler} → IsValid stream r → IsValid stream (close_if_empty r)
unfolding close_if_empty
close_if_empty-IsValid {stream} {r} v =
    if_both (IsValid stream) (empty r)
      (λ _.
        unfold end_input in
        record { delivered = Delivered-end_input v.delivered; nodes = v.nodes; small = v.small })
      λ _. v

accept-IsValid :
    {stream : List ℕ} {r : StreamReassembler} (text : List ℕ) (index : ℕ)
    → IsValid stream r
    → PartOf stream index text
    → index + length text ≤ r.capacity + r.output.byte_read
    → IsValid stream (accept r text index)
unfolding accept
accept-IsValid {stream} {r} text index v part lim =
    let stored =
      store_text-Fits stream r.capacity v.small (r.capacity + r.output.byte_read) index text r.store
        (part, lim) v.nodes in
    let ((d, e), left) =
      assemble-Keeps stream r.capacity v.small (store_text r.store text index).nodes _
        r.output.byte_read (v.delivered, refl) stored in
    close_if_empty-IsValid (record { delivered = d; nodes = rw e left; small = v.small })

push_within-IsValid :
    {stream : List ℕ} {r : StreamReassembler} (text : List ℕ) (index : ℕ)
    → IsValid stream r
    → PartOf stream index text
    → index + length text ≤ r.capacity + r.output.byte_read
    → IsValid stream (push_within r text index)
unfolding push_within
push_within-IsValid {stream} {r} text index v part lim =
    if_both (IsValid stream) (leb (add64 index (length text)) r.assembled_bytes)
      (λ _. close_if_empty-IsValid v) λ _. accept-IsValid text index v part lim

-- Pushing any part of the stream, with or without the end mark, keeps the invariant of a reassembler
-- over the stream.
pub push_substring-IsValid :
    {stream : List ℕ} {r : StreamReassembler} (text : List ℕ) (index : ℕ) (eof : Bool)
    → IsValid stream r
    → PartOf stream index text
    → IsValid stream (push_substring r text index eof)
unfolding push_substring
push_substring-IsValid {stream} {r} text index eof v part =
    let d = v.delivered in
    let room : window_end r ≡ r.capacity + r.output.byte_read =
      unfold window_end bytes_read in omega (arith, d.valid.read_le, d.in_stream, v.small) in
    if_both (IsValid stream) (leb (window_end r) index) (λ _. v)
      λ out.
        let lt : index < window_end r = leb→lt _ _ out in
        if_both (IsValid stream) (ltb (window_end r) (add64 index (length text)))
          (λ _.
            push_within-IsValid (take (sub64 (window_end r) index) text) index v
              (PartOf-take stream text index _ part)
              (omega (arith, length-take (sub64 (window_end r) index) text)))
          λ fits.
            let le : add64 index (length text) ≤ window_end r = ltb→le _ _ fits in
            push_within-IsValid {r = record r { eof = r.eof || eof }} text index
              (record { delivered = v.delivered; nodes = v.nodes; small = v.small }) part
              (omega arith)

byte_read-assemble :
    (ns : List Node) (p : Progress) → (assemble ns p).0.out.byte_read ≡ p.out.byte_read
unfolding assemble take_front write
byte_read-assemble [] p = refl
byte_read-assemble (n ∷ ns) p = ground (arith, byte_read-assemble ns (take_front n p))

byte_read-close_if_empty :
    (r : StreamReassembler) → (close_if_empty r).output.byte_read ≡ r.output.byte_read
unfolding close_if_empty end_input
byte_read-close_if_empty r = ground arith

byte_read-push_within :
    (r : StreamReassembler) (text : List ℕ) (index : ℕ)
    → (push_within r text index).output.byte_read ≡ r.output.byte_read
unfolding push_within accept
byte_read-push_within r text index =
    if_both (λ (o : StreamReassembler). o.output.byte_read ≡ r.output.byte_read)
      (leb (add64 index (length text)) r.assembled_bytes) (λ _. byte_read-close_if_empty r)
      λ _. byte_read-close_if_empty _ ∙ byte_read-assemble (store_text r.store text index).nodes _

-- A push reads nothing.
pub byte_read-push_substring :
    (r : StreamReassembler) (text : List ℕ) (index : ℕ) (eof : Bool)
    → (push_substring r text index eof).output.byte_read ≡ r.output.byte_read
unfolding push_substring
byte_read-push_substring r text index eof = ground (
  arith,
  byte_read-push_within r (take (sub64 (window_end r) index) text) index,
  byte_read-push_within (record r { eof = r.eof || eof }) text index,
)

-- A push keeps the capacity.
pub capacity-push_substring :
    (r : StreamReassembler) (text : List ℕ) (index : ℕ) (eof : Bool)
    → (push_substring r text index eof).capacity ≡ r.capacity
unfolding push_substring push_within accept close_if_empty
capacity-push_substring r text index eof = ground arith
