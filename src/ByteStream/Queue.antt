-- ===== src/ByteStream/Queue.antt =====
-- The byte stream of libsponge/byte_stream.cc against its specification in Script.
use native.Mathlib.Nat.{min_comm}
use cs144_lab_assignment.Common.{
  ℕ, ◌+◌, ◌-◌, ◌≤◌, ◌<◌, ◌^◌, ◌≡◌, refl, ap, ap₂, sym, ◌∙◌, ◌&&◌, List, [], ◌∷◌, ◌++◌, length, take,
  take-min, ◌==◌, arith, min,
}
use cs144_lab_assignment.ByteStream.{
  ByteStream, buffer_size, remaining_capacity, end_input, set_error, input_ended, eof,
  bytes_written, bytes_read,
}
use cs144_lab_assignment.ByteStream.Valid.{
  remaining_capacity-add, contents, IsValid, Wrote, Popped, write-Wrote, write-IsValid,
  peek_output_lem, pop_output-Popped, pop_output-IsValid, read_lem, read-IsValid, end_input-IsValid,
  set_error-IsValid, buffer_size-length,
}
use cs144_lab_assignment.ByteStream.Script.{
  Call, writes, peeks, pops, reads, ends, errs, Queue, enqueue, dequeue, after, returned, reply,
  replies, step, observe, run, view, attempt, attempts,
}

-- One call of a valid stream: still valid, the queue's next state, the queue's result.
abbrev Agrees : ByteStream → Call → ByteStream × List ℕ × ℕ → Type 0
Agrees s c out =
    IsValid out.0
    × (view out.0 ≡ after (view s) c)
    × (◌≡◌ {A = List ℕ × ℕ} (out.1, out.2) (returned (view s) c))
    × (out.0.byte_written ≤ s.byte_written + attempt c)

Queue-eq :
    {q r : Queue}
    → q.items ≡ r.items
    → q.capacity ≡ r.capacity
    → q.written ≡ r.written
    → q.consumed ≡ r.consumed
    → q.ended ≡ r.ended
    → q.failed ≡ r.failed
    → q ≡ r
Queue-eq a b c d e f = λ i. record {
  items = a i;
  capacity = b i;
  written = c i;
  consumed = d i;
  ended = e i;
  failed = f i;
}

Wrote-view :
    {s : ByteStream} (text : List ℕ) {out : ByteStream × ℕ}
    → Wrote s text out
    → view out.0 ≡ enqueue (view s) text
unfolding view enqueue
Wrote-view {s} text w =
    Queue-eq
      (w.bytes ∙ ap (λ (k : List ℕ). contents s ++ k) (ap (λ (n : ℕ). take n text) w.count ∙ cut))
      w.same_capacity (w.written ∙ ap (λ (n : ℕ). s.byte_written + n) w.count) w.same_read
      w.same_end w.same_error
  where
    room : ℕ
    room = s.capacity - length (contents s)

    cut : take (min (length text) room) text ≡ take room text
    cut = sym (ap (λ (n : ℕ). take n text) (min_comm room (length text))) ∙ take-min room text

Popped-view :
    {s : ByteStream} (len : ℕ) {out : ByteStream}
    → Popped s len out
    → view out ≡ dequeue (view s) len
unfolding view dequeue
Popped-view {s} len p =
    Queue-eq p.bytes p.same_capacity p.same_written p.count p.same_end p.same_error

step-Agrees :
    (s : ByteStream) (c : Call)
    → IsValid s
    → s.byte_written + attempt c < 2 ^ 64
    → Agrees s c (step s c)
unfolding step after returned
step-Agrees s (writes text) v h =
    let w = write-Wrote text v (omega arith) h in
    (
      write-IsValid text v (omega arith) h,
      Wrote-view text w,
      unfold view in ap (λ (n : ℕ). ([], n)) w.count,
      omega (arith, w.written, w.count),
    )
step-Agrees s (peeks len) v h =
    (v, refl, unfold view in ap (λ (b : List ℕ). (b, 0)) (peek_output_lem len v), omega arith)
step-Agrees s (pops len) v h =
    let p = pop_output-Popped len v in
    (pop_output-IsValid len v, Popped-view len p, refl, omega (arith, p.same_written))
step-Agrees s (reads len) v h =
    let (bytes, p) = read_lem len v in
    (
      read-IsValid len v,
      Popped-view len p,
      unfold view in ap (λ (b : List ℕ). (b, 0)) bytes,
      omega (arith, p.same_written),
    )
step-Agrees s ends v h =
    (end_input-IsValid v, unfold end_input view in refl, refl, unfold end_input in omega arith)
step-Agrees s errs v h =
    (set_error-IsValid v, unfold set_error view in refl, refl, unfold set_error in omega arith)

reply-view :
    {s : ByteStream} (bytes : List ℕ) (count : ℕ)
    → IsValid s
    → observe s bytes count ≡ reply (view s) (bytes, count)
unfolding observe reply view eof input_ended bytes_written bytes_read
reply-view {s} bytes count v = λ i. record {
  bytes = bytes;
  count = count;
  size = size i;
  empty = size i == 0;
  room = room i;
  ended = s.end;
  at_eof = s.end && (size i == 0);
  failed = s.error;
  written = s.byte_written;
  consumed = s.byte_read;
}
  where
    size : buffer_size s ≡ length (contents s)
    size = buffer_size-length v

    room : remaining_capacity s ≡ s.capacity - length (contents s)
    room = omega (arith, remaining_capacity-add v)

-- From any valid stream, and as long as fewer than 2 ^ 64 bytes are ever offered to `write`, every
-- script of calls gets from the stream the replies of the bounded queue: results and all accessors.
pub run-replies :
    (cs : List Call) {s : ByteStream}
    → IsValid s
    → s.byte_written + attempts cs < 2 ^ 64
    → run s cs ≡ replies (view s) cs
unfolding run replies
run-replies [] v h = refl
run-replies (c ∷ cs) {s} v h =
    let (v', e, r, w) = step-Agrees s c v (omega arith) in
    ap₂ ◌∷◌ (reply-view (step s c).1 (step s c).2 v' ∙ ap₂ reply e r)
      (run-replies cs v' (omega arith) ∙ ap (λ (q : Queue). replies q cs) e)
