-- ===== src/BidirectionalStreamCopy/Pipe.antt =====
-- One direction of apps/bidirectional_stream_copy.cc: a source, a byte stream and a sink.
use cs144_lab_assignment.Common.{
  ℕ, suc, ◌+◌, ◌≤◌, ◌<◌, ◌^◌, ◌≡◌, ap, sym, subst, ◌∙◌, List, ◌++◌, some, length, take, drop,
  length-append, append-nil, append_assoc, take-append-drop, if_both, arith, inl, inr, take_all,
}
use cs144_lab_assignment.ByteStream.{
  ByteStream, write, end_input, set_error, pop_output, remaining_capacity,
}
use cs144_lab_assignment.ByteStream.Valid.{
  contents, write-Wrote, write-IsValid, pop_output-Popped, pop_output-IsValid, end_input-IsValid,
  set_error-IsValid, remaining_capacity-add,
}
use cs144_lab_assignment.ByteStream.Valid as Stream
use cs144_lab_assignment.FileDescriptor.{FdWrapper, ReadReturn, got, Writev}
use cs144_lab_assignment.FileDescriptor
use cs144_lab_assignment.FileDescriptor.Draining.{drain_ends, drain_taken, drain_threw}
use cs144_lab_assignment.FileDescriptor.Reading.{offered, read_length, read-HasRead}
use cs144_lab_assignment.SystemCall.{Result-cases}
use cs144_lab_assignment.BidirectionalStreamCopy.{copy_in, copy_out}

-- Nothing is lost, doubled or moved: what the source gave is what the sink took and the stream holds.
pub record Pipe (reads : ℕ → ReadReturn) (s : ByteStream) (from to : List ℕ) (calls : ℕ)
    : Type 0 where
  pub valid : Stream.IsValid s
  pub conserved : from ≡ to ++ contents s
  pub counted : s.byte_written ≡ length from
  pub bounded : length from ≤ offered reads calls

module _ {reads : ℕ → ReadReturn} {s : ByteStream} {from to : List ℕ} {calls : ℕ}
    (p : Pipe reads s from to calls) where
  pub Pipe-call : Pipe reads s from to (calls + 1)
  Pipe-call =
      let e : calls + 1 ≡ suc calls = omega arith in
      record {
        valid = p.valid;
        conserved = p.conserved;
        counted = p.counted;
        bounded = rw e (unfold offered in omega (arith, p.bounded));
      }

  pub Pipe-end : Pipe reads (end_input s) from to calls
  Pipe-end =
      unfold end_input in
      record {
        valid = end_input-IsValid p.valid;
        conserved = p.conserved;
        counted = p.counted;
        bounded = p.bounded;
      }

  pub Pipe-error : Pipe reads (set_error s) from to calls
  Pipe-error =
      unfold set_error in
      record {
        valid = set_error-IsValid p.valid;
        conserved = p.conserved;
        counted = p.counted;
        bounded = p.bounded;
      }

module _ {reads : ℕ → ReadReturn} {s : ByteStream} {from to : List ℕ} {calls : ℕ}
    (p : Pipe reads s from to calls) where
  -- The bytes of a read, which the stream has room for, all go into it.
  Pipe-write :
      (bytes : List ℕ)
      → reads calls ≡ got bytes
      → offered reads (calls + 1) < 2 ^ 64
      → length bytes ≤ remaining_capacity s
      → Pipe reads (write s bytes).0 (from ++ bytes) to (calls + 1)
  Pipe-write bytes r small room =
      let e : calls + 1 ≡ suc calls = omega arith in
      let sum : offered reads (calls + 1) ≡ offered reads calls + length bytes =
        rw e (unfold offered in omega (arith, ap read_length r)) in
      let total : s.byte_written + length bytes < 2 ^ 64 = omega (arith, p.counted, p.bounded) in
      let w = write-Wrote bytes p.valid (omega arith) total in
      let cap = remaining_capacity-add p.valid in
      let all : take (write s bytes).1 bytes ≡ bytes =
        take_all (write s bytes).1 bytes (omega (arith, w.count)) in
      record {
        valid = write-IsValid bytes p.valid (omega arith) total;
        conserved =
            ap (λ (xs : List ℕ). xs ++ bytes) p.conserved
            ∙ append_assoc to (contents s) bytes
            ∙ ap (λ (xs : List ℕ). to ++ (contents s ++ xs)) (sym all)
            ∙ ap (◌++◌ to) (sym w.bytes);
        counted = omega (arith, w.written, w.count, p.counted, length-append from bytes);
        bounded = omega (arith, p.bounded, length-append from bytes);
      }

  -- Bytes taken by the sink are popped.
  Pipe-pop :
      (taken : List ℕ) (n : ℕ)
      → taken ≡ take n (contents s)
      → Pipe reads (pop_output s n) from (to ++ taken) calls
  Pipe-pop taken n e =
      let w = pop_output-Popped n p.valid in
      record {
        valid = pop_output-IsValid n p.valid;
        conserved =
            p.conserved
            ∙ ap (◌++◌ to) (sym (take-append-drop n (contents s)))
            ∙ sym (append_assoc to (take n (contents s)) (drop n (contents s)))
            ∙ ap (λ (xs : List ℕ). (to ++ xs) ++ drop n (contents s)) (sym e)
            ∙ ap (◌++◌ (to ++ taken)) (sym w.bytes);
        counted = w.same_written ∙ p.counted;
        bounded = p.bounded;
      }

  pub copy_in-Pipe :
      (f : FdWrapper)
      → offered reads (calls + 1) < 2 ^ 64
      → let m = copy_in f s (reads calls) in Pipe reads m.stream (from ++ m.bytes) to (calls + 1)
  unfolding copy_in
  copy_in-Pipe f small =
      let limit = remaining_capacity s in
      elim (Result-cases (FileDescriptor.read f (reads calls) limit).1) [
        | inl (e, h) ↦
            rw (copy_in, h)
              (subst (λ (xs : List ℕ). Pipe reads s xs to (calls + 1)) (sym (append-nil from))
                (Pipe-call p))
        | inr (bytes, h) ↦
            let has = read-HasRead f (reads calls) limit bytes h in
            let w = Pipe-write bytes has.given small has.asked in
            rw (copy_in, h)
              (if_both (λ (b : ByteStream). Pipe reads b (from ++ bytes) to (calls + 1))
                (FileDescriptor.read f (reads calls) limit).0.eof (λ _. Pipe-end w) λ _. w)
      ]

  pub copy_out-Pipe :
      (f : FdWrapper) (writev : Writev)
      → let m = copy_out f s writev in Pipe reads m.stream from (to ++ m.bytes) (calls + 1)
  unfolding copy_out
  copy_out-Pipe f writev =
      let (r, ended) = drain_ends s p.valid writev f in
      elim (Result-cases r) [
        | inl (e, x) ↦
            let h = ended ∙ ap some x in
            let none_taken = drain_threw s p.valid writev f e h in
            rw (copy_out, h)
              (subst (λ (xs : List ℕ). Pipe reads s from xs (calls + 1))
                (sym (ap (◌++◌ to) none_taken ∙ append-nil to)) (Pipe-call p))
        | inr (n, x) ↦
            let h = ended ∙ ap some x in
            let (first, count) = drain_taken s p.valid writev f n h in
            rw (copy_out, h) (Pipe-call (Pipe-pop _ n first))
      ]
