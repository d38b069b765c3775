-- ===== src/FileDescriptor/Draining.antt =====
-- `FileDescriptor::write` of libsponge/util/file_descriptor.cc of what a byte stream shows, at most
-- 65536 bytes at once, as the callbacks of the event loops do it.
use cs144_lab_assignment.Common.{
  ℕ, ◌<◌, ◌^◌, ◌≡◌, ap, ◌∙◌, false, List, [], ◌∷◌, some, length, take, length-take, take-take,
  append-nil, arith, min,
}
use cs144_lab_assignment.Buffer.{flatten}
use cs144_lab_assignment.ByteStream.{ByteStream, buffer_size, peek_output}
use cs144_lab_assignment.ByteStream.Valid.{IsValid, contents, peek_output_lem}
use cs144_lab_assignment.FileDescriptor.{FdWrapper, Writev, Written, write}
use cs144_lab_assignment.FileDescriptor.Writing.{write-Wrote, write_once-taken}
use cs144_lab_assignment.SystemCall.{Exception, Result, ok, throws}

-- The most that is written at once.
abbrev pub at_once : ℕ
at_once = 65536

-- What is offered to the kernel.
abbrev pub shown : ByteStream → List ℕ
shown s = peek_output s (min at_once (buffer_size s))

module _ (s : ByteStream) (v : IsValid s) (writev : Writev) (f : FdWrapper) where
  abbrev out : Written
  out = write writev f (shown s ∷ []) false

  shown_lem : shown s ≡ take (min at_once (buffer_size s)) (contents s)
  shown_lem = peek_output_lem (min at_once (buffer_size s)) v

  one_view : flatten (shown s ∷ []) ≡ shown s
  one_view = unfold flatten in append-nil (shown s)

  is_short : length (flatten (shown s ∷ [])) < 2 ^ 63
  is_short =
      let n = length-take (min at_once (buffer_size s)) (contents s) in
      omega (arith, ap length one_view, ap length shown_lem, n)

  pub drain_ends : (r : Result ℕ) × (out.result ≡ some r)
  drain_ends = (write-Wrote writev f (shown s ∷ []) false is_short).ended

  -- A number that is returned is that of the bytes taken, and these are the first bytes of the stream.
  pub drain_taken :
      (n : ℕ)
      → out.result ≡ some (ok n)
      → (out.taken ≡ take n (contents s)) × (length out.taken ≡ n)
  drain_taken n h =
      let w = write-Wrote writev f (shown s ∷ []) false is_short in
      let m : ℕ = min at_once (buffer_size s) in
      let count : length out.taken ≡ n = omega (arith, w.count n h) in
      let first : out.taken ≡ take (min n m) (contents s) =
        w.prefix
        ∙ ap (λ (k : ℕ). take k (flatten (shown s ∷ []))) count
        ∙ ap (take n) (one_view ∙ shown_lem)
        ∙ take-take n m (contents s) in
      let size = length-take (min n m) (contents s) in
      (
        first ∙ ap (λ (k : ℕ). take k (contents s)) (omega (arith, count, ap length first, size)),
        count,
      )

  -- Where `write` throws, nothing has been taken.
  pub drain_threw : (e : Exception) → out.result ≡ some (throws e) → out.taken ≡ []
  drain_threw e h = write_once-taken writev f (shown s ∷ []) e h
