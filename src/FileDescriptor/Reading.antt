-- ===== src/FileDescriptor/Reading.antt =====
-- `FileDescriptor::read` of libsponge/util/file_descriptor.cc.
use cs144_lab_assignment.Common.{
  ℕ, zero, suc, ◌+◌, ◌≤◌, ◌≡◌, ap, subst, true, ◌&&◌, List, length, if_both, ltb, ltb→le, ◌==◌,
  add32, min, arith, ◌⊎◌, inl, inr,
}
use cs144_lab_assignment.FileDescriptor.{
  FdWrapper, ReadReturn, got, read_fails, read, read_size, mark_eof, register_read,
}
use cs144_lab_assignment.SystemCall.{Result, ok}

-- The bytes that the kernel gives in the first calls.
abbrev pub read_length : ReadReturn → ℕ
read_length (got bytes) = length bytes
read_length (read_fails errno) = 0

unfoldable pub offered : (ℕ → ReadReturn) → ℕ → ℕ
offered reads zero = 0
offered reads (suc n) = offered reads n + read_length (reads n)

-- What a call of `read` has done if it has returned bytes: they are what the kernel gave, no more than
-- was asked for and than a megabyte; the descriptor is at its end only if it was before or if none
-- came where some were asked for; and the read is counted.
pub record HasRead (f : FdWrapper) (answer : ReadReturn) (limit : ℕ) (bytes : List ℕ)
    (f' : FdWrapper) : Type 0 where
  pub given : answer ≡ got bytes
  pub asked : length bytes ≤ limit
  pub at_most : length bytes ≤ read_size
  pub ended : f'.eof ≡ true → (f.eof ≡ true) ⊎ ((length bytes ≡ 0) × (1 ≤ limit))
  pub counted : f'.read_count ≡ add32 f.read_count 1
  pub same_writes : f'.write_count ≡ f.write_count

mark_eof_lem :
    (f : FdWrapper) (limit : ℕ) (bytes : List ℕ)
    → (mark_eof f limit bytes).eof ≡ true
    → (f.eof ≡ true) ⊎ ((length bytes ≡ 0) × (1 ≤ limit))
unfolding mark_eof
mark_eof_lem f limit bytes =
    if_both (λ (o : FdWrapper). o.eof ≡ true → (f.eof ≡ true) ⊎ ((length bytes ≡ 0) × (1 ≤ limit)))
      (ltb 0 limit && length bytes == 0) (λ e _. inr (ground arith)) λ _ h. inl h

mark_eof_same :
    (f : FdWrapper) (limit : ℕ) (bytes : List ℕ)
    → ((mark_eof f limit bytes).read_count ≡ f.read_count)
      × ((mark_eof f limit bytes).write_count ≡ f.write_count)
unfolding mark_eof
mark_eof_same f limit bytes = (ground arith, ground arith)

-- A `read` that returns bytes returns what the kernel gave, no more than was asked for and than a
-- megabyte. The descriptor is at its end only if it was before, or if none came where some were asked
-- for, and the read is counted.
pub read-HasRead :
    (f : FdWrapper) (answer : ReadReturn) (limit : ℕ) (bytes : List ℕ)
    → (read f answer limit).1 ≡ ok bytes
    → HasRead f answer limit bytes (read f answer limit).0
unfolding read register_read
read-HasRead f (read_fails errno) limit bytes = λ h. absurd (ground arith)
read-HasRead f (got given) limit bytes =
    if_both
      (λ (o : FdWrapper × Result (List ℕ)). o.1 ≡ ok bytes → HasRead f (got given) limit bytes o.0)
      (ltb (min read_size limit) (length given)) (λ _ h. absurd (ground arith))
      λ e h.
        let le : length given ≤ min read_size limit = ltb→le _ _ e in
        let same : given ≡ bytes = ground arith in
        let (r, w) = mark_eof_same f limit given in
        record {
          given = ap got same;
          asked = omega (arith, ap length same);
          at_most = omega (arith, ap length same);
          ended = λ x.
              subst (λ (bs : List ℕ). (f.eof ≡ true) ⊎ ((length bs ≡ 0) × (1 ≤ limit))) same
                (mark_eof_lem f limit given x);
          counted = omega (arith, r);
          same_writes = w;
        }
