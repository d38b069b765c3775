-- ===== src/FileDescriptor/Reads.antt =====
-- Sequences of calls of `FileDescriptor::read` of libsponge/util/file_descriptor.cc.
use cs144_lab_assignment.Common.{
  ℕ, ◌+◌, ◌<◌, ◌^◌, ◌%◌, ◌≡◌, refl, ap, ap₂, Bool, Bool-cases, ◌⊎◌, inl, inr, true, false, List, [],
  ◌∷◌, ◌++◌, length, leb, ltb, to_nat, if◌then◌else◌, min, arith, ◌&&◌, ◌==◌,
}
use cs144_lab_assignment.FileDescriptor.{
  FdWrapper, ReadReturn, got, read_fails, read, read_size, mark_eof, register_read,
}
use cs144_lab_assignment.FileDescriptor.Reading.{read_length}
use cs144_lab_assignment.SystemCall.{Result, ok, throws}

-- A call: the limit, and what the kernel answers.
abbrev pub Call : Type 0
Call = ℕ × ReadReturn

-- The bytes that a call hands out; an exception hands out none.
abbrev pub handed : Result (List ℕ) → List ℕ
handed (ok bytes) = bytes
handed (throws e) = []

-- The descriptor after all calls in turn, and the bytes that they have returned.
unfoldable pub read_all : FdWrapper → List Call → FdWrapper × List ℕ
read_all f [] = (f, [])
read_all f (c ∷ cs) =
    let (f', result) = read f c.1 c.0 in
    let (last, bytes) = read_all f' cs in (last, handed result ++ bytes)

-- Whether the kernel has given bytes, and no more than the call has asked for.
abbrev pub served : Call → Bool
served (limit, got bytes) = leb (length bytes) (min read_size limit)
served (limit, read_fails errno) = false

abbrev pub answer : Call → List ℕ
answer (limit, got bytes) = bytes
answer (limit, read_fails errno) = []

-- The bytes given in the calls that were served, and their number.
unfoldable pub given : List Call → List ℕ
given [] = []
given (c ∷ cs) = (if served c then answer c else []) ++ given cs

unfoldable pub count_served : List Call → ℕ
count_served [] = 0
count_served (c ∷ cs) = to_nat (served c) + count_served cs

-- Some call has asked for bytes and got none.
abbrev pub GotNone : List Call → Type 0
GotNone [] = ⊥
GotNone (c ∷ cs) = ((0 < c.0) × (c.1 ≡ got [])) ⊎ GotNone cs

-- What calls of `read` have done: the bytes returned, the end of the descriptor, which is known from a
-- call that got nothing, and the number of reads.
pub record HasReadAll (f : FdWrapper) (cs : List Call) (bytes : List ℕ) (f' : FdWrapper)
    : Type 0 where
  pub bytes_given : bytes ≡ given cs
  pub at_end : f'.eof ≡ true → (f.eof ≡ true) ⊎ GotNone cs
  pub end_seen : (f.eof ≡ true) ⊎ GotNone cs → f'.eof ≡ true
  pub counted : f'.read_count ≡ (f.read_count + count_served cs) % 2 ^ 32

-- One call.
record HasReadOne (f : FdWrapper) (c : Call) (o : FdWrapper × Result (List ℕ)) : Type 0 where
  pub bytes_given : handed o.1 ≡ (if served c then answer c else [])
  pub at_end : o.0.eof ≡ true → (f.eof ≡ true) ⊎ ((0 < c.0) × (c.1 ≡ got []))
  pub end_seen : (f.eof ≡ true) ⊎ ((0 < c.0) × (c.1 ≡ got [])) → o.0.eof ≡ true
  pub counted : o.0.read_count ≡ (f.read_count + to_nat (served c)) % 2 ^ 32

length_none : (xs : List ℕ) → length xs ≡ 0 → xs ≡ []
length_none [] e = refl
length_none (x ∷ xs) e = absurd (omega arith)

read-HasReadOne :
    (f : FdWrapper) (c : Call) → f.read_count < 2 ^ 32 → HasReadOne f c (read f c.1 c.0)
unfolding read mark_eof register_read
read-HasReadOne f (limit, read_fails errno) small = record {
  bytes_given = refl;
  at_end = λ e. inl e;
  end_seen = λ h. elim h [ inl e ↦ e | inr (pos, e) ↦ cc ];
  counted = omega arith;
}
read-HasReadOne f (limit, got bytes) small = record {
  bytes_given = ground arith;
  at_end = λ e. elim (Bool-cases (ltb 0 limit && length bytes == 0)) [
    | inl t ↦ inr (ground arith, ap got (length_none bytes (ground arith)))
    | inr n ↦ inl (ground arith)
  ];
  end_seen = λ h. elim h [
    | inl e ↦ ground arith
    | inr (pos, e) ↦ let n = ap read_length e in ground (arith, n)
  ];
  counted = ground arith;
}

-- After any sequence of calls of `read`, of which some may throw, from a descriptor whose counter fits
-- 32 bits: the bytes returned are those that the kernel has given, in order, but for the answers that
-- were longer than a megabyte or the limit; the descriptor is at its end exactly if it was before or
-- some call that has asked for bytes got none; and the counter has grown by the calls that have
-- returned, modulo 2 ^ 32.
pub read_all-HasReadAll :
    (cs : List Call) (f : FdWrapper)
    → f.read_count < 2 ^ 32
    → HasReadAll f cs (read_all f cs).1 (read_all f cs).0
unfolding read_all given count_served
read_all-HasReadAll [] f small = record {
  bytes_given = refl;
  at_end = λ e. inl e;
  end_seen = λ h. elim h [ inl e ↦ e | inr n ↦ elim n [ ] ];
  counted = omega arith;
}
read_all-HasReadAll (c ∷ cs) f small =
    let one = read-HasReadOne f c small in
    let rest = read_all-HasReadAll cs (read f c.1 c.0).0 (omega (arith, one.counted)) in
    record {
      bytes_given = ap₂ (λ (xs ys : List ℕ). xs ++ ys) one.bytes_given rest.bytes_given;
      at_end = λ e. elim (rest.at_end e) [
        | inl before ↦ elim (one.at_end before) [ inl e0 ↦ inl e0 | inr n ↦ inr (inl n) ]
        | inr n ↦ inr (inr n)
      ];
      end_seen = λ h. elim h [
        | inl e ↦ rest.end_seen (inl (one.end_seen (inl e)))
        | inr (inl n) ↦ rest.end_seen (inl (one.end_seen (inr n)))
        | inr (inr n) ↦ rest.end_seen (inr n)
      ];
      counted = omega (arith, rest.counted, one.counted);
    }
